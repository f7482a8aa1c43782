-- ===== src/Store/Kv/Updates.antt =====
-- What the writing operations of the key-value half do to a client's view.
use hybrid_vector_cache_hnsw.Common.{
  ◌<◌, ◌^◌, ℕ, ◌+◌, ◌*◌, ◌≡◌, refl, true, false, ◌&&◌, inl, inr, Option-cases, none, some, List, [],
  ◌∷◌, arith, if◌then◌else◌, length,
}
use hybrid_vector_cache_hnsw.Common.Int.{ℤ, pos, negsuc, ◌+ℤ◌, ltb_ℤ, ◌≤ℤ◌, +ℤ_parts, -ℤ_parts}
use hybrid_vector_cache_hnsw.Common.Bytes.{Bytes, same, same_iff, contains}
use hybrid_vector_cache_hnsw.Common.Dict.{
  Dict, lookup, remove, IsDistinct, lookup-remove, lookup-insert, remove-IsDistinct,
}
use hybrid_vector_cache_hnsw.Common.Dict.Sweep.{length-remove}
use hybrid_vector_cache_hnsw.Store.{Store, KvEntry}
use hybrid_vector_cache_hnsw.Store.Kv.{set, set_with_ttl, del_loop, del, expire, ttl}
use hybrid_vector_cache_hnsw.Store.Kv.View.{view, value_of}

-- After Set, at every time, the key has the value with no deadline, and no other key has changed.
pub view-set :
    (key value j : Bytes) (t : ℤ) (s : Store)
    → view t (set key value s) j ≡ (
        if same key j
        then some (record { value = value; expires_at = pos 0; has_ttl = false })
        else view t s j)
unfolding view set
view-set key value j t s = ground (
  arith,
  lookup-insert key j (record { value = value; expires_at = pos 0; has_ttl = false }) s.kv,
)

-- After SetWithTTL the key has the value up to the deadline and nothing after it, and no other key
-- has changed.
pub view-set_with_ttl :
    (key value j : Bytes) (life now t : ℤ) (s : Store)
    → value_of (view t (set_with_ttl key value life now s) j) ≡ (
        if same key j
        then (if ltb_ℤ (now +ℤ life) t then none else some value)
        else value_of (view t s j))
unfolding view set_with_ttl
view-set_with_ttl key value j life now t s =
    let e : KvEntry = record { value = value; expires_at = now +ℤ life; has_ttl = true } in
    ground (arith, lookup-insert key j e s.kv)

lookup-del_loop :
    (keys : List Bytes) (m : Dict KvEntry) (n : ℕ) (j : Bytes)
    → lookup j (del_loop keys m n).1 ≡ (if contains keys j then none else lookup j m)
unfolding del_loop
lookup-del_loop [] m n j = refl
lookup-del_loop (k ∷ ks) m n j = ground (
  arith,
  lookup-del_loop ks m n j,
  lookup-del_loop ks (remove k m) (n + 1) j,
  lookup-remove k j m,
  same_iff k j,
)

length-del_loop :
    (keys : List Bytes) (m : Dict KvEntry) (n : ℕ)
    → IsDistinct m
    → (del_loop keys m n).0 + length (del_loop keys m n).1 ≡ n + length m
unfolding del_loop
length-del_loop [] m n d = refl
length-del_loop (k ∷ ks) m n d = ground (
  arith,
  length-del_loop ks m n,
  length-del_loop ks (remove k m) (n + 1),
  length-remove k m,
  remove-IsDistinct k m,
)

-- In a map with each key once, Del takes away the named keys and no other, whatever the time, and
-- counts the entries that it took away.
del_removes :
    (keys : List Bytes) (s : Store) (j : Bytes) (t : ℤ)
    → IsDistinct s.kv
    → (view t (del keys s).1 j ≡ (if contains keys j then none else view t s j))
      × ((del keys s).0 + length (del keys s).1.kv ≡ length s.kv)
unfolding view del
del_removes keys s j t d =
    (ground (arith, lookup-del_loop keys s.kv 0 j), omega (arith, length-del_loop keys s.kv 0 d))

-- Expire succeeds exactly on a live key, whose entry then ends at the new deadline.
-- On any other key it changes nothing, and it changes no other key's entry.
expire_moves_deadline :
    (key j : Bytes) (life now later t : ℤ) (s : Store)
    → (value_of (view t (expire key life now later s).1 j) ≡ (
        if (expire key life now later s).0 && same key j
        then (if ltb_ℤ (later +ℤ life) t then none else value_of (view now s j))
        else value_of (view t s j)))
      × ((expire key life now later s).0 ≡ elim (view now s key) [ none ↦ false | some _ ↦ true ])
unfolding view expire
expire_moves_deadline key j life now later t s = elim (Option-cases (lookup key s.kv)) [
  | inl e ↦ rw e (ground arith)
  | inr (x, e) ↦
      let y : KvEntry = record x { expires_at = later +ℤ life; has_ttl = true } in
      rw e (ground (arith, lookup-insert key j y s.kv, same_iff key j))
]

-- A key whose TTL is n seconds keeps its entry for those n seconds. Below 2^24 seconds the float64 of
-- Seconds() is cut to the whole seconds that are left.
pub ttl_live :
    (key : Bytes) (now later t : ℤ) (n : ℕ) (s : Store)
    → ttl key now later s ≡ pos n
    → n < 2 ^ 24
    → ◌≤ℤ◌ t (later +ℤ pos (n * 1000000000))
    → view t s key ≡ view now s key
unfolding view ttl
ttl_live key now later t n s h small o = elim (Option-cases (lookup key s.kv)) [
  | inl e ↦ rw e
  | inr (x, e) ↦
      rw e
        (ground (arith, e, h, +ℤ_parts later (pos (n * 1000000000)), -ℤ_parts x.expires_at later))
]

-- A key whose TTL is n seconds is gone once n + 1 seconds are over.
ttl_gone :
    (key : Bytes) (now later t : ℤ) (n : ℕ) (s : Store)
    → ttl key now later s ≡ pos n
    → ◌≤ℤ◌ (later +ℤ pos ((n + 1) * 1000000000)) t
    → view t s key ≡ none
unfolding view ttl
ttl_gone key now later t n s h o = elim (Option-cases (lookup key s.kv)) [
  | inl e ↦ rw e
  | inr (x, e) ↦ rw e (
      ground
        (arith, e, h, +ℤ_parts later (pos ((n + 1) * 1000000000)), -ℤ_parts x.expires_at later))
]

-- A key with the TTL -1 keeps its entry for ever.
ttl_forever :
    (key : Bytes) (now later t : ℤ) (s : Store)
    → ttl key now later s ≡ negsuc 0
    → view t s key ≡ view now s key
unfolding view ttl
ttl_forever key now later t s h = elim (Option-cases (lookup key s.kv)) [
  | inl e ↦ rw e
  | inr (x, e) ↦ rw e (ground (arith, -ℤ_parts x.expires_at later))
]
