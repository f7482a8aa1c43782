-- ===== src/Store/Vector.antt =====
-- internal/store/vector.go: the vector namespaces.
pub mod View
pub mod Insert
pub mod Expire
use hybrid_vector_cache_hnsw.Common.{
  ℕ, zero, suc, ◌+◌, ◌*◌, ◌/◌, Bool, true, false, not, ◌&&◌, Option, none, some, List, [], ◌∷◌,
  if◌then◌else◌, length, ◌==◌,
}
use hybrid_vector_cache_hnsw.Common.Int.{ℤ, pos, negsuc, ◌+ℤ◌, ◌-ℤ◌, ltb_ℤ}
use hybrid_vector_cache_hnsw.Common.Bytes.{Bytes}
use hybrid_vector_cache_hnsw.Common.Dict.{Dict, lookup, insert, remove}
use hybrid_vector_cache_hnsw.Common.Dict.Sweep.{count_if, update_all}
use hybrid_vector_cache_hnsw.Store.{
  Store, VectorEntry, VectorNamespace, new_namespace, vector_expired,
}
use hybrid_vector_cache_hnsw.Store.Kv.{whole_seconds}

-- The errors of VSetWithTTL and VMSet, with the numbers that their texts print.
pub data VectorError : Type 0 where
  dimension_mismatch : ℕ → ℕ → VectorError
  entry_mismatch : ℕ → Bytes → ℕ → ℕ → VectorError

pub record BatchEntry : Type 0 where
  pub id : Bytes
  pub vector : List ℕ
  pub metadata : Dict Bytes

-- getOrCreateNamespace: the namespace, and the store with it in place.
unfoldable pub get_or_create_namespace : Bytes → Store → VectorNamespace × Store
get_or_create_namespace name s = elim (lookup name s.vectors) [
  | some ns ↦ (ns, s)
  | none ↦ (new_namespace, record s { vectors = insert name new_namespace s.vectors })
]

-- A write through the pointer to a namespace of the map.
unfoldable pub put_namespace : Bytes → VectorNamespace → Store → Store
put_namespace name ns s = record s { vectors = insert name ns s.vectors }

-- The entry that a VSET stores: an explicit TTL comes before the namespace's, and that before none.
unfoldable pub new_entry : BatchEntry → ℤ → ℤ → VectorNamespace → VectorEntry
new_entry b ttl now ns =
    let plain : VectorEntry = record {
      id = b.id;
      vector = b.vector;
      metadata = b.metadata;
      expires_at = pos 0;
      has_ttl = false;
    } in
    if ltb_ℤ (pos 0) ttl
    then record plain { expires_at = now +ℤ ttl; has_ttl = true }
    else if not (ltb_ℤ ttl (pos 0)) && ns.has_default_ttl
    then record plain { expires_at = now +ℤ ns.default_ttl; has_ttl = true }
    else plain

-- VSetWithTTL: the dimension is tested before the namespace is made.
unfoldable pub vset_with_ttl : Bytes → ℕ → BatchEntry → ℤ → ℤ → Store → Option VectorError × Store
unfolding get_or_create_namespace put_namespace
vset_with_ttl namespace dim b ttl now s =
    if length b.vector == dim
    then (let (ns, s') = get_or_create_namespace namespace s in
        let ns' = record ns { entries = insert b.id (new_entry b ttl now ns) ns.entries } in
        (none, put_namespace namespace ns' s'))
    else (some (dimension_mismatch dim (length b.vector)), s)

-- VSet
unfoldable pub vset : Bytes → ℕ → BatchEntry → ℤ → Store → Option VectorError × Store
unfolding vset_with_ttl
vset namespace dim b now s = vset_with_ttl namespace dim b (pos 0) now s

-- The entry that VMSet stores, with the namespace's TTL if it has one.
unfoldable pub batch_entry : BatchEntry → ℤ → VectorNamespace → VectorEntry
batch_entry b now ns =
    let plain : VectorEntry = record {
      id = b.id;
      vector = b.vector;
      metadata = b.metadata;
      expires_at = pos 0;
      has_ttl = false;
    } in
    if ns.has_default_ttl
    then record plain { expires_at = now +ℤ ns.default_ttl; has_ttl = true }
    else plain

-- The loop of VMSet: the first entry of a wrong length stops it, and what was stored stays stored.
-- The entry at `count` reads `clock count`.
unfoldable pub vmset_loop :
    ℕ → List BatchEntry → (ℕ → ℤ) → ℕ → VectorNamespace → ℕ × Option VectorError × VectorNamespace
unfolding batch_entry
vmset_loop dim [] clock count ns = (count, none, ns)
vmset_loop dim (b ∷ bs) clock count ns =
    let stored = insert b.id (batch_entry b (clock count) ns) ns.entries in
    let rest = vmset_loop dim bs clock (count + 1) (record ns { entries = stored }) in
    let bad = some (entry_mismatch count b.id dim (length b.vector)) in
    if length b.vector == dim then rest else (count, bad, ns)

-- VMSet
unfoldable pub vmset :
    Bytes → ℕ → List BatchEntry → (ℕ → ℤ) → Store → ℕ × Option VectorError × Store
unfolding get_or_create_namespace
vmset namespace dim bs clock s =
    let (ns, s') = get_or_create_namespace namespace s in
    let (count, err, ns') = vmset_loop dim bs clock 0 ns in
    (count, err, put_namespace namespace ns' s')

-- VGet, with the time of its second check; the write lock's region sees the state of the first.
unfoldable pub vget : Bytes → Bytes → ℤ → ℤ → Store → Option VectorEntry × Store
unfolding put_namespace
vget namespace id now later s = elim (lookup namespace s.vectors) [
  | none ↦ (none, s)
  | some ns ↦ elim (lookup id ns.entries) [
    | none ↦ (none, s)
    | some e ↦
        let drop = record ns { entries = remove id ns.entries } in
        if vector_expired now e
        then (none, if vector_expired later e then put_namespace namespace drop s else s)
        else (some e, s)
  ]
]

-- VDel
unfoldable pub vdel : Bytes → Bytes → Store → Bool × Store
unfolding put_namespace
vdel namespace id s = elim (lookup namespace s.vectors) [
  | none ↦ (false, s)
  | some ns ↦ elim (lookup id ns.entries) [
    | none ↦ (false, s)
    | some _ ↦ (true, put_namespace namespace (record ns { entries = remove id ns.entries }) s)
  ]
]

-- VCount
unfoldable pub vcount : Bytes → ℤ → Store → ℕ
unfolding count_if
vcount namespace now s = elim (lookup namespace s.vectors) [
  | none ↦ 0
  | some ns ↦ count_if (λ e. not (vector_expired now e)) ns.entries
]

unfoldable pub live_entries : ℤ → Dict VectorEntry → List VectorEntry
live_entries now [] = []
live_entries now ((_, e) ∷ m) =
    let rest = live_entries now m in if vector_expired now e then rest else e ∷ rest

-- VSnapshot; Go's nil slice is the empty list.
unfoldable pub vsnapshot : Bytes → ℤ → Store → List VectorEntry
unfolding live_entries
vsnapshot namespace now s = elim (lookup namespace s.vectors) [
  | none ↦ []
  | some ns ↦ live_entries now ns.entries
]

-- An entry under a deadline that its namespace now sets.
unfoldable pub set_deadline : ℤ → VectorEntry → VectorEntry
set_deadline at e = if e.has_ttl then e else record e { expires_at = at; has_ttl = true }

-- VExpireNamespace, with its two readings of the clock.
unfoldable pub vexpire_namespace : Bytes → ℤ → ℤ → ℤ → Store → Bool × Store
unfolding set_deadline put_namespace update_all
vexpire_namespace namespace ttl now later s = elim (lookup namespace s.vectors) [
  | none ↦ (false, s)
  | some ns ↦ (
    true,
    put_namespace namespace
        (record {
          entries = update_all (set_deadline (later +ℤ ttl)) ns.entries;
          default_ttl = ttl;
          has_default_ttl = true;
          ttl_set_at = now;
        })
        s,
  )
]

-- VNSDrop
unfoldable pub vns_drop : Bytes → Store → Bool × Store
vns_drop namespace s = elim (lookup namespace s.vectors) [
  | none ↦ (false, s)
  | some _ ↦ (true, record s { vectors = remove namespace s.vectors })
]
