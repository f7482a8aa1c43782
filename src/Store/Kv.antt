-- ===== src/Store/Kv.antt =====
-- internal/store/store.go: the key-value operations.
pub mod View
pub mod Updates
use hybrid_vector_cache_hnsw.Common.{
  ℕ, ◌+◌, ◌/◌, Bool, true, false, not, Option, none, some, List, [], ◌∷◌, if◌then◌else◌,
}
use hybrid_vector_cache_hnsw.Common.Int.{ℤ, pos, negsuc, ◌+ℤ◌, ◌-ℤ◌, ltb_ℤ}
use hybrid_vector_cache_hnsw.Common.Bytes.{Bytes}
use hybrid_vector_cache_hnsw.Common.Dict.{Dict, lookup, insert, remove}
use hybrid_vector_cache_hnsw.Common.Dict.Sweep.{count_if}
use hybrid_vector_cache_hnsw.Store.{Store, KvEntry, kv_expired}

-- Set
unfoldable pub set : Bytes → Bytes → Store → Store
set key value s = record s {
  kv = insert key (record { value = value; expires_at = pos 0; has_ttl = false }) s.kv;
}

-- SetWithTTL
unfoldable pub set_with_ttl : Bytes → Bytes → ℤ → ℤ → Store → Store
set_with_ttl key value ttl now s = record s {
  kv = insert key (record { value = value; expires_at = now +ℤ ttl; has_ttl = true }) s.kv;
}

-- The region of Get under the read lock: no entry, an expired one, or the value.
pub data GetRead : Type 0 where
  missing expired : GetRead
  hit : Bytes → GetRead

unfoldable pub get_read : Bytes → ℤ → Store → GetRead
get_read key now s = elim (lookup key s.kv) [
  | none ↦ missing
  | some e ↦ if kv_expired now e then expired else hit e.value
]

-- The region of Get under the write lock, in whatever state the store has by then.
unfoldable pub get_upgrade : Bytes → ℤ → Store → Store
get_upgrade key now s = elim (lookup key s.kv) [
  | none ↦ s
  | some e ↦ if kv_expired now e then record s { kv = remove key s.kv } else s
]

-- Get when nothing happens between the two regions; `later` is the time of the second check.
unfoldable pub get : Bytes → ℤ → ℤ → Store → Option Bytes × Store
unfolding get_read get_upgrade
get key now later s = elim (get_read key now s) [
  | missing ↦ (none, s)
  | expired ↦ (none, get_upgrade key later s)
  | hit v ↦ (some v, s)
]

-- The loop of Del, with its count.
unfoldable pub del_loop : List Bytes → Dict KvEntry → ℕ → ℕ × Dict KvEntry
del_loop [] m count = (count, m)
del_loop (key ∷ keys) m count = elim (lookup key m) [
  | none ↦ del_loop keys m count
  | some _ ↦ del_loop keys (remove key m) (count + 1)
]

-- Del
unfoldable pub del : List Bytes → Store → ℕ × Store
unfolding del_loop
del keys s = let (count, m) = del_loop keys s.kv 0 in (count, record s { kv = m })

-- Expire: the test and the new deadline read the clock one after the other.
unfoldable pub expire : Bytes → ℤ → ℤ → ℤ → Store → Bool × Store
expire key ttl now later s = elim (lookup key s.kv) [
  | none ↦ (false, s)
  | some e ↦ if kv_expired now e then (false, s) else (
    true,
    record s { kv = insert key (record e { expires_at = later +ℤ ttl; has_ttl = true }) s.kv },
  )
]

-- int(d.Seconds()) of a positive duration.
-- int(d.Seconds()) of a remaining time below 2^24 seconds, above which the float64 may round up; a
-- negative one is not cut.
abbrev pub whole_seconds : ℤ → ℤ
whole_seconds (pos n) = pos (n / 1000000000)
whole_seconds (negsuc n) = negsuc n

-- TTL
unfoldable pub ttl : Bytes → ℤ → ℤ → Store → ℤ
ttl key now later s = elim (lookup key s.kv) [
  | none ↦ negsuc 1
  | some e ↦
      if kv_expired now e
      then negsuc 1
      else if not e.has_ttl
      then negsuc 0
      else let remaining = e.expires_at -ℤ later in
        if ltb_ℤ (pos 0) remaining then whole_seconds remaining else negsuc 1
]

-- KVCount
unfoldable pub kv_count : ℤ → Store → ℕ
unfolding count_if
kv_count now s = count_if (λ e. not (kv_expired now e)) s.kv
