-- ===== src/Store/Kv/View.antt =====
-- What a client of the key-value half sees at a time, and the operations that leave it alone.
use hybrid_vector_cache_hnsw.Common.{◌≡◌, not, Option, none, some, arith}
use hybrid_vector_cache_hnsw.Common.Int.{ℤ, ◌≤ℤ◌}
use hybrid_vector_cache_hnsw.Common.Bytes.{Bytes, same_iff}
use hybrid_vector_cache_hnsw.Common.Dict.{lookup, lookup-remove}
use hybrid_vector_cache_hnsw.Common.Dict.Sweep.{keep_if}
use hybrid_vector_cache_hnsw.Store.{Store, KvEntry, kv_expired}
use hybrid_vector_cache_hnsw.Store.Kv.{get_read, get_upgrade, get}

-- The live entry of a key.
unfoldable pub view : ℤ → Store → Bytes → Option KvEntry
view now s key = keep_if (λ e. not (kv_expired now e)) (lookup key s.kv)

abbrev pub value_of : Option KvEntry → Option Bytes
value_of none = none
value_of (some e) = some e.value

-- Get returns the value of the live entry, and a miss for a key with none.
pub get-eq-view :
    (key : Bytes) (now later : ℤ) (s : Store) → (get key now later s).0 ≡ value_of (view now s key)
unfolding get view
get-eq-view key now later s = ground arith

-- The second check of Get, run in any state that other clients may have left, changes no key's live
-- entry at its time or after it.
pub view-get_upgrade :
    (key j : Bytes) (later t : ℤ) (s : Store)
    → ◌≤ℤ◌ later t
    → view t (get_upgrade key later s) j ≡ view t s j
unfolding get_upgrade view
view-get_upgrade key j later t s h = ground (arith, lookup-remove key j s.kv, same_iff key j)

-- Get changes no key's live entry at the time of its second check or after it.
view-get :
    (key j : Bytes) (now later t : ℤ) (s : Store)
    → ◌≤ℤ◌ later t
    → view t (get key now later s).1 j ≡ view t s j
unfolding get get_read
view-get key j now later t s h = ground (arith, view-get_upgrade key j later t s)
