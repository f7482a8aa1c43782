-- ===== src/Store/Sweep.antt =====
-- internal/store/store.go: SweepExpired, which the server calls every 100 ms.
pub mod View
pub mod Count
use hybrid_vector_cache_hnsw.Common.{ℕ, ◌+◌, List, [], ◌∷◌, Bool, if◌then◌else◌, length, ◌==◌}
use hybrid_vector_cache_hnsw.Common.Int.{ℤ}
use hybrid_vector_cache_hnsw.Common.Bytes.{Bytes}
use hybrid_vector_cache_hnsw.Common.Dict.{Dict, remove}
use hybrid_vector_cache_hnsw.Common.Dict.Sweep.{sweep, count_if}
use hybrid_vector_cache_hnsw.Store.{Store, VectorNamespace, kv_expired, vector_expired}

-- The loop over the namespaces: each loses its expired entries; the names of the empty ones are
-- collected. The result is the count, those names, and the namespaces.
unfoldable pub sweep_namespaces : ℤ → Dict VectorNamespace → ℕ × List Bytes × Dict VectorNamespace
unfolding sweep count_if
sweep_namespaces now [] = (0, [], [])
sweep_namespaces now ((name, ns) ∷ m) =
    let (count, empties, m') = sweep_namespaces now m in
    let left = sweep (vector_expired now) ns.entries in
    let empties' = if length left == 0 then name ∷ empties else empties in
    (
      count_if (vector_expired now) ns.entries + count,
      empties',
      (name, record ns { entries = left }) ∷ m',
    )

unfoldable pub remove_all : List Bytes → Dict VectorNamespace → Dict VectorNamespace
unfolding remove
remove_all [] m = m
remove_all (name ∷ names) m = remove_all names (remove name m)

-- sweepExpiredVectorsLocked, and so SweepExpiredVectors
unfoldable pub sweep_expired_vectors : ℤ → Store → ℕ × Store
unfolding sweep_namespaces remove_all
sweep_expired_vectors now s =
    let (count, empties, m) = sweep_namespaces now s.vectors in
    (count, record s { vectors = remove_all empties m })

-- SweepExpired: the keys at one time, the vectors at a later one.
unfoldable pub sweep_expired : ℤ → ℤ → Store → ℕ × Store
unfolding sweep_expired_vectors sweep count_if
sweep_expired now later s =
    let left = sweep (kv_expired now) s.kv in
    let (count, s') = sweep_expired_vectors later (record s { kv = left }) in
    (count_if (kv_expired now) s.kv + count, s')
