-- ===== src/Store/Listing.antt =====
-- internal/store/vector.go: the summaries over all namespaces, for VNS LIST and INFO.
use hybrid_vector_cache_hnsw.Common.{
  ℕ, ◌+◌, ◌*◌, Bool, not, List, [], ◌∷◌, map, if◌then◌else◌, length,
}
use hybrid_vector_cache_hnsw.Common.Int.{ℤ, pos, negsuc, ◌-ℤ◌, ltb_ℤ}
use hybrid_vector_cache_hnsw.Common.Bytes.{Bytes}
use hybrid_vector_cache_hnsw.Common.Dict.{Dict}
use hybrid_vector_cache_hnsw.Common.Dict.Sweep.{count_if}
use hybrid_vector_cache_hnsw.Store.{Store, VectorEntry, VectorNamespace, vector_expired}
use hybrid_vector_cache_hnsw.Store.Kv.{whole_seconds}

pub record NamespaceInfo : Type 0 where
  pub name : Bytes
  pub vector_count : ℕ
  pub approx_memory : ℕ
  pub has_ttl : Bool
  pub ttl_remaining : ℤ

metadata_bytes : Dict Bytes → ℕ
metadata_bytes [] = 0
metadata_bytes ((k, v) ∷ m) = length k + length v + metadata_bytes m

unfoldable pub live_memory : ℤ → Dict VectorEntry → ℕ
unfolding metadata_bytes
live_memory now [] = 0
live_memory now ((_, e) ∷ m) =
    let rest = live_memory now m in
    if vector_expired now e
    then rest
    else length e.vector * 4 + 64 + metadata_bytes e.metadata + rest

-- The seconds until a namespace's TTL has run since it was set.
unfoldable pub remaining_seconds : ℤ → VectorNamespace → ℤ
remaining_seconds now ns =
    let remaining = ns.default_ttl -ℤ (now -ℤ ns.ttl_set_at) in
    if ns.has_default_ttl
    then (if ltb_ℤ (pos 0) remaining then whole_seconds remaining else pos 0)
    else negsuc 0

-- The body of the loop of VNSList.
unfoldable pub namespace_info : ℤ → Bytes × VectorNamespace → NamespaceInfo
unfolding count_if live_memory remaining_seconds
namespace_info now (name, ns) = record {
  name = name;
  vector_count = count_if (λ e. not (vector_expired now e)) ns.entries;
  approx_memory = live_memory now ns.entries;
  has_ttl = ns.has_default_ttl;
  ttl_remaining = remaining_seconds now ns;
}

-- VNSList
unfoldable pub vns_list : ℤ → Store → List NamespaceInfo
unfolding namespace_info
vns_list now s = map (namespace_info now) s.vectors

-- VectorNamespaces
unfoldable pub vector_namespaces : Store → List Bytes
vector_namespaces s = map (λ (p : Bytes × VectorNamespace). p.0) s.vectors

live_total : ℤ → Dict VectorNamespace → ℕ
unfolding count_if
live_total now [] = 0
live_total now ((_, ns) ∷ m) =
    count_if (λ e. not (vector_expired now e)) ns.entries + live_total now m

-- TotalVectors
unfoldable pub total_vectors : ℤ → Store → ℕ
unfolding live_total
total_vectors now s = live_total now s.vectors

sum_counts : List NamespaceInfo → ℕ
sum_counts [] = 0
sum_counts (i ∷ is) = i.vector_count + sum_counts is
