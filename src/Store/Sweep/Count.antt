-- ===== src/Store/Sweep/Count.antt =====
-- The count that the sweep answers, and the sweep as an invariant of the maps.
use hybrid_vector_cache_hnsw.Common.{
  ℕ, ◌+◌, ◌≡◌, refl, true, Option, none, some, List, [], ◌∷◌, arith, length,
}
use hybrid_vector_cache_hnsw.Common.Int.{ℤ}
use hybrid_vector_cache_hnsw.Common.Bytes.{Bytes, same_iff, contains}
use hybrid_vector_cache_hnsw.Common.Dict.{
  Dict, lookup, remove, IsDistinct, lookup-remove, remove-IsDistinct,
}
use hybrid_vector_cache_hnsw.Common.Dict.Sweep.{count_if-add-length-sweep}
use hybrid_vector_cache_hnsw.Store.{Store, VectorNamespace, kv_expired}
use hybrid_vector_cache_hnsw.Store.Sweep.{
  sweep_namespaces, remove_all, sweep_expired_vectors, sweep_expired,
}
use hybrid_vector_cache_hnsw.Store.Sweep.View.{
  total_entries, total-sweep_namespaces, IsWellFormed, lookup-sweep_namespaces,
}

-- The entries of a namespace, if there is one.
abbrev size_of : Option VectorNamespace → ℕ
size_of none = 0
size_of (some ns) = length ns.entries

total-remove :
    (k : Bytes) (m : Dict VectorNamespace)
    → IsDistinct m
    → total_entries (remove k m) + size_of (lookup k m) ≡ total_entries m
unfolding remove lookup
total-remove k [] d = refl
total-remove k ((j, ns) ∷ m) d = ground (arith, same_iff j k, total-remove k m)

total-remove_all :
    (names : List Bytes) (m : Dict VectorNamespace)
    → IsDistinct m
    → ((j : Bytes) → contains names j ≡ true → size_of (lookup j m) ≡ 0)
    → total_entries (remove_all names m) ≡ total_entries m
unfolding remove_all
total-remove_all [] m d h = refl
total-remove_all (k ∷ ks) m d h =
    let first : size_of (lookup k m) ≡ 0 = h k (ground (arith, same_iff k k)) in
    let rest =
      total-remove_all ks (remove k m) (remove-IsDistinct k m d)
        (λ j c. ground (arith, lookup-remove k j m, h j)) in
    omega (arith, rest, total-remove k m d, first)

sweep_namespaces-IsDistinct :
    (now : ℤ) (m : Dict VectorNamespace) → IsDistinct m → IsDistinct (sweep_namespaces now m).2
unfolding sweep_namespaces
sweep_namespaces-IsDistinct now [] d = d
sweep_namespaces-IsDistinct now ((k, ns) ∷ m) d =
    ground (arith, lookup-sweep_namespaces now m k, sweep_namespaces-IsDistinct now m)

size-swept :
    (now : ℤ) (m : Dict VectorNamespace) (j : Bytes)
    → IsDistinct m
    → contains (sweep_namespaces now m).1 j ≡ true
    → size_of (lookup j (sweep_namespaces now m).2) ≡ 0
size-swept now m j d c =
    let both = lookup-sweep_namespaces now m j d in ground (arith, both.0, both.1, c)

-- On a well-formed store SweepExpired answers how many entries, keys and vectors together, it took
-- away.
sweep_expired_counts :
    (now later : ℤ) (s : Store)
    → IsWellFormed s
    → (sweep_expired now later s).0
        + (length (sweep_expired now later s).1.kv
            + total_entries (sweep_expired now later s).1.vectors)
      ≡ length s.kv + total_entries s.vectors
unfolding sweep_expired sweep_expired_vectors
sweep_expired_counts now later s w =
    let names = (sweep_namespaces later s.vectors).1 in
    let m = (sweep_namespaces later s.vectors).2 in
    let gone =
      total-remove_all names m (sweep_namespaces-IsDistinct later s.vectors w.names_distinct)
        (λ j c. size-swept later s.vectors j w.names_distinct c) in
    omega (
      arith,
      gone,
      total-sweep_namespaces later s.vectors,
      count_if-add-length-sweep (kv_expired now) s.kv,
    )
