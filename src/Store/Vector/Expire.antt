-- ===== src/Store/Vector/Expire.antt =====
-- VEXPIRE: the deadline of a whole namespace, now and for the entries to come.
use hybrid_vector_cache_hnsw.Common.{
  ◌≡◌, refl, true, not, Option, none, some, arith, if◌then◌else◌, inl, inr, Option-cases,
}
use hybrid_vector_cache_hnsw.Common.Int.{ℤ, ltb_ℤ, ◌+ℤ◌}
use hybrid_vector_cache_hnsw.Common.Bytes.{Bytes, same, same_iff}
use hybrid_vector_cache_hnsw.Common.Dict.{lookup, lookup-insert}
use hybrid_vector_cache_hnsw.Common.Dict.Sweep.{keep_if, map_option, update_all, lookup-update_all}
use hybrid_vector_cache_hnsw.Store.{Store, VectorEntry, VectorNamespace, vector_expired}
use hybrid_vector_cache_hnsw.Store.Vector.{vexpire_namespace, set_deadline}
use hybrid_vector_cache_hnsw.Store.Vector.View.{vector_view, find_entry}

-- The entries after a VEXPIRE: only those without a deadline get the new one.
find_entry-vexpire_namespace :
    (namespace n j : Bytes) (ttl now later : ℤ) (s : Store)
    → find_entry (lookup n (vexpire_namespace namespace ttl now later s).1.vectors) j ≡ (
        if same namespace n
        then map_option (set_deadline (later +ℤ ttl)) (find_entry (lookup n s.vectors) j)
        else find_entry (lookup n s.vectors) j)
unfolding vexpire_namespace
find_entry-vexpire_namespace namespace n j ttl now later s =
    elim (Option-cases (lookup namespace s.vectors)) [
      | inl e ↦ ground (arith, same_iff namespace n)
      | inr (ns, e) ↦
          let ns' : VectorNamespace = record {
            entries = update_all (set_deadline (later +ℤ ttl)) ns.entries;
            default_ttl = ttl;
            has_default_ttl = true;
            ttl_set_at = now;
          } in
          ground (
            arith,
            lookup-insert namespace n ns' s.vectors,
            same_iff namespace n,
            lookup-update_all (set_deadline (later +ℤ ttl)) j ns.entries,
          )
    ]

bounded :
    (at t : ℤ) (o : Option VectorEntry)
    → keep_if (λ e. not (vector_expired t e)) (map_option (set_deadline at) o) ≡ elim o [
      | none ↦ none
      | some e ↦
          if e.has_ttl
          then keep_if (λ e. not (vector_expired t e)) (some e)
          else if ltb_ℤ at t
          then none
          else some (record e { expires_at = at; has_ttl = true })
    ]
unfolding set_deadline
bounded at t none = refl
bounded at t (some e) = ground arith

-- VEXPIRE gives the entries of its namespace that had no deadline the new one, and is seen by no
-- other entry: one that had a deadline keeps it, and the other namespaces stay as they are.
pub vector_view-vexpire_namespace :
    (namespace n j : Bytes) (ttl now later t : ℤ) (s : Store)
    → vector_view t (vexpire_namespace namespace ttl now later s).1 n j ≡ (
        if same namespace n
        then elim (find_entry (lookup n s.vectors) j) [
          | none ↦ none
          | some e ↦
              if e.has_ttl
              then keep_if (λ e. not (vector_expired t e)) (some e)
              else if ltb_ℤ (later +ℤ ttl) t
              then none
              else some (record e { expires_at = later +ℤ ttl; has_ttl = true })
        ]
        else vector_view t s n j)
unfolding vector_view
vector_view-vexpire_namespace namespace n j ttl now later t s = ground (
  arith,
  find_entry-vexpire_namespace namespace n j ttl now later s,
  bounded (later +ℤ ttl) t (find_entry (lookup n s.vectors) j),
)
