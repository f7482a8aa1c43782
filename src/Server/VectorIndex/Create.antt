-- ===== src/Server/VectorIndex/Create.antt =====
-- VINDEX CREATE builds an index that agrees with the store.
use hybrid_vector_cache_hnsw.Common.{
  ℕ, zero, suc, ◌^◌, ◌≤◌, ◌<◌, ◌≡◌, refl, sym, ap, ◌∙◌, none, some, List, ◌∷◌, map, arith, length,
  Bool-cases, inl, inr, ltb,
}
use hybrid_vector_cache_hnsw.Common.Int.{ℤ}
use hybrid_vector_cache_hnsw.Common.Bytes.{Bytes, bytes, same_refl}
use hybrid_vector_cache_hnsw.Common.Dict.{Dict, lookup, insert, IsDistinct, lookup-insert}
use hybrid_vector_cache_hnsw.Common.Run.{ok, Returns, Returns-bind}
use hybrid_vector_cache_hnsw.Heap.Items.{All}
use hybrid_vector_cache_hnsw.Protocol.Parse.{to_upper}
use hybrid_vector_cache_hnsw.Protocol.Response.{Response, ok_response}
use hybrid_vector_cache_hnsw.Similarity.{Float}
use hybrid_vector_cache_hnsw.Store.{Store, VectorNamespace}
use hybrid_vector_cache_hnsw.Store.Vector.{BatchEntry, live_entries, vsnapshot}
use hybrid_vector_cache_hnsw.Store.Vector.View.{vector_view}
use hybrid_vector_cache_hnsw.Hnsw.{Index, new_index, set_ef}
use hybrid_vector_cache_hnsw.Hnsw.Keys.{IsIndexed}
use hybrid_vector_cache_hnsw.Hnsw.Contents.{stored}
use hybrid_vector_cache_hnsw.Hnsw.Insert.Total.{
  IsGraph, HasDegree, HasDegree-kept, new_index-IsGraph, new_index-IsIndexed,
}
use hybrid_vector_cache_hnsw.Server.Words.{accepted}
use hybrid_vector_cache_hnsw.Server.Vector.Write.{insert_all}
use hybrid_vector_cache_hnsw.Server.VectorIndex.{
  IndexParams, batch_of, create_index, run_create, handle_vindex, read_params, default_params,
}
use hybrid_vector_cache_hnsw.Server.VectorIndex.Filled.{
  Filled, insert_all-Filled, IsKeyed, entry_content, written, written-live_entries,
}

set_ef-IsGraph : (dim ef : ℕ) (idx : Index) → IsGraph dim idx → IsGraph dim (set_ef ef idx)
unfolding set_ef
set_ef-IsGraph dim ef idx g = elim (Bool-cases (ltb ef 1)) [
  | inl small ↦ rw small g
  | inr large ↦ rw large (record {
    dims = g.dims;
    linked = g.linked;
    wide = g.wide;
    width = ground (arith, large);
    entry = g.entry;
  })
]

set_ef-IsIndexed : (ef : ℕ) (idx : Index) → IsIndexed idx → IsIndexed (set_ef ef idx)
unfolding set_ef
set_ef-IsIndexed ef idx v = elim (Bool-cases (ltb ef 1)) [
  | inl small ↦ rw small v
  | inr large ↦ rw large v
]

stored-set_ef_new : (ef m efc : ℕ) (k : Bytes) → stored (set_ef ef (new_index m efc)) k ≡ none
unfolding set_ef new_index lookup
stored-set_ef_new ef m efc k = ground arith

length-set_ef_new : (ef m efc : ℕ) → length (set_ef ef (new_index m efc)).nodes ≡ 0
unfolding set_ef new_index
length-set_ef_new ef m efc = ground arith

new_index-HasDegree : (m efc : ℕ) → 1 < m → m ≤ 2 ^ 45 → HasDegree (new_index m efc)
unfolding new_index
new_index-HasDegree zero efc h k = absurd (omega (arith, h))
new_index-HasDegree (suc m) efc h k = (h, k)

m-set_ef : (ef : ℕ) (idx : Index) → (set_ef ef idx).m ≡ idx.m
unfolding set_ef
m-set_ef ef idx = ground arith

set_ef_new-HasDegree : (ef m efc : ℕ) → 1 < m → m ≤ 2 ^ 45 → HasDegree (set_ef ef (new_index m efc))
set_ef_new-HasDegree ef m efc h k =
    HasDegree-kept (new_index m efc) (set_ef ef (new_index m efc)) (m-set_ef ef (new_index m efc))
      (new_index-HasDegree m efc h k)

-- An index that holds what the clients of the store see.
pub record Agrees (dim : ℕ) (now : ℤ) (s : Store) (namespace : Bytes) (idx : Index) : Type 0 where
  pub graph : IsGraph dim idx
  pub indexed : IsIndexed idx
  pub contents : (k : Bytes) → stored idx k ≡ entry_content (vector_view now s namespace k)

abbrev pub Created : ℕ → ℤ → Store → Bytes → Response × Store × Dict Index → Type 0
Created dim now s namespace (r, s', indexes) =
    (r ≡ ok_response)
    × (s' ≡ s)
    × ((idx : Index) × (lookup namespace indexes ≡ some idx)
        × HasDegree idx
        × Agrees dim now s namespace idx)

module _ (f : Float) (draw : ℕ → ℕ) (dim : ℕ) (namespace : Bytes) (now : ℤ) (s : Store)
    (ns : VectorNamespace) (here : lookup namespace s.vectors ≡ some ns)
    (keyed : IsKeyed ns.entries) (distinct : IsDistinct ns.entries) where
  snapshot_here : vsnapshot namespace now s ≡ live_entries now ns.entries
  unfolding vsnapshot
  snapshot_here = rw (here, vsnapshot) refl

  view_here :
      (k : Bytes)
      → entry_content (vector_view now s namespace k)
        ≡ written k (map batch_of (vsnapshot namespace now s)) none
  unfolding vector_view
  view_here k =
      rw (here, snapshot_here) (sym (written-live_entries now k ns.entries keyed distinct))

  create_index-Created :
      (p : IndexParams) (indexes : Dict Index)
      → All (λ (b : BatchEntry). length b.vector ≡ dim) (map batch_of (vsnapshot namespace now s))
      → length (map batch_of (vsnapshot namespace now s)) ≤ 2 ^ 32
      → 1 < p.m
      → p.m ≤ 2 ^ 45
      → Returns (Created dim now s namespace) (create_index f draw p namespace now s indexes)
  unfolding create_index
  create_index-Created p indexes dims room several few =
      let idx = set_ef p.ef_search (new_index p.m p.ef_construction) in
      let bs = map batch_of (vsnapshot namespace now s) in
      Returns-bind (Filled dim bs idx) (Created dim now s namespace) (insert_all f draw 0 bs idx)
        (λ idx'. ok (ok_response, s, insert namespace idx' indexes))
        (insert_all-Filled f draw dim 0 bs idx dims
          (omega (arith, room, length-set_ef_new p.ef_search p.m p.ef_construction))
          (set_ef-IsGraph dim p.ef_search (new_index p.m p.ef_construction)
            (new_index-IsGraph dim p.m p.ef_construction))
          (set_ef-IsIndexed p.ef_search (new_index p.m p.ef_construction)
            (new_index-IsIndexed p.m p.ef_construction))
          (set_ef_new-HasDegree p.ef_search p.m p.ef_construction several few))
        (λ idx' w. (
          refl,
          refl,
          (
            idx',
            lookup-insert namespace namespace idx' indexes ∙ rw (same_refl namespace) refl,
            HasDegree-kept idx idx' w.degree
                (set_ef_new-HasDegree p.ef_search p.m p.ef_construction several few),
            record {
              graph = w.graph;
              indexed = w.indexed;
              contents = λ k.
                  w.contents k
                  ∙ ap (written k bs) (stored-set_ef_new p.ef_search p.m p.ef_construction k)
                  ∙ sym (view_here k);
            },
          ),
        ))

run_create-free :
    (f : Float) (draw : ℕ → ℕ) (p : IndexParams) (namespace : Bytes) (now : ℤ) (s : Store)
    (indexes : Dict Index)
    → lookup namespace indexes ≡ none
    → run_create f draw (accepted p) namespace now (s, indexes)
      ≡ create_index f draw p namespace now s indexes
run_create-free f draw p namespace now s indexes e = rw (e, run_create) refl

-- VINDEX CREATE, with parameters that it can read, on a namespace without an index whose live vectors
-- have one length answers OK, changes nothing in the store, and puts a sound index in place, which
-- holds exactly the vectors and the metadata that a client of the store sees. Each entry stands under
-- its own id, no id stands twice, at most 2^32 entries are live, and M is at least 2 and at most 2^45.
pub vindex_create_agrees :
    (f : Float) (draw : ℕ → ℕ) (dim : ℕ) (sub namespace : Bytes) (args : List Bytes)
    (p : IndexParams) (now : ℤ) (s : Store) (indexes : Dict Index) (ns : VectorNamespace)
    → to_upper sub ≡ bytes "CREATE"
    → read_params args default_params ≡ accepted p
    → lookup namespace indexes ≡ none
    → lookup namespace s.vectors ≡ some ns
    → IsKeyed ns.entries
    → IsDistinct ns.entries
    → All (λ (b : BatchEntry). length b.vector ≡ dim) (map batch_of (vsnapshot namespace now s))
    → length (map batch_of (vsnapshot namespace now s)) ≤ 2 ^ 32
    → 1 < p.m
    → p.m ≤ 2 ^ 45
    → Returns
        (Created dim now s namespace)
        (handle_vindex f draw (sub ∷ namespace ∷ args) now (s, indexes))
unfolding handle_vindex
vindex_create_agrees f draw dim sub namespace args p now s indexes ns is_create good free here keyed
      distinct dims room several few =
    rw
      (
        is_create,
        good,
        same_refl (bytes "CREATE"),
        run_create-free f draw p namespace now s indexes free,
      )
      (create_index-Created f draw dim namespace now s ns here keyed distinct p indexes dims room
        several few)
