-- ===== src/Server/VectorIndex/Kept.antt =====
-- VSET keeps the index in agreement with the store.
use hybrid_vector_cache_hnsw.Common.{
  ℕ, ◌^◌, ◌<◌, ◌≡◌, refl, sym, ◌∙◌, false, not, some, List, [], ◌∷◌, arith, length, Bool-cases, inl,
  inr,
}
use hybrid_vector_cache_hnsw.Common.Int.{ℤ}
use hybrid_vector_cache_hnsw.Common.Bytes.{Bytes, same, same_refl}
use hybrid_vector_cache_hnsw.Common.Dict.{Dict, lookup, insert, lookup-insert}
use hybrid_vector_cache_hnsw.Common.Dict.Sweep.{keep_if}
use hybrid_vector_cache_hnsw.Common.Run.{ok, Returns, Returns-bind}
use hybrid_vector_cache_hnsw.Protocol.Response.{Response, ok_response}
use hybrid_vector_cache_hnsw.Similarity.{Float}
use hybrid_vector_cache_hnsw.Store.{Store, VectorNamespace, vector_expired}
use hybrid_vector_cache_hnsw.Store.Vector.{BatchEntry, new_entry, vset_with_ttl}
use hybrid_vector_cache_hnsw.Store.Vector.View.{vector_view}
use hybrid_vector_cache_hnsw.Store.Vector.Insert.{or_new, vector_view-new_entry}
use hybrid_vector_cache_hnsw.Hnsw.{Index}
use hybrid_vector_cache_hnsw.Hnsw.Contents.{stored}
use hybrid_vector_cache_hnsw.Hnsw.Insert.Total.{HasDegree, HasDegree-kept}
use hybrid_vector_cache_hnsw.Server.Words.{Numerals, accepted}
use hybrid_vector_cache_hnsw.Server.Vector.Set.{VsetRequest, read_vset}
use hybrid_vector_cache_hnsw.Server.Vector.Write.{insert_all, insert_into, run_vset, handle_vset}
use hybrid_vector_cache_hnsw.Server.VectorIndex.Filled.{
  Filled, insert_all-Filled, entry_content, written,
}
use hybrid_vector_cache_hnsw.Server.VectorIndex.Create.{Agrees}

-- An answer behind which the index of the namespace agrees with the store, with no other index changed.
abbrev pub Kept : ℕ → ℤ → Bytes → Dict Index → Response × Store × Dict Index → Type 0
Kept dim now namespace indexes (r, s', indexes') =
    (r ≡ ok_response)
    × ((n : Bytes) → same namespace n ≡ false → lookup n indexes' ≡ lookup n indexes)
    × ((idx : Index) × (lookup namespace indexes' ≡ some idx)
        × HasDegree idx
        × Agrees dim now s' namespace idx)

entry_content-new :
    (b : BatchEntry) (ttl now : ℤ) (ns : VectorNamespace)
    → vector_expired now (new_entry b ttl now ns) ≡ false
    → entry_content (keep_if (λ e. not (vector_expired now e)) (some (new_entry b ttl now ns)))
      ≡ some (b.vector, b.metadata)
entry_content-new b ttl now ns live = rw live (unfold new_entry in ground arith)

module _ (f : Float) (draw : ℕ → ℕ) (dim : ℕ) (q : VsetRequest) (now : ℤ) (s : Store)
    (indexes : Dict Index) (idx : Index) (declared : q.dim ≡ dim)
    (size : length q.entry.vector ≡ dim)
    (live : vector_expired now (new_entry q.entry q.ttl now (or_new (lookup q.namespace s.vectors)))
      ≡ false)
    (here : lookup q.namespace indexes ≡ some idx) (room : length idx.nodes < 2 ^ 32)
    (several : HasDegree idx) (agrees : Agrees dim now s q.namespace idx) where
  abbrev behind : Store
  behind = (vset_with_ttl q.namespace q.dim q.entry q.ttl now s).1

  abbrev Good : Response × Store × Dict Index → Type 0
  Good = Kept dim now q.namespace indexes

  view_behind :
      (k : Bytes)
      → written k (q.entry ∷ []) (stored idx k)
        ≡ entry_content (vector_view now behind q.namespace k)
  view_behind k =
      let stored_view =
        (vector_view-new_entry q.namespace q.namespace k q.dim q.entry q.ttl now now s
          (size ∙ sym declared)).1 in
      elim (Bool-cases (same q.entry.id k)) [
        | inl e ↦
            rw (e, stored_view, same_refl q.namespace, e)
              (sym
                (entry_content-new q.entry q.ttl now (or_new (lookup q.namespace s.vectors)) live))
        | inr e ↦ rw (e, stored_view, same_refl q.namespace, e) (agrees.contents k)
      ]

  Agrees-behind :
      (idx' : Index) → Filled dim (q.entry ∷ []) idx idx' → Agrees dim now behind q.namespace idx'
  Agrees-behind idx' w = record {
    graph = w.graph;
    indexed = w.indexed;
    contents = λ k. w.contents k ∙ view_behind k;
  }

  insert_into-Kept :
      Returns
        (λ (indexes' : Dict Index). Good (ok_response, behind, indexes'))
        (insert_into f draw q.namespace (q.entry ∷ []) indexes)
  unfolding insert_into
  insert_into-Kept =
      rw (here, insert_into)
        (Returns-bind (Filled dim (q.entry ∷ []) idx)
          (λ (indexes' : Dict Index). Good (ok_response, behind, indexes'))
          (insert_all f draw 0 (q.entry ∷ []) idx) (λ idx'. ok (insert q.namespace idx' indexes))
          (insert_all-Filled f draw dim 0 (q.entry ∷ []) idx (size, tt) (omega (arith, room))
            agrees.graph agrees.indexed several)
          (λ idx' w. (
            refl,
            λ n other. lookup-insert q.namespace n idx' indexes ∙ rw other refl,
            (
              idx',
              lookup-insert q.namespace q.namespace idx' indexes ∙ rw (same_refl q.namespace) refl,
              HasDegree-kept idx idx' w.degree several,
              Agrees-behind idx' w,
            ),
          )))

  run_vset-Kept : Returns Good (run_vset f draw (accepted q) now (s, indexes))
  unfolding run_vset
  run_vset-Kept =
      let accepted_entry =
        (vector_view-new_entry q.namespace q.namespace q.namespace q.dim q.entry q.ttl now now s
          (size ∙ sym declared)).0 in
      rw accepted_entry (
        Returns-bind (λ (indexes' : Dict Index). Good (ok_response, behind, indexes')) Good
          (insert_into f draw q.namespace (q.entry ∷ []) indexes)
          (λ indexes'. ok (ok_response, behind, indexes')) insert_into-Kept (λ indexes' h. h))

-- VSET of an entry that the clients see at once, on a namespace whose index agrees with the store,
-- answers OK and keeps the index in agreement with the store, and no other index changes. The vector
-- has the dimension of the index, an id of 32 bits is left for a new key, and the M of the index is at
-- least 2 and at most 2^45, as it is then still.
pub vset_keeps_agreement :
    (f : Float) (draw : ℕ → ℕ) (num : Numerals) (dim : ℕ) (args : List Bytes) (q : VsetRequest)
    (now : ℤ) (s : Store) (indexes : Dict Index) (idx : Index)
    → read_vset num.parse32 args ≡ accepted q
    → q.dim ≡ dim
    → length q.entry.vector ≡ dim
    → vector_expired now (new_entry q.entry q.ttl now (or_new (lookup q.namespace s.vectors)))
      ≡ false
    → lookup q.namespace indexes ≡ some idx
    → length idx.nodes < 2 ^ 32
    → HasDegree idx
    → Agrees dim now s q.namespace idx
    → Returns (Kept dim now q.namespace indexes) (handle_vset f draw num args now (s, indexes))
unfolding handle_vset
vset_keeps_agreement f draw num dim args q now s indexes idx reads declared size live here room
      several agrees =
    rw reads
      (run_vset-Kept f draw dim q now s indexes idx declared size live here room several agrees)
