-- ===== src/Server/VectorIndex/Longer.antt =====
-- VSET of a vector that is longer than those of the index of the namespace.
use hybrid_vector_cache_hnsw.Common.{
  ℕ, ◌^◌, ◌<◌, ◌≡◌, refl, none, some, List, [], ◌∷◌, length, get_elem?,
}
use hybrid_vector_cache_hnsw.Common.Int.{ℤ}
use hybrid_vector_cache_hnsw.Common.Bytes.{Bytes}
use hybrid_vector_cache_hnsw.Common.Dict.{Dict, lookup}
use hybrid_vector_cache_hnsw.Common.Run.{panic}
use hybrid_vector_cache_hnsw.Similarity.{Float}
use hybrid_vector_cache_hnsw.Store.{Store}
use hybrid_vector_cache_hnsw.Store.Vector.{BatchEntry}
use hybrid_vector_cache_hnsw.Store.Vector.Insert.{vector_view-new_entry}
use hybrid_vector_cache_hnsw.Hnsw.{Index, Node}
use hybrid_vector_cache_hnsw.Hnsw.Insert.Longer.{insert_vector-longer}
use hybrid_vector_cache_hnsw.Server.Words.{Numerals, accepted}
use hybrid_vector_cache_hnsw.Server.Vector.Set.{VsetRequest, read_vset}
use hybrid_vector_cache_hnsw.Server.Vector.Write.{insert_all, insert_into, run_vset, handle_vset}

insert_into-longer :
    (f : Float) (draw : ℕ → ℕ) (namespace : Bytes) (b : BatchEntry) (indexes : Dict Index)
    (idx : Index) (n : Node)
    → lookup namespace indexes ≡ some idx
    → lookup b.id idx.id_map ≡ none
    → length idx.nodes < 2 ^ 32
    → get_elem? idx.nodes idx.entry_point ≡ some n
    → length n.vector < length b.vector
    → insert_into f draw namespace (b ∷ []) indexes ≡ panic
unfolding insert_into insert_all
insert_into-longer f draw namespace b indexes idx n here missing few at longer =
    rw
      (
        here,
        insert_vector-longer f idx b.id b.vector b.metadata (draw 0) n missing few at longer,
        insert_into,
        insert_all,
      )
      refl

-- VSET of a new key panics on a namespace with an index, when the vector is longer than that of the
-- entry point of the index, though it has the dimension that the command declares.
pub vset_longer_panics :
    (f : Float) (draw : ℕ → ℕ) (num : Numerals) (args : List Bytes) (q : VsetRequest) (now : ℤ)
    (s : Store) (indexes : Dict Index) (idx : Index) (n : Node)
    → read_vset num.parse32 args ≡ accepted q
    → length q.entry.vector ≡ q.dim
    → lookup q.namespace indexes ≡ some idx
    → lookup q.entry.id idx.id_map ≡ none
    → length idx.nodes < 2 ^ 32
    → get_elem? idx.nodes idx.entry_point ≡ some n
    → length n.vector < length q.entry.vector
    → handle_vset f draw num args now (s, indexes) ≡ panic
unfolding handle_vset run_vset
vset_longer_panics f draw num args q now s indexes idx n reads size here missing few at longer =
    let stored =
      (vector_view-new_entry q.namespace q.namespace q.namespace q.dim q.entry q.ttl now now s
        size).0 in
    rw
      (
        reads,
        stored,
        insert_into-longer f draw q.namespace q.entry indexes idx n here missing few at longer,
      )
      refl
