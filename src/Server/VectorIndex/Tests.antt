-- ===== src/Server/VectorIndex/Tests.antt =====
-- The theorems on the indexes of the server at concrete requests.
use hybrid_vector_cache_hnsw.Common.{
  ℕ, ◌≡◌, refl, true, false, List, [], ◌∷◌, arith, length, Bool-cases, inl, inr,
}
use hybrid_vector_cache_hnsw.Common.Int.{pos}
use hybrid_vector_cache_hnsw.Common.Bytes.{Bytes, bytes, same}
use hybrid_vector_cache_hnsw.Common.Dict.{lookup}
use hybrid_vector_cache_hnsw.Common.Run.{panic, Returns}
use hybrid_vector_cache_hnsw.Protocol.Parse.{to_upper}
use hybrid_vector_cache_hnsw.Protocol.Response.{decimal}
use hybrid_vector_cache_hnsw.Similarity.{Result}
use hybrid_vector_cache_hnsw.Store.{Store, VectorEntry, VectorNamespace}
use hybrid_vector_cache_hnsw.Store.Vector.{new_entry, vsnapshot}
use hybrid_vector_cache_hnsw.Store.Vector.View.{vector_view}
use hybrid_vector_cache_hnsw.Hnsw.{new_node, new_index}
use hybrid_vector_cache_hnsw.Hnsw.Contents.{stored}
use hybrid_vector_cache_hnsw.Hnsw.Tests.{numbers, a, vec_a, one_node, one_node-HasDegree, first}
use hybrid_vector_cache_hnsw.Server.Kv.{positive_seconds}
use hybrid_vector_cache_hnsw.Server.Words.{Numerals, accepted, find_word, read_floats}
use hybrid_vector_cache_hnsw.Server.Vector.Set.{
  VsetRequest, read_vset, read_words, read_meta, read_ex,
}
use hybrid_vector_cache_hnsw.Server.Vector.Write.{handle_vset}
use hybrid_vector_cache_hnsw.Server.Vector.Similar.{SimilarityRequest, read_vsimilarity, read_query}
use hybrid_vector_cache_hnsw.Server.Vector.Query.{handle_vsimilarity}
use hybrid_vector_cache_hnsw.Server.VectorIndex.{read_params, default_params, handle_vindex}
use hybrid_vector_cache_hnsw.Server.VectorIndex.Filled.{entry_content}
use hybrid_vector_cache_hnsw.Server.VectorIndex.Create.{Agrees, Created, vindex_create_agrees}
use hybrid_vector_cache_hnsw.Server.VectorIndex.Kept.{Kept, vset_keeps_agreement}
use hybrid_vector_cache_hnsw.Server.VectorIndex.Longer.{vset_longer_panics}
use hybrid_vector_cache_hnsw.Server.VectorIndex.Answers.{
  Answered, response_of, vsimilarity_answers_truth, vsimilarity_ignores_deadlines,
}

abbrev k : Bytes
k = bytes "k"

-- Whole numbers stand for the floats.
abbrev whole : Numerals
whole = record { parse32 = positive_seconds; accepts64 = λ x. true; print4 = decimal }

abbrev entry_a : VectorEntry
entry_a = record { id = a; vector = vec_a; metadata = []; expires_at = pos 0; has_ttl = false }

abbrev space_a : VectorNamespace
space_a = record {
  entries = (a, entry_a) ∷ [];
  default_ttl = pos 0;
  has_default_ttl = false;
  ttl_set_at = pos 0;
}

abbrev store_a : Store
store_a = record { kv = []; vectors = (k, space_a) ∷ [] }

vindex_create_agrees_example :
    Returns
      (Created 2 (pos 1) store_a k)
      (handle_vindex numbers (λ n. n) (bytes "create" ∷ k ∷ []) (pos 1) (store_a, []))
unfolding to_upper read_params lookup same vsnapshot
vindex_create_agrees_example =
    vindex_create_agrees numbers (λ n. n) 2 (bytes "create") k [] default_params (pos 1) store_a []
      space_a refl refl refl refl (refl, tt) (refl, tt) (refl, tt) (omega arith) (omega arith)
      (omega arith)

view_a : (j : Bytes) → stored one_node j ≡ entry_content (vector_view (pos 1) store_a k j)
unfolding vector_view lookup same new_node
view_a j = elim (Bool-cases (same a j)) [
  | inl e ↦ rw (e, vector_view) refl
  | inr e ↦ rw (e, vector_view) refl
]

Agrees-one_node : Agrees 2 (pos 1) store_a k one_node
Agrees-one_node = record { graph = first.graph; indexed = first.indexed; contents = view_a }

abbrev vset_b : List Bytes
vset_b = k ∷ bytes "b" ∷ bytes "2" ∷ bytes "3" ∷ bytes "1" ∷ []

abbrev request_b : List ℕ → VsetRequest
request_b vec = record {
  namespace = k;
  dim = length vec;
  entry = record { id = bytes "b"; vector = vec; metadata = [] };
  ttl = pos 0;
}

read_b : read_vset positive_seconds vset_b ≡ accepted (request_b (3 ∷ 1 ∷ []))
unfolding read_vset read_words read_meta read_ex find_word read_floats positive_seconds to_upper
    same
read_b = refl

vset_keeps_agreement_example :
    Returns
      (Kept 2 (pos 1) k ((k, one_node) ∷ []))
      (handle_vset numbers (λ n. n) whole vset_b (pos 1) (store_a, (k, one_node) ∷ []))
unfolding lookup same new_entry
vset_keeps_agreement_example =
    vset_keeps_agreement numbers (λ n. n) whole 2 vset_b (request_b (3 ∷ 1 ∷ [])) (pos 1) store_a
      ((k, one_node) ∷ []) one_node read_b refl refl refl refl (omega arith) one_node-HasDegree
      Agrees-one_node

abbrev vset_longer : List Bytes
vset_longer = k ∷ bytes "b" ∷ bytes "3" ∷ bytes "3" ∷ bytes "1" ∷ bytes "2" ∷ []

read_longer : read_vset positive_seconds vset_longer ≡ accepted (request_b (3 ∷ 1 ∷ 2 ∷ []))
unfolding read_vset read_words read_meta read_ex find_word read_floats positive_seconds to_upper
    same
read_longer = refl

vset_longer_panics_example :
    handle_vset numbers (λ n. n) whole vset_longer (pos 1) (store_a, (k, one_node) ∷ []) ≡ panic
unfolding lookup same new_node new_index
vset_longer_panics_example =
    vset_longer_panics numbers (λ n. n) whole vset_longer (request_b (3 ∷ 1 ∷ 2 ∷ [])) (pos 1)
      store_a ((k, one_node) ∷ []) one_node (new_node 0 vec_a [] 1) read_longer refl refl refl
      (omega arith) refl (omega arith)

abbrev query_a : List Bytes
query_a = k ∷ bytes "2" ∷ bytes "1" ∷ bytes "2" ∷ bytes "TOP" ∷ bytes "3" ∷ []

abbrev asked : SimilarityRequest
asked = record { namespace = k; query = vec_a; k = 3 }

read_query_a : read_vsimilarity positive_seconds query_a ≡ accepted asked
unfolding read_vsimilarity read_query find_word read_floats positive_seconds to_upper same
read_query_a = refl

vsimilarity_answers_truth_example : Returns (Answered numbers whole 2 (pos 1) store_a asked) (
    handle_vsimilarity numbers
      (λ (rs : List Result). rs)
      1
      whole
      query_a
      (pos 1)
      (store_a, (k, one_node) ∷ []))
unfolding lookup same vector_view
vsimilarity_answers_truth_example =
    vsimilarity_answers_truth numbers (λ (rs : List Result). rs) 1 whole 2 query_a asked (pos 1)
      store_a ((k, one_node) ∷ []) one_node a entry_a read_query_a (omega arith) refl
      Agrees-one_node refl

-- The store in which the vector of the index expires at 5.
abbrev fading : Store
fading = record {
  kv = [];
  vectors =
      (
        k,
        record space_a {
          entries =
              (a, record entry_a { expires_at = pos 5; has_ttl = true })
              ∷ (bytes "z", record entry_a { id = bytes "z" })
              ∷ [];
        },
      )
      ∷ [];
}

vsimilarity_ignores_deadlines_example :
    response_of (
      handle_vsimilarity numbers
        (λ (rs : List Result). rs)
        1
        whole
        query_a
        (pos 1)
        (store_a, (k, one_node) ∷ []))
    ≡ response_of (
        handle_vsimilarity numbers
          (λ (rs : List Result). rs)
          1
          whole
          query_a
          (pos 9)
          (fading, (k, one_node) ∷ []))
unfolding lookup same vector_view
vsimilarity_ignores_deadlines_example =
    vsimilarity_ignores_deadlines numbers (λ (rs : List Result). rs) 1 whole query_a asked (pos 1)
      (pos 9) store_a fading ((k, one_node) ∷ []) one_node a (bytes "z") entry_a
      (record entry_a { id = bytes "z" }) read_query_a refl (omega arith) refl refl
