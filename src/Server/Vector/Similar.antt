-- ===== src/Server/Vector/Similar.antt =====
-- internal/server/handlers_vector.go: VSIMILARITY.
use hybrid_vector_cache_hnsw.Common.{ℕ, ◌+◌, Option, List, [], ◌∷◌, length, take, drop, ◌==◌, leb}
use hybrid_vector_cache_hnsw.Common.Bytes.{Bytes, bytes}
use hybrid_vector_cache_hnsw.Common.Dict.{Dict}
use hybrid_vector_cache_hnsw.Protocol.Response.{Items, nil, cons, bulk, simple, array}
use hybrid_vector_cache_hnsw.Similarity.{Result}
use hybrid_vector_cache_hnsw.Hnsw.Search.{Hit}
use hybrid_vector_cache_hnsw.Server.Kv.{positive_seconds}
use hybrid_vector_cache_hnsw.Server.Words.{
  Checked, accepted, refused, ◌>>=◌, or_refuse, require, find_word, read_floats, mismatch,
}
use hybrid_vector_cache_hnsw.Server.Vector.Set.{first_of}

pub record SimilarityRequest : Type 0 where
  pub namespace : Bytes
  pub query : List ℕ
  pub k : ℕ

-- The words behind the dimension.
unfoldable pub read_query : (Bytes → Option ℕ) → Bytes → ℕ → List Bytes → Checked SimilarityRequest
read_query parse namespace dim words = do
  top ← or_refuse (find_word (bytes "TOP") words) (bytes "missing TOP <k> argument")
  x ← or_refuse (first_of (drop (top + 1) words)) (bytes "missing TOP <k> argument")
  k ← or_refuse (positive_seconds x) (bytes "TOP k must be between 1 and 1000")
  _ ← require (leb k 1000) (bytes "TOP k must be between 1 and 1000")
  let floats = take top words
  _ ← require (length floats == dim) (mismatch dim (length floats))
  query ← read_floats parse 0 floats
  accepted (record { namespace = namespace; query = query; k = k })

unfoldable pub read_vsimilarity : (Bytes → Option ℕ) → List Bytes → Checked SimilarityRequest
read_vsimilarity parse (namespace ∷ d ∷ x ∷ y ∷ z ∷ xs) = do
  dim ← or_refuse (positive_seconds d) (bytes "invalid dimension")
  read_query parse namespace dim (x ∷ y ∷ z ∷ xs)
read_vsimilarity parse args = refused (bytes "wrong number of arguments for 'VSIMILARITY' command")

abbrev pub result_of : Hit → Result
result_of h = record { id = h.key; score = h.score; metadata = h.metadata }

unfoldable pub meta_items : Dict Bytes → Items
meta_items [] = nil
meta_items ((k, v) ∷ m) = cons (bulk k) (cons (bulk v) (meta_items m))

-- The three responses of each result.
unfoldable pub result_items : (ℕ → Bytes) → List Result → Items
result_items print [] = nil
result_items print (r ∷ rs) =
    cons (bulk r.id)
      (cons (simple (print r.score)) (cons (array (meta_items r.metadata)) (result_items print rs)))
