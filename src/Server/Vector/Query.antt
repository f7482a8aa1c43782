-- ===== src/Server/Vector/Query.antt =====
-- internal/server/handlers_vector.go: the handler of VSIMILARITY, over the index or by brute force.
use hybrid_vector_cache_hnsw.Common.{ℕ, Option, none, some, List, [], ◌∷◌, map}
use hybrid_vector_cache_hnsw.Common.Int.{ℤ, pos}
use hybrid_vector_cache_hnsw.Common.Bytes.{Bytes}
use hybrid_vector_cache_hnsw.Common.Dict.{Dict, lookup, insert}
use hybrid_vector_cache_hnsw.Common.Run.{Run, ok, ◌>>=◌}
use hybrid_vector_cache_hnsw.Protocol.Response.{Response, nil, array, error}
use hybrid_vector_cache_hnsw.Similarity.{Float, Result, top_k}
use hybrid_vector_cache_hnsw.Store.{Store, VectorEntry}
use hybrid_vector_cache_hnsw.Store.Vector.{vsnapshot}
use hybrid_vector_cache_hnsw.Hnsw.{Index}
use hybrid_vector_cache_hnsw.Hnsw.Search.{search}
use hybrid_vector_cache_hnsw.Server.Words.{Numerals, Checked, accepted, refused}
use hybrid_vector_cache_hnsw.Server.Vector.Similar.{
  SimilarityRequest, read_vsimilarity, result_of, result_items,
}

abbrev pub reply : Numerals → List Result → Response
reply num results = array (result_items num.print4 results)

-- The engine: `arrive` and `workers` are those of TopK.
module _ (f : Float) (arrive : List Result → List Result) (workers : ℕ) (num : Numerals) where
  -- The search, behind the test for no live entry.
  unfoldable pub find_similar :
      SimilarityRequest
      → List VectorEntry
      → Option Index
      → Store
      → Dict Index
      → Run (Response × Store × Dict Index)
  find_similar q entries none s indexes =
      ok (reply num (top_k f arrive workers q.query entries (pos q.k)), s, indexes)
  find_similar q entries (some idx) s indexes = elim (search f q.query q.k 0 idx) [
    | none ↦ ok (reply num (top_k f arrive workers q.query entries (pos q.k)), s, indexes)
    | some found ↦ do
      (hits, idx') ← found
      ok (reply num (map result_of hits), s, insert q.namespace idx' indexes)
  ]

  abbrev pub answer_query :
      SimilarityRequest
      → List VectorEntry
      → Store
      → Dict Index
      → Run (Response × Store × Dict Index)
  answer_query q [] s indexes = ok (array nil, s, indexes)
  answer_query q (e ∷ es) s indexes = find_similar q (e ∷ es) (lookup q.namespace indexes) s indexes

  unfoldable pub run_vsimilarity :
      Checked SimilarityRequest → ℤ → Store × Dict Index → Run (Response × Store × Dict Index)
  run_vsimilarity (refused m) now (s, indexes) = ok (error m, s, indexes)
  run_vsimilarity (accepted q) now (s, indexes) =
      answer_query q (vsnapshot q.namespace now s) s indexes

  -- handleVSimilarity
  unfoldable pub handle_vsimilarity :
      List Bytes → ℤ → Store × Dict Index → Run (Response × Store × Dict Index)
  handle_vsimilarity args = run_vsimilarity (read_vsimilarity num.parse32 args)
