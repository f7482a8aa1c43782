-- ===== src/Client/Answers.antt =====
-- pkg/client/client.go: what the methods make of the answers. `parse` is the number that ParseFloat
-- gives, whether it also gives an error or not.
use hybrid_vector_cache_hnsw.Common.{ℕ, Bool, none, some, List, [], ◌∷◌}
use hybrid_vector_cache_hnsw.Common.Int.{ℤ, pos}
use hybrid_vector_cache_hnsw.Common.Bytes.{Bytes, bytes, same}
use hybrid_vector_cache_hnsw.Common.Dict.{Dict, insert}
use hybrid_vector_cache_hnsw.Similarity.{Result}
use hybrid_vector_cache_hnsw.Server.Kv.{atoi}
use hybrid_vector_cache_hnsw.Client.{RespValue, RespValues, resp, no_values, values}

-- The fields Str and Array
abbrev pub text_of : RespValue → Bytes
text_of (resp s vs n) = s

abbrev pub items_of : RespValue → RespValues
items_of (resp s vs n) = vs

-- The numbers that Del, TTL and VCount return: n, _ := strconv.Atoi(resp.Str)
unfoldable pub number_answer : RespValue → ℤ
number_answer v = elim (atoi (text_of v)) [ none ↦ pos 0 | some n ↦ n ]

-- What Expire and VDel return.
abbrev pub flag_answer : RespValue → Bool
flag_answer v = same (text_of v) (bytes "1")

-- The numbers of VGet, behind its test for nil.
unfoldable pub vector_answer : (Bytes → ℕ) → RespValues → List ℕ
vector_answer parse no_values = []
vector_answer parse (values v vs) = parse (text_of v) ∷ vector_answer parse vs

-- The loop over the metadata of a result.
unfoldable pub metadata_answer : RespValues → Dict Bytes → Dict Bytes
metadata_answer (values k (values v vs)) m = metadata_answer vs (insert (text_of k) (text_of v) m)
metadata_answer (values k no_values) m = m
metadata_answer no_values m = m

-- The loop of VSimilarity over the items of the answer, three at a time.
unfoldable pub similarity_answer : (Bytes → ℕ) → RespValues → List Result
similarity_answer parse (values id (values score (values m vs))) =
    record {
      id = text_of id;
      score = parse (text_of score);
      metadata = metadata_answer (items_of m) [];
    }
    ∷ similarity_answer parse vs
similarity_answer parse (values id (values score no_values)) = []
similarity_answer parse (values id no_values) = []
similarity_answer parse no_values = []
