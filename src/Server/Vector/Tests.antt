-- ===== src/Server/Vector/Tests.antt =====
-- The theorems on the words of VSET at concrete words.
use hybrid_vector_cache_hnsw.Common.{true, List, ◌++◌, map, length, ◌≡◌, refl, [], ◌∷◌, arith}
use hybrid_vector_cache_hnsw.Common.Bytes.{bytes, same}
use hybrid_vector_cache_hnsw.Common.Dict.{lookup}
use hybrid_vector_cache_hnsw.Protocol.Parse.{to_upper}
use hybrid_vector_cache_hnsw.Protocol.Response.{decimal}
use hybrid_vector_cache_hnsw.Client.Commands.{VsetArgs, flatten, vset_words}
use hybrid_vector_cache_hnsw.Protocol.Response.{serialize}
use hybrid_vector_cache_hnsw.Similarity.{Result}
use hybrid_vector_cache_hnsw.Client.{got, read_response}
use hybrid_vector_cache_hnsw.Client.Answers.{items_of, similarity_answer}
use hybrid_vector_cache_hnsw.Client.RoundTrip.{value_of}
use hybrid_vector_cache_hnsw.Client.Commands.{VsimilarityArgs, vsimilarity_words}
use hybrid_vector_cache_hnsw.Server.Words.{Numerals}
use hybrid_vector_cache_hnsw.Server.Vector.Similar.{read_vsimilarity, result_items, meta_items}
use hybrid_vector_cache_hnsw.Server.Vector.Query.{reply}
use hybrid_vector_cache_hnsw.Server.Vector.Sent.{read_vsimilarity-vsimilarity_words}
use hybrid_vector_cache_hnsw.Server.Vector.Decoded.{told, similarity_reply_decodes}
use hybrid_vector_cache_hnsw.Server.Kv.{positive_seconds}
use hybrid_vector_cache_hnsw.Server.Words.{accepted}
use hybrid_vector_cache_hnsw.Server.Words.Printed.{IsText}
use hybrid_vector_cache_hnsw.Server.Vector.Set.{read_vset}
use hybrid_vector_cache_hnsw.Server.Vector.Request.{
  positive-decimal, request_of, IsSendable, read_vset-vset_words,
}
use hybrid_vector_cache_hnsw.Server.Vector.ExKey.{taken_as_ttl, vset_ex_key}

-- Whole numbers stand for the floats.
seven : IsText positive_seconds decimal 7
unfolding decimal to_upper same
seven = record {
  parsed = positive-decimal 7 (omega arith) (omega arith);
  not_meta = refl;
  not_ex = refl;
}

abbrev tagged : VsetArgs
tagged = record {
  namespace = bytes "n";
  id = bytes "a";
  vector = 7 ∷ [];
  metadata = (bytes "tag", bytes "x") ∷ [];
}

tagged-IsSendable : IsSendable positive_seconds decimal tagged
unfolding flatten to_upper same lookup
tagged-IsSendable = record {
  texts = (seven, tt);
  some_floats = omega arith;
  short = omega arith;
  no_ex = (refl, (refl, tt));
  distinct = (refl, tt);
}

read_vset-vset_words_example :
    read_vset positive_seconds (vset_words decimal tagged) ≡ accepted (request_of tagged)
read_vset-vset_words_example =
    read_vset-vset_words positive_seconds decimal tagged tagged-IsSendable

abbrev misread : VsetArgs
misread = record tagged { metadata = (bytes "ex", bytes "5") ∷ [] }

vset_ex_key_example :
    read_vset positive_seconds (vset_words decimal misread)
    ≡ taken_as_ttl (bytes "n") (bytes "a") (7 ∷ []) (positive_seconds (bytes "5"))
unfolding to_upper same
vset_ex_key_example =
    vset_ex_key positive_seconds decimal (bytes "n") (bytes "a") (7 ∷ []) (bytes "ex") (bytes "5")
      [] (seven, tt) (omega arith) (omega arith) refl

abbrev near : VsimilarityArgs
near = record { namespace = bytes "n"; vector = 7 ∷ []; top_k = 3 }

read_vsimilarity-vsimilarity_words_example :
    read_vsimilarity positive_seconds (vsimilarity_words decimal near)
    ≡ accepted (record { namespace = bytes "n"; query = 7 ∷ []; k = 3 })
unfolding decimal to_upper same
read_vsimilarity-vsimilarity_words_example =
    read_vsimilarity-vsimilarity_words positive_seconds decimal near (seven, tt) (refl, tt)
      (omega arith) (omega arith) (omega arith) (omega arith)

abbrev whole : Numerals
whole = record { parse32 = positive_seconds; accepts64 = λ x. true; print4 = decimal }

abbrev one_result : List Result
one_result = record { id = bytes "a"; score = 7; metadata = (bytes "tag", bytes "x") ∷ [] } ∷ []

similarity_reply_decodes_example :
    (read_response (serialize (reply whole one_result) ++ bytes "+OK")
      ≡ got (value_of (reply whole one_result)) (bytes "+OK"))
    × (similarity_answer length (items_of (value_of (reply whole one_result)))
        ≡ map (told length whole) one_result)
unfolding lookup decimal result_items meta_items
similarity_reply_decodes_example =
    similarity_reply_decodes length whole one_result (bytes "+OK") (omega arith) ((refl, tt), tt)
