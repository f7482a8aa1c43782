-- ===== src/Client/Tests.antt =====
-- The theorems on the client at concrete words and at a concrete response.
use hybrid_vector_cache_hnsw.Common.{◌≡◌, refl, [], ◌∷◌, ◌++◌, arith}
use hybrid_vector_cache_hnsw.Common.Int.{pos, negsuc}
use hybrid_vector_cache_hnsw.Common.Bytes.{Bytes, bytes}
use hybrid_vector_cache_hnsw.Protocol.Response.{
  Response, bulk, integer, nil_bulk, array, nil, cons, serialize, ok_response,
}
use hybrid_vector_cache_hnsw.Protocol.Tokenize.{tokenize}
use hybrid_vector_cache_hnsw.Store.{empty}
use hybrid_vector_cache_hnsw.Store.Kv
use hybrid_vector_cache_hnsw.Server.Kv.{handle_set}
use hybrid_vector_cache_hnsw.Server.Dispatch.{join}
use hybrid_vector_cache_hnsw.Client.{read_response}
use hybrid_vector_cache_hnsw.Client.Commands.{set_words}
use hybrid_vector_cache_hnsw.Client.Text.{IsWord, tokenize-join, set_cuts_value}
use hybrid_vector_cache_hnsw.Client.RoundTrip.{answer_of, read_response-serialize}

abbrev three_items : Response
three_items = array (cons (bulk (bytes "a\r\n")) (cons nil_bulk (cons (integer (negsuc 11)) nil)))

read_response-serialize_example :
    read_response (serialize three_items ++ serialize ok_response)
    ≡ answer_of three_items (serialize ok_response)
read_response-serialize_example =
    read_response-serialize three_items (serialize ok_response)
      (omega arith, (tt, (omega arith, (tt, (tt, (tt, (tt, tt)))))))

abbrev key : Bytes
key = bytes "k"

word_a : IsWord (bytes "a")
word_a = record { nonempty = omega arith; plain = (refl, tt) }

word_key : IsWord key
word_key = record { nonempty = omega arith; plain = (refl, tt) }

tokenize-join_example : tokenize (join (bytes "GET" ∷ key ∷ [])) ≡ bytes "GET" ∷ key ∷ []
tokenize-join_example =
    tokenize-join (bytes "GET") (key ∷ [])
      (record { nonempty = omega arith; plain = (refl, (refl, (refl, tt))) }, (word_key, tt))

set_cuts_value_example :
    (tokenize (join (set_words key (bytes "a" ++ b' ' ∷ bytes "a") (pos 0)))
      ≡ bytes "SET" ∷ key ∷ bytes "a" ∷ bytes "a" ∷ [])
    × (handle_set (key ∷ bytes "a" ∷ bytes "a" ∷ []) (pos 1) empty
        ≡ (ok_response, Kv.set key (bytes "a") empty))
set_cuts_value_example =
    set_cuts_value key (bytes "a") (bytes "a") (pos 1) empty word_key word_a word_a
