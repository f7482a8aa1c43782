-- ===== src/Server/Vector/Set.antt =====
-- internal/server/handlers_vector.go: VSET.
use hybrid_vector_cache_hnsw.Common.{
  ℕ, ◌+◌, ◌%◌, Option, none, some, List, [], ◌∷◌, ◌++◌, if◌then◌else◌, length, take, drop, ◌==◌,
  ltb,
}
use hybrid_vector_cache_hnsw.Common.Int.{ℤ, pos}
use hybrid_vector_cache_hnsw.Common.Bytes.{Bytes, bytes}
use hybrid_vector_cache_hnsw.Common.Dict.{Dict}
use hybrid_vector_cache_hnsw.Protocol.Response.{decimal}
use hybrid_vector_cache_hnsw.Store.Vector.{
  BatchEntry, VectorError, dimension_mismatch, entry_mismatch,
}
use hybrid_vector_cache_hnsw.Server.Kv.{positive_seconds, seconds_duration}
use hybrid_vector_cache_hnsw.Server.Words.{
  Checked, accepted, refused, ◌>>=◌, or_refuse, require, find_word, read_floats, read_pairs,
  mismatch,
}

-- What VSET asks for.
pub record VsetRequest : Type 0 where
  pub namespace : Bytes
  pub dim : ℕ
  pub entry : BatchEntry
  pub ttl : ℤ

abbrev pub smaller_of : ℕ → Option ℕ → ℕ
smaller_of n none = n
smaller_of n (some i) = if ltb i n then i else n

-- The words between META and EX, or the end.
abbrev pub meta_args : List Bytes → ℕ → Option ℕ → List Bytes
meta_args words i none = drop (i + 1) words
meta_args words i (some e) = drop (i + 1) (if ltb i e then take e words else words)

unfoldable pub read_meta : List Bytes → Option ℕ → Option ℕ → Checked (Dict Bytes)
read_meta words none ex = accepted []
read_meta words (some i) ex = do
  let pairs = meta_args words i ex
  _ ←
      require (length pairs % 2 == 0)
        (bytes "META requires an even number of arguments (key-value pairs)")
  accepted (read_pairs pairs [])

abbrev pub first_of : List Bytes → Option Bytes
first_of [] = none
first_of (x ∷ xs) = some x

unfoldable pub read_ex : List Bytes → Option ℕ → Checked ℤ
read_ex words none = accepted (pos 0)
read_ex words (some e) = do
  x ← or_refuse (first_of (drop (e + 1) words)) (bytes "EX requires a value")
  seconds ← or_refuse (positive_seconds x) (bytes "invalid expire time in 'VSET' command")
  accepted (seconds_duration seconds)

-- The words of VSET behind the dimension.
unfoldable pub read_words :
    (Bytes → Option ℕ) → Bytes → Bytes → ℕ → List Bytes → Checked VsetRequest
read_words parse namespace id dim words = do
  let meta = find_word (bytes "META") words
  let ex = find_word (bytes "EX") words
  let floats = take (smaller_of (smaller_of (length words) meta) ex) words
  _ ← require (length floats == dim) (mismatch dim (length floats))
  vec ← read_floats parse 0 floats
  pairs ← read_meta words meta ex
  ttl ← read_ex words ex
  accepted (record {
    namespace = namespace;
    dim = dim;
    entry = record { id = id; vector = vec; metadata = pairs };
    ttl = ttl;
  })

unfoldable pub read_vset : (Bytes → Option ℕ) → List Bytes → Checked VsetRequest
read_vset parse (namespace ∷ id ∷ d ∷ x ∷ xs) = do
  dim ← or_refuse (positive_seconds d) (bytes "invalid dimension")
  read_words parse namespace id dim (x ∷ xs)
read_vset parse args = refused (bytes "wrong number of arguments for 'VSET' command")

-- err.Error() of the store's errors
abbrev pub error_text : VectorError → Bytes
error_text (dimension_mismatch dim n) = mismatch dim n
error_text (entry_mismatch i id dim n) =
    bytes "entry " ++ (decimal i ++ (bytes " (" ++ (id ++ (bytes "): " ++ mismatch dim n))))
