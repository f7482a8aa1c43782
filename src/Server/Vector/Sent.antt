-- ===== src/Server/Vector/Sent.antt =====
-- VSIMILARITY reads the words that the client sends.
use hybrid_vector_cache_hnsw.Common.{
  Option, ℕ, ◌^◌, ◌≤◌, ◌<◌, ◌≡◌, refl, true, some, List, [], ◌∷◌, ◌++◌, map, arith, length, ◌==◌,
  leb,
}
use hybrid_vector_cache_hnsw.Common.Bytes.{Bytes, bytes, same}
use hybrid_vector_cache_hnsw.Heap.Items.{All}
use hybrid_vector_cache_hnsw.Protocol.Parse.{to_upper}
use hybrid_vector_cache_hnsw.Protocol.Response.{decimal}
use hybrid_vector_cache_hnsw.Client.Commands.{VsimilarityArgs, vsimilarity_words}
use hybrid_vector_cache_hnsw.Server.Words.{accepted, find_word}
use hybrid_vector_cache_hnsw.Server.Words.Printed.{
  IsOther, IsText, find_word-append, take-append, drop-append_one, read_floats-print, length-map,
}
use hybrid_vector_cache_hnsw.Server.Vector.Similar.{read_query, read_vsimilarity}
use hybrid_vector_cache_hnsw.Server.Vector.Request.{positive-decimal}

-- The text of a number is not the word TOP.
abbrev pub IsNotTop : (ℕ → Bytes) → ℕ → Type 0
IsNotTop print x = IsOther (bytes "TOP") (print x)

All-not_top :
    (print : ℕ → Bytes) (vec : List ℕ)
    → All (IsNotTop print) vec
    → All (IsOther (bytes "TOP")) (map print vec)
All-not_top print [] a = tt
All-not_top print (x ∷ vec) a = (a.0, All-not_top print vec a.1)

read_query-words :
    (parse : Bytes → Option ℕ) (print : ℕ → Bytes) (namespace : Bytes) (vec : List ℕ) (k : ℕ)
    → All (IsText parse print) vec
    → All (IsNotTop print) vec
    → 0 < k
    → k ≤ 1000
    → read_query parse namespace (length vec) (map print vec ++ bytes "TOP" ∷ decimal k ∷ [])
      ≡ accepted (record { namespace = namespace; query = vec; k = k })
unfolding read_query
read_query-words parse print namespace vec k texts others some_k few =
    let words = map print vec ++ bytes "TOP" ∷ decimal k ∷ [] in
    let top : find_word (bytes "TOP") words ≡ some (length (map print vec)) =
      find_word-append (bytes "TOP") (bytes "TOP") (map print vec) (decimal k ∷ [])
        (All-not_top print vec others) (unfold to_upper same in refl) in
    let small : leb k 1000 ≡ true = ground arith in
    let size : (length (map print vec) == length vec) ≡ true =
      ground (arith, length-map print vec) in
    rw
      (
        top,
        drop-append_one (map print vec) (bytes "TOP") (decimal k ∷ []),
        positive-decimal k some_k (omega (arith, few)),
        small,
        take-append (map print vec) (bytes "TOP" ∷ decimal k ∷ []),
        size,
        read_floats-print parse print 0 vec texts,
      )
      refl

-- VSIMILARITY reads the words that the client's VSimilarity sends as they were meant: the numbers print
-- and parse alike, there is one at least, and k is between 1 and 1000.
pub read_vsimilarity-vsimilarity_words :
    (parse : Bytes → Option ℕ) (print : ℕ → Bytes) (a : VsimilarityArgs)
    → All (IsText parse print) a.vector
    → All (IsNotTop print) a.vector
    → 0 < length a.vector
    → length a.vector < 2 ^ 63
    → 0 < a.top_k
    → a.top_k ≤ 1000
    → read_vsimilarity parse (vsimilarity_words print a)
      ≡ accepted (record { namespace = a.namespace; query = a.vector; k = a.top_k })
unfolding read_vsimilarity vsimilarity_words
read_vsimilarity-vsimilarity_words parse print a texts others some_floats short some_k few =
    reads a.vector texts others some_floats short
  where
    reads :
        (vec : List ℕ)
        → All (IsText parse print) vec
        → All (IsNotTop print) vec
        → 0 < length vec
        → length vec < 2 ^ 63
        → read_vsimilarity parse (
            a.namespace
            ∷ decimal (length vec)
            ∷ (map print vec ++ bytes "TOP" ∷ decimal a.top_k ∷ []))
          ≡ accepted (record { namespace = a.namespace; query = vec; k = a.top_k })
    reads [] t o n s = absurd (omega (arith, n))
    reads (x ∷ []) t o n s =
        rw (positive-decimal 1 n s)
          (read_query-words parse print a.namespace (x ∷ []) a.top_k t o some_k few)
    reads (x ∷ y ∷ []) t o n s =
        rw (positive-decimal 2 n s)
          (read_query-words parse print a.namespace (x ∷ y ∷ []) a.top_k t o some_k few)
    reads (x ∷ y ∷ z ∷ vec) t o n s =
        rw (positive-decimal (length (x ∷ y ∷ z ∷ vec)) n s)
          (read_query-words parse print a.namespace (x ∷ y ∷ z ∷ vec) a.top_k t o some_k few)
