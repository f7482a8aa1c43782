-- ===== src/Server/Vector/Request.antt =====
-- VSET reads the words that the client's VSet sends.
use hybrid_vector_cache_hnsw.Common.{
  ℕ, ◌%◌, ◌^◌, ◌<◌, ◌≡◌, refl, true, Option, some, List, [], ◌∷◌, ◌++◌, map, append-nil, arith,
  length, length-append, ◌==◌, ltb,
}
use hybrid_vector_cache_hnsw.Common.Int.{pos}
use hybrid_vector_cache_hnsw.Common.Bytes.{Bytes, bytes, same}
use hybrid_vector_cache_hnsw.Common.Dict.{Dict, IsDistinct}
use hybrid_vector_cache_hnsw.Heap.Items.{All}
use hybrid_vector_cache_hnsw.Protocol.Parse.{to_upper}
use hybrid_vector_cache_hnsw.Protocol.Response.{decimal}
use hybrid_vector_cache_hnsw.Client.Commands.{VsetArgs, flatten, meta_words, vset_words}
use hybrid_vector_cache_hnsw.Client.Numbers.{atoi-decimal}
use hybrid_vector_cache_hnsw.Server.Kv.{positive_seconds}
use hybrid_vector_cache_hnsw.Server.Words.{accepted}
use hybrid_vector_cache_hnsw.Server.Words.Printed.{
  IsOther, IsText, find_word-absent, find_word-append, take-append, take-length, drop-append_one,
  read_floats-print, length-map, every_new, read_pairs-flatten, even-flatten, All-prints,
  All-append,
}
use hybrid_vector_cache_hnsw.Server.Vector.Set.{
  VsetRequest, read_vset, read_words, read_meta, read_ex,
}

-- What VSET is asked by these words.
abbrev pub request_of : VsetArgs → VsetRequest
request_of a = record {
  namespace = a.namespace;
  dim = length a.vector;
  entry = record { id = a.id; vector = a.vector; metadata = a.metadata };
  ttl = pos 0;
}

-- The arguments of a VSet that survives the way: numbers that print and parse alike, a vector that is
-- not empty, and metadata without the word EX.
pub record IsSendable (parse : Bytes → Option ℕ) (print : ℕ → Bytes) (a : VsetArgs) : Type 0 where
  pub texts : All (IsText parse print) a.vector
  pub some_floats : 0 < length a.vector
  pub short : length a.vector < 2 ^ 63
  pub no_ex : All (IsOther (bytes "EX")) (flatten a.metadata)
  pub distinct : IsDistinct a.metadata

pub positive-decimal : (n : ℕ) → 0 < n → n < 2 ^ 63 → positive_seconds (decimal n) ≡ some n
unfolding positive_seconds
positive-decimal n pos_n small = rw (atoi-decimal n small, positive_seconds) (ground (arith, pos_n))

module _ (parse : Bytes → Option ℕ) (print : ℕ → Bytes) where
  abbrev texts : VsetArgs → List Bytes
  texts a = map print a.vector

  read_words-plain :
      (namespace id : Bytes) (vec : List ℕ)
      → All (IsText parse print) vec
      → read_words parse namespace id (length vec) (map print vec)
        ≡ accepted
            (request_of (record { namespace = namespace; id = id; vector = vec; metadata = [] }))
  unfolding read_words read_meta read_ex
  read_words-plain namespace id vec a =
      let no_meta =
        find_word-absent (bytes "META") (map print vec)
          (All-prints parse print (bytes "META") vec (λ x t. t.not_meta) a) in
      let no_ex =
        find_word-absent (bytes "EX") (map print vec)
          (All-prints parse print (bytes "EX") vec (λ x t. t.not_ex) a) in
      let size : (length (map print vec) == length vec) ≡ true =
        ground (arith, length-map print vec) in
      rw (no_meta, no_ex, take-length (map print vec), size, read_floats-print parse print 0 vec a)
        refl

  read_words-meta :
      (namespace id : Bytes) (vec : List ℕ) (m : Dict Bytes)
      → All (IsText parse print) vec
      → All (IsOther (bytes "EX")) (flatten m)
      → IsDistinct m
      → read_words parse namespace id (length vec) (map print vec ++ bytes "META" ∷ flatten m)
        ≡ accepted
            (request_of (record { namespace = namespace; id = id; vector = vec; metadata = m }))
  unfolding read_words read_meta read_ex
  read_words-meta namespace id vec m a b d =
      let words = map print vec ++ bytes "META" ∷ flatten m in
      let meta =
        find_word-append (bytes "META") (bytes "META") (map print vec) (flatten m)
          (All-prints parse print (bytes "META") vec (λ x t. t.not_meta) a)
          (unfold to_upper same in refl) in
      let no_ex = find_word-absent (bytes "EX") words (
        All-append (bytes "EX") (map print vec) (bytes "META" ∷ flatten m)
          (All-prints parse print (bytes "EX") vec (λ x t. t.not_ex) a)
          (unfold to_upper same in refl, b)) in
      let inside : ltb (length (map print vec)) (length words) ≡ true =
        ground (arith, length-append (map print vec) (bytes "META" ∷ flatten m)) in
      let size : (length (map print vec) == length vec) ≡ true =
        ground (arith, length-map print vec) in
      let even : (length (flatten m) % 2 == 0) ≡ true = ground (arith, even-flatten m) in
      rw
        (
          meta,
          no_ex,
          inside,
          take-append (map print vec) (bytes "META" ∷ flatten m),
          size,
          read_floats-print parse print 0 vec a,
          drop-append_one (map print vec) (bytes "META") (flatten m),
          even,
          read_pairs-flatten [] m d (every_new m),
        )
        refl

  -- VSET reads the words that the client's VSet sends as they were meant. The numbers print and parse
  -- alike and none prints as META or EX, there is one at least, no word of the metadata reads as EX,
  -- and no key of it stands twice.
  pub read_vset-vset_words :
      (a : VsetArgs)
      → IsSendable parse print a
      → read_vset parse (vset_words print a) ≡ accepted (request_of a)
  unfolding read_vset vset_words meta_words
  read_vset-vset_words a v =
      rest a.namespace a.id a.vector a.metadata v.texts v.some_floats v.short v.no_ex v.distinct
    where
      rest :
          (namespace id : Bytes) (vec : List ℕ) (m : Dict Bytes)
          → All (IsText parse print) vec
          → 0 < length vec
          → length vec < 2 ^ 63
          → All (IsOther (bytes "EX")) (flatten m)
          → IsDistinct m
          → read_vset parse
              (namespace ∷ id ∷ decimal (length vec) ∷ (map print vec ++ meta_words m))
            ≡ accepted
                (request_of (record { namespace = namespace; id = id; vector = vec; metadata = m }))
      rest namespace id (x ∷ xs) [] t n s e d =
          rw (positive-decimal (length (x ∷ xs)) n s, append-nil (map print (x ∷ xs)))
            (read_words-plain namespace id (x ∷ xs) t)
      rest namespace id (x ∷ xs) ((k, v) ∷ m) t n s e d =
          rw (positive-decimal (length (x ∷ xs)) n s)
            (read_words-meta namespace id (x ∷ xs) ((k, v) ∷ m) t e d)
      rest namespace id [] m t n s e d = absurd (omega (arith, n))
