-- ===== src/Server/Vector/ExKey.antt =====
-- VSET of metadata that has a key EX.
use hybrid_vector_cache_hnsw.Common.{
  inl, inr, Option-cases, take, drop, ℕ, ◌+◌, ◌^◌, ◌<◌, ◌≡◌, refl, sym, ap, ◌∙◌, true, false, none,
  some, List, [], ◌∷◌, ◌++◌, map, arith, append_assoc, length, length-append, ◌==◌, ltb, Option,
}
use hybrid_vector_cache_hnsw.Common.Bytes.{Bytes, bytes, same}
use hybrid_vector_cache_hnsw.Common.Dict.{Dict}
use hybrid_vector_cache_hnsw.Heap.Items.{All}
use hybrid_vector_cache_hnsw.Protocol.Parse.{to_upper}
use hybrid_vector_cache_hnsw.Client.Commands.{flatten, meta_words, vset_words}
use hybrid_vector_cache_hnsw.Server.Kv.{positive_seconds, seconds_duration}
use hybrid_vector_cache_hnsw.Server.Words.{
  Checked, accepted, refused, find_word, read_floats, read_pairs,
}
use hybrid_vector_cache_hnsw.Server.Words.Printed.{
  IsText, find_word-append, take-append, drop-append_one, read_floats-print, length-map, All-prints,
  All-append,
}
use hybrid_vector_cache_hnsw.Server.Vector.Set.{
  first_of, VsetRequest, read_vset, read_words, read_meta, read_ex,
}
use hybrid_vector_cache_hnsw.Server.Vector.Request.{positive-decimal}

-- What VSET reads of metadata that starts with a key EX: no metadata, and the value as the seconds of a
-- TTL.
abbrev pub taken_as_ttl : Bytes → Bytes → List ℕ → Option ℕ → Checked VsetRequest
taken_as_ttl namespace id vec none = refused (bytes "invalid expire time in 'VSET' command")
taken_as_ttl namespace id vec (some seconds) = accepted (record {
  namespace = namespace;
  dim = length vec;
  entry = record { id = id; vector = vec; metadata = [] };
  ttl = seconds_duration seconds;
})

-- Words with EX right behind META.
read_words-between :
    (parse : Bytes → Option ℕ) (namespace id v : Bytes) (words floats : List Bytes) (vec : List ℕ)
    (i e : ℕ)
    → find_word (bytes "META") words ≡ some i
    → find_word (bytes "EX") words ≡ some e
    → i < length words
    → i < e
    → take i words ≡ floats
    → length floats ≡ length vec
    → read_floats parse 0 floats ≡ accepted vec
    → drop (i + 1) (take e words) ≡ []
    → first_of (drop (e + 1) words) ≡ some v
    → read_words parse namespace id (length vec) words
      ≡ taken_as_ttl namespace id vec (positive_seconds v)
unfolding read_words read_meta read_ex read_pairs
read_words-between parse namespace id v words floats vec i e meta ex inside order front size numbers
      between value =
    let meta_first : ltb i (length words) ≡ true = ground arith in
    let ex_behind : ltb e i ≡ false = ground arith in
    let meta_before : ltb i e ≡ true = ground arith in
    let declared : (length floats == length vec) ≡ true = ground arith in
    elim (Option-cases (positive_seconds v)) [
      | inl p ↦
          rw
            (
              meta, ex, meta_first, ex_behind, meta_before, front, declared, numbers, between,
              value, p,
            )
            refl
      | inr (n, p) ↦
          rw
            (
              meta, ex, meta_first, ex_behind, meta_before, front, declared, numbers, between,
              value, p,
            )
            refl
    ]

module _ (parse : Bytes → Option ℕ) (print : ℕ → Bytes) (vec : List ℕ) (k v : Bytes)
    (rest : List Bytes) (texts : All (IsText parse print) vec)
    (is_ex : same (to_upper k) (bytes "EX") ≡ true) where
  abbrev floats : List Bytes
  floats = map print vec

  abbrev before : List Bytes
  before = floats ++ bytes "META" ∷ []

  abbrev all_words : List Bytes
  all_words = before ++ k ∷ v ∷ rest

  meta_at : find_word (bytes "META") all_words ≡ some (length floats)
  meta_at =
      ap (find_word (bytes "META")) (append_assoc floats (bytes "META" ∷ []) (k ∷ v ∷ rest))
      ∙ find_word-append (bytes "META") (bytes "META") floats (k ∷ v ∷ rest)
          (All-prints parse print (bytes "META") vec (λ x t. t.not_meta) texts)
          (unfold to_upper same in refl)

  ex_at : find_word (bytes "EX") all_words ≡ some (length before)
  ex_at =
      find_word-append (bytes "EX") k before (v ∷ rest)
        (All-append (bytes "EX") floats (bytes "META" ∷ [])
          (All-prints parse print (bytes "EX") vec (λ x t. t.not_ex) texts)
          (unfold to_upper same in refl, tt))
        is_ex

  longer : length before ≡ length floats + 1
  longer = omega (arith, length-append floats (bytes "META" ∷ []))

  split : all_words ≡ floats ++ bytes "META" ∷ k ∷ v ∷ rest
  split = append_assoc floats (bytes "META" ∷ []) (k ∷ v ∷ rest)

  behind : first_of (drop (length before + 1) all_words) ≡ some v
  behind = ap first_of (drop-append_one before k (v ∷ rest))

  nothing_between : drop (length floats + 1) (take (length before) all_words) ≡ []
  nothing_between =
      ap (drop (length floats + 1)) (take-append before (k ∷ v ∷ rest))
      ∙ drop-append_one floats (bytes "META") []

  front : take (length floats) all_words ≡ floats
  front = ap (take (length floats)) split ∙ take-append floats (bytes "META" ∷ k ∷ v ∷ rest)

  read_words-ex_key :
      (namespace id : Bytes)
      → read_words parse namespace id (length vec) all_words
        ≡ taken_as_ttl namespace id vec (positive_seconds v)
  read_words-ex_key namespace id =
      read_words-between parse namespace id v all_words floats vec (length floats) (length before)
        meta_at ex_at (omega (arith, longer, length-append before (k ∷ v ∷ rest)))
        (omega (arith, longer)) front (length-map print vec)
        (read_floats-print parse print 0 vec texts) nothing_between behind

-- Of the words that the client sends for metadata whose first key reads as EX, VSET reads no metadata:
-- the value of that key is taken for the seconds of a TTL, and is refused if it is not a positive
-- number. The numbers of the vector print and parse alike, and there is one at least.
pub vset_ex_key :
    (parse : Bytes → Option ℕ) (print : ℕ → Bytes) (namespace id : Bytes) (vec : List ℕ)
    (k v : Bytes) (m : Dict Bytes)
    → All (IsText parse print) vec
    → 0 < length vec
    → length vec < 2 ^ 63
    → same (to_upper k) (bytes "EX") ≡ true
    → read_vset parse (
        vset_words print
          (record { namespace = namespace; id = id; vector = vec; metadata = (k, v) ∷ m }))
      ≡ taken_as_ttl namespace id vec (positive_seconds v)
unfolding read_vset vset_words meta_words flatten
vset_ex_key parse print namespace id [] k v m texts some_floats short is_ex =
    absurd (omega (arith, some_floats))
vset_ex_key parse print namespace id (x ∷ vec) k v m texts some_floats short is_ex =
    rw
      (
        positive-decimal (length (x ∷ vec)) some_floats short,
        sym (append_assoc (map print (x ∷ vec)) (bytes "META" ∷ []) (k ∷ v ∷ flatten m)),
      )
      (read_words-ex_key parse print (x ∷ vec) k v (flatten m) texts is_ex namespace id)
