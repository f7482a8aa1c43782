-- ===== src/Protocol/Parse/Lines.antt =====
-- Lines: what one round of the inner loop takes from the reader.
use hybrid_vector_cache_hnsw.Common.{
  ℕ, ◌+◌, ◌<◌, ◌≡◌, ◌≢◌, refl, ap, ◌∙◌, Bool, true, false, List, [], ◌∷◌, ◌++◌, arith, append_assoc,
  length, length-append,
}
use hybrid_vector_cache_hnsw.Common.Bytes.{Bytes}
use hybrid_vector_cache_hnsw.Protocol.Parse.{
  max_line_length, whole, read_line, total_bytes, trim_right,
}

-- No newline byte.
abbrev pub OneLine : Bytes → Type 0
OneLine [] = Unit {0}
OneLine (b ∷ bs) = (b ≢ 10) × OneLine bs

pub read_line-step :
    (acc : Bytes) (b : ℕ) (buffered : Bytes) (coming : List Bytes)
    → length acc < max_line_length
    → b ≢ 10
    → read_line acc (b ∷ buffered) coming ≡ read_line (acc ++ b ∷ []) buffered coming
unfolding read_line
read_line-step acc b buffered coming h n = ground (arith, length-append acc (b ∷ []))

pub read_line-newline :
    (acc rest : Bytes) (coming : List Bytes)
    → length acc < max_line_length
    → read_line acc (10 ∷ rest) coming ≡ whole (acc ++ 10 ∷ []) rest coming
unfolding read_line
read_line-newline acc rest coming h = ground (arith, length-append acc (10 ∷ []))

-- A line that fits, with its newline, is read whole, and what follows it stays.
pub read_line-whole :
    (line acc rest : Bytes) (coming : List Bytes)
    → OneLine line
    → length acc + length line < max_line_length
    → read_line acc (line ++ 10 ∷ rest) coming ≡ whole (acc ++ (line ++ 10 ∷ [])) rest coming
read_line-whole [] acc rest coming o h = read_line-newline acc rest coming (omega arith)
read_line-whole (b ∷ line) acc rest coming o h =
    read_line-step acc b (line ++ 10 ∷ rest) coming (omega arith) o.0
    ∙ read_line-whole line (acc ++ b ∷ []) rest coming o.1
        (omega (arith, length-append acc (b ∷ [])))
    ∙ ap (λ (l : Bytes). whole l rest coming) (append_assoc acc (b ∷ []) (line ++ 10 ∷ []))

-- What a round leaves is less than what there was.
pub read_line_shrinks :
    (acc buffered : Bytes) (coming : List Bytes) (line rest : Bytes) (coming' : List Bytes)
    → read_line acc buffered coming ≡ whole line rest coming'
    → length rest + total_bytes coming' < length buffered + total_bytes coming
unfolding read_line
read_line_shrinks acc [] [] line rest coming' e = absurd (cc)
read_line_shrinks acc [] (chunk ∷ coming) line rest coming' e =
    omega (arith, read_line_shrinks acc chunk coming line rest coming' e)
read_line_shrinks acc (b ∷ buffered) coming line rest coming' e =
    ground (arith, e, read_line_shrinks (acc ++ b ∷ []) buffered coming line rest coming')

-- The last byte of a text is not in the set; the empty text has none.
abbrev pub EndsOutside : (ℕ → Bool) → Bytes → Type 0
EndsOutside p [] = Unit {0}
EndsOutside p (b ∷ []) = p b ≡ false
EndsOutside p (b ∷ c ∷ cs) = EndsOutside p (c ∷ cs)

pub trim_right-eq_self : (p : ℕ → Bool) (xs : Bytes) → EndsOutside p xs → trim_right p xs ≡ xs
unfolding trim_right
trim_right-eq_self p [] h = refl
trim_right-eq_self p (b ∷ []) h = ground arith
trim_right-eq_self p (b ∷ c ∷ cs) h = ground (arith, trim_right-eq_self p (c ∷ cs))

-- A byte of the set at the end is trimmed off.
pub trim_right-concat :
    (p : ℕ → Bool) (xs : Bytes) (b : ℕ) → p b ≡ true → trim_right p (xs ++ b ∷ []) ≡ trim_right p xs
unfolding trim_right
trim_right-concat p [] b h = ground arith
trim_right-concat p (x ∷ xs) b h = ground (arith, trim_right-concat p xs b)
