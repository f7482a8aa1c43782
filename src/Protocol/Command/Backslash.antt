-- ===== src/Protocol/Command/Backslash.antt =====
-- String writes a backslash as it is, and the scanner reads it as an escape.
use hybrid_vector_cache_hnsw.Common.{
  ℕ, ◌<◌, ◌≡◌, ◌≢◌, refl, ap, ◌∙◌, false, ◌||◌, List, [], ◌∷◌, ◌++◌, arith, append-nil,
  append_assoc, length, ◌==◌, length-append,
}
use hybrid_vector_cache_hnsw.Common.Bytes.{Bytes}
use hybrid_vector_cache_hnsw.Protocol.Tokenize.{
  Scan, start, step, scan, flush, tokenize, scan-append, unescape,
}
use hybrid_vector_cache_hnsw.Protocol.Command.{has_byte, quote, print_args, print}
use hybrid_vector_cache_hnsw.Protocol.Command.RoundTrip.{
  is_plain, AllPlain, outside, scan-plain, flush-outside, step-space,
}

has_byte-plain :
    (c : ℕ) (xs rest : Bytes)
    → is_plain c ≡ false
    → AllPlain xs
    → has_byte c (xs ++ rest) ≡ has_byte c rest
unfolding has_byte
has_byte-plain c [] rest n h = refl
has_byte-plain c (x ∷ xs) rest n h = ground (arith, has_byte-plain c xs rest)

has_byte-cons : (c b : ℕ) (bs : Bytes) → has_byte c (b ∷ bs) ≡ (b == c || has_byte c bs)
unfolding has_byte
has_byte-cons c b bs = refl

has_byte-nil : (c : ℕ) → has_byte c [] ≡ false
unfolding has_byte
has_byte-nil c = refl

scan-cons : (s : Scan) (b : ℕ) (bs : Bytes) → scan s (b ∷ bs) ≡ scan (step s b) bs
unfolding scan
scan-cons s b bs = refl

-- An argument of plain bytes around a backslash is written without quotes.
quote-backslash :
    (xs ys : Bytes) (y : ℕ)
    → AllPlain xs
    → AllPlain (y ∷ ys)
    → quote (xs ++ b'\\' ∷ y ∷ ys) ≡ xs ++ b'\\' ∷ y ∷ ys
unfolding quote
quote-backslash xs ys y h k =
    let rest = b'\\' ∷ y ∷ ys in
    ground (
      arith,
      has_byte-plain b' ' xs rest refl h,
      has_byte-plain b'"' xs rest refl h,
      has_byte-plain b' ' (y ∷ ys) [] refl k,
      has_byte-plain b'"' (y ∷ ys) [] refl k,
      append-nil (y ∷ ys),
      has_byte-cons b' ' b'\\' (y ∷ ys),
      has_byte-cons b'"' b'\\' (y ∷ ys),
      has_byte-nil b' ',
      has_byte-nil b'"',
    )

step-escape :
    (y : ℕ) (tokens : List Bytes) (current : Bytes) (q : ℕ)
    → step (step (outside tokens current q) b'\\') y ≡ outside tokens (current ++ unescape y ∷ []) q
unfolding step
step-escape y tokens current q = refl

scan-backslash :
    (xs ys : Bytes) (y : ℕ) (tokens : List Bytes) (q : ℕ)
    → AllPlain xs
    → AllPlain (y ∷ ys)
    → scan (outside tokens [] q) (xs ++ b'\\' ∷ y ∷ ys) ≡ outside tokens (xs ++ unescape y ∷ ys) q
unfolding scan
scan-backslash xs ys y tokens q h k =
    scan-append (outside tokens [] q) xs (b'\\' ∷ y ∷ ys)
    ∙ ap (λ (s : Scan). scan s (b'\\' ∷ y ∷ ys)) (scan-plain xs tokens [] q h)
    ∙ ap (λ (s : Scan). scan s ys) (step-escape y tokens xs q)
    ∙ scan-plain ys tokens (xs ++ unescape y ∷ []) q k.1
    ∙ ap (λ (c : Bytes). outside tokens c q) (append_assoc xs (unescape y ∷ []) ys)

-- Behind a plain name, an argument of plain bytes with a backslash among them, but not at its end,
-- is written and read back without the backslash, as another word.
pub tokenize-print_backslash :
    (name xs ys : Bytes) (y : ℕ)
    → 0 < length name
    → AllPlain name
    → AllPlain xs
    → AllPlain (y ∷ ys)
    → (tokenize (print (record { name = name; args = (xs ++ b'\\' ∷ y ∷ ys) ∷ [] }))
        ≡ name ∷ (xs ++ unescape y ∷ ys) ∷ [])
      × ((xs ++ unescape y ∷ ys) ≢ xs ++ b'\\' ∷ y ∷ ys)
unfolding tokenize print print_args
tokenize-print_backslash name xs ys y n p h k = (
  rw (quote-backslash xs ys y h k) (
      ap (λ (s : Scan). (flush s).tokens) run
      ∙ ap (λ (s : Scan). s.tokens) (flush-outside (name ∷ []) (xs ++ unescape y ∷ ys) 0 size)),
  λ e. omega (
    arith,
    ap (length {A = ℕ}) e,
    length-append xs (unescape y ∷ ys),
    length-append xs (b'\\' ∷ y ∷ ys),
  ),
)
  where
    word : Bytes
    word = xs ++ b'\\' ∷ y ∷ ys

    size : 0 < length (xs ++ unescape y ∷ ys)
    size = omega (arith, length-append xs (unescape y ∷ ys))

    next : step (outside [] name 0) b' ' ≡ outside (name ∷ []) [] 0
    next = step-space [] name 0 ∙ flush-outside [] name 0 n

    run : scan start (name ++ b' ' ∷ (word ++ [])) ≡ outside (name ∷ []) (xs ++ unescape y ∷ ys) 0
    run =
        scan-append start name (b' ' ∷ (word ++ []))
        ∙ ap (λ (s : Scan). scan s (b' ' ∷ (word ++ []))) (scan-plain name [] [] 0 p)
        ∙ scan-cons (outside [] name 0) b' ' (word ++ [])
        ∙ ap (λ (s : Scan). scan s (word ++ [])) next
        ∙ ap (scan (outside (name ∷ []) [] 0)) (append-nil word)
        ∙ scan-backslash xs ys y (name ∷ []) 0 h k
