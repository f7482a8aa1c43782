-- ===== src/Protocol/Command/RoundTrip.antt =====
-- What String writes is read back as the same words, when no byte in them has a meaning of its own.
use hybrid_vector_cache_hnsw.Common.{
  ℕ, ◌<◌, ◌≡◌, ◌≢◌, refl, ap, ◌∙◌, Bool, true, false, not, ◌||◌, List, [], ◌∷◌, ◌++◌, arith,
  append-nil, append_assoc, if◌then◌else◌, length, ◌==◌, inl, inr, Bool-cases,
}
use hybrid_vector_cache_hnsw.Common.Bytes.{Bytes}
use hybrid_vector_cache_hnsw.Protocol.Tokenize.{
  Scan, start, step, scan, flush, tokenize, scan-append,
}
use hybrid_vector_cache_hnsw.Protocol.Command.{
  Command, has_byte, escape_quotes, quote, print_args, print,
}

-- A byte that stands for itself outside quotes.
abbrev pub is_plain : ℕ → Bool
is_plain b = not (b == b'\\' || b == b'"' || b == 39 || b == b' ' || b == 9)

abbrev pub AllPlain : Bytes → Type 0
AllPlain [] = Unit {0}
AllPlain (b ∷ bs) = (is_plain b ≡ true) × AllPlain bs

abbrev pub NoBackslash : Bytes → Type 0
NoBackslash [] = Unit {0}
NoBackslash (b ∷ bs) = (b ≢ b'\\') × NoBackslash bs

-- A state between two bytes, outside quotes, with some tokens and a begun one.
abbrev pub outside : List Bytes → Bytes → ℕ → Scan
outside tokens current q = record {
  tokens = tokens;
  current = current;
  in_quote = false;
  quote_char = q;
  escaped = false;
}

abbrev inside : List Bytes → Bytes → Scan
inside tokens current = record {
  tokens = tokens;
  current = current;
  in_quote = true;
  quote_char = b'"';
  escaped = false;
}

step-plain :
    (x : ℕ) (tokens : List Bytes) (current : Bytes) (q : ℕ)
    → is_plain x ≡ true
    → step (outside tokens current q) x ≡ outside tokens (current ++ x ∷ []) q
unfolding step
step-plain x tokens current q h = ground arith

pub scan-plain :
    (xs : Bytes) (tokens : List Bytes) (current : Bytes) (q : ℕ)
    → AllPlain xs
    → scan (outside tokens current q) xs ≡ outside tokens (current ++ xs) q
unfolding scan
scan-plain [] tokens current q h = rw (append-nil current)
scan-plain (x ∷ xs) tokens current q h =
    ap (λ (s : Scan). scan s xs) (step-plain x tokens current q h.0)
    ∙ scan-plain xs tokens (current ++ x ∷ []) q h.1
    ∙ ap (λ (c : Bytes). outside tokens c q) (append_assoc current (x ∷ []) xs)

-- A byte inside the double quotes, behind a backslash if it is a quote itself.
scan-quoted_byte :
    (x : ℕ) (rest : Bytes) (tokens : List Bytes) (current : Bytes)
    → x ≢ b'\\'
    → scan (inside tokens current) (if x == b'"' then b'\\' ∷ b'"' ∷ rest else x ∷ rest)
      ≡ scan (inside tokens (current ++ x ∷ [])) rest
unfolding scan
scan-quoted_byte x rest tokens current h = elim (Bool-cases (x == b'"')) [
  | inl e ↦ let p : x ≡ b'"' = ground arith in rw p
  | inr e ↦
      let one : step (inside tokens current) x ≡ inside tokens (current ++ x ∷ []) =
        unfold step in ground arith in
      rw e (ap (λ (s : Scan). scan s rest) one)
]

scan-escape_quotes :
    (xs : Bytes) (tokens : List Bytes) (current : Bytes)
    → NoBackslash xs
    → scan (inside tokens current) (escape_quotes xs) ≡ inside tokens (current ++ xs)
unfolding escape_quotes
scan-escape_quotes [] tokens current h = unfold scan in rw (append-nil current)
scan-escape_quotes (x ∷ xs) tokens current h =
    scan-quoted_byte x (escape_quotes xs) tokens current h.0
    ∙ scan-escape_quotes xs tokens (current ++ x ∷ []) h.1
    ∙ ap (λ (c : Bytes). inside tokens c) (append_assoc current (x ∷ []) xs)

-- An argument that reads back: none that is empty, none with a backslash, and none with a tab or a
-- single quote unless String puts it in quotes.
pub record IsReadable (arg : Bytes) : Type 0 where
  pub nonempty : 0 < length arg
  pub no_backslash : NoBackslash arg
  pub plain_unless_quoted : ((has_byte b' ' arg || has_byte b'"' arg) ≡ false) → AllPlain arg

abbrev pub AllReadable : List Bytes → Type 0
AllReadable [] = Unit {0}
AllReadable (arg ∷ args) = IsReadable arg × AllReadable args

-- The quote character that the scanner remembers after an argument.
last_quote : Bytes → ℕ → ℕ
last_quote arg q = if has_byte b' ' arg || has_byte b'"' arg then b'"' else q

scan-in_quotes :
    (arg : Bytes) (tokens : List Bytes) (q : ℕ)
    → NoBackslash arg
    → scan (outside tokens [] q) (b'"' ∷ (escape_quotes arg ++ b'"' ∷ [])) ≡ outside tokens arg b'"'
scan-in_quotes arg tokens q h =
    unfold scan in
    scan-append (inside tokens []) (escape_quotes arg) (b'"' ∷ [])
    ∙ ap (λ (s : Scan). scan s (b'"' ∷ [])) (scan-escape_quotes arg tokens [] h)

scan-quote :
    (arg : Bytes) (tokens : List Bytes) (q : ℕ)
    → IsReadable arg
    → scan (outside tokens [] q) (quote arg) ≡ outside tokens arg (last_quote arg q)
unfolding quote last_quote
scan-quote arg tokens q r = elim (Bool-cases (has_byte b' ' arg || has_byte b'"' arg)) [
  | inl e ↦ rw e (scan-in_quotes arg tokens q r.no_backslash)
  | inr e ↦ rw e (scan-plain arg tokens [] q (r.plain_unless_quoted e))
]

pub flush-outside :
    (tokens : List Bytes) (word : Bytes) (q : ℕ)
    → 0 < length word
    → flush (outside tokens word q) ≡ outside (tokens ++ word ∷ []) [] q
unfolding flush
flush-outside tokens word q h = ground arith

pub step-space :
    (tokens : List Bytes) (word : Bytes) (q : ℕ)
    → step (outside tokens word q) b' ' ≡ flush (outside tokens word q)
unfolding step
step-space tokens word q = refl

scan-print_args :
    (args : List Bytes) (tokens : List Bytes) (word : Bytes) (q : ℕ)
    → 0 < length word
    → AllReadable args
    → (flush (scan (outside tokens word q) (print_args args))).tokens ≡ tokens ++ word ∷ args
unfolding print_args
scan-print_args [] tokens word q w h =
    unfold scan in ap (λ (s : Scan). s.tokens) (flush-outside tokens word q w)
scan-print_args (arg ∷ args) tokens word q w h =
    let next = step-space tokens word q ∙ flush-outside tokens word q w in
    let here : scan (outside tokens word q) (b' ' ∷ (quote arg ++ print_args args))
        ≡ scan (outside (tokens ++ word ∷ []) arg (last_quote arg q)) (print_args args) =
      unfold scan in
      (ap (λ (s : Scan). scan s (quote arg ++ print_args args)) next
        ∙ scan-append _ (quote arg) (print_args args)
        ∙ ap (λ (s : Scan). scan s (print_args args))
            (scan-quote arg (tokens ++ word ∷ []) q h.0)) in
    ap (λ (s : Scan). (flush s).tokens) here
    ∙ scan-print_args args (tokens ++ word ∷ []) arg (last_quote arg q) h.0.nonempty h.1
    ∙ append_assoc tokens (word ∷ []) (arg ∷ args)

-- The line that String writes for a command whose name is one plain word and whose arguments are
-- readable splits into the name and the arguments, each as it was.
pub tokenize-print :
    (c : Command)
    → 0 < length c.name
    → AllPlain c.name
    → AllReadable c.args
    → tokenize (print c) ≡ c.name ∷ c.args
unfolding tokenize print
tokenize-print c n p h =
    ap (λ (s : Scan). (flush s).tokens)
      (scan-append start c.name (print_args c.args)
        ∙ ap (λ (s : Scan). scan s (print_args c.args)) (scan-plain c.name [] [] 0 p))
    ∙ scan-print_args c.args [] c.name 0 n h
