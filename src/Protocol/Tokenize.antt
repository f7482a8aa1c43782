-- ===== src/Protocol/Tokenize.antt =====
-- internal/protocol/parser.go: tokenize, a state machine over the bytes of a line.
use hybrid_vector_cache_hnsw.Common.{
  ℕ, ◌≡◌, refl, Bool, true, false, ◌||◌, List, [], ◌∷◌, ◌++◌, if◌then◌else◌, length, ◌==◌, ltb,
}
use hybrid_vector_cache_hnsw.Common.Bytes.{Bytes, bytes}

-- The variables of the loop.
pub record Scan : Type 0 where
  pub tokens : List Bytes
  pub current : Bytes
  pub in_quote : Bool
  pub quote_char : ℕ
  pub escaped : Bool

abbrev pub start : Scan
start = record { tokens = []; current = []; in_quote = false; quote_char = 0; escaped = false }

-- current.WriteByte
abbrev pub write : ℕ → Scan → Scan
write ch s = record s { current = s.current ++ ch ∷ [] }

-- The byte that a backslash and a byte stand for.
unfoldable pub unescape : ℕ → ℕ
unescape ch = if ch == b'n' then 10 else if ch == b'r' then 13 else if ch == b't' then 9 else ch

-- The end of a token, if one was begun.
unfoldable pub flush : Scan → Scan
flush s =
    if ltb 0 (length s.current)
    then record s { tokens = s.tokens ++ s.current ∷ []; current = [] }
    else s

-- One round of the loop.
unfoldable pub step : Scan → ℕ → Scan
unfolding unescape flush
step s ch =
    if s.escaped
    then record (write (unescape ch) s) { escaped = false }
    else if ch == b'\\'
    then record s { escaped = true }
    else if s.in_quote
    then (if ch == s.quote_char then record s { in_quote = false } else write ch s)
    else if ch == b'"' || ch == 39
    then record s { in_quote = true; quote_char = ch }
    else if ch == b' ' || ch == 9
    then flush s
    else write ch s

unfoldable pub scan : Scan → Bytes → Scan
unfolding step
scan s [] = s
scan s (ch ∷ line) = scan (step s ch) line

unfoldable pub tokenize : Bytes → List Bytes
unfolding scan flush
tokenize line = (flush (scan start line)).tokens

test_tokenize :
    tokenize (bytes "set k \"a b\" c\\ d 'x'y")
    ≡ bytes "set" ∷ bytes "k" ∷ bytes "a b" ∷ bytes "c d" ∷ bytes "xy" ∷ []
unfolding tokenize
test_tokenize = refl

pub scan-append : (s : Scan) (xs ys : Bytes) → scan s (xs ++ ys) ≡ scan (scan s xs) ys
unfolding scan
scan-append s [] ys = refl
scan-append s (x ∷ xs) ys = scan-append (step s x) xs ys
