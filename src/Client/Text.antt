-- ===== src/Client/Text.antt =====
-- The text that a method of the client sends, against the words that the server reads.
use hybrid_vector_cache_hnsw.Common.{
  ◌<◌, ◌≡◌, refl, sym, ap, ◌∙◌, false, List, [], ◌∷◌, ◌++◌, arith, append-nil, length,
}
use hybrid_vector_cache_hnsw.Common.Int.{ℤ, pos}
use hybrid_vector_cache_hnsw.Common.Bytes.{Bytes, bytes}
use hybrid_vector_cache_hnsw.Protocol.Tokenize.{tokenize}
use hybrid_vector_cache_hnsw.Protocol.Command.{has_byte, quote, print_args, print}
use hybrid_vector_cache_hnsw.Protocol.Command.RoundTrip.{
  AllPlain, NoBackslash, AllReadable, tokenize-print,
}
use hybrid_vector_cache_hnsw.Protocol.Response.{ok_response}
use hybrid_vector_cache_hnsw.Store.{Store}
use hybrid_vector_cache_hnsw.Store.Kv
use hybrid_vector_cache_hnsw.Server.Kv.{handle_set}
use hybrid_vector_cache_hnsw.Server.Dispatch.{join}
use hybrid_vector_cache_hnsw.Client.Commands.{set_words}

-- A word without white space, quotes or backslashes.
pub record IsWord (w : Bytes) : Type 0 where
  pub nonempty : 0 < length w
  pub plain : AllPlain w

abbrev pub AllWords : List Bytes → Type 0
AllWords [] = Unit {0}
AllWords (w ∷ ws) = IsWord w × AllWords ws

has_byte-plain : (w : Bytes) → AllPlain w → (has_byte b' ' w ≡ false) × (has_byte b'"' w ≡ false)
unfolding has_byte
has_byte-plain [] a = (refl, refl)
has_byte-plain (b ∷ w) a =
    let (spaces, quotes) = has_byte-plain w a.1 in
    (ground (arith, a.0, spaces), ground (arith, a.0, quotes))

quote-plain : (w : Bytes) → AllPlain w → quote w ≡ w
unfolding quote
quote-plain w a = let (spaces, quotes) = has_byte-plain w a in rw (spaces, quotes, quote) refl

NoBackslash-plain : (w : Bytes) → AllPlain w → NoBackslash w
NoBackslash-plain [] a = tt
NoBackslash-plain (b ∷ w) a = (ground (arith, a.0), NoBackslash-plain w a.1)

AllWords-AllReadable : (ws : List Bytes) → AllWords ws → AllReadable ws
AllWords-AllReadable [] a = tt
AllWords-AllReadable (w ∷ ws) a = (
  record {
    nonempty = a.0.nonempty;
    no_backslash = NoBackslash-plain w a.0.plain;
    plain_unless_quoted = λ h. a.0.plain;
  },
  AllWords-AllReadable ws a.1,
)

print_args-join :
    (name : Bytes) (ws : List Bytes) → AllWords ws → name ++ print_args ws ≡ join (name ∷ ws)
unfolding print_args join
print_args-join name [] a = append-nil name
print_args-join name (w ∷ ws) a =
    rw (quote-plain w a.0.plain) (ap (λ (t : Bytes). name ++ b' ' ∷ t) (print_args-join w ws a.1))

-- The server reads the words that a method of the client joins with spaces, if none of them is empty
-- or has white space, a quote or a backslash.
pub tokenize-join :
    (w : Bytes) (ws : List Bytes) → AllWords (w ∷ ws) → tokenize (join (w ∷ ws)) ≡ w ∷ ws
unfolding print
tokenize-join w ws a =
    ap tokenize (sym (print_args-join w ws a.1))
    ∙ tokenize-print (record { name = w; args = ws }) a.0.nonempty a.0.plain
        (AllWords-AllReadable ws a.1)

-- The client does not quote: of a value with a space, Set has only the part before the space stored,
-- and the answer is OK.
pub set_cuts_value :
    (key x y : Bytes) (now : ℤ) (s : Store)
    → IsWord key
    → IsWord x
    → IsWord y
    → (tokenize (join (set_words key (x ++ b' ' ∷ y) (pos 0))) ≡ bytes "SET" ∷ key ∷ x ∷ y ∷ [])
      × (handle_set (key ∷ x ∷ y ∷ []) now s ≡ (ok_response, Kv.set key x s))
unfolding join set_words handle_set
set_cuts_value key x y now s k a b = (
  tokenize-join (bytes "SET") (key ∷ x ∷ y ∷ [])
      (record { nonempty = omega arith; plain = (refl, (refl, (refl, tt))) }, (k, (a, (b, tt)))),
  refl,
)
