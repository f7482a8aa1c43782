-- ===== src/Server/Words.antt =====
-- internal/server/handlers_vector.go: how the handlers read the words of a command.
use hybrid_vector_cache_hnsw.Common.{
  ℕ, zero, suc, ◌+◌, Bool, true, false, Option, none, some, List, [], ◌∷◌, ◌++◌, if◌then◌else◌,
}
use hybrid_vector_cache_hnsw.Common.Bytes.{Bytes, bytes, same}
use hybrid_vector_cache_hnsw.Common.Dict.{Dict, insert}
use hybrid_vector_cache_hnsw.Protocol.Parse.{to_upper}
use hybrid_vector_cache_hnsw.Protocol.Response.{decimal}
pub mod Printed

-- What strconv and fmt make of a float32: ParseFloat(s, 32), whether ParseFloat(s, 64) accepts a
-- text, and "%.4f".
pub record Numerals : Type 0 where
  pub parse32 : Bytes → Option ℕ
  pub accepts64 : Bytes → Bool
  pub print4 : ℕ → Bytes

-- A value, or the message of the error that the handler answers with.
pub data Checked (A : Type 0) : Type 0 where
  accepted : A → Checked A
  refused : Bytes → Checked A

infixl 5 ◌>>=◌
abbrev pub ◌>>=◌ : {A B : Type 0} → Checked A → (A → Checked B) → Checked B
accepted a >>= k = k a
refused m >>= k = refused m

abbrev pub or_refuse : {A : Type 0} → Option A → Bytes → Checked A
or_refuse none m = refused m
or_refuse (some a) m = accepted a

abbrev pub require : Bool → Bytes → Checked (Unit {0})
require true m = accepted tt
require false m = refused m

-- The place of the first word that reads so in upper case.
unfoldable pub find_word : Bytes → List Bytes → Option ℕ
find_word word [] = none
find_word word (x ∷ xs) =
    let later : Option ℕ = elim (find_word word xs) [ none ↦ none | some i ↦ some (suc i) ] in
    if same (to_upper x) word then some 0 else later

-- The loop of ParseFloat over the floats from a position on.
unfoldable pub read_floats : (Bytes → Option ℕ) → ℕ → List Bytes → Checked (List ℕ)
read_floats parse i [] = accepted []
read_floats parse i (x ∷ xs) = do
  f ← or_refuse (parse x) (bytes "invalid float at position " ++ (decimal i ++ (bytes ": " ++ x)))
  fs ← read_floats parse (i + 1) xs
  accepted (f ∷ fs)

-- A map from a row of keys and values.
unfoldable pub read_pairs : List Bytes → Dict Bytes → Dict Bytes
read_pairs [] meta = meta
read_pairs (k ∷ []) meta = meta
read_pairs (k ∷ v ∷ rest) meta = read_pairs rest (insert k v meta)

abbrev pub mismatch : ℕ → ℕ → Bytes
mismatch dim n =
    bytes "dimension mismatch: declared "
    ++ (decimal dim ++ (bytes ", got " ++ (decimal n ++ bytes " floats")))
