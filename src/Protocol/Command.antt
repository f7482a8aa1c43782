-- ===== src/Protocol/Command.antt =====
-- internal/protocol/types.go: a command, and the line that String writes for it.
pub mod RoundTrip
pub mod Backslash
use hybrid_vector_cache_hnsw.Common.{
  ℕ, Bool, false, ◌||◌, List, [], ◌∷◌, ◌++◌, if◌then◌else◌, ◌==◌, ◌≡◌, refl,
}
use hybrid_vector_cache_hnsw.Common.Bytes.{Bytes, bytes}

pub record Command : Type 0 where
  pub name : Bytes
  pub args : List Bytes

-- strings.ContainsRune of an ASCII character
unfoldable pub has_byte : ℕ → Bytes → Bool
has_byte c [] = false
has_byte c (b ∷ bs) = b == c || has_byte c bs

-- strings.ReplaceAll(arg, `"`, `\"`)
unfoldable pub escape_quotes : Bytes → Bytes
escape_quotes [] = []
escape_quotes (b ∷ bs) =
    let rest = escape_quotes bs in if b == b'"' then b'\\' ∷ b'"' ∷ rest else b ∷ rest

-- The body of the loop of String.
unfoldable pub quote : Bytes → Bytes
unfolding has_byte escape_quotes
quote arg =
    if has_byte b' ' arg || has_byte b'"' arg then b'"' ∷ (escape_quotes arg ++ b'"' ∷ []) else arg

-- The arguments, each behind a space, as strings.Join puts them behind the name.
unfoldable pub print_args : List Bytes → Bytes
unfolding quote
print_args [] = []
print_args (arg ∷ args) = b' ' ∷ (quote arg ++ print_args args)

-- String
unfoldable pub print : Command → Bytes
unfolding print_args
print c = c.name ++ print_args c.args
