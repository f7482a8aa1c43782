-- ===== src/Client.antt =====
-- pkg/client/client.go: readResponse, over the bytes that the server sends before the end.
mod Tests
pub mod Numbers
pub mod RoundTrip
pub mod Commands
pub mod Text
pub mod Answers
use hybrid_vector_cache_hnsw.Common.{
  ℕ, zero, suc, ◌+◌, Bool, true, false, Option, none, some, List, [], ◌∷◌, if◌then◌else◌, length,
  take, drop, ◌==◌, ltb,
}
use hybrid_vector_cache_hnsw.Common.Int.{ℤ, pos, negsuc}
use hybrid_vector_cache_hnsw.Common.Bytes.{Bytes}
use hybrid_vector_cache_hnsw.Protocol.Parse.{trim_right, is_line_end}
use hybrid_vector_cache_hnsw.Server.Kv.{atoi}

mutual
  -- RespValue, with its Str, Array and IsNil
  pub data RespValue : Type 0 where
    resp : Bytes → RespValues → Bool → RespValue

  pub data RespValues : Type 0 where
    no_values : RespValues
    values : RespValue → RespValues → RespValues

abbrev pub text_value : Bytes → RespValue
text_value s = resp s no_values false

abbrev pub nil_value : RespValue
nil_value = resp [] no_values true

abbrev pub array_value : RespValues → RespValue
array_value vs = resp [] vs false

-- The errors but for ErrNil; `ended` is that of the reader.
pub data ClientError : Type 0 where
  ended empty_response invalid_length invalid_count : ClientError
  server_error : Bytes → ClientError

-- How readResponse ends, with the bytes that are left; `err_nil` is ErrNil, with the value nil.
pub data Decoded : Type 0 where
  got : RespValue → Bytes → Decoded
  err_nil : Bytes → Decoded
  failed : ClientError → Decoded
  panicked out_of_fuel : Decoded

-- reader.ReadString('\n')
unfoldable pub read_string : Bytes → Option (Bytes × Bytes)
read_string [] = none
read_string (b ∷ text) =
    let more : Option (Bytes × Bytes) = elim (read_string text) [
      | none ↦ none
      | some (line, rest) ↦ some (b ∷ line, rest)
    ] in
    if b == 10 then some (b ∷ [], text) else more

-- The case '$'; a length below -1 makes the slice panic.
abbrev pub read_bulk : Option ℤ → Bytes → Decoded
read_bulk none rest = failed invalid_length
read_bulk (some (negsuc zero)) rest = err_nil rest
read_bulk (some (negsuc (suc n))) rest = panicked
read_bulk (some (pos n)) rest =
    if ltb (length rest) (n + 2)
    then failed ended
    else got (text_value (take n rest)) (drop (n + 2) rest)

-- The items of an array, or how the loop ended before the last.
pub data Collected : Type 0 where
  collected : RespValues → Bytes → Collected
  stopped : Decoded → Collected

abbrev pub add_value : RespValue → Collected → Collected
add_value v (collected vs rest) = collected (values v vs) rest
add_value v (stopped a) = stopped a

-- An item, before the others; a nil is an item like another.
abbrev pub item_before : Decoded → (Bytes → Collected) → Collected
item_before (got v rest) others = add_value v (others rest)
item_before (err_nil rest) others = add_value nil_value (others rest)
item_before (failed e) others = stopped (failed e)
item_before panicked others = stopped panicked
item_before out_of_fuel others = stopped out_of_fuel

unfoldable pub collect_items : (Bytes → Decoded) → ℕ → Bytes → Collected
collect_items read zero text = collected no_values text
collect_items read (suc n) text = item_before (read text) (collect_items read n)

abbrev pub array_of : Collected → Decoded
array_of (collected vs rest) = got (array_value vs) rest
array_of (stopped a) = a

-- The case '*'
abbrev pub read_array : (Bytes → Decoded) → Option ℤ → Bytes → Decoded
read_array read none rest = failed invalid_count
read_array read (some (negsuc n)) rest = got (array_value no_values) rest
read_array read (some (pos n)) rest = array_of (collect_items read n rest)

-- The switch over the prefix; `read` reads the items of an array.
abbrev pub by_prefix : (Bytes → Decoded) → Bytes → Bytes → Decoded
by_prefix read [] rest = failed empty_response
by_prefix read (prefix ∷ body) rest =
    if prefix == b'+'
    then got (text_value body) rest
    else if prefix == b'-'
    then failed (server_error body)
    else if prefix == b':'
    then got (text_value body) rest
    else if prefix == b'$'
    then read_bulk (atoi body) rest
    else if prefix == b'*'
    then read_array read (atoi body) rest
    else got (text_value (prefix ∷ body)) rest

abbrev pub read_parts : (Bytes → Decoded) → Option (Bytes × Bytes) → Decoded
read_parts read none = failed ended
read_parts read (some (line, rest)) = by_prefix read (trim_right is_line_end line) rest

unfoldable pub read_at : ℕ → Bytes → Decoded
read_at zero text = out_of_fuel
read_at (suc fuel) text = read_parts (read_at fuel) (read_string text)

-- readResponse. Each level of an array takes a line, so the number of the bytes is enough fuel.
unfoldable pub read_response : Bytes → Decoded
read_response text = read_at (length text + 1) text
