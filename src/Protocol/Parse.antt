-- ===== src/Protocol/Parse.antt =====
-- internal/protocol/parser.go: Parse, over a buffered reader.
-- A `bufio.Reader` is the bytes that it holds, what each later Read will return, and how the input
-- ends. TrimSpace knows the white space of Unicode, in UTF-8. ToUpper acts on ASCII bytes and leaves
-- the others alone.
pub mod Lines
pub mod RoundTrip
use hybrid_vector_cache_hnsw.Common.{
  ℕ, zero, suc, ◌+◌, ◌-◌, ◌*◌, Bool, true, false, not, ◌&&◌, ◌||◌, Option, none, some, List, [],
  ◌∷◌, ◌++◌, map, if◌then◌else◌, length, backwards, ◌==◌, ltb, leb,
}
use hybrid_vector_cache_hnsw.Common.Bytes.{Bytes, bytes}
use hybrid_vector_cache_hnsw.Protocol.Tokenize.{tokenize}
use hybrid_vector_cache_hnsw.Protocol.Command.{Command}

-- maxLineLength
abbrev pub max_line_length : ℕ
max_line_length = 1024 * 64

pub data ReadError : Type 0 where
  eof failed : ReadError

pub record Reader : Type 0 where
  pub buffered : Bytes
  pub coming : List Bytes
  pub ending : ReadError

pub data ParseError : Type 0 where
  line_too_long empty_command : ParseError
  read_error : ReadError → ParseError

-- What Parse returns, and the reader after it; `out_of_fuel` is not a result of the program.
pub data Parsed : Type 0 where
  parsed : List Command → Option ParseError → Reader → Parsed
  out_of_fuel : Parsed

-- The inner loop: a whole line with its newline, a line that is too long, or the end of the input.
pub data Line : Type 0 where
  whole : Bytes → Bytes → List Bytes → Line
  too_long : Bytes → List Bytes → Line
  ended : Bytes → Line

unfoldable pub read_line : Bytes → Bytes → List Bytes → Line
read_line acc [] [] = ended acc
read_line acc [] (chunk ∷ coming) = read_line acc chunk coming
read_line acc (b ∷ buffered) coming =
    let acc' = acc ++ b ∷ [] in
    let rest = read_line acc' buffered coming in
    if ltb max_line_length (length acc')
    then too_long buffered coming
    else if b == 10
    then whole acc' buffered coming
    else rest

-- strings.TrimRight with a set of bytes
unfoldable pub trim_right : (ℕ → Bool) → Bytes → Bytes
trim_right p [] = []
trim_right p (b ∷ bs) = elim (trim_right p bs) [
  | [] ↦ if p b then [] else b ∷ []
  | c ∷ cs ↦ b ∷ c ∷ cs
]

-- the set "\r\n"
unfoldable pub is_line_end : ℕ → Bool
is_line_end b = b == 10 || b == 13

-- The ASCII white space of unicode.IsSpace
unfoldable pub is_space : ℕ → Bool
is_space b = leb 9 b && leb b 13 || b == b' '

-- U+0085 and U+00A0 in UTF-8
unfoldable pub is_space_pair : ℕ → ℕ → Bool
is_space_pair a b = a == 0xC2 && (b == 0x85 || b == 0xA0)

-- The white space of three bytes: U+1680, U+2000 to U+200A, U+2028, U+2029, U+202F, U+205F, U+3000
unfoldable pub is_space_triple : ℕ → ℕ → ℕ → Bool
is_space_triple a b c =
    a == 0xE1 && b == 0x9A && c == 0x80
    || a == 0xE2 && b == 0x80 && (leb 0x80 c && leb c 0x8A || c == 0xA8 || c == 0xA9 || c == 0xAF)
    || a == 0xE2 && b == 0x81 && c == 0x9F
    || a == 0xE3 && b == 0x80 && c == 0x80

-- The bytes of the white space that a text starts with, none for 0. `turned` is for a text that is
-- read from its end.
unfoldable pub space_width : Bool → Bytes → ℕ
unfolding is_space is_space_pair is_space_triple
space_width turned [] = 0
space_width turned (a ∷ []) = if is_space a then 1 else 0
space_width turned (a ∷ b ∷ []) =
    if is_space a
    then 1
    else if (if turned then is_space_pair b a else is_space_pair a b)
    then 2
    else 0
space_width turned (a ∷ b ∷ c ∷ bs) =
    if is_space a
    then 1
    else if (if turned then is_space_pair b a else is_space_pair a b)
    then 2
    else if (if turned then is_space_triple c b a else is_space_triple a b c)
    then 3
    else 0

-- The text behind the white space at its start; the first bytes, as many as given, are known to be of it.
unfoldable pub trim_start : Bool → ℕ → Bytes → Bytes
unfolding space_width
trim_start turned n [] = []
trim_start turned (suc n) (b ∷ bs) = trim_start turned n bs
trim_start turned zero (b ∷ bs) = elim (space_width turned (b ∷ bs)) [
  | zero ↦ b ∷ bs
  | suc n ↦ trim_start turned n bs
]

-- strings.TrimSpace
unfoldable pub trim_space : Bytes → Bytes
unfolding trim_start
trim_space s = backwards (trim_start true 0 (backwards (trim_start false 0 s) [])) []

unfoldable pub upper : ℕ → ℕ
upper b = if leb b'a' b && leb b b'z' then b - 32 else b

-- strings.ToUpper of ASCII text
unfoldable pub to_upper : Bytes → Bytes
unfolding upper
to_upper = map upper

command_of : List Bytes → Option Command
unfolding to_upper
command_of [] = none
command_of (name ∷ args) = some (record { name = to_upper name; args = args })

-- parseLine
unfoldable pub parse_line : Bytes → Option Command
unfolding tokenize command_of
parse_line line = command_of (tokenize line)

-- What Parse does at the end of the input, with what it read of a last line.
unfoldable pub parse_end : ReadError → Bytes → List Command → List Command × Option ParseError
unfolding trim_space parse_line
parse_end failed acc commands = (commands, some (read_error failed))
parse_end eof acc commands =
    let line = trim_space acc in
    let last : List Command = elim (parse_line line) [ none ↦ [] | some c ↦ c ∷ [] ] in
    let all = if ltb 0 (length line) then commands ++ last else commands in
    if ltb 0 (length all) then (all, none) else ([], some (read_error eof))

-- Whether the outer loop stops behind a line, and with what, or goes on.
pub data After : Type 0 where
  stop : List Command → Option ParseError → After
  again : List Command → After

-- The rest of a round of the outer loop, behind a whole line: `rest` is what is still buffered.
unfoldable pub after_line : Bytes → Bytes → List Command → After
unfolding trim_right is_line_end parse_line
after_line raw rest commands =
    let line = trim_right is_line_end raw in
    let empty : After = if ltb 0 (length commands) then stop commands none else again commands in
    let full : After = elim (parse_line line) [
      | none ↦ stop [] (some empty_command)
      | some c ↦
          if length rest == 0 then stop (commands ++ c ∷ []) none else again (commands ++ c ∷ [])
    ] in
    if length line == 0 then empty else full

-- The outer loop of Parse.
unfoldable pub parse_loop : ℕ → Reader → List Command → Parsed
unfolding read_line after_line parse_end
parse_loop zero r commands = out_of_fuel
parse_loop (suc fuel) r commands = elim (read_line [] r.buffered r.coming) [
  | too_long rest coming ↦
      parsed [] (some line_too_long) (record r { buffered = rest; coming = coming })
  | ended acc ↦
      let (all, err) = parse_end r.ending acc commands in
      parsed all err (record r { buffered = []; coming = [] })
  | whole raw rest coming ↦
      let r' = record r { buffered = rest; coming = coming } in
      elim (after_line raw rest commands) [
        | stop cs err ↦ parsed cs err r'
        | again cs ↦ parse_loop fuel r' cs
      ]
]

-- The bytes that a reader will still give.
abbrev pub total_bytes : List Bytes → ℕ
total_bytes [] = 0
total_bytes (chunk ∷ coming) = length chunk + total_bytes coming

-- Parse; a round uses up a byte at least, so the fuel is enough.
unfoldable pub parse : Reader → Parsed
unfolding parse_loop
parse r = parse_loop (length r.buffered + total_bytes r.coming + 1) r []
