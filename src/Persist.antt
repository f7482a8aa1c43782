-- ===== src/Persist.antt =====
-- internal/persist/aof.go: the append-only file, as its bytes. Opening and syncing are left out.
pub mod Crc
pub mod Line
pub mod Replay
mod Tests
use hybrid_vector_cache_hnsw.Common.{
  ℕ, zero, suc, ◌+◌, ◌-◌, ◌*◌, ◌/◌, ◌%◌, ◌^◌, Bool, true, false, ◌&&◌, Option, none, some, List, [],
  ◌∷◌, ◌++◌, if◌then◌else◌, length, ◌==◌, leb,
}
use hybrid_vector_cache_hnsw.Common.Bytes.{Bytes, bytes}
use hybrid_vector_cache_hnsw.Protocol.Parse.{trim_space}
use hybrid_vector_cache_hnsw.Persist.Crc.{crc32}

unfoldable pub hex_digit : ℕ → ℕ
hex_digit d = if leb d 9 then b'0' + d else b'a' + d - 10

-- "%08x" of a uint32
unfoldable pub hex8 : ℕ → Bytes
hex8 n =
    hex_digit (n / 0x10000000 % 16)
    ∷ hex_digit (n / 0x1000000 % 16)
    ∷ hex_digit (n / 0x100000 % 16)
    ∷ hex_digit (n / 0x10000 % 16)
    ∷ hex_digit (n / 0x1000 % 16)
    ∷ hex_digit (n / 0x100 % 16)
    ∷ hex_digit (n / 16 % 16)
    ∷ hex_digit (n % 16)
    ∷ []

-- The line that Write adds, without its newline.
unfoldable pub log_line : Bytes → Bytes
log_line cmd = hex8 (crc32 cmd) ++ b':' ∷ cmd

-- AOFWriter.Write
unfoldable pub write : Bytes → Bytes → Bytes
write file cmd = file ++ (log_line cmd ++ 10 ∷ [])

-- The value of a hexadecimal digit of either case.
unfoldable pub hex_value : ℕ → Option ℕ
hex_value b =
    if leb b'0' b && leb b b'9'
    then some (b - b'0')
    else if leb b'a' b && leb b b'f'
    then some (b - b'a' + 10)
    else if leb b'A' b && leb b b'F'
    then some (b - b'A' + 10)
    else none

-- The digits that Sscanf takes, as many as the width allows, behind the digits of `acc`.
unfoldable pub scan_hex : ℕ → ℕ → Bytes → ℕ
scan_hex zero acc bs = acc
scan_hex (suc width) acc [] = acc
scan_hex (suc width) acc (b ∷ bs) = elim (hex_value b) [
  | none ↦ acc
  | some d ↦ scan_hex width (acc * 16 + d) bs
]

-- Sscanf(s, "%08x"), which wants one digit at least
unfoldable pub sscanf_hex8 : Bytes → Option ℕ
sscanf_hex8 [] = none
sscanf_hex8 (b ∷ bs) = elim (hex_value b) [ none ↦ none | some d ↦ some (scan_hex 7 d bs) ]

-- SplitN(line, ":", 2), where it gives two parts
unfoldable pub split_colon : Bytes → Option (Bytes × Bytes)
split_colon [] = none
split_colon (b ∷ bs) =
    let rest : Option (Bytes × Bytes) = elim (split_colon bs) [
      | none ↦ none
      | some (x, y) ↦ some (b ∷ x, y)
    ] in
    if b == b':' then some ([], bs) else rest

-- The loop body of ReplayAOF: the command of a line, unless the line is skipped.
unfoldable pub replay_line : Bytes → Option Bytes
replay_line raw = elim (split_colon (trim_space raw)) [
  | none ↦ none
  | some (sum, cmd) ↦ elim (sscanf_hex8 sum) [
    | none ↦ none
    | some expected ↦ if crc32 cmd == expected then some cmd else none
  ]
]

-- bufio.MaxScanTokenSize
abbrev pub max_scan_token : ℕ
max_scan_token = 64 * 1024

-- bufio.ScanLines takes a carriage return off the end of a line.
unfoldable pub drop_return : Bytes → Bytes
drop_return [] = []
drop_return (b ∷ []) = if b == 13 then [] else b ∷ []
drop_return (b ∷ c ∷ cs) = b ∷ drop_return (c ∷ cs)

-- The lines of a bufio.Scanner: a line that does not fit its buffer ends the scan.
unfoldable pub scan_lines : Bytes → Bytes → List Bytes
scan_lines acc [] = if length acc == 0 then [] else drop_return acc ∷ []
scan_lines acc (b ∷ bs) =
    let line = drop_return acc ∷ scan_lines [] bs in
    let longer = scan_lines (acc ++ b ∷ []) bs in
    if b == 10 then line else if leb max_scan_token (length acc + 1) then [] else longer

unfoldable pub collect : List Bytes → List Bytes
collect [] = []
collect (line ∷ lines) = elim (replay_line line) [
  | none ↦ collect lines
  | some cmd ↦ cmd ∷ collect lines
]

-- ReplayAOF of the contents of a file; the warnings of the log are left out.
unfoldable pub replay : Bytes → List Bytes
replay file = collect (scan_lines [] file)
