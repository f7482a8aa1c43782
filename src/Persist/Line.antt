-- ===== src/Persist/Line.antt =====
-- One line of the append-only file: its checksum and its command are read back.
use hybrid_vector_cache_hnsw.Common.{
  ℕ, suc, ◌+◌, ◌*◌, ◌/◌, ◌%◌, ◌^◌, ◌≤◌, ◌<◌, ◌≡◌, ◌≢◌, refl, ap, ◌∙◌, Bool, false, some, List, [],
  ◌∷◌, ◌++◌, map, arith, length, sym, backwards, backwards-append, backwards-backwards,
  backwards_onto, true, zero, none, ◌==◌,
}
use hybrid_vector_cache_hnsw.Common.Bytes.{Bytes}
use hybrid_vector_cache_hnsw.Protocol.Parse.{
  trim_space, trim_start, space_width, is_space, is_space_pair, is_space_triple,
}
use hybrid_vector_cache_hnsw.Protocol.Parse.Lines.{OneLine, EndsOutside}
use hybrid_vector_cache_hnsw.Persist.Crc.{crc32, crc32_bounds}
use hybrid_vector_cache_hnsw.Persist.{
  hex_digit, hex8, log_line, hex_value, scan_hex, sscanf_hex8, split_colon, replay_line,
  max_scan_token,
}

hex_value-hex_digit : (d : ℕ) → d < 16 → hex_value (hex_digit d) ≡ some d
unfolding hex_value hex_digit
hex_value-hex_digit d h = ground arith

abbrev AllBelow : ℕ → List ℕ → Type 0
AllBelow n [] = Unit {0}
AllBelow n (d ∷ ds) = (d < n) × AllBelow n ds

-- The number that the digits write behind `acc`.
abbrev value_of : ℕ → List ℕ → ℕ
value_of acc [] = acc
value_of acc (d ∷ ds) = value_of (acc * 16 + d) ds

scan_hex-map :
    (ds : List ℕ) (width acc : ℕ)
    → AllBelow 16 ds
    → length ds ≤ width
    → scan_hex width acc (map hex_digit ds) ≡ value_of acc ds
unfolding scan_hex
scan_hex-map [] zero acc b h = refl
scan_hex-map [] (suc width) acc b h = refl
scan_hex-map (d ∷ ds) zero acc b h = absurd (omega arith)
scan_hex-map (d ∷ ds) (suc width) acc b h =
    ground
      (arith, hex_value-hex_digit d b.0, scan_hex-map ds width (acc * 16 + d) b.1 (omega arith))

sscanf_hex8-map :
    (d : ℕ) (ds : List ℕ)
    → AllBelow 16 (d ∷ ds)
    → length ds ≤ 7
    → sscanf_hex8 (map hex_digit (d ∷ ds)) ≡ some (value_of d ds)
unfolding sscanf_hex8
sscanf_hex8-map d ds b h = ground (arith, hex_value-hex_digit d b.0, scan_hex-map ds 7 d b.1 h)

-- The checksum that Write prints is the one that ReplayAOF reads.
sscanf_hex8-hex8 : (n : ℕ) → n < 2 ^ 32 → sscanf_hex8 (hex8 n) ≡ some n
unfolding hex8
sscanf_hex8-hex8 n h =
    let ds =
      n / 0x1000000 % 16
      ∷ n / 0x100000 % 16
      ∷ n / 0x10000 % 16
      ∷ n / 0x1000 % 16
      ∷ n / 0x100 % 16
      ∷ n / 16 % 16
      ∷ n % 16
      ∷ [] in
    let e : value_of (n / 0x10000000 % 16) ds ≡ n = omega arith in
    sscanf_hex8-map (n / 0x10000000 % 16) ds (omega arith) (omega arith) ∙ ap (λ (k : ℕ). some k) e

abbrev NoColon : Bytes → Type 0
NoColon [] = Unit {0}
NoColon (b ∷ bs) = (b ≢ b':') × NoColon bs

split_colon-append :
    (xs rest : Bytes) → NoColon xs → split_colon (xs ++ b':' ∷ rest) ≡ some (xs, rest)
unfolding split_colon
split_colon-append [] rest h = refl
split_colon-append (x ∷ xs) rest h = ground (arith, split_colon-append xs rest h.1)

hex_digit-ne :
    (d : ℕ) → d < 16 → (hex_digit d ≢ b':') × (hex_digit d ≢ 10) × (is_space (hex_digit d) ≡ false)
unfolding hex_digit is_space
hex_digit-ne d h = (ground arith, ground arith, ground arith)

NoColon-map : (ds : List ℕ) → AllBelow 16 ds → NoColon (map hex_digit ds)
NoColon-map [] h = tt
NoColon-map (d ∷ ds) h = ((hex_digit-ne d h.0).0, NoColon-map ds h.1)

OneLine-map :
    (ds : List ℕ) (rest : Bytes)
    → AllBelow 16 ds
    → OneLine rest
    → OneLine (map hex_digit ds ++ rest)
OneLine-map [] rest h o = o
OneLine-map (d ∷ ds) rest h o = ((hex_digit-ne d h.0).1, OneLine-map ds rest h.1 o)

-- The digits of a checksum, the first one apart.
abbrev low_digits : ℕ → List ℕ
low_digits n =
    n / 0x1000000 % 16
    ∷ n / 0x100000 % 16
    ∷ n / 0x10000 % 16
    ∷ n / 0x1000 % 16
    ∷ n / 0x100 % 16
    ∷ n / 16 % 16
    ∷ n % 16
    ∷ []

abbrev high_digit : ℕ → ℕ
high_digit n = n / 0x10000000 % 16

hex8_lem : (n : ℕ) → hex8 n ≡ map hex_digit (high_digit n ∷ low_digits n)
unfolding hex8
hex8_lem n = refl

digits-AllBelow : (n : ℕ) → AllBelow 16 (high_digit n ∷ low_digits n)
digits-AllBelow n = omega arith

-- A command that a line of the file can hold.
pub record IsLoggable (cmd : Bytes) : Type 0 where
  pub one_line : OneLine cmd
  pub no_space_end : EndsOutside is_space cmd
  pub no_wide_space_end : space_width true (backwards cmd []) ≡ 0
  pub fits : length cmd + 9 < max_scan_token

EndsOutside-append :
    (p : ℕ → Bool) (xs : Bytes) (b : ℕ) (ys : Bytes)
    → EndsOutside p (b ∷ ys)
    → EndsOutside p (xs ++ b ∷ ys)
EndsOutside-append p [] b ys h = h
EndsOutside-append p (x ∷ []) b ys h = h
EndsOutside-append p (x ∷ y ∷ xs) b ys h = EndsOutside-append p (y ∷ xs) b ys h

EndsOutside-colon : (cmd : Bytes) → EndsOutside is_space cmd → EndsOutside is_space (b':' ∷ cmd)
EndsOutside-colon [] h = unfold is_space in refl
EndsOutside-colon (b ∷ bs) h = h

pub log_line-EndsOutside : (cmd : Bytes) → IsLoggable cmd → EndsOutside is_space (log_line cmd)
unfolding log_line
log_line-EndsOutside cmd l =
    EndsOutside-append is_space (hex8 (crc32 cmd)) b':' cmd (EndsOutside-colon cmd l.no_space_end)

space_width-digit :
    (a : ℕ) (bs : Bytes) → is_space a ≡ false → a < 128 → space_width false (a ∷ bs) ≡ 0
unfolding space_width is_space_pair is_space_triple
space_width-digit a [] h k = ground arith
space_width-digit a (b ∷ []) h k = ground arith
space_width-digit a (b ∷ c ∷ bs) h k = ground arith

space_width-colon :
    (xs ys : Bytes) → space_width true xs ≡ 0 → space_width true (xs ++ b':' ∷ ys) ≡ 0
unfolding space_width is_space is_space_pair is_space_triple
space_width-colon [] [] h = refl
space_width-colon [] (y ∷ []) h = ground arith
space_width-colon [] (y ∷ z ∷ ys) h = ground arith
space_width-colon (a ∷ []) [] h = ground arith
space_width-colon (a ∷ []) (y ∷ ys) h = ground arith
space_width-colon (a ∷ b ∷ []) ys h = ground arith
space_width-colon (a ∷ b ∷ c ∷ xs) ys h = h

trim_start-eq_self :
    (turned : Bool) (xs : Bytes) → space_width turned xs ≡ 0 → trim_start turned 0 xs ≡ xs
unfolding trim_start
trim_start-eq_self turned [] h = refl
trim_start-eq_self turned (b ∷ bs) h = rw (h, trim_start) refl

-- A checksum and a command, as they stand in a line.
abbrev pub sealed : ℕ → Bytes → Bytes
sealed n cmd = hex8 n ++ b':' ∷ cmd

trim_space-sealed :
    (n : ℕ) (cmd : Bytes)
    → space_width true (backwards cmd []) ≡ 0
    → trim_space (sealed n cmd) ≡ sealed n cmd
unfolding trim_space
trim_space-sealed n cmd h =
    let front : trim_start false 0 (sealed n cmd) ≡ sealed n cmd = rw (hex8_lem n) (
      trim_start-eq_self false (map hex_digit (high_digit n ∷ low_digits n) ++ b':' ∷ cmd) (
        space_width-digit (hex_digit (high_digit n)) (map hex_digit (low_digits n) ++ b':' ∷ cmd)
          (hex_digit-ne (high_digit n) (omega arith)).2 (unfold hex_digit in ground arith))) in
    let turned : backwards (sealed n cmd) [] ≡ backwards cmd [] ++ b':' ∷ backwards (hex8 n) [] =
      backwards-append (hex8 n) (b':' ∷ cmd) []
      ∙ backwards_onto cmd (b':' ∷ backwards (hex8 n) []) in
    rw
      (
        front,
        turned,
        trim_start-eq_self true (backwards cmd [] ++ b':' ∷ backwards (hex8 n) [])
            (space_width-colon (backwards cmd []) (backwards (hex8 n) []) h),
      )
      (ap (λ (l : Bytes). backwards l []) (sym turned) ∙ backwards-backwards (sealed n cmd) [])

split_colon-sealed : (n : ℕ) (cmd : Bytes) → split_colon (sealed n cmd) ≡ some (hex8 n, cmd)
split_colon-sealed n cmd =
    split_colon-append (hex8 n) cmd
      (rw (hex8_lem n) (NoColon-map (high_digit n ∷ low_digits n) (digits-AllBelow n)))

-- A written line is read back as its command.
pub replay_line-log_line : (cmd : Bytes) → IsLoggable cmd → replay_line (log_line cmd) ≡ some cmd
unfolding replay_line log_line
replay_line-log_line cmd l = ground (
  arith,
  trim_space-sealed (crc32 cmd) cmd l.no_wide_space_end,
  split_colon-sealed (crc32 cmd) cmd,
  sscanf_hex8-hex8 (crc32 cmd) (crc32_bounds cmd),
)

-- A checksum of 32 bits that is not that of its command, in a line that ends in no white space.
pub record IsDamaged (n : ℕ) (cmd : Bytes) : Type 0 where
  pub small : n < 2 ^ 32
  pub differs : crc32 cmd ≢ n
  pub no_space_end : space_width true (backwards cmd []) ≡ 0

-- A line whose checksum is not that of its command is skipped.
pub replay_line-damaged :
    (n : ℕ) (cmd : Bytes) → IsDamaged n cmd → replay_line (sealed n cmd) ≡ none
unfolding replay_line
replay_line-damaged n cmd d =
    let differs : (crc32 cmd == n) ≡ false = ground (arith, d.differs) in
    rw
      (
        trim_space-sealed n cmd d.no_space_end,
        split_colon-sealed n cmd,
        sscanf_hex8-hex8 n d.small,
        differs,
        replay_line,
      )
      refl

pub log_line-OneLine : (cmd : Bytes) → IsLoggable cmd → OneLine (log_line cmd)
unfolding log_line
log_line-OneLine cmd l = rw (hex8_lem (crc32 cmd)) (
    OneLine-map (high_digit (crc32 cmd) ∷ low_digits (crc32 cmd)) (b':' ∷ cmd)
      (digits-AllBelow (crc32 cmd)) (omega arith, l.one_line))

pub length-log_line : (cmd : Bytes) → length (log_line cmd) ≡ length cmd + 9
unfolding log_line hex8
length-log_line cmd = omega arith
