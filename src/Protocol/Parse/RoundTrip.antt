-- ===== src/Protocol/Parse/RoundTrip.antt =====
-- Parse always ends, and reads a pipeline of written commands back.
use hybrid_vector_cache_hnsw.Common.{
  ℕ, zero, suc, ◌+◌, ◌≤◌, ◌<◌, ◌≡◌, ◌≢◌, refl, sym, ap, ◌∙◌, false, none, some, List, [], ◌∷◌, ◌++◌,
  arith, append_assoc, if◌then◌else◌, length, ◌==◌, length-append,
}
use hybrid_vector_cache_hnsw.Common.Bytes.{Bytes}
use hybrid_vector_cache_hnsw.Protocol.Command.{Command, print, print_args}
use hybrid_vector_cache_hnsw.Protocol.Command.RoundTrip.{AllPlain, AllReadable, tokenize-print}
use hybrid_vector_cache_hnsw.Protocol.Parse.{
  max_line_length, Line, whole, too_long, ended, read_line, total_bytes, trim_right, is_line_end,
  After, stop, again, after_line, Reader, ReadError, parsed, out_of_fuel, parse_line, command_of,
  to_upper, parse_loop, parse,
}
use hybrid_vector_cache_hnsw.Protocol.Parse.Lines.{
  OneLine, read_line-whole, read_line_shrinks, EndsOutside, trim_right-eq_self, trim_right-concat,
}

-- One round, over what is known of the rounds behind it.
module _ (fuel : ℕ) (r : Reader) (commands : List Command)
    (ih : (r' : Reader) (cs : List Command)
      → length r'.buffered + total_bytes r'.coming < fuel
      → parse_loop fuel r' cs ≢ out_of_fuel)
    (h : length r.buffered + total_bytes r.coming < suc fuel) where
  after-ne-out_of_fuel :
      (r' : Reader) (after : After)
      → length r'.buffered + total_bytes r'.coming < fuel
      → elim after [ stop cs err ↦ parsed cs err r' | again cs ↦ parse_loop fuel r' cs ]
        ≢ out_of_fuel
  after-ne-out_of_fuel r' (stop cs err) less = λ x. cc
  after-ne-out_of_fuel r' (again cs) less = ih r' cs less

  round-ne-out_of_fuel :
      (l : Line)
      → read_line [] r.buffered r.coming ≡ l
      → parse_loop (suc fuel) r commands ≢ out_of_fuel
  unfolding parse_loop
  round-ne-out_of_fuel (too_long rest coming) e = rw (e, parse_loop) (λ x. cc)
  round-ne-out_of_fuel (ended acc) e = rw (e, parse_loop) (λ x. cc)
  round-ne-out_of_fuel (whole raw rest coming) e =
      rw (e, parse_loop)
        (after-ne-out_of_fuel (record r { buffered = rest; coming = coming })
          (after_line raw rest commands)
          (omega (arith, h, read_line_shrinks [] r.buffered r.coming raw rest coming e)))

-- The fuel of the outer loop is enough as soon as it is above the bytes that are left.
parse_loop-ne-out_of_fuel :
    (fuel : ℕ) (r : Reader) (commands : List Command)
    → length r.buffered + total_bytes r.coming < fuel
    → parse_loop fuel r commands ≢ out_of_fuel
parse_loop-ne-out_of_fuel zero r commands h = absurd (omega arith)
parse_loop-ne-out_of_fuel (suc fuel) r commands h =
    round-ne-out_of_fuel fuel r commands (parse_loop-ne-out_of_fuel fuel) h
      (read_line [] r.buffered r.coming) refl

-- Parse returns on every reader: the fuel of its outer loop never runs out.
pub parse-ne-out_of_fuel : (r : Reader) → parse r ≢ out_of_fuel
unfolding parse
parse-ne-out_of_fuel r =
    parse_loop-ne-out_of_fuel (length r.buffered + total_bytes r.coming + 1) r [] (omega arith)

-- A command that comes back from the wire as it is: its name is one upper-case word, its arguments
-- read back, and its line has no newline, does not end in a carriage return, and fits.
pub record IsFramable (c : Command) : Type 0 where
  pub named : 0 < length c.name
  pub name_plain : AllPlain c.name
  pub name_upper : to_upper c.name ≡ c.name
  pub readable : AllReadable c.args
  pub one_line : OneLine (print c)
  pub no_return : EndsOutside is_line_end (print c)
  pub fits : length (print c) + 2 ≤ max_line_length

abbrev pub AllFramable : List Command → Type 0
AllFramable [] = Unit {0}
AllFramable (c ∷ cs) = IsFramable c × AllFramable cs

-- The bytes of a pipeline: each command's line and "\r\n".
unfoldable pub frames : List Command → Bytes
frames [] = []
frames (c ∷ cs) = print c ++ 13 ∷ 10 ∷ frames cs

pub parse_line-print : (c : Command) → IsFramable c → parse_line (print c) ≡ some c
unfolding parse_line
parse_line-print c f =
    ap command_of (tokenize-print c f.named f.name_plain f.readable)
    ∙ (unfold command_of in ap (λ (n : Bytes). some (record c { name = n })) f.name_upper)

OneLine-concat : (xs : Bytes) (b : ℕ) → OneLine xs → b ≢ 10 → OneLine (xs ++ b ∷ [])
OneLine-concat [] b o n = (n, tt)
OneLine-concat (x ∷ xs) b o n = (o.0, OneLine-concat xs b o.1 n)

read_line-frame :
    (c : Command) (rest : Bytes) (coming : List Bytes)
    → IsFramable c
    → read_line [] (print c ++ 13 ∷ 10 ∷ rest) coming ≡ whole (print c ++ 13 ∷ 10 ∷ []) rest coming
read_line-frame c rest coming f =
    let line = print c ++ 13 ∷ [] in
    let size : length line ≡ length (print c) + 1 = length-append (print c) (13 ∷ []) in
    let split : (tail : Bytes) → line ++ 10 ∷ tail ≡ print c ++ 13 ∷ 10 ∷ tail =
      λ tail. append_assoc (print c) (13 ∷ []) (10 ∷ tail) in
    ap (λ (l : Bytes). read_line [] l coming) (sym (split rest))
    ∙ read_line-whole line [] rest coming (OneLine-concat (print c) 13 f.one_line (omega arith))
        (omega (arith, f.fits, size))
    ∙ ap (λ (l : Bytes). whole l rest coming) (split [])

trim_right-frame :
    (c : Command) → IsFramable c → trim_right is_line_end (print c ++ 13 ∷ 10 ∷ []) ≡ print c
trim_right-frame c f =
    ap (trim_right is_line_end) (sym (append_assoc (print c) (13 ∷ []) (10 ∷ [])))
    ∙ trim_right-concat is_line_end (print c ++ 13 ∷ []) 10 (unfold is_line_end in refl)
    ∙ trim_right-concat is_line_end (print c) 13 (unfold is_line_end in refl)
    ∙ trim_right-eq_self is_line_end (print c) f.no_return

pub length-print : (c : Command) → 0 < length c.name → 0 < length (print c)
unfolding print
length-print c h = omega (arith, length-append c.name (print_args c.args))

after_line-frame :
    (c : Command) (rest : Bytes) (commands : List Command)
    → IsFramable c
    → after_line (print c ++ 13 ∷ 10 ∷ []) rest commands
      ≡ (if length rest == 0 then stop (commands ++ c ∷ []) none else again (commands ++ c ∷ []))
unfolding after_line
after_line-frame c rest commands f =
    ground (arith, trim_right-frame c f, length-print c f.named, parse_line-print c f)

-- A round over a written command.
module _ (fuel : ℕ) (c : Command) (rest : Bytes) (coming : List Bytes) (ending : ReadError)
    (commands : List Command) (f : IsFramable c) where
  parse_loop-last :
      length rest ≡ 0
      → parse_loop
          (suc fuel)
          (record { buffered = print c ++ 13 ∷ 10 ∷ rest; coming = coming; ending = ending })
          commands
        ≡ parsed
            (commands ++ c ∷ [])
            none
            (record { buffered = rest; coming = coming; ending = ending })
  unfolding parse_loop
  parse_loop-last h =
      rw (read_line-frame c rest coming f, after_line-frame c rest commands f, h, parse_loop) refl

  parse_loop-more :
      0 < length rest
      → parse_loop
          (suc fuel)
          (record { buffered = print c ++ 13 ∷ 10 ∷ rest; coming = coming; ending = ending })
          commands
        ≡ parse_loop fuel
            (record { buffered = rest; coming = coming; ending = ending })
            (commands ++ c ∷ [])
  unfolding parse_loop
  parse_loop-more h =
      let e : (length rest == 0) ≡ false = ground arith in
      rw (read_line-frame c rest coming f, after_line-frame c rest commands f, e, parse_loop) refl

length-frames : (c : Command) (cs : List Command) → IsFramable c → 0 < length (frames (c ∷ cs))
unfolding frames
length-frames c cs f =
    omega (arith, length-append (print c) (13 ∷ 10 ∷ frames cs), length-print c f.named)

parse_loop-frames :
    (cs : List Command) (c : Command) (fuel : ℕ) (coming : List Bytes) (ending : ReadError)
    (commands : List Command)
    → AllFramable (c ∷ cs)
    → length cs < fuel
    → parse_loop fuel
        (record { buffered = frames (c ∷ cs); coming = coming; ending = ending })
        commands
      ≡ parsed
          (commands ++ c ∷ cs)
          none
          (record { buffered = []; coming = coming; ending = ending })
unfolding frames
parse_loop-frames [] c zero coming ending commands f h = absurd (omega arith)
parse_loop-frames [] c (suc fuel) coming ending commands f h =
    parse_loop-last fuel c [] coming ending commands f.0 refl
parse_loop-frames (d ∷ cs) c zero coming ending commands f h = absurd (omega arith)
parse_loop-frames (d ∷ cs) c (suc fuel) coming ending commands f h =
    parse_loop-more fuel c (frames (d ∷ cs)) coming ending commands f.0 (length-frames d cs f.1.0)
    ∙ parse_loop-frames cs d fuel coming ending (commands ++ c ∷ []) f.1 (omega arith)
    ∙ ap
        (λ (l : List Command).
          parsed l none (record { buffered = []; coming = coming; ending = ending }))
        (append_assoc commands (c ∷ []) (d ∷ cs))

length-le-frames : (cs : List Command) → AllFramable cs → length cs ≤ length (frames cs)
unfolding frames
length-le-frames [] f = omega arith
length-le-frames (c ∷ cs) f = omega (
  arith,
  length-append (print c) (13 ∷ 10 ∷ frames cs),
  length-print c f.0.named,
  length-le-frames cs f.1,
)

-- A pipeline of written commands, each framable, that is in the buffer is parsed into those
-- commands, all of them and nothing else, whatever is to come later.
pub parse-frames :
    (c : Command) (cs : List Command) (coming : List Bytes) (ending : ReadError)
    → AllFramable (c ∷ cs)
    → parse (record { buffered = frames (c ∷ cs); coming = coming; ending = ending })
      ≡ parsed (c ∷ cs) none (record { buffered = []; coming = coming; ending = ending })
unfolding parse
parse-frames c cs coming ending f =
    parse_loop-frames cs c (length (frames (c ∷ cs)) + total_bytes coming + 1) coming ending [] f
      (omega (arith, length-le-frames (c ∷ cs) f))
