-- ===== src/Persist/Replay.antt =====
-- The replay returns what was written, and skips a damaged line without losing the others.
use hybrid_vector_cache_hnsw.Common.{
  ℕ, ◌+◌, ◌<◌, ◌≡◌, ◌≢◌, refl, sym, ap, ◌∙◌, false, none, List, [], ◌∷◌, ◌++◌, map, arith,
  append-nil, append_assoc, length, ◌==◌, length-append,
}
use mathlib.Core.List.{foldl}
use hybrid_vector_cache_hnsw.Common.Bytes.{Bytes}
use hybrid_vector_cache_hnsw.Protocol.Parse.{is_space}
use hybrid_vector_cache_hnsw.Protocol.Parse.Lines.{OneLine, EndsOutside}
use hybrid_vector_cache_hnsw.Persist.{
  log_line, write, replay_line, max_scan_token, drop_return, scan_lines, collect, replay,
}
use hybrid_vector_cache_hnsw.Persist.Line.{
  IsLoggable, log_line-EndsOutside, replay_line-log_line, log_line-OneLine, length-log_line, sealed,
  IsDamaged, replay_line-damaged,
}

-- A line that the scanner hands over as it is.
pub record IsScanned (line : Bytes) : Type 0 where
  pub one_line : OneLine line
  pub no_space_end : EndsOutside is_space line
  pub fits : length line < max_scan_token

abbrev pub AllScanned : List Bytes → Type 0
AllScanned [] = Unit {0}
AllScanned (line ∷ lines) = IsScanned line × AllScanned lines

abbrev pub AllLoggable : List Bytes → Type 0
AllLoggable [] = Unit {0}
AllLoggable (cmd ∷ cmds) = IsLoggable cmd × AllLoggable cmds

-- A file of whole lines.
unfoldable pub text_of : List Bytes → Bytes
text_of [] = []
text_of (line ∷ lines) = line ++ 10 ∷ text_of lines

is_space-return : (b : ℕ) → is_space b ≡ false → (b == 13) ≡ false
unfolding is_space
is_space-return b h = ground arith

drop_return-eq_self : (line : Bytes) → EndsOutside is_space line → drop_return line ≡ line
unfolding drop_return
drop_return-eq_self [] h = refl
drop_return-eq_self (b ∷ []) h = ground (arith, is_space-return b h)
drop_return-eq_self (b ∷ c ∷ cs) h = ap (◌∷◌ b) (drop_return-eq_self (c ∷ cs) h)

scan_lines-step :
    (acc : Bytes) (b : ℕ) (bs : Bytes)
    → b ≢ 10
    → length acc + 1 < max_scan_token
    → scan_lines acc (b ∷ bs) ≡ scan_lines (acc ++ b ∷ []) bs
unfolding scan_lines
scan_lines-step acc b bs n h = ground arith

scan_lines-newline :
    (acc rest : Bytes) → scan_lines acc (10 ∷ rest) ≡ drop_return acc ∷ scan_lines [] rest
unfolding scan_lines
scan_lines-newline acc rest = refl

scan_lines-line :
    (line acc rest : Bytes)
    → OneLine line
    → length acc + length line < max_scan_token
    → scan_lines acc (line ++ 10 ∷ rest) ≡ drop_return (acc ++ line) ∷ scan_lines [] rest
scan_lines-line [] acc rest o h =
    scan_lines-newline acc rest
    ∙ ap (λ (l : Bytes). drop_return l ∷ scan_lines [] rest) (sym (append-nil acc))
scan_lines-line (b ∷ line) acc rest o h =
    scan_lines-step acc b (line ++ 10 ∷ rest) o.0 (omega arith)
    ∙ scan_lines-line line (acc ++ b ∷ []) rest o.1 (omega (arith, length-append acc (b ∷ [])))
    ∙ ap (λ (l : Bytes). drop_return l ∷ scan_lines [] rest) (append_assoc acc (b ∷ []) line)

scan_lines-text_of : (lines : List Bytes) → AllScanned lines → scan_lines [] (text_of lines) ≡ lines
unfolding text_of
scan_lines-text_of [] h = unfold scan_lines in refl
scan_lines-text_of (line ∷ lines) h =
    scan_lines-line line [] (text_of lines) h.0.one_line (omega (arith, h.0.fits))
    ∙ ap (λ (l : Bytes). l ∷ scan_lines [] (text_of lines))
        (drop_return-eq_self line h.0.no_space_end)
    ∙ ap (◌∷◌ line) (scan_lines-text_of lines h.1)

log_line-IsScanned : (cmd : Bytes) → IsLoggable cmd → IsScanned (log_line cmd)
log_line-IsScanned cmd l = record {
  one_line = log_line-OneLine cmd l;
  no_space_end = log_line-EndsOutside cmd l;
  fits = omega (arith, length-log_line cmd, l.fits);
}

collect-log_lines :
    (cmds : List Bytes) (rest : List Bytes)
    → AllLoggable cmds
    → collect (map log_line cmds ++ rest) ≡ cmds ++ collect rest
unfolding collect
collect-log_lines [] rest h = refl
collect-log_lines (cmd ∷ cmds) rest h =
    ground (arith, replay_line-log_line cmd h.0, collect-log_lines cmds rest h.1)

AllScanned-append : (xs ys : List Bytes) → AllScanned xs → AllScanned ys → AllScanned (xs ++ ys)
AllScanned-append [] ys h k = k
AllScanned-append (x ∷ xs) ys h k = (h.0, AllScanned-append xs ys h.1 k)

AllScanned-map : (cmds : List Bytes) → AllLoggable cmds → AllScanned (map log_line cmds)
AllScanned-map [] h = tt
AllScanned-map (cmd ∷ cmds) h = (log_line-IsScanned cmd h.0, AllScanned-map cmds h.1)

collect-skip :
    (line : Bytes) (lines : List Bytes)
    → replay_line line ≡ none
    → collect (line ∷ lines) ≡ collect lines
unfolding collect
collect-skip line lines h = ground arith

collect-nil : collect [] ≡ []
unfolding collect
collect-nil = refl

-- A line that the replay skips takes no other with it.
replay-skips :
    (before after : List Bytes) (bad : Bytes)
    → AllLoggable before
    → AllLoggable after
    → IsScanned bad
    → replay_line bad ≡ none
    → replay (text_of (map log_line before ++ bad ∷ map log_line after)) ≡ before ++ after
unfolding replay
replay-skips before after bad h k s e =
    ap collect (
      scan_lines-text_of (map log_line before ++ bad ∷ map log_line after) (
        AllScanned-append (map log_line before) (bad ∷ map log_line after) (AllScanned-map before h)
          (s, AllScanned-map after k)))
    ∙ collect-log_lines before (bad ∷ map log_line after) h
    ∙ ap (◌++◌ before) (collect-skip bad (map log_line after) e ∙ all)
  where
    all : collect (map log_line after) ≡ after
    all =
        ap collect (sym (append-nil (map log_line after)))
        ∙ collect-log_lines after [] k
        ∙ ap (◌++◌ after) collect-nil
        ∙ append-nil after

-- A file that the writer made of loggable commands, but for one line of a 32-bit checksum and a
-- command of which the one is not that of the other, gives back every other command, in order. The
-- line fits the scanner, has no other newline and ends in no white space.
pub replay_damaged :
    (before after : List Bytes) (n : ℕ) (cmd : Bytes)
    → AllLoggable before
    → AllLoggable after
    → IsScanned (sealed n cmd)
    → IsDamaged n cmd
    → replay (text_of (map log_line before ++ sealed n cmd ∷ map log_line after)) ≡ before ++ after
replay_damaged before after n cmd h k s d =
    replay-skips before after (sealed n cmd) h k s (replay_line-damaged n cmd d)

foldl-write :
    (cmds : List Bytes) (file : Bytes) → foldl write file cmds ≡ file ++ text_of (map log_line cmds)
unfolding write text_of
foldl-write [] file = sym (append-nil file)
foldl-write (cmd ∷ cmds) file =
    let rest = text_of (map log_line cmds) in
    foldl-write cmds (write file cmd)
    ∙ append_assoc file (log_line cmd ++ 10 ∷ []) rest
    ∙ ap (◌++◌ file) (append_assoc (log_line cmd) (10 ∷ []) rest)

-- The file that the writer makes of commands, each with no newline, no white space at its end and
-- at most 65526 bytes, is replayed as those commands, in order.
pub replay-write : (cmds : List Bytes) → AllLoggable cmds → replay (foldl write [] cmds) ≡ cmds
unfolding replay
replay-write cmds h =
    ap (λ (f : Bytes). collect (scan_lines [] f)) (foldl-write cmds [])
    ∙ ap collect (
        scan_lines-text_of (map log_line cmds) (AllScanned-map cmds h)
        ∙ sym (append-nil (map log_line cmds)))
    ∙ collect-log_lines cmds [] h
    ∙ ap (◌++◌ cmds) collect-nil
    ∙ append-nil cmds
