-- ===== src/Server/Recovery/Session.antt =====
-- A restart executes again what the commands of a connection left in the append-only file.
use mathlib.Core.Option
use mathlib.Core.List.{foldl}
use hybrid_vector_cache_hnsw.Common.{
  ℕ, zero, suc, ◌+◌, ◌<◌, ◌≡◌, refl, sym, ap, ◌∙◌, Bool, true, false, not, ◌&&◌, Option, none, some,
  List, [], ◌∷◌, ◌++◌, map, arith, append_assoc, if◌then◌else◌, length, length-append, Option-cases,
  inl, inr,
}
use hybrid_vector_cache_hnsw.Common.Bytes.{Bytes}
use hybrid_vector_cache_hnsw.Protocol.Command.{Command, print}
use hybrid_vector_cache_hnsw.Protocol.Response.{Response}
use hybrid_vector_cache_hnsw.Protocol.Parse.{
  max_line_length, whole, read_line, trim_right, is_line_end, after_line, stop, eof, parsed,
  parse_loop, parse, total_bytes,
}
use hybrid_vector_cache_hnsw.Protocol.Parse.Lines.{
  OneLine, read_line-step, read_line-newline, trim_right-eq_self, trim_right-concat,
}
use hybrid_vector_cache_hnsw.Protocol.Parse.RoundTrip.{
  IsFramable, AllFramable, parse_line-print, length-print,
}
use hybrid_vector_cache_hnsw.Persist.{write}
use hybrid_vector_cache_hnsw.Persist.Replay.{AllLoggable}
use hybrid_vector_cache_hnsw.Server.Dispatch.{
  Server, Clock, Handlers, is_error, is_mutative, execute_command, run_batch,
}
use hybrid_vector_cache_hnsw.Server.Dispatch.Session.{
  logged, recovered, run_batch-aof, replay-run_batch,
}
use hybrid_vector_cache_hnsw.Server.Recovery.{
  cut, text_reader, line_commands, execute_all, recover, start_up,
}

read_line-refill :
    (acc piece : Bytes) (more : List Bytes)
    → read_line acc [] (piece ∷ more) ≡ read_line acc piece more
unfolding read_line
read_line-refill acc piece more = refl

-- A line is read whole through the pieces of its text.
read_line-cut :
    (line acc : Bytes) (room : ℕ)
    → OneLine line
    → length acc + length line < max_line_length
    → read_line acc (cut room (line ++ 10 ∷ [])).0 (cut room (line ++ 10 ∷ [])).1
      ≡ whole (acc ++ (line ++ 10 ∷ [])) [] []
unfolding cut
read_line-cut [] acc zero o h =
    read_line-refill acc (10 ∷ []) [] ∙ read_line-newline acc [] [] (omega (arith, h))
read_line-cut [] acc (suc room) o h = read_line-newline acc [] [] (omega (arith, h))
read_line-cut (b ∷ line) acc zero o h =
    read_line-refill acc (b ∷ (cut 4095 (line ++ 10 ∷ [])).0) (cut 4095 (line ++ 10 ∷ [])).1
    ∙ read_line-step acc b (cut 4095 (line ++ 10 ∷ [])).0 (cut 4095 (line ++ 10 ∷ [])).1
        (omega (arith, h)) o.0
    ∙ read_line-cut line (acc ++ b ∷ []) 4095 o.1 (omega (arith, h, length-append acc (b ∷ [])))
    ∙ ap (λ (l : Bytes). whole l [] []) (append_assoc acc (b ∷ []) (line ++ 10 ∷ []))
read_line-cut (b ∷ line) acc (suc room) o h =
    read_line-step acc b (cut room (line ++ 10 ∷ [])).0 (cut room (line ++ 10 ∷ [])).1
      (omega (arith, h)) o.0
    ∙ read_line-cut line (acc ++ b ∷ []) room o.1 (omega (arith, h, length-append acc (b ∷ [])))
    ∙ ap (λ (l : Bytes). whole l [] []) (append_assoc acc (b ∷ []) (line ++ 10 ∷ []))

after_line-alone :
    (c : Command) → IsFramable c → after_line (print c ++ 10 ∷ []) [] [] ≡ stop (c ∷ []) none
unfolding after_line
after_line-alone c f =
    let trimmed : trim_right is_line_end (print c ++ 10 ∷ []) ≡ print c =
      trim_right-concat is_line_end (print c) 10 (unfold is_line_end in refl)
      ∙ trim_right-eq_self is_line_end (print c) f.no_return in
    ground (arith, trimmed, length-print c f.named, parse_line-print c f)

parse_loop-alone :
    (fuel : ℕ) (c : Command)
    → IsFramable c
    → parse_loop (suc fuel) (text_reader (print c ++ 10 ∷ [])) []
      ≡ parsed (c ∷ []) none (record { buffered = []; coming = []; ending = eof })
unfolding parse_loop text_reader
parse_loop-alone fuel c f =
    let read =
      read_line-refill [] (cut 4096 (print c ++ 10 ∷ [])).0 (cut 4096 (print c ++ 10 ∷ [])).1
      ∙ read_line-cut (print c) [] 4096 f.one_line (omega (arith, f.fits)) in
    rw (read, after_line-alone c f, parse_loop) refl

-- The line of a written command is that command.
line_commands-print : (c : Command) → IsFramable c → line_commands (print c) ≡ c ∷ []
unfolding line_commands parse
line_commands-print c f =
    let r = text_reader (print c ++ 10 ∷ []) in
    let next : length r.buffered + total_bytes r.coming + 1
        ≡ suc (length r.buffered + total_bytes r.coming) =
      omega arith in
    rw (next, parse_loop-alone (length r.buffered + total_bytes r.coming) c f) refl

-- The commands of a batch that are in the log.
abbrev pub logged_commands : List (Clock × Command) → List Response → List Command
logged_commands ((c, cmd) ∷ cmds) (r ∷ rs) =
    let rest = logged_commands cmds rs in
    if not (is_error r) && is_mutative cmd.name then cmd ∷ rest else rest
logged_commands cmds rs = []

print-if :
    (b : Bool) (c : Command) (cs : List Command)
    → map print (if b then c ∷ cs else cs) ≡ (if b then print c ∷ map print cs else map print cs)
print-if true c cs = refl
print-if false c cs = refl

logged-print :
    (cmds : List (Clock × Command)) (rs : List Response)
    → logged cmds rs ≡ map print (logged_commands cmds rs)
logged-print [] [] = refl
logged-print [] (r ∷ rs) = refl
logged-print (x ∷ cmds) [] = refl
logged-print ((c, cmd) ∷ cmds) (r ∷ rs) =
    let keep = not (is_error r) && is_mutative cmd.name in
    rw (logged-print cmds rs) (sym (print-if keep cmd (logged_commands cmds rs)))

module _ {X : Type 0} (hash : Bytes → Bytes) (h : Handlers X) (clock : ℕ → Clock) where
  -- Each command by an authenticated client of its own; `none` if a handler panics.
  abbrev pub execute_each : ℕ → List Command → Server X → Option (Server X)
  execute_each n [] srv = some srv
  execute_each n (cmd ∷ cmds) srv =
      let rest = execute_each (n + 1) cmds (execute_command hash h (clock n) cmd true srv).2 in
      elim (execute_command hash h (clock n) cmd true srv).0 [ none ↦ none | some _ ↦ rest ]

  recover-print :
      (n : ℕ) (cmds : List Command) (srv : Server X)
      → AllFramable cmds
      → recover hash h clock n (map print cmds) srv ≡ execute_each n cmds srv
  unfolding recover execute_all
  recover-print n [] srv f = refl
  recover-print n (c ∷ cmds) srv f =
      elim (Option-cases (execute_command hash h (clock n) c true srv).0) [
        | inl e ↦ rw (line_commands-print c f.0, recover, execute_all, execute_each, e) refl
        | inr (r, e) ↦
            rw (line_commands-print c f.0, recover, execute_all, execute_each, e)
              (recover-print (n + 1) cmds (execute_command hash h (clock n) c true srv).2 f.1)
      ]

  with_log : Option Bytes → Option (Server X) → Option (Server X)
  with_log o s = Option.map (λ (srv : Server X). record srv { aof = o }) s

  start_up-recovered :
      (o : Option Bytes) (file : Bytes) (srv : Server X)
      → o ≡ some file
      → start_up hash h clock o srv ≡ with_log o (recover hash h clock 0 (recovered o) srv)
  unfolding start_up with_log
  start_up-recovered none file srv e = cc
  start_up-recovered (some f) file srv e = refl

  -- A server that starts with the append-only file that a batch left on an empty one executes, in
  -- order, exactly the commands of the batch that have a mutative name and were given an answer other
  -- than an error, and it goes on with that file; a panic of a handler, which ends the batch, ends the
  -- start-up. The commands are of a kind that the file can hold and that Parse reads back.
  pub start_up-run_batch :
      (cmds : List (Clock × Command)) (auth : Bool) (srv fresh : Server X)
      → srv.aof ≡ some []
      → AllLoggable (logged cmds (run_batch hash h cmds auth srv).0)
      → AllFramable (logged_commands cmds (run_batch hash h cmds auth srv).0)
      → start_up hash h clock (run_batch hash h cmds auth srv).2.aof fresh
        ≡ Option.map
            (λ (s : Server X). record s { aof = (run_batch hash h cmds auth srv).2.aof })
            (execute_each 0 (logged_commands cmds (run_batch hash h cmds auth srv).0) fresh)
  unfolding with_log
  start_up-run_batch cmds auth srv fresh e k f =
      let (answers, auth', behind) = run_batch hash h cmds auth srv in
      start_up-recovered behind.aof (foldl write [] (logged cmds answers)) fresh
        (run_batch-aof hash h cmds auth srv [] e)
      ∙ ap (with_log behind.aof) (
          ap (λ (lines : List Bytes). recover hash h clock 0 lines fresh)
            (replay-run_batch hash h cmds auth srv e k ∙ logged-print cmds answers)
          ∙ recover-print 0 (logged_commands cmds answers) fresh f)
