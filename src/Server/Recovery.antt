-- ===== src/Server/Recovery.antt =====
-- cmd/server/main.go: the replay of the append-only file when the server starts. A reader over a
-- string gives its bytes in pieces of the size of the buffer, 4096. The n-th command that is executed
-- reads `clock n`.
pub mod Session
use mathlib.Core.Option
use hybrid_vector_cache_hnsw.Common.{
  ℕ, zero, suc, ◌+◌, Bool, true, false, Option, none, some, List, [], ◌∷◌, ◌++◌,
}
use hybrid_vector_cache_hnsw.Common.Bytes.{Bytes}
use hybrid_vector_cache_hnsw.Protocol.Command.{Command}
use hybrid_vector_cache_hnsw.Protocol.Parse.{Reader, eof, Parsed, parsed, out_of_fuel, parse}
use hybrid_vector_cache_hnsw.Persist.{replay}
use hybrid_vector_cache_hnsw.Server.Dispatch.{Server, Clock, Handlers, execute_command}

-- The next piece of a text, with room for some more bytes, and the pieces behind it.
unfoldable pub cut : ℕ → Bytes → Bytes × List Bytes
cut room [] = ([], [])
cut zero (b ∷ bs) = let (piece, more) = cut 4095 bs in ([], (b ∷ piece) ∷ more)
cut (suc room) (b ∷ bs) = let (piece, more) = cut room bs in (b ∷ piece, more)

-- bufio.NewReader(strings.NewReader(text))
unfoldable pub text_reader : Bytes → Reader
unfolding cut
text_reader text =
    let (piece, more) = cut 4096 text in
    record { buffered = []; coming = piece ∷ more; ending = eof }

-- The commands of a line; a line that Parse refuses is skipped.
abbrev pub commands_or_none : Parsed → List Command
commands_or_none (parsed cmds none r) = cmds
commands_or_none (parsed cmds (some err) r) = []
commands_or_none out_of_fuel = []

unfoldable pub line_commands : Bytes → List Command
line_commands line = commands_or_none (parse (text_reader (line ++ 10 ∷ [])))

module _ {X : Type 0} (hash : Bytes → Bytes) (h : Handlers X) (clock : ℕ → Clock) where
  -- The loop over the commands of a line, by a client with its Authenticated; `none` when a handler
  -- panics, which nothing recovers from here: the process ends.
  unfoldable pub execute_all : ℕ → List Command → Bool → Server X → Option (ℕ × Server X)
  execute_all n [] auth srv = some (n, srv)
  execute_all n (cmd ∷ cmds) auth srv =
      let (r, auth', srv') = execute_command hash h (clock n) cmd auth srv in
      let rest = execute_all (n + 1) cmds auth' srv' in elim r [ none ↦ none | some _ ↦ rest ]

  -- The loop over the lines, each with an authenticated client of its own.
  unfoldable pub recover : ℕ → List Bytes → Server X → Option (Server X)
  recover n [] srv = some srv
  recover n (line ∷ lines) srv = elim (execute_all n (line_commands line) true srv) [
    | none ↦ none
    | some (n', srv') ↦ recover n' lines srv'
  ]

  -- Start-up: without a file there is nothing to replay; else the file is the log from then on.
  unfoldable pub start_up : Option Bytes → Server X → Option (Server X)
  start_up none srv = some srv
  start_up (some file) srv =
      Option.map (λ (s : Server X). record s { aof = some file }) (recover 0 (replay file) srv)
