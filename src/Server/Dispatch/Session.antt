-- ===== src/Server/Dispatch/Session.antt =====
-- What a connection can do to the server: nothing without the password; and what it leaves in the
-- append-only file.
use mathlib.Core.List.{foldl}
use hybrid_vector_cache_hnsw.Common.{
  suc, ◌<◌, ◌≡◌, refl, ap, ◌∙◌, Bool, true, false, not, ◌&&◌, Option, none, some, List, [], ◌∷◌,
  arith, if◌then◌else◌, length,
}
use hybrid_vector_cache_hnsw.Common.Bytes.{Bytes, bytes, same, same_iff}
use hybrid_vector_cache_hnsw.Protocol.Command.{Command, print}
use hybrid_vector_cache_hnsw.Protocol.Parse.{to_upper}
use hybrid_vector_cache_hnsw.Protocol.Response.{Response, ok_response}
use hybrid_vector_cache_hnsw.Persist.{write, replay}
use hybrid_vector_cache_hnsw.Persist.Replay.{AllLoggable, replay-write}
use hybrid_vector_cache_hnsw.Server.Dispatch.{
  Server, Clock, Handlers, is_mutative, is_error, authenticate, execute_command, log_command,
  log_answer, answered, dispatch, run_batch,
}

-- The commands of a batch that are in the log by the rule: those with a mutative name and an answer
-- other than an error.
abbrev pub logged : List (Clock × Command) → List Response → List Bytes
logged ((c, cmd) ∷ cmds) (r ∷ rs) =
    let rest = logged cmds rs in
    if not (is_error r) && is_mutative cmd.name then print cmd ∷ rest else rest
logged cmds rs = []

-- An answer that is logged: a panic is none.
abbrev keeps : Command → Option Response → Bool
keeps cmd none = false
keeps cmd (some r) = not (is_error r) && is_mutative cmd.name

-- An answer that is an error.
abbrev fails : Option Response → Bool
fails none = false
fails (some r) = is_error r

-- What the server replays when it starts.
abbrev pub recovered : Option Bytes → List Bytes
recovered none = []
recovered (some file) = replay file

abbrev pub AllErrors : List Response → Type 0
AllErrors [] = Unit {0}
AllErrors (r ∷ rs) = (is_error r ≡ true) × AllErrors rs

foldl-if :
    (b : Bool) (x file : Bytes) (xs : List Bytes)
    → foldl write (if b then write file x else file) xs
      ≡ foldl write file (if b then x ∷ xs else xs)
foldl-if true x file xs = refl
foldl-if false x file xs = refl

-- A login: AUTH with one argument whose hash is that of the password.
knows : (Bytes → Bytes) → Bytes → List Bytes → Bool
knows hash pass (p ∷ []) = same (hash p) (hash pass)
knows hash pass args = false

unfoldable pub opens : (Bytes → Bytes) → Bytes → Command → Bool
unfolding knows
opens hash pass cmd = same (to_upper cmd.name) (bytes "AUTH") && knows hash pass cmd.args

authenticate-closed :
    (hash : Bytes → Bytes) (pass : Bytes) (args : List Bytes)
    → 0 < length pass
    → knows hash pass args ≡ false
    → (is_error (authenticate hash pass args false).0 ≡ true)
      × ((authenticate hash pass args false).1 ≡ false)
unfolding authenticate knows
authenticate-closed hash pass [] p k = (refl, refl)
authenticate-closed hash pass (a ∷ []) p k = ground arith
authenticate-closed hash pass (a ∷ b ∷ cs) p k = (refl, refl)

log_command-error :
    {X : Type 0} (cmd : Command) (r : Response) (srv : Server X)
    → is_error r ≡ true
    → log_command cmd r srv ≡ srv
unfolding log_command
log_command-error cmd r srv e = ground arith

log_answer-error :
    {X : Type 0} (cmd : Command) (o : Option Response) (srv : Server X)
    → fails o ≡ true
    → log_answer cmd o srv ≡ srv
log_answer-error cmd none srv e = refl
log_answer-error cmd (some r) srv e = log_command-error cmd r srv e

auth_upper : same (to_upper (bytes "AUTH")) (bytes "AUTH") ≡ true
unfolding to_upper same
auth_upper = refl

auth_is_not_mutative : is_mutative (bytes "AUTH") ≡ false
unfolding is_mutative same
auth_is_not_mutative = refl

abbrev pub AllClosed : (Bytes → Bytes) → Bytes → List (Clock × Command) → Type 0
AllClosed hash pass [] = Unit {0}
AllClosed hash pass ((c, cmd) ∷ cmds) = (opens hash pass cmd ≡ false) × AllClosed hash pass cmds

module _ {X : Type 0} (hash : Bytes → Bytes) (h : Handlers X) where
  execute_command-aof :
      (c : Clock) (cmd : Command) (auth : Bool) (srv : Server X)
      → (execute_command hash h c cmd auth srv).2.aof ≡ srv.aof
  unfolding execute_command
  execute_command-aof c cmd auth srv = ground arith

  log_command-aof :
      (cmd : Command) (r : Response) (srv : Server X) (file : Bytes)
      → srv.aof ≡ some file
      → (log_command cmd r srv).aof
        ≡ some (if not (is_error r) && is_mutative cmd.name then write file (print cmd) else file)
  unfolding log_command
  log_command-aof cmd r srv file e = ground arith

  log_answer-aof :
      (cmd : Command) (o : Option Response) (srv : Server X) (file : Bytes)
      → srv.aof ≡ some file
      → (log_answer cmd o srv).aof ≡ some (if keeps cmd o then write file (print cmd) else file)
  log_answer-aof cmd none srv file e = e
  log_answer-aof cmd (some r) srv file e = log_command-aof cmd r srv file e

  dispatch-aof :
      (c : Clock) (cmd : Command) (auth : Bool) (srv : Server X) (file : Bytes)
      → srv.aof ≡ some file
      → (dispatch hash h c cmd auth srv).2.aof
        ≡ some
            (if keeps cmd (dispatch hash h c cmd auth srv).0 then write file (print cmd) else file)
  unfolding dispatch
  dispatch-aof c cmd auth srv file e =
      log_answer-aof cmd (execute_command hash h c cmd auth srv).0
        (execute_command hash h c cmd auth srv).2 file (execute_command-aof c cmd auth srv ∙ e)

  abbrev IsLogged : List (Clock × Command) → List Response × Bool × Server X → Bytes → Type 0
  IsLogged cmds (rs, auth, srv) file = srv.aof ≡ some (foldl write file (logged cmds rs))

  answered-IsLogged :
      (o : Option Response) (c : Clock) (cmd : Command) (cmds : List (Clock × Command))
      (auth : Bool) (srv : Server X) (rest : List Response × Bool × Server X) (file : Bytes)
      → srv.aof ≡ some (if keeps cmd o then write file (print cmd) else file)
      → IsLogged cmds rest (if keeps cmd o then write file (print cmd) else file)
      → IsLogged ((c, cmd) ∷ cmds) (answered o (auth, srv) rest) file
  answered-IsLogged none c cmd cmds auth srv rest file e l = e
  answered-IsLogged (some r) c cmd cmds auth srv (rs, auth', srv') file e l =
      l ∙ ap some (foldl-if (keeps cmd (some r)) (print cmd) file (logged cmds rs))

  pub run_batch-aof :
      (cmds : List (Clock × Command)) (auth : Bool) (srv : Server X) (file : Bytes)
      → srv.aof ≡ some file
      → (run_batch hash h cmds auth srv).2.aof
        ≡ some (foldl write file (logged cmds (run_batch hash h cmds auth srv).0))
  unfolding run_batch
  run_batch-aof [] auth srv file e = e
  run_batch-aof ((c, cmd) ∷ cmds) auth srv file e =
      let (r, auth', srv') = dispatch hash h c cmd auth srv in
      let file' = if keeps cmd r then write file (print cmd) else file in
      let now = dispatch-aof c cmd auth srv file e in
      answered-IsLogged r c cmd cmds auth' srv' (run_batch hash h cmds auth' srv') file now
        (run_batch-aof cmds auth' srv' file' now)

  -- If the append-only file is empty before a batch, and what the batch logs is of a kind that the
  -- file can hold, a replay of the file afterwards gives, in order, exactly the commands of the
  -- batch that have a mutative name and were not answered with an error.
  pub replay-run_batch :
      (cmds : List (Clock × Command)) (auth : Bool) (srv : Server X)
      → srv.aof ≡ some []
      → AllLoggable (logged cmds (run_batch hash h cmds auth srv).0)
      → recovered (run_batch hash h cmds auth srv).2.aof
        ≡ logged cmds (run_batch hash h cmds auth srv).0
  replay-run_batch cmds auth srv e k =
      ap recovered (run_batch-aof cmds auth srv [] e)
      ∙ replay-write (logged cmds (run_batch hash h cmds auth srv).0) k

  closed_execute :
      (c : Clock) (cmd : Command) (srv : Server X)
      → 0 < length srv.require_pass
      → opens hash srv.require_pass cmd ≡ false
      → (fails (execute_command hash h c cmd false srv).0 ≡ true)
        × ((execute_command hash h c cmd false srv).1 ≡ false)
        × ((execute_command hash h c cmd false srv).2 ≡ srv)
  unfolding execute_command opens
  closed_execute c cmd srv p k = ground (arith, authenticate-closed hash srv.require_pass cmd.args)

  closed_dispatch :
      (c : Clock) (cmd : Command) (srv : Server X)
      → 0 < length srv.require_pass
      → opens hash srv.require_pass cmd ≡ false
      → (fails (dispatch hash h c cmd false srv).0 ≡ true)
        × ((dispatch hash h c cmd false srv).1 ≡ false)
        × ((dispatch hash h c cmd false srv).2 ≡ srv)
  unfolding dispatch
  closed_dispatch c cmd srv p k =
      let (refused, closed, same_server) = closed_execute c cmd srv p k in
      (
        refused,
        closed,
        log_answer-error cmd (execute_command hash h c cmd false srv).0
              (execute_command hash h c cmd false srv).2 refused
            ∙ same_server,
      )

  answered-closed :
      (o : Option Response) (cmds : List (Clock × Command)) (srv : Server X)
      (rest : List Response × Bool × Server X)
      → fails o ≡ true
      → AllErrors rest.0 × (length rest.0 ≡ length cmds) × (rest.1 ≡ false) × (rest.2 ≡ srv)
      → AllErrors (answered o (false, srv) rest).0
        × (length (answered o (false, srv) rest).0 ≡ suc (length cmds))
        × ((answered o (false, srv) rest).1 ≡ false)
        × ((answered o (false, srv) rest).2 ≡ srv)
  answered-closed none cmds srv rest e p = cc
  answered-closed (some r) cmds srv rest e (errors, count, closed, kept) =
      ((e, errors), ap suc count, closed, kept)

  -- Without the password a connection can do nothing: if a password is set and no command of a batch
  -- is a login with an argument of the password's hash, every command is answered with an error, the
  -- client stays unauthenticated, and the store, the indexes and the append-only file are as before.
  pub run_batch_closed :
      (cmds : List (Clock × Command)) (srv : Server X)
      → 0 < length srv.require_pass
      → AllClosed hash srv.require_pass cmds
      → AllErrors (run_batch hash h cmds false srv).0
        × (length (run_batch hash h cmds false srv).0 ≡ length cmds)
        × ((run_batch hash h cmds false srv).1 ≡ false)
        × ((run_batch hash h cmds false srv).2 ≡ srv)
  unfolding run_batch
  run_batch_closed [] srv p k = (tt, refl, refl, refl)
  run_batch_closed ((c, cmd) ∷ cmds) srv p (k, ks) =
      let (refused, closed, kept) = closed_dispatch c cmd srv p k in
      rw (closed, kept)
        (answered-closed (dispatch hash h c cmd false srv).0 cmds srv
          (run_batch hash h cmds false srv) refused (run_batch_closed cmds srv p ks))

  login_dispatch :
      (c : Clock) (pass : Bytes) (auth : Bool) (srv : Server X)
      → 0 < length srv.require_pass
      → hash pass ≡ hash srv.require_pass
      → dispatch hash h c (record { name = bytes "AUTH"; args = pass ∷ [] }) auth srv
        ≡ (some ok_response, true, srv)
  unfolding dispatch execute_command authenticate log_command
  login_dispatch c pass auth srv p k =
      ground (
        arith,
        auth_upper,
        auth_is_not_mutative,
        (same_iff (hash pass) (hash srv.require_pass)).1 k,
      )

  -- A login opens the connection: if a password is set, AUTH with an argument of its hash is answered
  -- OK, and the batch goes on as that of an authenticated client on the same server.
  run_batch_login :
      (c : Clock) (pass : Bytes) (cmds : List (Clock × Command)) (auth : Bool) (srv : Server X)
      → 0 < length srv.require_pass
      → hash pass ≡ hash srv.require_pass
      → run_batch hash h ((c, record { name = bytes "AUTH"; args = pass ∷ [] }) ∷ cmds) auth srv ≡ (
        ok_response ∷ (run_batch hash h cmds true srv).0,
        (run_batch hash h cmds true srv).1,
        (run_batch hash h cmds true srv).2,
      )
  unfolding run_batch
  run_batch_login c pass cmds auth srv p k = rw (login_dispatch c pass auth srv p k)
