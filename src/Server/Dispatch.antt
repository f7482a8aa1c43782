-- ===== src/Server/Dispatch.antt =====
-- internal/server/server.go: ExecuteCommand, dispatch and the batch loop of handleConnection.
-- sha256 is a parameter. The handlers of handlers_vector.go, handlers_hnsw.go and
-- handlers_admin.go are the fields of `Handlers`, which may panic: what is proved holds for every
-- choice of them.
pub mod Session
mod Tests
use hybrid_vector_cache_hnsw.Common.{
  ℕ, ◌+◌, Bool, true, false, not, ◌&&◌, ◌||◌, Option, none, some, List, [], ◌∷◌, ◌++◌,
  if◌then◌else◌, length, ◌==◌,
}
use hybrid_vector_cache_hnsw.Common.Int.{ℤ}
use hybrid_vector_cache_hnsw.Common.Bytes.{Bytes, bytes, same, contains}
use hybrid_vector_cache_hnsw.Protocol.Command.{Command, print}
use hybrid_vector_cache_hnsw.Protocol.Parse.{to_upper}
use hybrid_vector_cache_hnsw.Protocol.Response.{Response, simple, error, ok_response, pong_response}
use hybrid_vector_cache_hnsw.Persist
use hybrid_vector_cache_hnsw.Store.{Store}
use hybrid_vector_cache_hnsw.Server.Kv.{
  wrong_args, handle_set, handle_get, handle_del, handle_expire, handle_ttl,
}

-- A Server over a type of its indexes; `aof` is the contents of the append-only file, if there is
-- one.
pub record Server (X : Type 0) : Type 0 where
  pub store : Store
  pub indexes : X
  pub aof : Option Bytes
  pub require_pass : Bytes

-- What a handler may change.
abbrev pub Data : Type 0 → Type 0
Data X = Store × X

-- The clock readings of one command.
pub record Clock : Type 0 where
  pub now : ℤ
  pub later : ℤ

-- A handler gives its answer, or `none` for a panic, and what it left.
abbrev pub Handler : Type 0 → Type 0
Handler X = Clock → List Bytes → Data X → Option Response × Data X

pub record Handlers (X : Type 0) : Type 0 where
  pub info : Handler X
  pub vset : Handler X
  pub vget : Handler X
  pub vdel : Handler X
  pub vcount : Handler X
  pub vsimilarity : Handler X
  pub vindex : Handler X
  pub vmset : Handler X
  pub vexpire : Handler X
  pub vns : Handler X

-- strings.Join(args, " ")
unfoldable pub join : List Bytes → Bytes
join [] = []
join (x ∷ []) = x
join (x ∷ y ∷ ys) = x ++ b' ' ∷ join (y ∷ ys)

-- handlePing
unfoldable pub handle_ping : List Bytes → Response
unfolding join
handle_ping [] = pong_response
handle_ping (x ∷ xs) = simple (join (x ∷ xs))

-- A handler that touches the store alone.
abbrev on_store : {X : Type 0} → (Store → Response × Store) → Data X → Option Response × Data X
on_store f (s, x) = let (r, s') = f s in (some r, (s', x))

-- A `switch` on strings.
unfoldable pub switch : {A : Type 0} → Bytes → List (Bytes × A) → A → A
switch name [] other = other
switch name ((key, a) ∷ cases) other =
    let rest = switch name cases other in if same name key then a else rest

-- The switch of ExecuteCommand, behind AUTH.
unfoldable pub run_handler :
    {X : Type 0} → Handlers X → Clock → Command → Data X → Option Response × Data X
unfolding switch
run_handler h c cmd d =
    let args = cmd.args in
    let unknown = error (bytes "unknown command '" ++ (cmd.name ++ bytes "'")) in
    let cases =
      (bytes "PING", (some (handle_ping args), d))
      ∷ (bytes "SET", on_store (handle_set args c.now) d)
      ∷ (bytes "GET", on_store (handle_get args c.now c.later) d)
      ∷ (bytes "DEL", on_store (handle_del args) d)
      ∷ (bytes "EXPIRE", on_store (handle_expire args c.now c.later) d)
      ∷ (bytes "TTL", on_store (handle_ttl args c.now c.later) d)
      ∷ (bytes "INFO", h.info c args d)
      ∷ (bytes "VSET", h.vset c args d)
      ∷ (bytes "VGET", h.vget c args d)
      ∷ (bytes "VDEL", h.vdel c args d)
      ∷ (bytes "VCOUNT", h.vcount c args d)
      ∷ (bytes "VSIMILARITY", h.vsimilarity c args d)
      ∷ (bytes "VINDEX", h.vindex c args d)
      ∷ (bytes "VMSET", h.vmset c args d)
      ∷ (bytes "VEXPIRE", h.vexpire c args d)
      ∷ (bytes "VNS", h.vns c args d)
      ∷ [] in
    switch (to_upper cmd.name) cases (some unknown, d)

-- The case AUTH of ExecuteCommand: the answer, and whether the client is authenticated.
unfoldable pub authenticate : (Bytes → Bytes) → Bytes → List Bytes → Bool → Response × Bool
authenticate hash pass (p ∷ []) auth =
    if length pass == 0
    then (error (bytes "ERR Client sent AUTH, but no password is set"), auth)
    else if same (hash p) (hash pass)
    then (ok_response, true)
    else (error (bytes "ERR invalid password"), auth)
authenticate hash pass args auth =
    (error (bytes "ERR wrong number of arguments for 'AUTH' command"), auth)

-- isMutative
unfoldable pub is_mutative : Bytes → Bool
is_mutative name =
    contains
      (bytes "SET"
        ∷ bytes "DEL"
        ∷ bytes "EXPIRE"
        ∷ bytes "VSET"
        ∷ bytes "VDEL"
        ∷ bytes "VINDEX"
        ∷ bytes "VMSET"
        ∷ bytes "VEXPIRE"
        ∷ bytes "VNS"
        ∷ [])
      name

-- The type test of a response for *ErrorResponse
abbrev pub is_error : Response → Bool
is_error (error m) = true
is_error r = false

-- The write of dispatch to the append-only file; a failed write is only logged.
unfoldable pub log_command : {X : Type 0} → Command → Response → Server X → Server X
unfolding is_mutative
log_command cmd r srv = elim srv.aof [
  | none ↦ srv
  | some file ↦
      if not (is_error r) && is_mutative cmd.name
      then record srv { aof = some (Persist.write file (print cmd)) }
      else srv
]

-- The write of dispatch, which a panic skips.
abbrev pub log_answer : {X : Type 0} → Command → Option Response → Server X → Server X
log_answer cmd none srv = srv
log_answer cmd (some r) srv = log_command cmd r srv

-- A command of a batch, by its answer: a panic ends the loop as the command left it; else the rest of
-- the batch has run.
abbrev pub answered :
    {X : Type 0}
    → Option Response
    → Bool × Server X
    → List Response × Bool × Server X
    → List Response × Bool × Server X
answered none (auth, srv) rest = ([], auth, srv)
answered (some r) left (rs, auth, srv) = (r ∷ rs, auth, srv)

module _ {X : Type 0} (hash : Bytes → Bytes) (h : Handlers X) where
  -- ExecuteCommand, with the client's Authenticated
  unfoldable pub execute_command :
      Clock → Command → Bool → Server X → Option Response × Bool × Server X
  unfolding run_handler authenticate
  execute_command c cmd auth srv =
      let name = to_upper cmd.name in
      let (r, (s, x)) = run_handler h c cmd (srv.store, srv.indexes) in
      let (answer, auth') = authenticate hash srv.require_pass cmd.args auth in
      if not (length srv.require_pass == 0) && not auth && not (same name (bytes "AUTH"))
      then (some (error (bytes "ERR NOAUTH Authentication required")), auth, srv)
      else if same name (bytes "AUTH")
      then (some answer, auth', srv)
      else (r, auth, record srv { store = s; indexes = x })

  -- dispatch
  unfoldable pub dispatch : Clock → Command → Bool → Server X → Option Response × Bool × Server X
  unfolding execute_command
  dispatch c cmd auth srv =
      let (r, auth', srv') = execute_command c cmd auth srv in (r, auth', log_answer cmd r srv')

  -- The loop of handleConnection over a batch: the responses, the client's Authenticated and the
  -- server afterwards. Each command comes with its clock. handleConnection recovers from a panic of a
  -- handler and closes the connection.
  unfoldable pub run_batch :
      List (Clock × Command) → Bool → Server X → List Response × Bool × Server X
  run_batch [] auth srv = ([], auth, srv)
  run_batch ((c, cmd) ∷ cmds) auth srv =
      let (r, auth', srv') = dispatch c cmd auth srv in
      answered r (auth', srv') (run_batch cmds auth' srv')
