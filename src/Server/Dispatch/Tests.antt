-- ===== src/Server/Dispatch/Tests.antt =====
-- The theorems on the sessions of a client at concrete batches.
use mathlib.Core.Option
use hybrid_vector_cache_hnsw.Common.{
  ◌≡◌, refl, true, false, none, some, List, [], ◌∷◌, arith, length,
}
use hybrid_vector_cache_hnsw.Common.Int.{pos}
use hybrid_vector_cache_hnsw.Common.Bytes.{Bytes, bytes, same}
use hybrid_vector_cache_hnsw.Common.Dict.{lookup, insert}
use hybrid_vector_cache_hnsw.Protocol.Command.{Command, has_byte, print}
use hybrid_vector_cache_hnsw.Protocol.Parse.{to_upper, is_space, space_width, is_line_end}
use hybrid_vector_cache_hnsw.Protocol.Parse.RoundTrip.{IsFramable}
use hybrid_vector_cache_hnsw.Protocol.Response.{error, bulk, ok_response}
use hybrid_vector_cache_hnsw.Store.{Store, empty}
use hybrid_vector_cache_hnsw.Store.Kv
use hybrid_vector_cache_hnsw.Server.Kv.{handle_set, handle_get}
use hybrid_vector_cache_hnsw.Persist.{write}
use hybrid_vector_cache_hnsw.Server.Dispatch.{
  Server, Clock, Handler, Handlers, run_batch, dispatch, execute_command, log_command, run_handler,
  switch, is_mutative,
}
use hybrid_vector_cache_hnsw.Server.Dispatch.Session.{
  logged, opens, AllErrors, AllClosed, run_batch_closed,
}
use hybrid_vector_cache_hnsw.Server.Recovery.{start_up}
use hybrid_vector_cache_hnsw.Server.Recovery.Session.{
  logged_commands, execute_each, start_up-run_batch,
}

abbrev refuse : Handler (Unit {0})
refuse c args d = (some (error (bytes "not here")), d)

abbrev no_vectors : Handlers (Unit {0})
no_vectors = record {
  info = refuse;
  vset = refuse;
  vget = refuse;
  vdel = refuse;
  vcount = refuse;
  vsimilarity = refuse;
  vindex = refuse;
  vmset = refuse;
  vexpire = refuse;
  vns = refuse;
}

abbrev plain : Bytes → Bytes
plain p = p

abbrev guarded : Server (Unit {0})
guarded = record { store = empty; indexes = tt; aof = some []; require_pass = bytes "pw" }

abbrev filled : Store
filled = Kv.set (bytes "k") (bytes "v") empty

abbrev t : Clock
t = record { now = pos 1; later = pos 2 }

abbrev set_k : Command
set_k = record { name = bytes "SET"; args = bytes "k" ∷ bytes "v" ∷ [] }

abbrev get_k : Command
get_k = record { name = bytes "GET"; args = bytes "k" ∷ [] }

abbrev batch : List (Clock × Command)
batch = (t, set_k) ∷ (t, get_k) ∷ []

abbrev guess : Command
guess = record { name = bytes "AUTH"; args = bytes "no" ∷ [] }

ran : run_batch plain no_vectors batch true guarded ≡ (
  ok_response ∷ bulk (bytes "v") ∷ [],
  true,
  record guarded { store = filled; aof = some (write [] (bytes "SET k v")) },
)
unfolding run_batch dispatch execute_command log_command run_handler to_upper same switch
    is_mutative handle_set handle_get Kv.get lookup Kv.set insert print
ran = refl

logged_set : logged batch (run_batch plain no_vectors batch true guarded).0 ≡ bytes "SET k v" ∷ []
unfolding is_mutative same print
logged_set = rw ran refl

closed_commands : AllClosed plain (bytes "pw") ((t, guess) ∷ (t, set_k) ∷ [])
unfolding opens to_upper same
closed_commands = (refl, (refl, tt))

run_batch_closed_example :
    AllErrors (run_batch plain no_vectors ((t, guess) ∷ (t, set_k) ∷ []) false guarded).0
    × (length (run_batch plain no_vectors ((t, guess) ∷ (t, set_k) ∷ []) false guarded).0 ≡ 2)
    × ((run_batch plain no_vectors ((t, guess) ∷ (t, set_k) ∷ []) false guarded).1 ≡ false)
    × ((run_batch plain no_vectors ((t, guess) ∷ (t, set_k) ∷ []) false guarded).2 ≡ guarded)
run_batch_closed_example =
    run_batch_closed plain no_vectors ((t, guess) ∷ (t, set_k) ∷ []) guarded (omega arith)
      closed_commands

abbrev restarted : Server (Unit {0})
restarted = record guarded { aof = none }

logged_set_command :
    logged_commands batch (run_batch plain no_vectors batch true guarded).0 ≡ set_k ∷ []
unfolding is_mutative same
logged_set_command = rw ran refl

set_k-IsFramable : IsFramable set_k
unfolding to_upper print has_byte is_line_end
set_k-IsFramable = record {
  named = omega arith;
  name_plain = (refl, (refl, (refl, tt)));
  name_upper = refl;
  readable = (
    record {
      nonempty = omega arith;
      no_backslash = omega arith;
      plain_unless_quoted = λ h. (refl, tt);
    },
    (
      record {
        nonempty = omega arith;
        no_backslash = omega arith;
        plain_unless_quoted = λ h. (refl, tt);
      },
      tt,
    ),
  );
  one_line = omega arith;
  no_return = refl;
  fits = omega arith;
}

start_up-run_batch_example :
    start_up plain no_vectors
      (λ n. t)
      (run_batch plain no_vectors batch true guarded).2.aof
      restarted
    ≡ Option.map
        (λ (s : Server (Unit {0})). record s {
          aof = (run_batch plain no_vectors batch true guarded).2.aof;
        })
        (execute_each plain no_vectors
          (λ n. t)
          0
          (logged_commands batch (run_batch plain no_vectors batch true guarded).0)
          restarted)
start_up-run_batch_example =
    start_up-run_batch plain no_vectors (λ n. t) batch true guarded restarted refl
      (rw logged_set (
        record {
          one_line = omega arith;
          no_space_end = unfold is_space in refl;
          no_wide_space_end = unfold space_width in refl;
          fits = omega arith;
        },
        tt,
      ))
      (rw logged_set_command (set_k-IsFramable, tt))
