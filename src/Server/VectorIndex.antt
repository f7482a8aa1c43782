-- ===== src/Server/VectorIndex.antt =====
-- internal/server/handlers_hnsw.go: VINDEX. The files of the snapshots are left out.
pub mod Filled
pub mod Create
pub mod Kept
pub mod Params
pub mod Longer
pub mod Answers
pub mod Tests
use hybrid_vector_cache_hnsw.Common.{
  ℕ, zero, suc, ◌+◌, Bool, true, false, Option, none, some, List, [], ◌∷◌, ◌++◌, if◌then◌else◌, map,
  length,
}
use hybrid_vector_cache_hnsw.Common.Int.{ℤ}
use hybrid_vector_cache_hnsw.Common.Bytes.{Bytes, bytes, same}
use hybrid_vector_cache_hnsw.Common.Dict.{Dict, lookup, insert, remove}
use hybrid_vector_cache_hnsw.Common.Run.{Run, ok, panic, out_of_fuel, ◌>>=◌}
use hybrid_vector_cache_hnsw.Protocol.Parse.{to_upper}
use hybrid_vector_cache_hnsw.Protocol.Response.{Response, error, simple, decimal, ok_response}
use hybrid_vector_cache_hnsw.Similarity.{Float}
use hybrid_vector_cache_hnsw.Store.{Store, VectorEntry}
use hybrid_vector_cache_hnsw.Store.Vector.{BatchEntry, vsnapshot}
use hybrid_vector_cache_hnsw.Hnsw.{Index, new_index, set_ef}
use hybrid_vector_cache_hnsw.Server.Kv.{wrong_args, positive_seconds}
use hybrid_vector_cache_hnsw.Server.Words.{Checked, accepted, refused}
use hybrid_vector_cache_hnsw.Server.Vector.Write.{insert_all}

-- The three variables of CREATE.
pub record IndexParams : Type 0 where
  pub m : ℕ
  pub ef_construction : ℕ
  pub ef_search : ℕ

abbrev pub default_params : IndexParams
default_params = record { m = 16; ef_construction = 200; ef_search = 100 }

-- The switch over the name of a parameter.
unfoldable pub set_param : Bytes → ℕ → IndexParams → Checked IndexParams
set_param name value p =
    if same name (bytes "M")
    then accepted (record p { m = value })
    else if same name (bytes "EF_CONSTRUCTION")
    then accepted (record p { ef_construction = value })
    else if same name (bytes "EF_SEARCH")
    then accepted (record p { ef_search = value })
    else refused (bytes "unknown VINDEX CREATE parameter")

abbrev set_next : Bytes → Option ℕ → IndexParams → Checked IndexParams
set_next x none p = refused (bytes "invalid integer for VINDEX CREATE parameter")
set_next x (some value) p = set_param (to_upper x) value p

abbrev pub and_then :
    Checked IndexParams → (IndexParams → Checked IndexParams) → Checked IndexParams
and_then (refused m) k = refused m
and_then (accepted p) k = k p

-- The loop over the parameters of CREATE.
unfoldable pub read_params : List Bytes → IndexParams → Checked IndexParams
read_params [] p = accepted p
read_params (x ∷ []) p = refused (bytes "missing value for VINDEX CREATE parameter")
read_params (x ∷ v ∷ rest) p = and_then (set_next x (positive_seconds v) p) (read_params rest)

-- An entry of the store, as it is handed to idx.Insert.
abbrev pub batch_of : VectorEntry → BatchEntry
batch_of e = record { id = e.id; vector = e.vector; metadata = e.metadata }

abbrev no_index : Response
no_index = error (bytes "no index for namespace")

-- DROP
unfoldable pub drop_index : Bytes → Store × Dict Index → Response × Store × Dict Index
drop_index namespace (s, indexes) = elim (lookup namespace indexes) [
  | none ↦ (no_index, s, indexes)
  | some _ ↦ (ok_response, s, remove namespace indexes)
]

-- INFO
unfoldable pub index_info : Bytes → Store × Dict Index → Response × Store × Dict Index
index_info namespace (s, indexes) = elim (lookup namespace indexes) [
  | none ↦ (no_index, s, indexes)
  | some idx ↦ (
    simple (bytes "len:" ++ (decimal (length idx.nodes) ++ (bytes " ef:" ++ decimal idx.ef))),
    s,
    indexes,
  )
]

-- SET_EF, behind the reading of its number
abbrev pub set_index_ef : Bytes → Option ℕ → Store × Dict Index → Response × Store × Dict Index
set_index_ef namespace none (s, indexes) = (error (bytes "invalid EF value"), s, indexes)
set_index_ef namespace (some ef) (s, indexes) = elim (lookup namespace indexes) [
  | none ↦ (no_index, s, indexes)
  | some idx ↦ (ok_response, s, insert namespace (set_ef ef idx) indexes)
]

abbrev pub change_ef : Bytes → List Bytes → Store × Dict Index → Response × Store × Dict Index
change_ef namespace (x ∷ []) (s, indexes) = set_index_ef namespace (positive_seconds x) (s, indexes)
change_ef namespace args (s, indexes) =
    (error (bytes "wrong number of arguments for VINDEX SET_EF"), s, indexes)

module _ (f : Float) (draw : ℕ → ℕ) where
  -- CREATE behind its parameters, on a namespace without an index.
  unfoldable pub create_index :
      IndexParams → Bytes → ℤ → Store → Dict Index → Run (Response × Store × Dict Index)
  create_index p namespace now s indexes = do
    let idx = set_ef p.ef_search (new_index p.m p.ef_construction)
    idx' ← insert_all f draw 0 (map batch_of (vsnapshot namespace now s)) idx
    ok (ok_response, s, insert namespace idx' indexes)

  abbrev pub run_create :
      Checked IndexParams → Bytes → ℤ → Store × Dict Index → Run (Response × Store × Dict Index)
  run_create (refused m) namespace now (s, indexes) = ok (error m, s, indexes)
  run_create (accepted p) namespace now (s, indexes) = elim (lookup namespace indexes) [
    | some _ ↦ ok (error (bytes "index already exists for namespace"), s, indexes)
    | none ↦ create_index p namespace now s indexes
  ]

  -- handleVIndex
  unfoldable pub handle_vindex :
      List Bytes → ℤ → Store × Dict Index → Run (Response × Store × Dict Index)
  handle_vindex (sub ∷ namespace ∷ args) now d =
      let name = to_upper sub in
      if same name (bytes "CREATE")
      then run_create (read_params args default_params) namespace now d
      else if same name (bytes "DROP")
      then ok (drop_index namespace d)
      else if same name (bytes "INFO")
      then ok (index_info namespace d)
      else if same name (bytes "SET_EF")
      then ok (change_ef namespace args d)
      else ok (error (bytes "unknown VINDEX subcommand"), d.0, d.1)
  handle_vindex args now d = ok (wrong_args (bytes "VINDEX"), d.0, d.1)
