-- ===== src/Server/Admin.antt =====
-- internal/server/handlers_admin.go: VEXPIRE and VNS; internal/server/handlers_vector.go: VCOUNT.
-- The server's indexes are a map from a namespace to an index of any type.
pub mod Drop
use hybrid_vector_cache_hnsw.Common.{
  ℕ, Bool, true, false, Option, none, some, List, [], ◌∷◌, ◌++◌, if◌then◌else◌,
}
use hybrid_vector_cache_hnsw.Common.Int.{ℤ, pos}
use hybrid_vector_cache_hnsw.Common.Bytes.{Bytes, bytes, same}
use hybrid_vector_cache_hnsw.Common.Dict.{Dict, remove}
use hybrid_vector_cache_hnsw.Protocol.Parse.{to_upper}
use hybrid_vector_cache_hnsw.Protocol.Response.{
  Response, Items, nil, cons, error, integer, bulk, array,
}
use hybrid_vector_cache_hnsw.Store.{Store}
use hybrid_vector_cache_hnsw.Store.Vector.{vexpire_namespace, vns_drop, vcount}
use hybrid_vector_cache_hnsw.Store.Listing.{NamespaceInfo, vns_list}
use hybrid_vector_cache_hnsw.Server.Kv.{wrong_args, positive_seconds, seconds_duration, one_or_zero}

-- handleVExpire
unfoldable pub handle_vexpire : List Bytes → ℤ → ℤ → Store → Response × Store
handle_vexpire (namespace ∷ n ∷ []) now later s = elim (positive_seconds n) [
  | none ↦ (error (bytes "invalid expire time"), s)
  | some k ↦
      let (done, s') = vexpire_namespace namespace (seconds_duration k) now later s in
      (one_or_zero done, s')
]
handle_vexpire args now later s = (wrong_args (bytes "VEXPIRE"), s)

-- handleVCount
unfoldable pub handle_vcount : List Bytes → ℤ → Store → Response
handle_vcount (namespace ∷ []) now s = integer (pos (vcount namespace now s))
handle_vcount args now s = wrong_args (bytes "VCOUNT")

-- The four responses of each namespace in VNS LIST.
unfoldable pub info_items : List NamespaceInfo → Items
info_items [] = nil
info_items (i ∷ is) = cons (bulk i.name) (
    cons (integer (pos i.vector_count))
      (cons (integer (pos i.approx_memory)) (cons (integer i.ttl_remaining) (info_items is))))

-- VNS DROP
unfoldable pub drop_command : {I : Type 0} → List Bytes → Store × Dict I → Response × Store × Dict I
drop_command (namespace ∷ []) (s, indexes) =
    let (ok, s') = vns_drop namespace s in (one_or_zero ok, s', remove namespace indexes)
drop_command args (s, indexes) = (wrong_args (bytes "VNS DROP"), s, indexes)

-- handleVNS
unfoldable pub handle_vns :
    {I : Type 0} → List Bytes → ℤ → Store × Dict I → Response × Store × Dict I
unfolding drop_command info_items to_upper
handle_vns [] now (s, indexes) = (wrong_args (bytes "VNS"), s, indexes)
handle_vns (sub ∷ args) now (s, indexes) =
    let name = to_upper sub in
    let unknown = error (bytes "unknown VNS subcommand '" ++ (name ++ bytes "'")) in
    if same name (bytes "DROP")
    then drop_command args (s, indexes)
    else if same name (bytes "LIST")
    then (array (info_items (vns_list now s)), s, indexes)
    else (unknown, s, indexes)
