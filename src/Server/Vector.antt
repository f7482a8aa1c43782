-- ===== src/Server/Vector.antt =====
-- internal/server/handlers_vector.go: VGET and VDEL. The server's indexes are a map from a namespace
-- to its index; the six decimals of a float32 are a parameter.
pub mod Forget
pub mod Set
pub mod Batch
pub mod Write
pub mod Similar
pub mod Query
pub mod Request
pub mod ExKey
pub mod Decoded
pub mod Sent
pub mod Tests
use hybrid_vector_cache_hnsw.Common.{ℕ, Option, none, some, List, [], ◌∷◌}
use hybrid_vector_cache_hnsw.Common.Int.{ℤ}
use hybrid_vector_cache_hnsw.Common.Bytes.{Bytes, bytes}
use hybrid_vector_cache_hnsw.Common.Dict.{Dict, lookup, insert}
use hybrid_vector_cache_hnsw.Protocol.Response.{Response, Items, nil, cons, bulk, nil_bulk, array}
use hybrid_vector_cache_hnsw.Store.{Store, VectorEntry}
use hybrid_vector_cache_hnsw.Store.Vector.{vget, vdel}
use hybrid_vector_cache_hnsw.Hnsw.{Index, delete}
use hybrid_vector_cache_hnsw.Server.Kv.{wrong_args, one_or_zero}

-- A bulk string for each number of a vector, by `print` of it.
unfoldable pub number_items : (ℕ → Bytes) → List ℕ → Items
number_items print [] = nil
number_items print (x ∷ xs) = cons (bulk (print x)) (number_items print xs)

abbrev pub vector_reply : (ℕ → Bytes) → Option VectorEntry → Response
vector_reply print none = nil_bulk
vector_reply print (some e) = array (number_items print e.vector)

-- handleVGet
unfoldable pub handle_vget : (ℕ → Bytes) → List Bytes → ℤ → ℤ → Store → Response × Store
handle_vget print (namespace ∷ id ∷ []) now later s =
    let (found, s') = vget namespace id now later s in (vector_reply print found, s')
handle_vget print args now later s = (wrong_args (bytes "VGET"), s)

-- idx.Delete(id), on the index of the namespace if it has one
abbrev pub delete_from : Bytes → Bytes → Option Index → Dict Index → Dict Index
delete_from namespace id none indexes = indexes
delete_from namespace id (some idx) indexes = insert namespace (delete id idx).1 indexes

-- handleVDel
unfoldable pub handle_vdel : List Bytes → Store × Dict Index → Response × Store × Dict Index
handle_vdel (namespace ∷ id ∷ []) (s, indexes) =
    let (deleted, s') = vdel namespace id s in
    (one_or_zero deleted, s', delete_from namespace id (lookup namespace indexes) indexes)
handle_vdel args (s, indexes) = (wrong_args (bytes "VDEL"), s, indexes)
