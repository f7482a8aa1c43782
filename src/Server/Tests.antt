-- ===== src/Server/Tests.antt =====
-- The theorems on the handlers at concrete requests.
use hybrid_vector_cache_hnsw.Common.{
  ℕ, none, some, true, false, ◌&&◌, ◌*◌, ◌≡◌, refl, [], ◌∷◌, arith, if◌then◌else◌,
}
use hybrid_vector_cache_hnsw.Common.Int.{pos, ◌+ℤ◌, ltb_ℤ}
use hybrid_vector_cache_hnsw.Common.Bytes.{Bytes, bytes, same}
use hybrid_vector_cache_hnsw.Protocol.Parse.{to_upper}
use hybrid_vector_cache_hnsw.Protocol.Response.{Response, bulk, nil_bulk, ok_response}
use hybrid_vector_cache_hnsw.Store.{Store, empty}
use hybrid_vector_cache_hnsw.Store.Kv.View.{view, value_of}
use hybrid_vector_cache_hnsw.Store.Vector.{vset, BatchEntry}
use hybrid_vector_cache_hnsw.Store.Vector.View.{vector_view}
use hybrid_vector_cache_hnsw.Common.Dict.{Dict, lookup}
use hybrid_vector_cache_hnsw.Store.Vector.View.{find_entry}
use hybrid_vector_cache_hnsw.Hnsw.{Index}
use hybrid_vector_cache_hnsw.Hnsw.Contents.{stored}
use hybrid_vector_cache_hnsw.Hnsw.Tests.{one_node, first}
use hybrid_vector_cache_hnsw.Server.Vector.{handle_vdel}
use hybrid_vector_cache_hnsw.Server.Vector.Forget.{vdel_forgets}
use hybrid_vector_cache_hnsw.Server.Admin.{handle_vns}
use hybrid_vector_cache_hnsw.Server.Kv.{
  one_or_zero, handle_set, handle_get, positive_seconds, reply_of,
}
use hybrid_vector_cache_hnsw.Server.Kv.Replies.{
  handle_get-eq-view, get_after_set_ex, set_ex_overflow,
}

abbrev k : Bytes
k = bytes "k"

abbrev v : Bytes
v = bytes "v"

abbrev filled : Store
filled = (handle_set (k ∷ v ∷ []) (pos 0) empty).1

handle_get-eq-view_example :
    (handle_get (k ∷ []) (pos 1) (pos 2) filled).0 ≡ reply_of (value_of (view (pos 1) filled k))
handle_get-eq-view_example = handle_get-eq-view k (pos 1) (pos 2) filled

get_after_set_ex_example :
    (handle_get
      (k ∷ [])
      (pos 9)
      (pos 9)
      (handle_set (k ∷ v ∷ bytes "ex" ∷ bytes "10" ∷ []) (pos 0) empty).1).0
    ≡ (if ltb_ℤ (pos 0 +ℤ pos (10 * 1000000000)) (pos 9) then nil_bulk else bulk v)
unfolding to_upper positive_seconds
get_after_set_ex_example =
    get_after_set_ex k v (bytes "ex") (bytes "10") 10 (pos 0) (pos 9) (pos 9) empty refl refl
      (omega arith)

-- SET k v EX 10000000000
set_ex_overflow_example :
    ((handle_set (k ∷ v ∷ bytes "EX" ∷ bytes "10000000000" ∷ []) (pos 0) empty).0 ≡ ok_response)
    × ((handle_get
          (k ∷ [])
          (pos 1)
          (pos 1)
          (handle_set (k ∷ v ∷ bytes "EX" ∷ bytes "10000000000" ∷ []) (pos 0) empty).1).0
        ≡ nil_bulk)
unfolding to_upper positive_seconds
set_ex_overflow_example =
    set_ex_overflow k v (bytes "EX") (bytes "10000000000") 10000000000 (pos 0) (pos 1) (pos 1) empty
      refl refl (omega arith) (omega arith)

abbrev a : Bytes
a = bytes "a"

abbrev x : BatchEntry
x = record { id = bytes "x"; vector = 1 ∷ []; metadata = [] }

abbrev one_space : Store
one_space = (vset a 1 x (pos 0) empty).1

abbrev indexes : Dict ℕ
indexes = (a, 7) ∷ []

abbrev dropped : Response × Store × Dict ℕ
dropped = handle_vns (bytes "drop" ∷ a ∷ []) (pos 1) (one_space, indexes)

-- A store with the vector of the index `one_node`.
abbrev with_vector : Store
with_vector =
    (vset k 2 (record { id = bytes "a"; vector = 1 ∷ 2 ∷ []; metadata = [] }) (pos 0) empty).1

abbrev behind_vdel : Response × Store × Dict Index
behind_vdel = handle_vdel (k ∷ bytes "a" ∷ []) (with_vector, (k, one_node) ∷ [])

vdel_forgets_example :
    (vector_view (pos 1) behind_vdel.1 k (bytes "a") ≡ (
      if same k k && same (bytes "a") (bytes "a")
      then none
      else vector_view (pos 1) with_vector k (bytes "a")))
    × ((idx' : Index) × (lookup k behind_vdel.2 ≡ some idx')
        × (stored idx' (bytes "a")
            ≡ (if same (bytes "a") (bytes "a") then none else stored one_node (bytes "a"))))
    × (behind_vdel.0
        ≡ one_or_zero (elim (find_entry (lookup k with_vector.vectors) (bytes "a")) [
          | none ↦ false
          | some _ ↦ true
        ]))
unfolding lookup same
vdel_forgets_example =
    vdel_forgets k (bytes "a") k (bytes "a") (pos 1) with_vector ((k, one_node) ∷ []) one_node refl
      first.indexed
