-- ===== src/Server/Admin/Drop.antt =====
-- What VNS DROP leaves behind.
use hybrid_vector_cache_hnsw.Common.{◌≡◌, refl, ap, none, some, [], ◌∷◌, if◌then◌else◌, true, false}
use hybrid_vector_cache_hnsw.Common.Int.{ℤ}
use hybrid_vector_cache_hnsw.Common.Bytes.{Bytes, bytes, same}
use hybrid_vector_cache_hnsw.Common.Dict.{Dict, lookup, remove, lookup-remove}
use hybrid_vector_cache_hnsw.Protocol.Parse.{to_upper}
use hybrid_vector_cache_hnsw.Store.{Store}
use hybrid_vector_cache_hnsw.Store.Vector.{vns_drop}
use hybrid_vector_cache_hnsw.Store.Vector.View.{vector_view, vns_drop_removes}
use hybrid_vector_cache_hnsw.Server.Kv.{one_or_zero}
use hybrid_vector_cache_hnsw.Server.Admin.{handle_vns, drop_command}

handle_vns-drop :
    {I : Type 0} (sub namespace : Bytes) (now : ℤ) (s : Store) (indexes : Dict I)
    → to_upper sub ≡ bytes "DROP"
    → handle_vns (sub ∷ namespace ∷ []) now (s, indexes)
      ≡ (one_or_zero (vns_drop namespace s).0, (vns_drop namespace s).1, remove namespace indexes)
unfolding handle_vns drop_command same
handle_vns-drop sub namespace now s indexes is_drop = rw is_drop refl

-- VNS DROP of a namespace, in any case of letters, takes its entries and its index away together and
-- leaves every other namespace its entries and its index; it answers 1 if the store had the
-- namespace, and 0 if not.
vns_drop_forgets :
    {I : Type 0} (sub namespace n j : Bytes) (now t : ℤ) (s : Store) (indexes : Dict I)
    → to_upper sub ≡ bytes "DROP"
    → (vector_view t (handle_vns (sub ∷ namespace ∷ []) now (s, indexes)).1 n j
        ≡ (if same namespace n then none else vector_view t s n j))
      × (lookup n (handle_vns (sub ∷ namespace ∷ []) now (s, indexes)).2
          ≡ (if same namespace n then none else lookup n indexes))
      × ((handle_vns (sub ∷ namespace ∷ []) now (s, indexes)).0
          ≡ one_or_zero (elim (lookup namespace s.vectors) [ none ↦ false | some _ ↦ true ]))
vns_drop_forgets sub namespace n j now t s indexes is_drop =
    let (entries, had) = vns_drop_removes namespace n j t s in
    rw (handle_vns-drop sub namespace now s indexes is_drop)
      (entries, lookup-remove namespace n indexes, ap one_or_zero had)
