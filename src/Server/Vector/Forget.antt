-- ===== src/Server/Vector/Forget.antt =====
-- VDEL acts on the store and on the index of the namespace alike.
use hybrid_vector_cache_hnsw.Common.{
  ◌≡◌, refl, ap, ◌∙◌, true, false, ◌&&◌, none, some, [], ◌∷◌, if◌then◌else◌,
}
use hybrid_vector_cache_hnsw.Common.Int.{ℤ}
use hybrid_vector_cache_hnsw.Common.Bytes.{Bytes, same, same_refl}
use hybrid_vector_cache_hnsw.Common.Dict.{Dict, lookup, lookup-insert}
use hybrid_vector_cache_hnsw.Store.{Store}
use hybrid_vector_cache_hnsw.Store.Vector.View.{vector_view, find_entry, vdel_removes}
use hybrid_vector_cache_hnsw.Hnsw.{Index, delete}
use hybrid_vector_cache_hnsw.Hnsw.Keys.{IsIndexed}
use hybrid_vector_cache_hnsw.Hnsw.Contents.{stored, stored-delete}
use hybrid_vector_cache_hnsw.Server.Kv.{one_or_zero}
use hybrid_vector_cache_hnsw.Server.Vector.{handle_vdel}

-- VDEL on a namespace with an index takes the id out of the store and out of the index together: both
-- keep what they hold for every other id. It answers 1 if the store had the id, and 0 if not.
pub vdel_forgets :
    (namespace id n j : Bytes) (t : ℤ) (s : Store) (indexes : Dict Index) (idx : Index)
    → lookup namespace indexes ≡ some idx
    → IsIndexed idx
    → (vector_view t (handle_vdel (namespace ∷ id ∷ []) (s, indexes)).1 n j
        ≡ (if same namespace n && same id j then none else vector_view t s n j))
      × ((idx' : Index) × (lookup namespace (handle_vdel (namespace ∷ id ∷ []) (s, indexes)).2
            ≡ some idx')
          × (stored idx' j ≡ (if same id j then none else stored idx j)))
      × ((handle_vdel (namespace ∷ id ∷ []) (s, indexes)).0
          ≡ one_or_zero
              (elim (find_entry (lookup namespace s.vectors) id) [ none ↦ false | some _ ↦ true ]))
unfolding handle_vdel
vdel_forgets namespace id n j t s indexes idx has v =
    let (entries, had) = vdel_removes namespace id n j t s in
    (
      entries,
      (
        (delete id idx).1,
        rw has (
            lookup-insert namespace namespace (delete id idx).1 indexes
            ∙ rw (same_refl namespace) refl),
        (stored-delete id j idx v).0,
      ),
      ap one_or_zero had,
    )
