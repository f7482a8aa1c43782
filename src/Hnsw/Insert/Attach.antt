-- ===== src/Hnsw/Insert/Attach.antt =====
-- The attachment of a registered node: it returns, and the graph stays linked.
use hybrid_vector_cache_hnsw.Common.{
  ℕ, ◌+◌, ◌-◌, ◌≤◌, ◌<◌, ◌≡◌, refl, Bool, true, false, List, [], ◌∷◌, arith, if◌then◌else◌, length,
  ltb,
}
use hybrid_vector_cache_hnsw.Common.Run.{ok, ◌>>=◌, Returns, Returns-bind}
use hybrid_vector_cache_hnsw.Similarity.{Float}
use hybrid_vector_cache_hnsw.Heap.Items.{All, All-map}
use hybrid_vector_cache_hnsw.Hnsw.{Node, Index}
use hybrid_vector_cache_hnsw.Hnsw.Neighbors.Chosen.{IsDim}
use hybrid_vector_cache_hnsw.Hnsw.Insert.{descend, connect, attach}
use hybrid_vector_cache_hnsw.Hnsw.Insert.Shape.{HasLayer, Alike-HasLayer, IsLinked}
use hybrid_vector_cache_hnsw.Hnsw.Insert.Links.{Relinked}
use hybrid_vector_cache_hnsw.Hnsw.Insert.Connect.{
  HasLayer-below, connect-Relinked, descend-HasLayer, lower,
}

-- The index behind the attachment: linked anew, with the same maps and widths, and an entry point
-- that has the top layer.
pub record Attached (idx idx' : Index) : Type 0 where
  pub relinked : Relinked idx.nodes idx'.nodes
  pub id_map : idx'.id_map ≡ idx.id_map
  pub reverse_map : idx'.reverse_map ≡ idx.reverse_map
  pub wide : idx'.ef_construction ≡ idx.ef_construction
  pub width : idx'.ef ≡ idx.ef
  pub degree : idx'.m ≡ idx.m
  pub entry : HasLayer idx'.nodes idx'.current_max_layer idx'.entry_point

module _ (f : Float) (dim : ℕ) (idx : Index) (id : ℕ) (vec : List ℕ) (level : ℕ)
    (size : length vec ≡ dim) (wide : 0 < idx.ef_construction) (dims : IsDim dim idx.nodes)
    (linked : IsLinked idx.nodes) (entry : HasLayer idx.nodes idx.current_max_layer idx.entry_point)
    (new : (l : ℕ) → l ≤ level → HasLayer idx.nodes l id) where
  abbrev top : ℕ
  top = idx.current_max_layer

  abbrev outcome : List Node → Index
  outcome nodes =
      if ltb top level
      then record idx {
        nodes = nodes;
        insert_count = idx.insert_count + 1;
        entry_point = id;
        current_max_layer = level;
      }
      else record idx { nodes = nodes; insert_count = idx.insert_count + 1 }

  outcome-Attached : (nodes : List Node) → Relinked idx.nodes nodes → Attached idx (outcome nodes)
  outcome-Attached nodes r = by_level (ltb top level)
    where
      by_level :
          (above : Bool)
          → Attached idx (
              if above
              then record idx {
                nodes = nodes;
                insert_count = idx.insert_count + 1;
                entry_point = id;
                current_max_layer = level;
              }
              else record idx { nodes = nodes; insert_count = idx.insert_count + 1 })
      by_level true = record {
        relinked = r;
        id_map = refl;
        reverse_map = refl;
        wide = refl;
        width = refl;
        degree = refl;
        entry = Alike-HasLayer idx.nodes nodes level id r.alike (new level (omega arith));
      }
      by_level false = record {
        relinked = r;
        id_map = refl;
        reverse_map = refl;
        wide = refl;
        width = refl;
        degree = refl;
        entry = Alike-HasLayer idx.nodes nodes top idx.entry_point r.alike entry;
      }

  lower-le : (l : ℕ) → l < lower top level + 1 → l ≤ level
  lower-le l h = ground arith

  pub attach-Attached : Returns (Attached idx) (attach f id vec level idx)
  unfolding attach
  attach-Attached =
      let low = lower top level in
      Returns-bind (All (HasLayer idx.nodes low)) (Attached idx)
        (descend f idx.nodes vec (top - level) level (idx.entry_point ∷ []))
        (λ eps.
          connect f idx id vec (low + 1) (eps, idx.nodes) >>= λ (eps', nodes). ok (outcome nodes))
        (descend-HasLayer f dim idx id vec size wide idx.nodes top level idx.entry_point dims linked
          entry)
        (λ eps a.
          Returns-bind (λ (eps', nodes). Relinked idx.nodes nodes) (Attached idx)
            (connect f idx id vec (low + 1) (eps, idx.nodes)) (λ (eps', nodes). ok (outcome nodes))
            (connect-Relinked f dim idx id vec size wide (low + 1) eps idx.nodes dims linked (λ l h.
              (
                new l (lower-le l h),
                All-map (HasLayer idx.nodes low) (HasLayer idx.nodes l)
                    (λ j. HasLayer-below idx.nodes l low j (omega arith)) eps a,
              )))
            (λ (eps', nodes) r. outcome-Attached nodes r))
