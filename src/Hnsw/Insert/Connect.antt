-- ===== src/Hnsw/Insert/Connect.antt =====
-- The second phase of Insert, and the attachment of a registered node.
use mathlib.Core.Path.{subst}
use hybrid_vector_cache_hnsw.Common.{
  ℕ, zero, suc, ◌+◌, ◌-◌, ◌≤◌, ◌<◌, ◌≡◌, sym, true, false, List, [], ◌∷◌, map, arith, if◌then◌else◌,
  length, ◌==◌, ltb, ltb→lt, Bool-cases, inl, inr,
}
use hybrid_vector_cache_hnsw.Common.Run.{ok, ◌>>=◌, Returns, Returns-bind, Returns-map}
use hybrid_vector_cache_hnsw.Similarity.{Float}
use hybrid_vector_cache_hnsw.Heap.{drain}
use hybrid_vector_cache_hnsw.Heap.Items.{All, All-map, All-drain}
use hybrid_vector_cache_hnsw.Hnsw.{Node, Index, Item, max_less}
use hybrid_vector_cache_hnsw.Hnsw.Layer.{search_layer}
use hybrid_vector_cache_hnsw.Hnsw.Layer.Found.{IsFound}
use hybrid_vector_cache_hnsw.Hnsw.Layer.Result.{search_layer-Found}
use hybrid_vector_cache_hnsw.Hnsw.Neighbors.{select_neighbors_heuristic}
use hybrid_vector_cache_hnsw.Hnsw.Neighbors.Chosen.{IsDim, select_neighbors-IsChosen}
use hybrid_vector_cache_hnsw.Hnsw.Insert.{link_all, descend, connect_layer, connect}
use hybrid_vector_cache_hnsw.Hnsw.Insert.Descend.{IsLong, IsLayer, descend-Returns}
use hybrid_vector_cache_hnsw.Hnsw.Insert.Shape.{HasLayer, Alike-HasLayer, IsLinked}
use hybrid_vector_cache_hnsw.Hnsw.Insert.Links.{
  Relinked, Relinked-refl, Relinked-trans, Alike-IsDim, link_all-Relinked,
}

pub HasLayer-below :
    (nodes : List Node) (l k i : ℕ) → l ≤ k → HasLayer nodes k i → HasLayer nodes l i
HasLayer-below nodes l k i le h = record {
  node = h.node;
  at = h.at;
  deep = omega (arith, h.deep, le);
}

pub HasLayer-IsLayer : (nodes : List Node) → IsLinked nodes → IsLayer nodes (HasLayer nodes)
HasLayer-IsLayer nodes linked = record {
  closed = λ l i n e p. linked l i n e;
  below = λ l i. HasLayer-below nodes l (suc l) i (omega arith);
}

ids_of : List Item → List ℕ
ids_of items = map (λ (x : Item). x.id) items

All-ids_of :
    (Q : ℕ → Type 0) (items : List Item) → All (λ (x : Item). Q x.id) items → All Q (ids_of items)
unfolding ids_of
All-ids_of Q [] a = tt
All-ids_of Q (x ∷ items) a = (a.0, All-ids_of Q items a.1)

abbrev pub lower : ℕ → ℕ → ℕ
lower top level = if ltb top level then top else level

module _ (f : Float) (dim : ℕ) (idx : Index) (id : ℕ) (vec : List ℕ) (size : length vec ≡ dim)
    (wide : 0 < idx.ef_construction) where
  pub IsDim-IsLong : (nodes : List Node) → IsDim dim nodes → IsLong nodes vec
  IsDim-IsLong nodes d i n e = omega (arith, d i n e, size)

  -- A layer that is connected: its entry points for the layer below, and the nodes linked anew.
  abbrev Connected : List Node → ℕ → List ℕ × List Node → Type 0
  Connected nodes l (eps, nodes') = Relinked nodes nodes' × All (HasLayer nodes' l) eps

  connect_layer-Connected :
      (l : ℕ) (eps : List ℕ) (nodes : List Node)
      → IsDim dim nodes
      → IsLinked nodes
      → HasLayer nodes l id
      → All (HasLayer nodes l) eps
      → Returns (Connected nodes l) (connect_layer f idx id vec l (eps, nodes))
  unfolding connect_layer ids_of
  connect_layer-Connected l eps nodes d linked h a =
      let Q = HasLayer nodes l in
      let max_conn = if l == 0 then idx.mmax0 else idx.m in
      Returns-bind (All (IsFound f nodes vec Q)) (Connected nodes l)
        (search_layer f nodes vec eps idx.ef_construction l)
        (λ found.
          select_neighbors_heuristic f nodes vec (drain max_less (length found) found) max_conn l
            false true
          >>= λ ns. link_all f id ns max_conn l nodes >>= λ nodes'.
              ok (ids_of (drain max_less (length found) found), nodes'))
        (search_layer-Found f nodes vec l Q (IsDim-IsLong nodes d) (λ i n e p. linked l i n e)
          idx.ef_construction wide eps a)
        (λ found b.
          let items = drain max_less (length found) found in
          let named : All (λ (x : Item). Q x.id) items =
            All-map (IsFound f nodes vec Q) (λ (x : Item). Q x.id) (λ x m. m.1) items
              (All-drain (IsFound f nodes vec Q) max_less (length found) found b) in
          Returns-bind (λ ids. All Q ids × (length ids ≤ max_conn)) (Connected nodes l)
            (select_neighbors_heuristic f nodes vec items max_conn l false true)
            (λ ns. link_all f id ns max_conn l nodes >>= λ nodes'. ok (ids_of items, nodes'))
            (select_neighbors-IsChosen Q max_conn f nodes dim d vec items l named)
            (λ ns c.
              Returns-bind (Relinked nodes) (Connected nodes l) (link_all f id ns max_conn l nodes)
                (λ nodes'. ok (ids_of items, nodes'))
                (link_all-Relinked f dim ns nodes id max_conn l d linked h c.0)
                (λ nodes' r. (
                  r,
                  All-map Q (HasLayer nodes' l) (λ j. Alike-HasLayer nodes nodes' l j r.alike)
                      (ids_of items) (All-ids_of Q items named),
                ))))

  pub connect-Relinked :
      (layers : ℕ) (eps : List ℕ) (nodes : List Node)
      → IsDim dim nodes
      → IsLinked nodes
      → ((l : ℕ) → l < layers → HasLayer nodes l id × All (HasLayer nodes l) eps)
      → Returns (λ (eps', nodes'). Relinked nodes nodes') (connect f idx id vec layers (eps, nodes))
  unfolding connect
  connect-Relinked zero eps nodes d linked h = Relinked-refl nodes linked
  connect-Relinked (suc l) eps nodes d linked h =
      let here = h l (omega arith) in
      Returns-bind (Connected nodes l) (λ (eps', nodes'). Relinked nodes nodes')
        (connect_layer f idx id vec l (eps, nodes)) (connect f idx id vec l)
        (connect_layer-Connected l eps nodes d linked here.0 here.1)
        (λ (eps', ns) c.
          Returns-map (λ (eps'', ms). Relinked ns ms) (λ (eps'', ms). Relinked nodes ms)
            (connect f idx id vec l (eps', ns))
            (connect-Relinked l eps' ns (Alike-IsDim dim nodes ns c.0.alike d) c.0.linked
              (λ k below. (
                Alike-HasLayer nodes ns k id c.0.alike
                    (HasLayer-below nodes k l id (omega arith) here.0),
                All-map (HasLayer ns l) (HasLayer ns k) (λ j. HasLayer-below ns k l j (omega arith))
                    eps' c.1,
              )))
            (λ (eps'', ms) r. Relinked-trans nodes ns ms c.0 r))

  pub descend-HasLayer :
      (nodes : List Node) (top level ep : ℕ)
      → IsDim dim nodes
      → IsLinked nodes
      → HasLayer nodes top ep
      → Returns
          (All (HasLayer nodes (lower top level)))
          (descend f nodes vec (top - level) level (ep ∷ []))
  descend-HasLayer nodes top level ep d linked h = elim (Bool-cases (ltb top level)) [
    | inl below ↦
        let none_left : top - level ≡ 0 = omega (arith, ltb→lt top level below) in
        rw (below, none_left) (unfold descend in (h, tt))
    | inr above ↦
        let same : level + (top - level) ≡ top = ground arith in
        rw above (
          descend-Returns f nodes vec (HasLayer nodes) (IsDim-IsLong nodes d)
            (HasLayer-IsLayer nodes linked) (top - level) level (ep ∷ [])
            (subst (λ l. All (HasLayer nodes l) (ep ∷ [])) (sym same) (h, tt)))
  ]
