-- ===== src/Hnsw/Insert/Links.antt =====
-- The links that Insert makes on one layer: the graph stays linked, and nothing panics.
use hybrid_vector_cache_hnsw.Common.{
  ℕ, ◌≤◌, ◌≡◌, refl, ap, ◌∙◌, true, false, Option, none, some, List, [], ◌∷◌, ◌++◌, arith,
  if◌then◌else◌, length, get_elem?, get_elem?-some, ◌==◌, ltb,
}
use hybrid_vector_cache_hnsw.Common.Run.{
  Run, ok, ◌>>=◌, or_panic, Returns, Returns-bind, Returns-map, Returns-if,
}
use hybrid_vector_cache_hnsw.Similarity.{Float}
use hybrid_vector_cache_hnsw.Heap.Items.{All, All-map, All-append}
use hybrid_vector_cache_hnsw.Hnsw.{Node, Item, get_links, set_links, cosine_distance}
use hybrid_vector_cache_hnsw.Hnsw.Layer.Found.{cosine_distance-total}
use hybrid_vector_cache_hnsw.Hnsw.Neighbors.{select_neighbors_heuristic}
use hybrid_vector_cache_hnsw.Hnsw.Neighbors.Chosen.{IsDim, select_neighbors-IsChosen}
use hybrid_vector_cache_hnsw.Hnsw.Insert.{
  read_links, change, append_link, measure_links, prune_neighbor, link_both, link_all,
}
use hybrid_vector_cache_hnsw.Hnsw.Insert.Shape.{
  Alike, Alike-refl, Alike-sym, Alike-trans, Alike-get, HasLayer, Alike-HasLayer, IsLinked,
  change-Alike, change-IsLinked, Same-set_links,
}

-- The nodes behind a step: still linked, and as before but for their links.
pub record Relinked (nodes nodes' : List Node) : Type 0 where
  pub linked : IsLinked nodes'
  pub alike : Alike nodes nodes'

pub Relinked-refl : (ns : List Node) → IsLinked ns → Relinked ns ns
Relinked-refl ns l = record { linked = l; alike = Alike-refl ns }

pub Relinked-trans : (ns ms os : List Node) → Relinked ns ms → Relinked ms os → Relinked ns os
Relinked-trans ns ms os r s = record {
  linked = s.linked;
  alike = Alike-trans ns ms os r.alike s.alike;
}

pub Alike-IsDim : (dim : ℕ) (ns ms : List Node) → Alike ns ms → IsDim dim ns → IsDim dim ms
Alike-IsDim dim ns ms a d i m e =
    let (n, at, same) = Alike-get ms ns i m (Alike-sym ns ms a) e in
    ap length same.vector ∙ d i n at

read_links-ok :
    (nodes : List Node) (l i : ℕ) (h : HasLayer nodes l i)
    → read_links nodes i l ≡ ok (get_links h.node l)
unfolding read_links get_links
read_links-ok nodes l i h = let (ls, e) = get_elem?-some h.node.links l h.deep in rw (h.at, e) refl

append_link-Relinked :
    (nodes : List Node) (at l id : ℕ)
    → IsLinked nodes
    → HasLayer nodes l at
    → HasLayer nodes l id
    → Returns (Relinked nodes) (append_link at l id nodes)
unfolding append_link
append_link-Relinked nodes at l id linked h k =
    let ids = get_links h.node l in
    rw (read_links-ok nodes l at h) (record {
      linked =
          change-IsLinked nodes at l (ids ++ id ∷ []) linked
            (All-append (HasLayer nodes l) ids (id ∷ []) (linked l at h.node h.at) (k, tt));
      alike =
          change-Alike nodes at (set_links l (ids ++ id ∷ [])) (Same-set_links l (ids ++ id ∷ []));
    })

module _ (f : Float) (dim : ℕ) where
  measure_links-All :
      (nodes : List Node) (Q : ℕ → Type 0) (vec : List ℕ) (ids : List ℕ)
      → IsDim dim nodes
      → length vec ≡ dim
      → All Q ids
      → Returns (All (λ (x : Item). Q x.id)) (measure_links f nodes vec ids)
  unfolding measure_links
  measure_links-All nodes Q vec [] d e a = tt
  measure_links-All nodes Q vec (i ∷ ids) d e a =
      measured (get_elem? nodes i) refl (measure_links-All nodes Q vec ids d e a.1)
    where
      measured :
          (o : Option Node)
          → get_elem? nodes i ≡ o
          → Returns (All (λ (x : Item). Q x.id)) (measure_links f nodes vec ids)
          → Returns (All (λ (x : Item). Q x.id)) (elim o [
            | none ↦ measure_links f nodes vec ids
            | some n ↦ or_panic (cosine_distance f vec n.vector) >>= λ d.
                measure_links f nodes vec ids >>= λ items. ok (record { id = i; dist = d } ∷ items)
          ])
      measured none at rest = rest
      measured (some n) at rest =
          let (t, te) = cosine_distance-total f vec n.vector (omega (arith, d i n at, e)) in
          rw te (
            Returns-bind (All (λ (x : Item). Q x.id)) (All (λ (x : Item). Q x.id))
              (measure_links f nodes vec ids) (λ items. ok (record { id = i; dist = t } ∷ items))
              rest (λ items b. (a.0, b)))

  prune_neighbor-Relinked :
      (nodes : List Node) (at : ℕ) (ids : List ℕ) (m l : ℕ)
      → IsDim dim nodes
      → IsLinked nodes
      → HasLayer nodes l at
      → All (HasLayer nodes l) ids
      → Returns (Relinked nodes) (prune_neighbor f at ids m l nodes)
  unfolding prune_neighbor
  prune_neighbor-Relinked nodes at ids m l d linked h a =
      let vec = h.node.vector in
      let Q = HasLayer nodes l in
      rw h.at (
        Returns-bind (All (λ (x : Item). Q x.id)) (Relinked nodes) (measure_links f nodes vec ids)
          (λ items. select_neighbors_heuristic f nodes vec items m l false true >>= λ pruned.
            ok (change nodes at (set_links l pruned)))
          (measure_links-All nodes Q vec ids d (d at h.node h.at) a)
          (λ items b.
            Returns-bind (λ ids. All Q ids × (length ids ≤ m)) (Relinked nodes)
              (select_neighbors_heuristic f nodes vec items m l false true)
              (λ pruned. ok (change nodes at (set_links l pruned)))
              (select_neighbors-IsChosen Q m f nodes dim d vec items l b)
              (λ pruned c. record {
                linked = change-IsLinked nodes at l pruned linked c.0;
                alike = change-Alike nodes at (set_links l pruned) (Same-set_links l pruned);
              })))

  link_both-Relinked :
      (nodes : List Node) (id neighbor m l : ℕ)
      → IsDim dim nodes
      → IsLinked nodes
      → HasLayer nodes l id
      → HasLayer nodes l neighbor
      → Returns (Relinked nodes) (link_both f id neighbor m l nodes)
  unfolding link_both
  link_both-Relinked nodes id neighbor m l d linked h k =
      Returns-bind (Relinked nodes) (Relinked nodes) (append_link id l neighbor nodes)
        (λ ns. append_link neighbor l id ns >>= λ ms. read_links ms neighbor l >>= λ links.
          if ltb m (length links) then prune_neighbor f neighbor links m l ms else ok ms)
        (append_link-Relinked nodes id l neighbor linked h k)
        (λ ns r.
          Returns-bind (Relinked ns) (Relinked nodes) (append_link neighbor l id ns)
            (λ ms. read_links ms neighbor l >>= λ links.
              if ltb m (length links) then prune_neighbor f neighbor links m l ms else ok ms)
            (append_link-Relinked ns neighbor l id r.linked
              (Alike-HasLayer nodes ns l neighbor r.alike k)
              (Alike-HasLayer nodes ns l id r.alike h))
            (λ ms s. pruned ns ms r s))
    where
      pruned :
          (ns ms : List Node)
          → Relinked nodes ns
          → Relinked ns ms
          → Returns (Relinked nodes) (
              read_links ms neighbor l >>= λ links.
              if ltb m (length links) then prune_neighbor f neighbor links m l ms else ok ms)
      pruned ns ms r s =
          let t = Relinked-trans nodes ns ms r s in
          let there = Alike-HasLayer nodes ms l neighbor t.alike k in
          let links = get_links there.node l in
          rw (read_links-ok ms l neighbor there) (
            Returns-if (Relinked nodes) (ltb m (length links))
              (prune_neighbor f neighbor links m l ms) (ok ms)
              (λ over.
                Returns-map (Relinked ms) (Relinked nodes) (prune_neighbor f neighbor links m l ms)
                  (prune_neighbor-Relinked ms neighbor links m l
                    (Alike-IsDim dim nodes ms t.alike d) t.linked there
                    (t.linked l neighbor there.node there.at))
                  (λ os u. Relinked-trans nodes ms os t u))
              (λ fits. t))

  pub link_all-Relinked :
      (ids : List ℕ) (nodes : List Node) (id m l : ℕ)
      → IsDim dim nodes
      → IsLinked nodes
      → HasLayer nodes l id
      → All (HasLayer nodes l) ids
      → Returns (Relinked nodes) (link_all f id ids m l nodes)
  unfolding link_all
  link_all-Relinked [] nodes id m l d linked h a = Relinked-refl nodes linked
  link_all-Relinked (n ∷ ids) nodes id m l d linked h a =
      Returns-bind (Relinked nodes) (Relinked nodes) (linked_one (get_elem? nodes n))
        (link_all f id ids m l)
        (Returns-if (Relinked nodes) (n == id) (ok nodes) (linked_other (get_elem? nodes n))
          (λ self. Relinked-refl nodes linked) (λ other. linked_other-Relinked (get_elem? nodes n)))
        (λ ns r.
          Returns-map (Relinked ns) (Relinked nodes) (link_all f id ids m l ns)
            (link_all-Relinked ids ns id m l (Alike-IsDim dim nodes ns r.alike d) r.linked
              (Alike-HasLayer nodes ns l id r.alike h)
              (All-map (HasLayer nodes l) (HasLayer ns l) (λ j. Alike-HasLayer nodes ns l j r.alike)
                ids a.1))
            (λ ms s. Relinked-trans nodes ns ms r s))
    where
      linked_other : Option Node → Run (List Node)
      linked_other o = elim o [ none ↦ ok nodes | some other ↦ link_both f id n m l nodes ]

      linked_one : Option Node → Run (List Node)
      linked_one o = if n == id then ok nodes else linked_other o

      linked_other-Relinked : (o : Option Node) → Returns (Relinked nodes) (linked_other o)
      linked_other-Relinked none = Relinked-refl nodes linked
      linked_other-Relinked (some other) = link_both-Relinked nodes id n m l d linked h a.0
