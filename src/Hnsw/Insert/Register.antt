-- ===== src/Hnsw/Insert/Register.antt =====
-- A new node at the end of a linked graph.
use hybrid_vector_cache_hnsw.Common.{
  ℕ, zero, suc, ◌+◌, ◌≤◌, ◌≡◌, refl, sym, ap, ◌∙◌, inl, inr, List, [], ◌∷◌, ◌++◌, arith, length,
  get_elem?, get_elem?-concat, get_elem?-concat_old, get_elem?-concat_new,
}
use mathlib.Core.Path.{subst}
use hybrid_vector_cache_hnsw.Common.Bytes.{Bytes}
use hybrid_vector_cache_hnsw.Common.Dict.{Dict}
use hybrid_vector_cache_hnsw.Heap.Items.{All, All-map}
use hybrid_vector_cache_hnsw.Hnsw.{Node, no_links, new_node, get_links, or_nil}
use hybrid_vector_cache_hnsw.Hnsw.Neighbors.Chosen.{IsDim}
use hybrid_vector_cache_hnsw.Hnsw.Insert.Shape.{HasLayer, IsLinked}

length-no_links : (n : ℕ) → length (no_links n) ≡ n
unfolding no_links
length-no_links zero = refl
length-no_links (suc n) = ap suc (length-no_links n)

get_elem?-no_links : (n l : ℕ) → or_nil (get_elem? (no_links n) l) ≡ []
unfolding no_links
get_elem?-no_links zero l = refl
get_elem?-no_links (suc n) zero = refl
get_elem?-no_links (suc n) (suc l) = get_elem?-no_links n l

pub HasLayer-concat :
    (nodes : List Node) (new : Node) (l i : ℕ)
    → HasLayer nodes l i
    → HasLayer (nodes ++ new ∷ []) l i
HasLayer-concat nodes new l i h = record {
  node = h.node;
  at = get_elem?-concat_old nodes new h.node i h.at;
  deep = h.deep;
}

pub IsDim-concat :
    (dim : ℕ) (nodes : List Node) (new : Node)
    → IsDim dim nodes
    → length new.vector ≡ dim
    → IsDim dim (nodes ++ new ∷ [])
IsDim-concat dim nodes new d e i n at = elim (get_elem?-concat nodes new n i at) [
  | inl old ↦ d i n old
  | inr (_, same) ↦ ap (λ (m : Node). length m.vector) (sym same) ∙ e
]

module _ (id : ℕ) (vec : List ℕ) (meta : Dict Bytes) (level : ℕ) where
  -- The new node has the layers up to its level, and no links.
  pub HasLayer-new :
      (nodes : List Node) (l : ℕ)
      → l ≤ level
      → HasLayer (nodes ++ new_node id vec meta level ∷ []) l (length nodes)
  unfolding new_node
  HasLayer-new nodes l le = record {
    node = new_node id vec meta level;
    at = get_elem?-concat_new nodes (new_node id vec meta level);
    deep = omega (arith, length-no_links (level + 1));
  }

  get_links-new : (l : ℕ) → get_links (new_node id vec meta level) l ≡ []
  unfolding get_links new_node
  get_links-new l = get_elem?-no_links (level + 1) l

  pub IsLinked-concat :
      (nodes : List Node) → IsLinked nodes → IsLinked (nodes ++ new_node id vec meta level ∷ [])
  IsLinked-concat nodes linked l i n at =
      let new = new_node id vec meta level in
      let old_links : All (HasLayer nodes l) (get_links n l) =
        elim (get_elem?-concat nodes new n i at) [
          | inl old ↦ linked l i n old
          | inr (_, same) ↦
              subst (λ (m : Node). All (HasLayer nodes l) (get_links m l)) same
                (subst (All (HasLayer nodes l)) (sym (get_links-new l)) tt)
        ] in
      All-map (HasLayer nodes l) (HasLayer (nodes ++ new ∷ []) l) (HasLayer-concat nodes new l)
        (get_links n l) old_links
