-- ===== src/Hnsw/Insert/Descend.antt =====
-- The greedy descent, from the entry point to a lower layer.
use hybrid_vector_cache_hnsw.Common.{
  ℕ, zero, suc, ◌+◌, ◌≤◌, ◌≡◌, Option, none, some, List, arith, length, get_elem?,
}
use mathlib.Core.Path.{subst}
use hybrid_vector_cache_hnsw.Common.Run.{Returns, Returns-bind}
use hybrid_vector_cache_hnsw.Similarity.{Float}
use hybrid_vector_cache_hnsw.Heap.{pop}
use hybrid_vector_cache_hnsw.Heap.Items.{All, All-map, Popped, Popped-pop}
use hybrid_vector_cache_hnsw.Hnsw.{Node, Item, get_links, max_less}
use hybrid_vector_cache_hnsw.Hnsw.Layer.{search_layer}
use hybrid_vector_cache_hnsw.Hnsw.Layer.Found.{IsFound}
use hybrid_vector_cache_hnsw.Hnsw.Layer.Result.{search_layer-Found}
use hybrid_vector_cache_hnsw.Hnsw.Insert.{nearest_of, descend}

-- P holds of the ids of a layer: its links do not leave it, and it is part of the layers below.
pub record IsLayer (nodes : List Node) (P : ℕ → ℕ → Type 0) : Type 0 where
  pub closed : (l i : ℕ) (n : Node) → get_elem? nodes i ≡ some n → P l i → All (P l) (get_links n l)
  pub below : (l i : ℕ) → P (suc l) i → P l i

-- The vectors of a graph are at least as long as a query.
abbrev pub IsLong : List Node → List ℕ → Type 0
IsLong nodes query =
    (i : ℕ) (n : Node) → get_elem? nodes i ≡ some n → length query ≤ length n.vector

module _ (f : Float) (nodes : List Node) (query : List ℕ) (P : ℕ → ℕ → Type 0)
    (long : IsLong nodes query) (layers : IsLayer nodes P) where
  nearest_of-All :
      (l : ℕ) (eps : List ℕ) (o : Option (Item × List Item))
      → All (P l) eps
      → Popped (IsFound f nodes query (P l)) o
      → All (P l) (nearest_of eps o)
  nearest_of-All l eps none p a = p
  nearest_of-All l eps (some (x, h)) p a = (a.0.1, tt)

  pub descend-Returns :
      (rounds bottom : ℕ) (eps : List ℕ)
      → All (P (bottom + rounds)) eps
      → Returns (All (P bottom)) (descend f nodes query rounds bottom eps)
  unfolding descend
  descend-Returns zero bottom eps p =
      let same : bottom + 0 ≡ bottom = omega arith in subst (λ m. All (P m) eps) same p
  descend-Returns (suc rounds) bottom eps p =
      let l = bottom + suc rounds in
      let same : bottom + suc rounds ≡ suc (bottom + rounds) = omega arith in
      Returns-bind (All (IsFound f nodes query (P l))) (All (P bottom))
        (search_layer f nodes query eps 1 l)
        (λ found. descend f nodes query rounds bottom (nearest_of eps (pop max_less found)))
        (search_layer-Found f nodes query l (P l) long (layers.closed l) 1 (omega arith) eps p)
        (λ found a. descend-Returns rounds bottom (nearest_of eps (pop max_less found)) (
          All-map (P l) (P (bottom + rounds))
            (λ i q. layers.below (bottom + rounds) i (subst (λ m. P m i) same q))
            (nearest_of eps (pop max_less found))
            (nearest_of-All l eps (pop max_less found) p
              (Popped-pop (IsFound f nodes query (P l)) max_less found a))))
