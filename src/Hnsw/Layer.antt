-- ===== src/Hnsw/Layer.antt =====
-- internal/hnsw/search.go: searchLayer, the best-first search of one layer.
pub mod Visited
pub mod Found
pub mod Result
use hybrid_vector_cache_hnsw.Common.{
  ℕ, zero, suc, ◌+◌, Bool, true, false, not, ◌&&◌, ◌||◌, Option, none, some, List, [], ◌∷◌,
  if◌then◌else◌, length, get_elem?, ◌==◌, ltb,
}
use hybrid_vector_cache_hnsw.Common.Run.{Run, ok, panic, out_of_fuel, ◌>>=◌, or_panic}
use hybrid_vector_cache_hnsw.Similarity.{Float, float_less}
use hybrid_vector_cache_hnsw.Heap.{push, pop}
use hybrid_vector_cache_hnsw.Hnsw.{Node, Item, get_links, cosine_distance, min_less, max_less}

abbrev pub has : List ℕ → ℕ → Bool
has [] i = false
has (j ∷ js) i = j == i || has js i

-- The variables of the function: the ids visited, and the two heaps.
pub record Frontier : Type 0 where
  pub visited : List ℕ
  pub candidates : List Item
  pub found : List Item

abbrev pub start : Frontier
start = record { visited = []; candidates = []; found = [] }

abbrev pub visit : ℕ → Frontier → Frontier
visit id s = record s { visited = id ∷ s.visited }

unfoldable pub push_both : Item → Frontier → Frontier
push_both x s = record s {
  candidates = push min_less x s.candidates;
  found = push max_less x s.found;
}

-- heap.Pop, with its result dropped
abbrev pub rest_of : Option (Item × List Item) → List Item
rest_of none = []
rest_of (some (x, h)) = h

-- `if found.Len() > ef { heap.Pop(found) }`
unfoldable pub trim : ℕ → Frontier → Frontier
trim ef s =
    if ltb ef (length s.found) then record s { found = rest_of (pop max_less s.found) } else s

-- Peek; an empty heap makes it panic.
abbrev pub peek : List Item → Run Item
peek [] = panic
peek (x ∷ h) = ok x

module _ (f : Float) (nodes : List Node) (query : List ℕ) where
  -- The distance of the query from a node.
  abbrev pub distance_to : Node → Run ℕ
  distance_to n = or_panic (cosine_distance f query n.vector)

  -- An entry point, not visited before.
  unfoldable pub enter_new : ℕ → Option Node → Frontier → Run Frontier
  unfolding push_both
  enter_new id none s = ok (visit id s)
  enter_new id (some n) s = do
    d ← distance_to n
    ok (push_both (record { id = id; dist = d }) (visit id s))

  -- The loop over the entry points.
  unfoldable pub enter : List ℕ → Frontier → Run Frontier
  unfolding enter_new
  enter [] s = ok s
  enter (id ∷ ids) s =
      (if has s.visited id then ok s else enter_new id (get_elem? nodes id) s) >>= enter ids

  -- A neighbour, not visited before: it is kept while there is room or if it is closer than the
  -- furthest that was found.
  unfoldable pub reach_new : ℕ → ℕ → Option Node → Frontier → Run Frontier
  unfolding push_both trim
  reach_new ef id none s = ok (visit id s)
  reach_new ef id (some n) s = do
    d ← distance_to n
    far ← peek s.found
    let x : Item = record { id = id; dist = d }
    ok (
        if ltb (length s.found) ef || float_less d far.dist
        then trim ef (push_both x (visit id s))
        else visit id s)

  -- The loop over the neighbours.
  unfoldable pub reach : ℕ → List ℕ → Frontier → Run Frontier
  unfolding reach_new
  reach ef [] s = ok s
  reach ef (id ∷ ids) s =
      (if has s.visited id then ok s else reach_new ef id (get_elem? nodes id) s) >>= reach ef ids

  -- The neighbours of a candidate; one that is no node has none.
  unfoldable pub expand : ℕ → ℕ → Option Node → Frontier → Run Frontier
  unfolding reach get_links
  expand ef layer none s = ok s
  expand ef layer (some n) s = reach ef (get_links n layer) s

  -- The outer loop. The fuel is for the rounds; a node is a candidate at most once.
  unfoldable pub explore : ℕ → ℕ → ℕ → Frontier → Run (List Item)
  unfolding expand
  explore zero ef layer s = out_of_fuel
  explore (suc fuel) ef layer s = elim (pop min_less s.candidates) [
    | none ↦ ok s.found
    | some (c, others) ↦ do
      far ← peek s.found
      let rest =
          expand ef layer (get_elem? nodes c.id) (record s { candidates = others })
          >>= explore fuel ef layer
      if float_less far.dist c.dist then ok s.found else rest
  ]

  -- searchLayer
  unfoldable pub search_layer : List ℕ → ℕ → ℕ → Run (List Item)
  unfolding enter explore
  search_layer entries ef layer = enter entries start >>= explore (length nodes + 1) ef layer
