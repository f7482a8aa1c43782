-- ===== src/Hnsw/Neighbors.antt =====
-- internal/hnsw/neighbors.go: the choice of neighbours. The cache nodeVecs is left out: it holds what
-- a read of the node gives.
pub mod Chosen
use hybrid_vector_cache_hnsw.Common.{
  ℕ, zero, suc, ◌+◌, Bool, true, false, not, Option, none, some, List, [], ◌∷◌, ◌++◌, if◌then◌else◌,
  length, get_elem?, ◌==◌, ltb,
}
use hybrid_vector_cache_hnsw.Common.Run.{Run, ok, panic, out_of_fuel, ◌>>=◌, or_panic}
use hybrid_vector_cache_hnsw.Similarity.{Float, float_less}
use hybrid_vector_cache_hnsw.Heap.{push, pop}
use hybrid_vector_cache_hnsw.Hnsw.{Node, Item, get_links, cosine_distance, min_less}
use hybrid_vector_cache_hnsw.Hnsw.Layer.{has}

-- The working heap, with the ids it has seen.
pub record Working : Type 0 where
  pub seen : List ℕ
  pub heap : List Item

abbrev pub no_items : Working
no_items = record { seen = []; heap = [] }

abbrev pub add_item : Item → Working → Working
add_item x w = record { seen = x.id ∷ w.seen; heap = push min_less x w.heap }

-- The candidates, each id once.
unfoldable pub gather : List Item → Working → Working
gather [] w = w
gather (x ∷ xs) w = gather xs (if has w.seen x.id then w else add_item x w)

-- The variables of the choice: the ids chosen, and the items put aside.
pub record Choice : Type 0 where
  pub result : List ℕ
  pub discarded : List Item

unfoldable pub push_all : List Item → List Item → List Item
push_all [] h = h
push_all (x ∷ xs) h = push_all xs (push min_less x h)

-- The backfill: the closest of a heap, until there are m.
unfoldable pub backfill : ℕ → ℕ → List Item → List ℕ → List ℕ
backfill zero m h result = result
backfill (suc fuel) m h result =
    let more : List ℕ = elim (pop min_less h) [
      | none ↦ result
      | some (x, h') ↦ backfill fuel m h' (result ++ x.id ∷ [])
    ] in
    if ltb (length result) m then more else result

-- selectNeighborsSimple
unfoldable pub select_neighbors_simple : List Item → ℕ → List ℕ
unfolding push_all backfill
select_neighbors_simple candidates m = let h = push_all candidates [] in backfill (length h) m h []

module _ (f : Float) (nodes : List Node) where
  -- A neighbour of a candidate, not seen before.
  unfoldable pub extend_new : List ℕ → ℕ → Option Node → Working → Run Working
  extend_new query id none w = ok (record w { seen = id ∷ w.seen })
  extend_new query id (some n) w = do
    d ← or_panic (cosine_distance f query n.vector)
    ok (add_item (record { id = id; dist = d }) w)

  unfoldable pub extend_links : List ℕ → List ℕ → Working → Run Working
  unfolding extend_new
  extend_links query [] w = ok w
  extend_links query (id ∷ ids) w =
      (if has w.seen id then ok w else extend_new query id (get_elem? nodes id) w)
      >>= extend_links query ids

  abbrev links_of : ℕ → Option Node → List ℕ
  links_of layer none = []
  links_of layer (some n) = get_links n layer

  -- The loop for `extendCandidates`.
  unfoldable pub extend : List ℕ → ℕ → List Item → Working → Run Working
  unfolding extend_links
  extend query layer [] w = ok w
  extend query layer (x ∷ xs) w =
      extend_links query (links_of layer (get_elem? nodes x.id)) w >>= extend query layer xs

  -- Whether a vector is as close to the query, at the distance d, as to all that are chosen.
  unfoldable pub is_useful : List ℕ → ℕ → List ℕ → Run Bool
  is_useful vec d [] = ok true
  is_useful vec d (id ∷ ids) =
      let rest = is_useful vec d ids in
      elim (get_elem? nodes id) [
        | none ↦ rest
        | some n ↦ do
          e ← or_panic (cosine_distance f vec n.vector)
          if float_less e d then ok false else rest
      ]

  -- The item that left the working heap, chosen or put aside.
  unfoldable pub choose_one : Item → Option Node → Choice → Run Choice
  unfolding is_useful
  choose_one x none c = ok c
  choose_one x (some n) c = do
    useful ← is_useful n.vector x.dist c.result
    ok (
        if useful
        then record c { result = c.result ++ x.id ∷ [] }
        else record c { discarded = c.discarded ++ x ∷ [] })

  -- The loop over the working heap; its length is enough fuel.
  unfoldable pub choose : ℕ → ℕ → List Item → Choice → Run Choice
  unfolding choose_one
  choose zero m h c = ok c
  choose (suc fuel) m h c =
      let more : Run Choice = elim (pop min_less h) [
        | none ↦ ok c
        | some (x, h') ↦ choose_one x (get_elem? nodes x.id) c >>= choose fuel m h'
      ] in
      if ltb (length c.result) m then more else ok c

  -- selectNeighborsHeuristic behind the test for no candidates, at an M that make accepts, 2^46 at most
  unfoldable pub select_from : List ℕ → List Item → ℕ → ℕ → Bool → Bool → Run (List ℕ)
  unfolding gather extend choose push_all backfill
  select_from query candidates m layer extended keep_pruned = do
    let w = gather candidates no_items
    w' ← if extended then extend query layer candidates w else ok w
    c ← choose (length w'.heap) m w'.heap (record { result = []; discarded = [] })
    let h = push_all c.discarded []
    ok (if keep_pruned then backfill (length h) m h c.result else c.result)

  -- selectNeighborsHeuristic
  unfoldable pub select_neighbors_heuristic :
      List ℕ → List Item → ℕ → ℕ → Bool → Bool → Run (List ℕ)
  unfolding select_from
  select_neighbors_heuristic query [] m layer extended keep_pruned = ok []
  select_neighbors_heuristic query (x ∷ xs) m layer extended keep_pruned =
      select_from query (x ∷ xs) m layer extended keep_pruned
