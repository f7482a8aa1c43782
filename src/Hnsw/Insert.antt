-- ===== src/Hnsw/Insert.antt =====
-- internal/hnsw/search.go: Insert and pruneNeighbor.
-- The sample of randomLevel is an argument.
pub mod Descend
pub mod Shape
pub mod Links
pub mod Connect
pub mod Register
pub mod Attach
pub mod Maps
pub mod Renew
pub mod Total
pub mod Panics
pub mod Longer
use hybrid_vector_cache_hnsw.Common.{
  ℕ, zero, suc, ◌+◌, ◌-◌, ◌%◌, ◌^◌, Bool, true, false, Option, none, some, List, [], ◌∷◌, ◌++◌, map,
  if◌then◌else◌, length, get_elem?, set, ◌==◌, ltb,
}
use hybrid_vector_cache_hnsw.Common.Bytes.{Bytes}
use hybrid_vector_cache_hnsw.Common.Dict.{Dict, lookup, insert}
use hybrid_vector_cache_hnsw.Common.Run.{Run, ok, panic, out_of_fuel, ◌>>=◌, or_panic}
use hybrid_vector_cache_hnsw.Similarity.{Float}
use hybrid_vector_cache_hnsw.Heap.{drain, pop}
use hybrid_vector_cache_hnsw.Hnsw.{
  Node, Index, Item, new_node, set_links, cosine_distance, max_less, random_level,
}
use hybrid_vector_cache_hnsw.Hnsw.Layer.{search_layer}
use hybrid_vector_cache_hnsw.Hnsw.Neighbors.{select_neighbors_heuristic}

-- node.Links[layer]; a layer that the node does not have makes it panic.
unfoldable pub read_links : List Node → ℕ → ℕ → Run (List ℕ)
read_links nodes id layer = do n ← or_panic (get_elem? nodes id); or_panic (get_elem? n.links layer)

-- A change of the node of an id
unfoldable pub change : List Node → ℕ → (Node → Node) → List Node
change [] i g = []
change (n ∷ ns) zero g = g n ∷ ns
change (n ∷ ns) (suc i) g = n ∷ change ns i g

-- node.Links[layer] = append(node.Links[layer], id)
unfoldable pub append_link : ℕ → ℕ → ℕ → List Node → Run (List Node)
unfolding read_links change set_links
append_link at layer id nodes = do
  links ← read_links nodes at layer
  ok (change nodes at (set_links layer (links ++ id ∷ [])))

-- The id of what heap.Pop takes from a heap, or the entry points of before if it is empty.
abbrev pub nearest_of : List ℕ → Option (Item × List Item) → List ℕ
nearest_of eps none = eps
nearest_of eps (some (x, h)) = x.id ∷ []

-- uint32(len(idx.nodes))
unfoldable pub next_id : Index → ℕ
next_id idx = length idx.nodes % 2 ^ 32

-- The index with the new node of an id registered.
unfoldable pub register : ℕ → Bytes → List ℕ → Dict Bytes → ℕ → Index → Index
register id key vec meta level idx = record idx {
  nodes = idx.nodes ++ new_node id vec meta level ∷ [];
  id_map = insert key id idx.id_map;
  reverse_map = idx.reverse_map ++ key ∷ [];
}

-- Insert of a key that is in the index: its node gets the vector, and keeps its links.
unfoldable pub replace : ℕ → List ℕ → Dict Bytes → Index → Index
unfolding change
replace id vec meta idx = record idx {
  nodes = change idx.nodes id (λ (n : Node). record n { vector = vec; metadata = meta });
}

module _ (f : Float) where
  -- The items of pruneNeighbor: each link that is a node, with its distance.
  unfoldable pub measure_links : List Node → List ℕ → List ℕ → Run (List Item)
  measure_links nodes vec [] = ok []
  measure_links nodes vec (id ∷ ids) =
      let rest = measure_links nodes vec ids in
      elim (get_elem? nodes id) [
        | none ↦ rest
        | some n ↦ do
          d ← or_panic (cosine_distance f vec n.vector)
          items ← rest
          ok (record { id = id; dist = d } ∷ items)
      ]

  -- pruneNeighbor
  unfoldable pub prune_neighbor : ℕ → List ℕ → ℕ → ℕ → List Node → Run (List Node)
  unfolding measure_links change set_links
  prune_neighbor at links max_conn layer nodes = do
    n ← or_panic (get_elem? nodes at)
    items ← measure_links nodes n.vector links
    pruned ← select_neighbors_heuristic f nodes n.vector items max_conn layer false true
    ok (change nodes at (set_links layer pruned))

  -- The two links between a new node and a neighbour, and the pruning of the neighbour.
  unfoldable pub link_both : ℕ → ℕ → ℕ → ℕ → List Node → Run (List Node)
  unfolding append_link prune_neighbor
  link_both id neighbor max_conn layer nodes = do
    nodes' ← append_link id layer neighbor nodes
    nodes'' ← append_link neighbor layer id nodes'
    links ← read_links nodes'' neighbor layer
    if ltb max_conn (length links)
        then prune_neighbor neighbor links max_conn layer nodes''
        else ok nodes''

  -- The loop over the neighbours.
  unfoldable pub link_all : ℕ → List ℕ → ℕ → ℕ → List Node → Run (List Node)
  unfolding link_both
  link_all id [] max_conn layer nodes = ok nodes
  link_all id (n ∷ ns) max_conn layer nodes =
      (if n == id then ok nodes else elim (get_elem? nodes n) [
        | none ↦ ok nodes
        | some other ↦ link_both id n max_conn layer nodes
      ])
      >>= link_all id ns max_conn layer

  -- The greedy descent through the `rounds` layers above `bottom`: the entry points below them.
  unfoldable pub descend : List Node → List ℕ → ℕ → ℕ → List ℕ → Run (List ℕ)
  unfolding search_layer
  descend nodes query zero bottom eps = ok eps
  descend nodes query (suc rounds) bottom eps = do
    found ← search_layer f nodes query eps 1 (bottom + suc rounds)
    descend nodes query rounds bottom (nearest_of eps (pop max_less found))

  -- One layer of the second phase: the nodes with the new links, and the entry points of the layer
  -- below.
  unfoldable pub connect_layer :
      Index → ℕ → List ℕ → ℕ → List ℕ × List Node → Run (List ℕ × List Node)
  unfolding search_layer link_all
  connect_layer idx id vec layer (eps, nodes) = do
    found ← search_layer f nodes vec eps idx.ef_construction layer
    let items = drain max_less (length found) found
    let max_conn = if layer == 0 then idx.mmax0 else idx.m
    neighbors ← select_neighbors_heuristic f nodes vec items max_conn layer false true
    nodes' ← link_all id neighbors max_conn layer nodes
    ok (map (λ (x : Item). x.id) items, nodes')

  -- The second phase: the layers below `layers`, from the top.
  unfoldable pub connect : Index → ℕ → List ℕ → ℕ → List ℕ × List Node → Run (List ℕ × List Node)
  unfolding connect_layer
  connect idx id vec zero state = ok state
  connect idx id vec (suc layer) state =
      connect_layer idx id vec layer state >>= connect idx id vec layer

  -- Insert of a key that is not in the index, behind its registration; `level` is its top layer.
  unfoldable pub attach : ℕ → List ℕ → ℕ → Index → Run Index
  unfolding descend connect
  attach id vec level idx = do
    let top = idx.current_max_layer
    eps ← descend idx.nodes vec (top - level) level (idx.entry_point ∷ [])
    (eps', nodes) ← connect idx id vec ((if ltb top level then top else level) + 1) (eps, idx.nodes)
    let linked : Index = record idx { nodes = nodes; insert_count = idx.insert_count + 1 }
    ok (
        if ltb top level
        then record linked { entry_point = id; current_max_layer = level }
        else linked)

  -- Insert of a key that is not in the index, with the id of its node.
  unfoldable pub insert_new : ℕ → Bytes → List ℕ → Dict Bytes → ℕ → Index → Run Index
  unfolding register attach
  insert_new id key vec meta level idx =
      let idx' = register id key vec meta level idx in
      let first : Index = record idx' {
        entry_point = id;
        current_max_layer = level;
        insert_count = idx.insert_count + 1;
      } in
      if length idx'.nodes == 1 then ok first else attach id vec level idx'

  -- Insert; NewNode panics for a negative level.
  unfoldable pub insert_vector : Bytes → List ℕ → Dict Bytes → ℕ → Index → Run Index
  unfolding insert_new replace next_id
  insert_vector key vec meta sample idx = elim (lookup key idx.id_map) [
    | some id ↦ ok (replace id vec meta idx)
    | none ↦ elim (random_level idx sample) [
      | none ↦ panic
      | some level ↦ insert_new (next_id idx) key vec meta level idx
    ]
  ]
