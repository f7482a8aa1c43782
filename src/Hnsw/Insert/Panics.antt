-- ===== src/Hnsw/Insert/Panics.antt =====
-- Insert at an entry point that lacks the top layers, as Delete may leave one.
use hybrid_vector_cache_hnsw.Common.{
  Bool-cases, inl, inr, ℕ, zero, suc, ◌+◌, ◌-◌, ◌^◌, ◌≤◌, ◌<◌, ◌≡◌, ◌≢◌, refl, sym, true, false,
  none, some, List, [], ◌∷◌, ◌++◌, arith, length, length-append, get_elem?, get_elem?-lt,
  get_elem?-some, get_elem?-concat_old, ltb, ◌==◌,
}
use hybrid_vector_cache_hnsw.Common.Bytes.{Bytes}
use hybrid_vector_cache_hnsw.Common.Dict.{Dict, lookup}
use hybrid_vector_cache_hnsw.Common.Run.{ok, panic}
use hybrid_vector_cache_hnsw.Similarity.{Float, float_less}
use hybrid_vector_cache_hnsw.Heap.{push, pop, drain}
use hybrid_vector_cache_hnsw.Hnsw.{
  Node, Index, Item, new_node, get_links, cosine_distance, cap_level, set_links,
}
use hybrid_vector_cache_hnsw.Hnsw.Layer.{
  Frontier, enter, enter_new, push_both, expand, reach, explore, search_layer,
}
use hybrid_vector_cache_hnsw.Hnsw.Layer.Found.{cosine_distance-total}
use hybrid_vector_cache_hnsw.Hnsw.Neighbors.{
  gather, choose, choose_one, is_useful, push_all, backfill, select_from,
  select_neighbors_heuristic,
}
use hybrid_vector_cache_hnsw.Hnsw.Insert.{
  append_link, read_links, link_both, link_all, descend, connect_layer, connect, attach, register,
  insert_new, insert_vector,
}
use hybrid_vector_cache_hnsw.Hnsw.Insert.Shape.{HasLayer}
use hybrid_vector_cache_hnsw.Hnsw.Insert.Register.{HasLayer-new}
use hybrid_vector_cache_hnsw.Hnsw.Insert.Connect.{lower}
use hybrid_vector_cache_hnsw.Hnsw.Insert.Renew.{get_elem?-change_other}
use hybrid_vector_cache_hnsw.Hnsw.Insert.Total.{
  insert_vector-new, insert_vector-single, next_id-small,
}

float_less_irrefl : (d : ℕ) → float_less d d ≡ false
unfolding float_less
float_less_irrefl d = ground arith

get_elem?-none {ℓ} : {A : Type ℓ} (xs : List A) (i : ℕ) → length xs ≤ i → get_elem? xs i ≡ none
get_elem?-none [] i h = refl
get_elem?-none (x ∷ xs) zero h = absurd (omega (arith, h))
get_elem?-none (x ∷ xs) (suc i) h = get_elem?-none xs i (omega (arith, h))

get_links-none : (n : Node) (l : ℕ) → length n.links ≤ l → get_links n l ≡ []
unfolding get_links
get_links-none n l h = rw (get_elem?-none n.links l h) refl

-- A node without links on a layer, at a known distance, as the entry point of a search of the layer.
module _ (f : Float) (nodes : List Node) (query : List ℕ) (e d : ℕ) (n : Node)
    (at : get_elem? nodes e ≡ some n) (measured : cosine_distance f query n.vector ≡ some d) where
  abbrev item : Item
  item = record { id = e; dist = d }

  abbrev alone : Frontier
  alone = record { visited = e ∷ []; candidates = item ∷ []; found = item ∷ [] }

  enter-alone :
      enter f nodes query (e ∷ []) (record { visited = []; candidates = []; found = [] }) ≡ ok alone
  unfolding enter enter_new push_both push
  enter-alone = rw (at, measured) refl

  explore-alone :
      (ef l fuel : ℕ)
      → length n.links ≤ l
      → explore f nodes query (suc (suc fuel)) ef l alone ≡ ok (item ∷ [])
  unfolding explore expand reach pop
  explore-alone ef l fuel h = rw (at, get_links-none n l h, float_less_irrefl d) refl

  search_layer-alone :
      (ef l : ℕ) → length n.links ≤ l → search_layer f nodes query (e ∷ []) ef l ≡ ok (item ∷ [])
  unfolding search_layer
  search_layer-alone ef l h =
      let rounds : length nodes + 1 ≡ suc (suc (length nodes - 1)) =
        omega (arith, get_elem?-lt nodes e n at) in
      rw (enter-alone, rounds, explore-alone ef l (length nodes - 1) h) refl

  select_neighbors-alone :
      (m l : ℕ)
      → 0 < m
      → select_neighbors_heuristic f nodes query (item ∷ []) m l false true ≡ ok (e ∷ [])
  unfolding select_neighbors_heuristic select_from gather choose choose_one is_useful push_all
      backfill push pop
  select_neighbors-alone zero l h = absurd (omega (arith, h))
  select_neighbors-alone (suc m) l h =
      let room : ltb 0 (suc m) ≡ true = ground arith in rw (at, room) refl

  descend-alone :
      (rounds bottom : ℕ)
      → length n.links ≤ bottom
      → descend f nodes query rounds bottom (e ∷ []) ≡ ok (e ∷ [])
  unfolding descend pop
  descend-alone zero bottom h = refl
  descend-alone (suc rounds) bottom h =
      rw (search_layer-alone 1 (bottom + suc rounds) (omega (arith, h)))
        (descend-alone rounds bottom h)

-- The append to the links of a neighbour that lacks the layer.
link_all-panics :
    (f : Float) (nodes : List Node) (id e m l : ℕ) (n : Node)
    → get_elem? nodes e ≡ some n
    → length n.links ≤ l
    → HasLayer nodes l id
    → e ≢ id
    → link_all f id (e ∷ []) m l nodes ≡ panic
unfolding link_all link_both append_link read_links
link_all-panics f nodes id e m l n at short new other =
    let (links, here) = get_elem?-some new.node.links l new.deep in
    let differs : (e == id) ≡ false = ground (arith, other) in
    rw
      (
        differs,
        at,
        new.at,
        here,
        get_elem?-change_other nodes id e (set_links l (links ++ e ∷ [])) (λ h. other (sym h)),
        at,
        get_elem?-none n.links l short,
      )
      refl

module _ (f : Float) (idx : Index) (id : ℕ) (vec : List ℕ) (n : Node) (d : ℕ)
    (at : get_elem? idx.nodes idx.entry_point ≡ some n)
    (measured : cosine_distance f vec n.vector ≡ some d) (room : 0 < idx.m)
    (other : idx.entry_point ≢ id) where
  connect_layer-panics :
      (l : ℕ)
      → 0 < l
      → length n.links ≤ l
      → HasLayer idx.nodes l id
      → connect_layer f idx id vec l (idx.entry_point ∷ [], idx.nodes) ≡ panic
  unfolding connect_layer drain pop
  connect_layer-panics l upper short new =
      let differs : (l == 0) ≡ false = ground arith in
      rw
        (
          search_layer-alone f idx.nodes vec idx.entry_point d n at measured idx.ef_construction l
              short,
          differs,
          select_neighbors-alone f idx.nodes vec idx.entry_point d n at measured idx.m l room,
          link_all-panics f idx.nodes id idx.entry_point idx.m l n at short new other,
        )
        refl

  connect-panics :
      (l : ℕ)
      → 0 < l
      → length n.links ≤ l
      → HasLayer idx.nodes l id
      → connect f idx id vec (l + 1) (idx.entry_point ∷ [], idx.nodes) ≡ panic
  unfolding connect
  connect-panics l upper short new =
      let next : l + 1 ≡ suc l = omega arith in
      rw (next, connect_layer-panics l upper short new) refl

  attach-panics :
      (level : ℕ)
      → 0 < length n.links
      → length n.links ≤ idx.current_max_layer
      → length n.links ≤ level
      → ((l : ℕ) → l ≤ level → HasLayer idx.nodes l id)
      → attach f id vec level idx ≡ panic
  unfolding attach
  attach-panics level some_links low high new =
      let top = lower idx.current_max_layer level in
      let above : length n.links ≤ top = ground (arith, low, high) in
      let within : top ≤ level = ground arith in
      rw
        (
          descend-alone f idx.nodes vec idx.entry_point d n at measured
              (idx.current_max_layer - level) level high,
          connect-panics top (omega (arith, above, some_links)) above (new top within),
        )
        refl

insert_vector-panics_several :
    (f : Float) (idx : Index) (key : Bytes) (vec : List ℕ) (meta : Dict Bytes) (sample : ℕ)
    (n : Node)
    → lookup key idx.id_map ≡ none
    → idx.m ≢ 1
    → length idx.nodes < 2 ^ 32
    → get_elem? idx.nodes idx.entry_point ≡ some n
    → length vec ≤ length n.vector
    → 0 < length n.links
    → length n.links ≤ idx.current_max_layer
    → length n.links ≤ cap_level idx sample
    → 0 < idx.m
    → insert_vector f key vec meta sample idx ≡ panic
unfolding insert_new register
insert_vector-panics_several f idx key vec meta sample n missing degree few at dim some_links low
      high room =
    let id = length idx.nodes in
    let level = cap_level idx sample in
    let new = new_node id vec meta level in
    let registered = register id key vec meta level idx in
    let (d, measured) = cosine_distance-total f vec n.vector dim in
    let old : idx.entry_point < id = get_elem?-lt idx.nodes idx.entry_point n at in
    let many : (length (idx.nodes ++ new ∷ []) == 1) ≡ false =
      ground (arith, length-append idx.nodes (new ∷ []), old) in
    rw
      (
        insert_vector-new f idx key vec meta sample missing degree,
        next_id-small idx few,
        many,
        attach-panics f registered id vec n d
            (get_elem?-concat_old idx.nodes new n idx.entry_point at) measured room
            (λ (e : idx.entry_point ≡ id). omega (arith, e, old)) level some_links low high
            (λ l le. HasLayer-new id vec meta level idx.nodes l le),
      )
      refl

-- Insert of a new key panics, when the entry point lacks the top layer of the index and that of the
-- new node: the code takes the entry point as the neighbour there, and appends to links that it does
-- not have.
pub insert_vector-panics :
    (f : Float) (idx : Index) (key : Bytes) (vec : List ℕ) (meta : Dict Bytes) (sample : ℕ)
    (n : Node)
    → lookup key idx.id_map ≡ none
    → length idx.nodes < 2 ^ 32
    → get_elem? idx.nodes idx.entry_point ≡ some n
    → length vec ≤ length n.vector
    → 0 < length n.links
    → length n.links ≤ idx.current_max_layer
    → length n.links ≤ cap_level idx sample
    → 0 < idx.m
    → insert_vector f key vec meta sample idx ≡ panic
insert_vector-panics f idx key vec meta sample n missing few at dim some_links low high room =
    elim (Bool-cases (idx.m == 1)) [
      | inl single ↦ insert_vector-single f idx key vec meta sample missing (ground (arith, single))
      | inr several ↦
          insert_vector-panics_several f idx key vec meta sample n missing (ground (arith, several))
            few at dim some_links low high room
    ]
