-- ===== src/Hnsw/Tests.antt =====
-- The theorems on the index at a concrete one, with an arithmetic on small numbers in place of that
-- of float32.
use mathlib.Core.Path.{subst}
use hybrid_vector_cache_hnsw.Common.{
  ℕ, ◌+◌, ◌-◌, ◌*◌, ◌/◌, ◌≡◌, ◌≢◌, ◌≤◌, ◌<◌, refl, Bool, true, false, none, some, List, [], ◌∷◌,
  arith, if◌then◌else◌, length,
}
use hybrid_vector_cache_hnsw.Common.Bytes.{Bytes, bytes, same}
use hybrid_vector_cache_hnsw.Common.Dict.{lookup, insert, remove}
use hybrid_vector_cache_hnsw.Common.Run.{ok, panic, Returns}
use hybrid_vector_cache_hnsw.Heap.Items.{All}
use hybrid_vector_cache_hnsw.Similarity.{Float}
use hybrid_vector_cache_hnsw.Hnsw.{
  Index, Node, Item, new_index, new_node, delete, cap_level, random_level, cosine_distance,
}
use hybrid_vector_cache_hnsw.Heap.{pop, push, drain}
use hybrid_vector_cache_hnsw.Hnsw.Neighbors.{select_neighbors_heuristic}
use hybrid_vector_cache_hnsw.Hnsw.Neighbors.Chosen.{IsChosen, select_neighbors-IsChosen}
use hybrid_vector_cache_hnsw.Hnsw.Contents.{stored, stored-delete}
use hybrid_vector_cache_hnsw.Hnsw.Snapshot.{Json, snapshot}
use hybrid_vector_cache_hnsw.Hnsw.Snapshot.Load.{loaded, load_snapshot}
use hybrid_vector_cache_hnsw.Hnsw.Snapshot.Nodes.{IsSaved}
use hybrid_vector_cache_hnsw.Hnsw.Snapshot.RoundTrip.{Fits, restored, load_snapshot-snapshot}
use hybrid_vector_cache_hnsw.Hnsw.Snapshot.Revived.{snapshot_forgets_delete}
use hybrid_vector_cache_hnsw.Hnsw.Insert.{insert_vector}
use hybrid_vector_cache_hnsw.Hnsw.Insert.Connect.{IsDim-IsLong}
use hybrid_vector_cache_hnsw.Hnsw.Insert.Total.{
  HasDegree, Inserted, insert_vector-Inserted, new_index-IsGraph, new_index-IsIndexed,
}
use hybrid_vector_cache_hnsw.Hnsw.Insert.Panics.{insert_vector-panics}
use hybrid_vector_cache_hnsw.Hnsw.Search.{search_from}
use hybrid_vector_cache_hnsw.Hnsw.Search.Truth.{IsTrue, search_from-IsTrue, search_behind_delete}

abbrev pub numbers : Float
numbers = record {
  add = λ x y. x + y;
  sub = λ x y. x - y;
  mul = λ x y. x * y;
  div = λ x y. 100 * x / y;
  root = λ x. x;
}

abbrev pub a : Bytes
a = bytes "a"

abbrev b : Bytes
b = bytes "b"

abbrev pub vec_a : List ℕ
vec_a = 1 ∷ 2 ∷ []

abbrev vec_b : List ℕ
vec_b = 3 ∷ 1 ∷ []

abbrev blank : Index
blank = new_index 2 3

abbrev pub one_node : Index
one_node = record blank {
  nodes = new_node 0 vec_a [] 1 ∷ [];
  id_map = (a, 0) ∷ [];
  reverse_map = a ∷ [];
  current_max_layer = 1;
  insert_count = 1;
}

blank-HasDegree : HasDegree blank
unfolding new_index
blank-HasDegree = (omega arith, omega arith)

pub one_node-HasDegree : HasDegree one_node
unfolding new_index
one_node-HasDegree = (omega arith, omega arith)

first_insert : insert_vector numbers a vec_a [] 1 blank ≡ ok one_node
unfolding insert_vector new_index lookup insert cap_level random_level
first_insert = refl

pub first : Inserted 2 blank a vec_a [] one_node
first = subst (Returns (Inserted 2 blank a vec_a [])) first_insert (
    insert_vector-Inserted numbers 2 blank a vec_a [] 1 refl (unfold new_index in omega arith)
      (new_index-IsGraph 2 2 3) (new_index-IsIndexed 2 3) blank-HasDegree)

insert_vector-Inserted_example :
    Returns (Inserted 2 one_node b vec_b []) (insert_vector numbers b vec_b [] 2 one_node)
insert_vector-Inserted_example =
    insert_vector-Inserted numbers 2 one_node b vec_b [] 2 refl (omega arith) first.graph
      first.indexed one_node-HasDegree

-- The index with both vectors, linked to one another on their common layers.
abbrev two_nodes : Index
two_nodes = record one_node {
  nodes =
      record {
        id = 0;
        vector = vec_a;
        metadata = [];
        links = (1 ∷ []) ∷ (1 ∷ []) ∷ [];
        deleted = false;
      }
      ∷ record {
        id = 1;
        vector = vec_b;
        metadata = [];
        links = (0 ∷ []) ∷ (0 ∷ []) ∷ [] ∷ [];
        deleted = false;
      }
      ∷ [];
  id_map = (a, 0) ∷ (b, 1) ∷ [];
  reverse_map = a ∷ b ∷ [];
  entry_point = 1;
  current_max_layer = 2;
  insert_count = 2;
}

second_insert : insert_vector numbers b vec_b [] 2 one_node ≡ ok two_nodes
unfolding insert_vector new_index lookup insert cap_level random_level new_node same cosine_distance
    pop push select_neighbors_heuristic drain
second_insert = refl

second : Inserted 2 one_node b vec_b [] two_nodes
second = subst (Returns (Inserted 2 one_node b vec_b [])) second_insert (
    insert_vector-Inserted numbers 2 one_node b vec_b [] 2 refl (omega arith) first.graph
      first.indexed one_node-HasDegree)

search_from-IsTrue_example :
    Returns
      (λ (hits, idx').
        (length hits ≤ 1)
        × All (IsTrue numbers two_nodes vec_a) hits
        × (idx' ≡ record two_nodes { search_count = two_nodes.search_count + 1 }))
      (search_from numbers vec_a 1 0 two_nodes)
search_from-IsTrue_example =
    search_from-IsTrue numbers two_nodes vec_a 1 0 second.indexed
      (IsDim-IsLong numbers 2 two_nodes 0 vec_a refl second.graph.wide two_nodes.nodes
        second.graph.dims)
      second.graph.width

search_behind_delete_example :
    Returns
      (λ (hits, idx'). All (λ hit. hit.key ≢ b) hits)
      (search_from numbers vec_a 2 0 (delete b two_nodes).1)
search_behind_delete_example =
    search_behind_delete numbers two_nodes vec_a 2 0 b second.indexed
      (IsDim-IsLong numbers 2 two_nodes 0 vec_a refl second.graph.wide two_nodes.nodes
        second.graph.dims)
      second.graph.width

stored-delete_example :
    (stored (delete b two_nodes).1 a ≡ (if same b a then none else stored two_nodes a))
    × ((delete b two_nodes).0 ≡ elim (lookup b two_nodes.id_map) [ none ↦ false | some _ ↦ true ])
stored-delete_example = stored-delete b a two_nodes second.indexed

abbrev two_items : List Item
two_items = record { id = 0; dist = 5 } ∷ record { id = 1; dist = 7 } ∷ []

select_neighbors-IsChosen_example :
    Returns
      (IsChosen (λ i. i < 2) 1)
      (select_neighbors_heuristic numbers two_nodes.nodes vec_a two_items 1 0 false true)
select_neighbors-IsChosen_example =
    select_neighbors-IsChosen (λ i. i < 2) 1 numbers two_nodes.nodes 2 second.graph.dims vec_a
      two_items 0 (omega arith, (omega arith, tt))

-- The maps without an entry alone.
abbrev empty_maps : Json
empty_maps = record { marshal = λ m. bytes "{}"; unmarshal = λ text. some [] }

abbrev node_a : Node
node_a = record {
  id = 0;
  vector = vec_a;
  metadata = [];
  links = (1 ∷ []) ∷ (1 ∷ []) ∷ [];
  deleted = false;
}

abbrev node_b : Bool → Node
node_b deleted = record {
  id = 1;
  vector = vec_b;
  metadata = [];
  links = (0 ∷ []) ∷ (0 ∷ []) ∷ [] ∷ [];
  deleted = deleted;
}

node_a-IsSaved : IsSaved empty_maps node_a
node_a-IsSaved = record {
  id = omega arith;
  layered = omega arith;
  layers = omega arith;
  dim = omega arith;
  bits = ground arith;
  described = refl;
  brief = omega arith;
  linked = ground arith;
}

node_b-IsSaved : (deleted : Bool) → IsSaved empty_maps (node_b deleted)
node_b-IsSaved deleted = record {
  id = omega arith;
  layered = omega arith;
  layers = omega arith;
  dim = omega arith;
  bits = ground arith;
  described = refl;
  brief = omega arith;
  linked = ground arith;
}

two_nodes-Fits : Fits empty_maps two_nodes
unfolding new_index
two_nodes-Fits = record {
  m = omega arith;
  m_word = omega arith;
  mmax0 = omega arith;
  width = omega arith;
  width_word = omega arith;
  ef = omega arith;
  top = omega arith;
  entry = omega arith;
  size = omega arith;
  saved = (node_a-IsSaved, (node_b-IsSaved false, tt));
  numbered = (refl, (refl, tt));
  keys = omega arith;
  brief = ground arith;
}

load_snapshot-snapshot_example :
    Returns
      (λ file. load_snapshot empty_maps file ≡ loaded (restored two_nodes))
      (snapshot empty_maps two_nodes)
load_snapshot-snapshot_example = load_snapshot-snapshot empty_maps two_nodes two_nodes-Fits

deleted-Fits : Fits empty_maps (delete b two_nodes).1
unfolding new_index delete same lookup
deleted-Fits = record {
  m = omega arith;
  m_word = omega arith;
  mmax0 = omega arith;
  width = omega arith;
  width_word = omega arith;
  ef = omega arith;
  top = omega arith;
  entry = omega arith;
  size = omega arith;
  saved = (node_a-IsSaved, (node_b-IsSaved true, tt));
  numbered = (refl, (refl, tt));
  keys = omega arith;
  brief = ground arith;
}

snapshot_forgets_delete_example :
    Returns
      (λ file.
        (idx' : Index) × (load_snapshot empty_maps file ≡ loaded idx')
        × (stored idx' b ≡ stored two_nodes b))
      (snapshot empty_maps (delete b two_nodes).1)
snapshot_forgets_delete_example =
    snapshot_forgets_delete empty_maps two_nodes b b second.indexed (refl, (refl, tt)) deleted-Fits

insert_vector-panics_example :
    insert_vector numbers (bytes "c") (2 ∷ 2 ∷ []) [] 2 (delete b two_nodes).1 ≡ panic
unfolding new_index delete lookup same cap_level random_level remove
insert_vector-panics_example =
    insert_vector-panics numbers (delete b two_nodes).1 (bytes "c") (2 ∷ 2 ∷ []) [] 2 node_a refl
      (omega arith) refl (omega arith) (omega arith) (omega arith) (omega arith) (omega arith)
