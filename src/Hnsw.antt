-- ===== src/Hnsw.antt =====
-- internal/hnsw: the index and its nodes, of index.go, node.go, heap.go and distance.go.
-- A call is one step on the index. A float32 is its bit pattern. In an index whose maps agree, as
-- `IsIndexed` of Hnsw/Keys says, Delete reads no node out of range.
pub mod Tests
pub mod Layer
pub mod Neighbors
pub mod Insert
pub mod Search
pub mod Keys
pub mod Contents
pub mod Snapshot
use hybrid_vector_cache_hnsw.Common.{
  ℕ, zero, suc, ◌+◌, ◌-◌, ◌*◌, ◌^◌, ◌%◌, Bool, true, false, not, ◌&&◌, ◌||◌, Option, none, some,
  List, [], ◌∷◌, ◌++◌, if◌then◌else◌, length, get_elem?, set, ◌==◌, ltb, leb,
}
use hybrid_vector_cache_hnsw.Common.Bytes.{Bytes, same}
use hybrid_vector_cache_hnsw.Common.Dict.{Dict, lookup, remove}
use hybrid_vector_cache_hnsw.Similarity.{Float, Sums, zero_sums, add_products, float_less, is_zero}

-- Node, without its lock
pub record Node : Type 0 where
  pub id : ℕ
  pub vector : List ℕ
  pub metadata : Dict Bytes
  pub links : List (List ℕ)
  pub deleted : Bool

-- Empty links for the layers below n.
unfoldable pub no_links : ℕ → List (List ℕ)
no_links zero = []
no_links (suc n) = [] ∷ no_links n

-- NewNode
unfoldable pub new_node : ℕ → List ℕ → Dict Bytes → ℕ → Node
unfolding no_links
new_node id vec meta max_layer = record {
  id = id;
  vector = vec;
  metadata = meta;
  links = no_links (max_layer + 1);
  deleted = false;
}

-- The value of an optional list, nil if there is none.
abbrev pub or_nil {ℓ} : {A : Type ℓ} → Option (List A) → List A
or_nil none = []
or_nil (some xs) = xs

-- GetLinks
unfoldable pub get_links : Node → ℕ → List ℕ
get_links n layer = or_nil (get_elem? n.links layer)

-- SetLinks; a write beyond the layers of the node changes nothing.
unfoldable pub set_links : ℕ → List ℕ → Node → Node
set_links layer links n = record n { links = set n.links layer links }

-- The total length of the lists.
unfoldable pub total_length : List (List ℕ) → ℕ
total_length [] = 0
total_length (l ∷ ls) = length l + total_length ls

-- LinkCount
unfoldable pub link_count : Node → ℕ
unfolding total_length
link_count n = total_length n.links

-- Index, without its locks and its random numbers. `ml` belongs to the random numbers.
pub record Index : Type 0 where
  pub m : ℕ
  pub mmax0 : ℕ
  pub ef_construction : ℕ
  pub ef : ℕ
  pub max_level : ℕ
  pub nodes : List Node
  pub id_map : Dict ℕ
  pub reverse_map : List Bytes
  pub entry_point : ℕ
  pub current_max_layer : ℕ
  pub insert_count : ℕ
  pub search_count : ℕ

abbrev pub or_default : ℕ → ℕ → ℕ
or_default zero d = d
or_default (suc n) d = suc n

-- NewIndex; a parameter that is not positive is 0 here, and M is below 2^62, where 2 * M wraps around.
unfoldable pub new_index : ℕ → ℕ → Index
new_index m ef_construction = record {
  m = or_default m 16;
  mmax0 = 2 * or_default m 16;
  ef_construction = or_default ef_construction 200;
  ef = 100;
  max_level = 16;
  nodes = [];
  id_map = [];
  reverse_map = [];
  entry_point = 0;
  current_max_layer = 0;
  insert_count = 0;
  search_count = 0;
}

-- SetEF
unfoldable pub set_ef : ℕ → Index → Index
set_ef ef idx = if ltb ef 1 then idx else record idx { ef = ef }

-- The cap of randomLevel on its sample.
unfoldable pub cap_level : Index → ℕ → ℕ
cap_level idx level = if ltb idx.max_level level then idx.max_level else level

-- randomLevel, by its sample -ln(r) * ML. For M = 1 the factor ML is +Inf, which `int` turns into a
-- negative number on amd64: `none`.
unfoldable pub random_level : Index → ℕ → Option ℕ
unfolding cap_level
random_level idx sample = if idx.m == 1 then none else some (cap_level idx sample)

-- EntryPointKey; `none` is the panic of an index out of range.
unfoldable pub entry_point_key : Index → Option Bytes
entry_point_key idx =
    if length idx.nodes == 0 then some [] else get_elem? idx.reverse_map idx.entry_point

unfoldable pub sum_links : List Node → ℕ
unfolding link_count
sum_links [] = 0
sum_links (n ∷ ns) = link_count n + sum_links ns

-- TotalLinks
unfoldable pub total_links : Index → ℕ
unfolding sum_links
total_links idx = sum_links idx.nodes

abbrev pub text_bytes : Dict Bytes → ℕ
text_bytes [] = 0
text_bytes ((k, v) ∷ m) = length k + length v + text_bytes m

unfoldable pub sum_memory : List Node → ℕ
unfolding total_length
sum_memory [] = 0
sum_memory (n ∷ ns) =
    length n.vector * 4 + total_length n.links * 4 + text_bytes n.metadata + 100 + sum_memory ns

-- MemoryBytes
unfoldable pub memory_bytes : Index → ℕ
unfolding sum_memory
memory_bytes idx = sum_memory idx.nodes

abbrev is_live_node : Option Node → Bool
is_live_node none = false
is_live_node (some n) = not n.deleted

-- The first id from `i` on that has a key and a live node, as Delete elects it.
unfoldable pub elect : List Node → ℕ → List Bytes → ℕ
elect nodes i [] = 0
elect nodes i (key ∷ keys) =
    let rest = elect nodes (i + 1) keys in
    if not (length key == 0) && is_live_node (get_elem? nodes i) then i else rest

-- SetDeleted(true) on the node of an id
unfoldable pub bury : ℕ → List Node → List Node
bury i [] = []
bury zero (n ∷ ns) = record n { deleted = true } ∷ ns
bury (suc i) (n ∷ ns) = n ∷ bury i ns

-- Delete, with the id that the key has
unfoldable pub delete_found : Bytes → Index → Option ℕ → Bool × Index
unfolding elect bury
delete_found key idx none = (false, idx)
delete_found key idx (some id) =
    let nodes = bury id idx.nodes in
    let ep = if id == idx.entry_point then elect nodes 0 idx.reverse_map else idx.entry_point in
    (true, record idx { nodes = nodes; id_map = remove key idx.id_map; entry_point = ep })

-- Delete
unfoldable pub delete : Bytes → Index → Bool × Index
unfolding delete_found
delete key idx = delete_found key idx (lookup key idx.id_map)

-- Item
pub record Item : Type 0 where
  pub id : ℕ
  pub dist : ℕ

-- The Less of MinHeap
unfoldable pub min_less : Item → Item → Bool
unfolding float_less
min_less x y = float_less x.dist y.dist

-- The Less of MaxHeap
unfoldable pub max_less : Item → Item → Bool
unfolding float_less
max_less x y = float_less y.dist x.dist

abbrev pub one : ℕ
one = 0x3F800000

abbrev pub minus_one : ℕ
minus_one = 0xBF800000

abbrev pub two : ℕ
two = 0x40000000

-- The loop of CosineDistance; a shorter second vector makes it panic.
unfoldable pub distance_sums : Float → List ℕ → List ℕ → Sums → Option Sums
unfolding add_products
distance_sums f [] b s = some s
distance_sums f (x ∷ a) [] s = none
distance_sums f (x ∷ a) (y ∷ b) s = distance_sums f a b (add_products f x y s)

-- The clamp to [-1, 1] and the subtraction from 1.
unfoldable pub clamped : Float → ℕ → ℕ
unfolding float_less
clamped f sim =
    let upper = if float_less one sim then one else sim in
    f.sub one (if float_less upper minus_one then minus_one else upper)

-- The distance by the three sums.
unfoldable pub distance_by : Float → Sums → ℕ
unfolding is_zero clamped
distance_by f s =
    if is_zero s.norm_a || is_zero s.norm_b
    then two
    else clamped f (f.div s.dot (f.mul (f.root s.norm_a) (f.root s.norm_b)))

-- CosineDistance; `none` is its panic.
unfoldable pub cosine_distance : Float → List ℕ → List ℕ → Option ℕ
unfolding distance_sums distance_by
cosine_distance f a b = elim (distance_sums f a b zero_sums) [
  | none ↦ none
  | some s ↦ some (distance_by f s)
]
