-- ===== src/Hnsw/Snapshot/Load.antt =====
-- internal/hnsw/snapshot.go: LoadSnapshot. A reader is a function of the bytes that are left.
use hybrid_vector_cache_hnsw.Common.{
  ℕ, zero, suc, ◌+◌, ◌-◌, ◌*◌, Option, none, some, List, [], ◌∷◌, if◌then◌else◌, length, take, drop,
  Bool, ◌==◌, ltb, set,
}
use hybrid_vector_cache_hnsw.Common.Bytes.{Bytes, same}
use hybrid_vector_cache_hnsw.Common.Dict.{Dict, insert}
use hybrid_vector_cache_hnsw.Persist.Crc.{crc32}
use hybrid_vector_cache_hnsw.Hnsw.{Node, Index, new_index, new_node}
use hybrid_vector_cache_hnsw.Hnsw.Snapshot.{Json, magic_hnsw, version}

-- The errors of LoadSnapshot; `short` is that of a read past the end.
pub data LoadError : Type 0 where
  too_small wrong_checksum wrong_magic wrong_version short wrong_metadata : LoadError

-- `crash` is the panic of an index out of range.
pub data Read (A : Type 0) : Type 0 where
  got : A → Bytes → Read A
  failed : LoadError → Read A
  crash : Read A

abbrev and_then : {A B : Type 0} → Read A → (A → Bytes → Read B) → Read B
and_then (got a rest) k = k a rest
and_then (failed e) k = failed e
and_then crash k = crash

infixl 5 ◌>>=◌
abbrev pub ◌>>=◌ : {A B : Type 0} → (Bytes → Read A) → (A → Bytes → Read B) → Bytes → Read B
(p >>= k) text = and_then (p text) k

-- binary.Read of a uint32 or of the bits of a float32
unfoldable pub get_word : Bytes → Read ℕ
get_word (a ∷ b ∷ c ∷ d ∷ rest) = got (a + 256 * b + 65536 * c + 16777216 * d) rest
get_word text = failed short

-- binary.Read of a slice
unfoldable pub get_words : ℕ → Bytes → Read (List ℕ)
get_words zero = got []
get_words (suc n) = do w ← get_word; ws ← get_words n; got (w ∷ ws)

-- io.ReadFull
unfoldable pub get_bytes : ℕ → Bytes → Read Bytes
get_bytes zero text = got [] text
get_bytes (suc n) [] = failed short
get_bytes (suc n) (b ∷ text) = and_then (get_bytes n text) (λ bs. got (b ∷ bs))

-- The bytes behind a length
unfoldable pub get_text : Bytes → Read Bytes
get_text = do n ← get_word; get_bytes n

unfoldable pub get_link_list : Bytes → Read (List ℕ)
get_link_list = do n ← get_word; get_words n

-- The loop over the layers from 0 to maxLayer. Where maxLayer is the largest uint32, l wraps around
-- in the source; by then the text would have been 16 GB long.
unfoldable pub get_layers : ℕ → Bytes → Read (List (List ℕ))
get_layers zero = got []
get_layers (suc n) = do links ← get_link_list; layers ← get_layers n; got (links ∷ layers)

-- A comparison that must hold.
abbrev pub expect : Bool → LoadError → Bytes → Read (Unit {0})
expect b e text = if b then got tt text else failed e

-- idx.nodes[id] = node, on a slice of pointers that start as nil
unfoldable pub fill : ℕ → Node → List (Option Node) → Bytes → Read (List (Option Node))
fill id n slots text = if ltb id (length slots) then got (set slots id (some n)) text else crash

unfoldable pub no_nodes : ℕ → List (Option Node)
no_nodes zero = []
no_nodes (suc n) = none ∷ no_nodes n

-- json.Unmarshal, with its error
abbrev pub or_wrong : Option (Dict Bytes) → Bytes → Read (Dict Bytes)
or_wrong none text = failed wrong_metadata
or_wrong (some meta) text = got meta text

-- The loop over the keys: reverseMap and idMap.
unfoldable pub get_keys : ℕ → Bytes → Read (List Bytes)
get_keys zero = got []
get_keys (suc n) = do key ← get_text; keys ← get_keys n; got (key ∷ keys)

-- idMap: each key has its last place.
unfoldable pub number_keys : ℕ → List Bytes → Dict ℕ → Dict ℕ
number_keys i [] id_map = id_map
number_keys i (key ∷ keys) id_map = number_keys (i + 1) keys (insert key i id_map)

module _ (json : Json) where
  unfoldable pub get_node : Bytes → Read Node
  get_node = do
    id ← get_word
    top ← get_word
    dim ← get_word
    vec ← get_words dim
    text ← get_text
    meta ← or_wrong (json.unmarshal text)
    layers ← get_layers (suc top)
    got (record (new_node id vec meta top) { links = layers })

  -- The loop over the nodes.
  unfoldable pub get_nodes : ℕ → List (Option Node) → Bytes → Read (List (Option Node))
  get_nodes zero slots = got slots
  get_nodes (suc n) slots = do node ← get_node; slots' ← fill node.id node slots; get_nodes n slots'

  -- What is read behind the checksum: the index without its nodes, the slots of the nodes.
  unfoldable pub get_index : Bytes → Read (Index × List (Option Node))
  get_index = do
    magic ← get_bytes 4
    _ ← expect (same magic magic_hnsw) wrong_magic
    v ← get_bytes 1
    _ ← expect (same v (version ∷ [])) wrong_version
    m ← get_word
    mmax0 ← get_word
    ef_construction ← get_word
    ef ← get_word
    top ← get_word
    entry_point ← get_word
    count ← get_word
    slots ← get_nodes count (no_nodes count)
    names ← get_word
    keys ← get_keys names
    let idx : Index = record (new_index m ef_construction) {
      mmax0 = mmax0;
      ef = ef;
      current_max_layer = top;
      entry_point = entry_point;
      reverse_map = keys;
      id_map = number_keys 0 keys [];
      insert_count = count;
    }
    got (idx, slots)

-- How LoadSnapshot ends. `nil_node` is an index with a nil pointer among its nodes, which `Index`
-- does not represent: the file has a node twice.
pub data Loaded : Type 0 where
  loaded : Index → Loaded
  refused : LoadError → Loaded
  nil_node panicked : Loaded

unfoldable pub all_nodes : List (Option Node) → Option (List Node)
all_nodes [] = some []
all_nodes (none ∷ slots) = none
all_nodes (some n ∷ slots) = elim (all_nodes slots) [ none ↦ none | some ns ↦ some (n ∷ ns) ]

abbrev pub with_nodes : Index → Option (List Node) → Loaded
with_nodes idx none = nil_node
with_nodes idx (some nodes) = loaded (record idx { nodes = nodes })

abbrev pub loaded_index : Read (Index × List (Option Node)) → Loaded
loaded_index (got (idx, slots) rest) = with_nodes idx (all_nodes slots)
loaded_index (failed e) = refused e
loaded_index crash = panicked

abbrev pub check_sum : Json → Bytes → Read ℕ → Loaded
check_sum json content (got w rest) =
    if crc32 content == w then loaded_index (get_index json content) else refused wrong_checksum
check_sum json content (failed e) = refused e
check_sum json content crash = panicked

-- LoadSnapshot
unfoldable pub load_snapshot : Json → Bytes → Loaded
load_snapshot json text =
    let content = take (length text - 4) text in
    if ltb (length text) 4
    then refused too_small
    else check_sum json content (get_word (drop (length text - 4) text))
