-- ===== src/Hnsw/Search.antt =====
-- internal/hnsw/search.go: Search.
pub mod Answers
pub mod Truth
use hybrid_vector_cache_hnsw.Common.{
  ℕ, zero, suc, ◌+◌, Bool, true, false, Option, none, some, List, [], ◌∷◌, if◌then◌else◌, length,
  get_elem?, backwards, ◌==◌, ltb,
}
use hybrid_vector_cache_hnsw.Common.Bytes.{Bytes}
use hybrid_vector_cache_hnsw.Common.Dict.{Dict}
use hybrid_vector_cache_hnsw.Common.Run.{Run, ok, panic, out_of_fuel, ◌>>=◌, or_panic}
use hybrid_vector_cache_hnsw.Similarity.{Float}
use hybrid_vector_cache_hnsw.Heap.{drain}
use hybrid_vector_cache_hnsw.Hnsw.{Node, Index, Item, max_less, one}
use hybrid_vector_cache_hnsw.Hnsw.Layer.{search_layer}
use hybrid_vector_cache_hnsw.Hnsw.Insert.{descend}

-- SearchResult
pub record Hit : Type 0 where
  pub key : Bytes
  pub score : ℕ
  pub metadata : Dict Bytes

-- The node of an item, if it is to be an answer.
abbrev pub live_node : Option Node → Option Node
live_node none = none
live_node (some n) = if n.deleted then none else some n

-- The width of the search: the index's own for 0, and k at least.
unfoldable pub search_width : Index → ℕ → ℕ → ℕ
search_width idx k ef = let ef' = if ef == 0 then idx.ef else ef in if ltb ef' k then k else ef'

module _ (f : Float) where
  -- The loop over the items, closest first: the answers up to k. A key out of range is a panic.
  unfoldable pub collect : Index → ℕ → List Item → Run (List Hit)
  collect idx k [] = ok []
  collect idx zero (x ∷ xs) = ok []
  collect idx (suc k) (x ∷ xs) = elim (live_node (get_elem? idx.nodes x.id)) [
    | none ↦ collect idx (suc k) xs
    | some n ↦ do
      key ← or_panic (get_elem? idx.reverse_map x.id)
      hits ← collect idx k xs
      ok (record { key = key; score = f.sub one x.dist; metadata = n.metadata } ∷ hits)
  ]

  -- Search, behind the test for an empty index
  unfoldable pub search_from : List ℕ → ℕ → ℕ → Index → Run (List Hit × Index)
  unfolding descend search_layer collect search_width
  search_from query k ef idx = do
    eps ← descend f idx.nodes query idx.current_max_layer 0 (idx.entry_point ∷ [])
    found ← search_layer f idx.nodes query eps (search_width idx k ef) 0
    hits ← collect idx k (backwards (drain max_less (length found) found) [])
    ok (hits, record idx { search_count = idx.search_count + 1 })

  -- Search, for k and ef that are not negative; `none` is its error, of an empty index.
  unfoldable pub search : List ℕ → ℕ → ℕ → Index → Option (Run (List Hit × Index))
  unfolding search_from
  search query k ef idx = if length idx.nodes == 0 then none else some (search_from query k ef idx)
