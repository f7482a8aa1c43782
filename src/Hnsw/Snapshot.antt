-- ===== src/Hnsw/Snapshot.antt =====
-- internal/hnsw/snapshot.go: Snapshot. The functions that write take the bytes that follow.
-- The two maps between texts and metadata of encoding/json are a parameter; Marshal does not fail
-- on a map of strings, and a buffer in memory takes every write.
pub mod Load
pub mod Words
pub mod Nodes
pub mod RoundTrip
pub mod Revived
use hybrid_vector_cache_hnsw.Common.{
  ℕ, zero, suc, ◌+◌, ◌-◌, ◌/◌, ◌%◌, ◌^◌, Option, List, [], ◌∷◌, ◌++◌, length,
}
use hybrid_vector_cache_hnsw.Common.Bytes.{Bytes, bytes}
use hybrid_vector_cache_hnsw.Common.Dict.{Dict}
use hybrid_vector_cache_hnsw.Common.Run.{Run, ok, panic, out_of_fuel, ◌>>=◌}
use hybrid_vector_cache_hnsw.Persist.Crc.{crc32}
use hybrid_vector_cache_hnsw.Hnsw.{Node, Index}

-- json.Marshal and json.Unmarshal of a map[string]string
pub record Json : Type 0 where
  pub marshal : Dict Bytes → Bytes
  pub unmarshal : Bytes → Option (Dict Bytes)

abbrev pub magic_hnsw : Bytes
magic_hnsw = bytes "HNSW"

abbrev pub version : ℕ
version = 1

-- A uint32 in little-endian order; a larger number is cut to its last 32 bits.
unfoldable pub put_word : ℕ → Bytes → Bytes
put_word n rest = n % 256 ∷ n / 256 % 256 ∷ n / 65536 % 256 ∷ n / 16777216 % 256 ∷ rest

unfoldable pub put_words : List ℕ → Bytes → Bytes
put_words [] rest = rest
put_words (n ∷ ns) rest = put_word n (put_words ns rest)

-- The loop over the layers from 0 to maxLayer.
unfoldable pub put_layers : ℕ → List (List ℕ) → Bytes → Run Bytes
put_layers zero layers rest = ok rest
put_layers (suc n) [] rest = panic
put_layers (suc n) (links ∷ layers) rest = do
  after ← put_layers n layers rest
  ok (put_word (length links) (put_words links after))

-- uint32(len(node.Links) - 1)
unfoldable pub top_layer : Node → ℕ
top_layer n = (length n.links + (2 ^ 32 - 1)) % 2 ^ 32

-- A text behind its length
unfoldable pub put_text : Bytes → Bytes → Bytes
put_text text rest = put_word (length text) (text ++ rest)

unfoldable pub put_keys : List Bytes → Bytes → Bytes
put_keys [] rest = rest
put_keys (key ∷ keys) rest = put_text key (put_keys keys rest)

unfoldable pub put_header : Index → Bytes → Bytes
put_header idx rest =
    put_words
      (idx.m ∷ idx.mmax0 ∷ idx.ef_construction ∷ idx.ef ∷ idx.current_max_layer ∷ idx.entry_point
        ∷ [])
      rest

module _ (json : Json) where
  unfoldable pub put_node : Node → Bytes → Run Bytes
  put_node n rest = do
    layers ← put_layers (suc (top_layer n)) n.links rest
    ok (
        put_word n.id (
          put_word (top_layer n) (
            put_word (length n.vector)
              (put_words n.vector (put_text (json.marshal n.metadata) layers)))))

  unfoldable pub put_nodes : List Node → Bytes → Run Bytes
  put_nodes [] rest = ok rest
  put_nodes (n ∷ ns) rest = put_nodes ns rest >>= put_node n

  -- What is written before the checksum.
  unfoldable pub put_index : Index → Run Bytes
  put_index idx = do
    nodes ← put_nodes idx.nodes (put_word (length idx.reverse_map) (put_keys idx.reverse_map []))
    ok (magic_hnsw ++ version ∷ put_header idx (put_word (length idx.nodes) nodes))

  -- Snapshot: the bytes that it writes.
  unfoldable pub snapshot : Index → Run Bytes
  snapshot idx = do data' ← put_index idx; ok (data' ++ put_word (crc32 data') [])
