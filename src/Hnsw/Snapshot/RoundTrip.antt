-- ===== src/Hnsw/Snapshot/RoundTrip.antt =====
-- LoadSnapshot on what Snapshot wrote.
use hybrid_vector_cache_hnsw.Common.{
  ℕ, zero, suc, ◌-◌, ◌<◌, ◌≡◌, refl, [], ◌∷◌, ◌++◌, map, arith, length, length-append,
}
use hybrid_vector_cache_hnsw.Common.Bytes.{Bytes, same}
use hybrid_vector_cache_hnsw.Common.Run.{ok, Returns, Returns-bind}
use hybrid_vector_cache_hnsw.Heap.Items.{All}
use hybrid_vector_cache_hnsw.Persist.Crc.{crc32, crc32_bounds}
use hybrid_vector_cache_hnsw.Hnsw.{Index, new_index, or_default}
use hybrid_vector_cache_hnsw.Hnsw.Snapshot.{
  Json, magic_hnsw, version, put_word, put_words, put_keys, put_nodes, put_header, put_index,
  snapshot,
}
use hybrid_vector_cache_hnsw.Hnsw.Snapshot.Load.{
  got, get_bytes, get_nodes, get_index, no_nodes, number_keys, loaded_index, loaded, load_snapshot,
}
use hybrid_vector_cache_hnsw.Hnsw.Snapshot.Words.{
  IsWord, get_word-put_word, get_keys-put_keys, take-append, drop-append, length-put_word,
}
use hybrid_vector_cache_hnsw.Hnsw.Snapshot.Nodes.{
  IsSaved, IsNumbered, revive, slots_of, all_nodes-slots_of, get_nodes-put_nodes,
}

or_default-positive : (n d : ℕ) → 0 < n → or_default n d ≡ n
or_default-positive zero d h = absurd (omega (arith, h))
or_default-positive (suc n) d h = refl

-- The index that is read back: all of its nodes are live, and idMap is numbered anew.
abbrev pub restored : Index → Index
restored idx = record idx {
  max_level = 16;
  nodes = map revive idx.nodes;
  id_map = number_keys 0 idx.reverse_map [];
  insert_count = length idx.nodes;
  search_count = 0;
}

-- The content is what lies before the last four bytes.
sealed : (text : Bytes) (w : ℕ) → length (text ++ put_word w []) - 4 ≡ length text
sealed text w = omega (arith, length-append text (put_word w []), length-put_word w [])

module _ (json : Json) where
  -- An index that fits the format.
  pub record Fits (idx : Index) : Type 0 where
    pub m : 0 < idx.m
    pub m_word : IsWord idx.m
    pub mmax0 : IsWord idx.mmax0
    pub width : 0 < idx.ef_construction
    pub width_word : IsWord idx.ef_construction
    pub ef : IsWord idx.ef
    pub top : IsWord idx.current_max_layer
    pub entry : IsWord idx.entry_point
    pub size : IsWord (length idx.nodes)
    pub saved : All (IsSaved json) idx.nodes
    pub numbered : IsNumbered 0 idx.nodes
    pub keys : IsWord (length idx.reverse_map)
    pub brief : All (λ key. IsWord (length key)) idx.reverse_map

  get_index-put_index :
      (idx : Index)
      → Fits idx
      → Returns
          (λ text. loaded_index (get_index json text) ≡ loaded (restored idx))
          (put_index json idx)
  unfolding get_index get_bytes put_index put_header put_words new_index same
  get_index-put_index idx v =
      let tail = put_word (length idx.reverse_map) (put_keys idx.reverse_map []) in
      let count = length idx.nodes in
      let slots = slots_of (map revive idx.nodes) [] in
      Returns-bind (λ t. get_nodes json count (no_nodes count) t ≡ got slots tail)
        (λ text. loaded_index (get_index json text) ≡ loaded (restored idx))
        (put_nodes json idx.nodes tail)
        (λ t. ok (magic_hnsw ++ version ∷ put_header idx (put_word count t)))
        (get_nodes-put_nodes json idx.nodes [] tail v.saved v.numbered)
        (λ t e.
          let t0 = put_word count t in
          let t1 = put_word idx.entry_point t0 in
          let t2 = put_word idx.current_max_layer t1 in
          let t3 = put_word idx.ef t2 in
          let t4 = put_word idx.ef_construction t3 in
          let t5 = put_word idx.mmax0 t4 in
          rw
            (
              get_word-put_word idx.m t5 v.m_word,
              get_word-put_word idx.mmax0 t4 v.mmax0,
              get_word-put_word idx.ef_construction t3 v.width_word,
              get_word-put_word idx.ef t2 v.ef,
              get_word-put_word idx.current_max_layer t1 v.top,
              get_word-put_word idx.entry_point t0 v.entry,
              get_word-put_word count t v.size,
              e,
              get_word-put_word (length idx.reverse_map) (put_keys idx.reverse_map []) v.keys,
              get_keys-put_keys idx.reverse_map [] v.brief,
              all_nodes-slots_of (map revive idx.nodes),
              or_default-positive idx.m 16 v.m,
              or_default-positive idx.ef_construction 200 v.width,
            )
            refl)

  -- LoadSnapshot reads what Snapshot wrote, on an index that fits the format: the same parameters,
  -- entry point, nodes, links and keys, but every node is live, and each key has its last place.
  pub load_snapshot-snapshot :
      (idx : Index)
      → Fits idx
      → Returns (λ file. load_snapshot json file ≡ loaded (restored idx)) (snapshot json idx)
  unfolding snapshot load_snapshot
  load_snapshot-snapshot idx v =
      Returns-bind (λ text. loaded_index (get_index json text) ≡ loaded (restored idx))
        (λ file. load_snapshot json file ≡ loaded (restored idx)) (put_index json idx)
        (λ text. ok (text ++ put_word (crc32 text) [])) (get_index-put_index idx v)
        (λ text e. rw (sealed text (crc32 text)) (
          rw
            (
              take-append text (put_word (crc32 text) []),
              drop-append text (put_word (crc32 text) []),
              get_word-put_word (crc32 text) [] (crc32_bounds text),
            )
            (ground (
              arith,
              e,
              length-append text (put_word (crc32 text) []),
              length-put_word (crc32 text) [],
            ))))
