-- ===== src/Hnsw/Search/Answers.antt =====
-- What Search answers with.
use hybrid_vector_cache_hnsw.Common.{
  ℕ, zero, suc, ◌+◌, ◌≤◌, ◌<◌, ◌≡◌, refl, sym, ap, ◌∙◌, false, Option, none, some, List, [], ◌∷◌,
  arith, length, get_elem?, get_elem?-lt, get_elem?-some, backwards,
}
use hybrid_vector_cache_hnsw.Common.Run.{ok, ◌>>=◌, or_panic, Returns, Returns-bind}
use hybrid_vector_cache_hnsw.Similarity.{Float}
use hybrid_vector_cache_hnsw.Heap.{drain}
use hybrid_vector_cache_hnsw.Heap.Items.{All, All-map, All-drain, All-backwards}
use hybrid_vector_cache_hnsw.Hnsw.{Node, Index, Item, get_links, cosine_distance, max_less, one}
use hybrid_vector_cache_hnsw.Hnsw.Layer.{search_layer}
use hybrid_vector_cache_hnsw.Hnsw.Layer.Found.{IsMeasured, IsFound}
use hybrid_vector_cache_hnsw.Hnsw.Layer.Result.{search_layer-Found}
use hybrid_vector_cache_hnsw.Hnsw.Insert.{descend}
use hybrid_vector_cache_hnsw.Hnsw.Insert.Descend.{IsLong, IsLayer, descend-Returns}
use hybrid_vector_cache_hnsw.Hnsw.Search.{Hit, live_node, collect, search_width, search_from}

-- A true answer to a query: a live node's key and metadata, with the node's similarity.
pub record IsAnswer (f : Float) (idx : Index) (query : List ℕ) (hit : Hit) : Type 0 where
  pub id : ℕ
  pub node : Node
  pub dist : ℕ
  pub at : get_elem? idx.nodes id ≡ some node
  pub live : node.deleted ≡ false
  pub named : get_elem? idx.reverse_map id ≡ some hit.key
  pub measured : cosine_distance f query node.vector ≡ some dist
  pub scored : hit.score ≡ f.sub one dist
  pub described : hit.metadata ≡ node.metadata

module _ (f : Float) (idx : Index) (query : List ℕ)
    (named : length idx.reverse_map ≡ length idx.nodes) where
  abbrev Measured : Item → Type 0
  Measured = IsMeasured f idx.nodes query

  abbrev Answer : Hit → Type 0
  Answer = IsAnswer f idx query

  abbrev Answers : ℕ → List Hit → Type 0
  Answers k hits = (length hits ≤ k) × All Answer hits

  live_node-some : (n m : Node) → live_node (some n) ≡ some m → (n ≡ m) × (n.deleted ≡ false)
  live_node-some n m e = ground arith

  collect-Answers :
      (k : ℕ) (items : List Item) → All Measured items → Returns (Answers k) (collect f idx k items)
  unfolding collect
  collect-Answers k [] a = (omega arith, tt)
  collect-Answers zero (x ∷ xs) a = (omega arith, tt)
  collect-Answers (suc k) (x ∷ xs) a =
      answered (live_node (get_elem? idx.nodes x.id)) refl (collect-Answers k xs a.1)
        (collect-Answers (suc k) xs a.1)
    where
      answered :
          (o : Option Node)
          → live_node (get_elem? idx.nodes x.id) ≡ o
          → Returns (Answers k) (collect f idx k xs)
          → Returns (Answers (suc k)) (collect f idx (suc k) xs)
          → Returns (Answers (suc k)) (elim o [
            | none ↦ collect f idx (suc k) xs
            | some n ↦ or_panic (get_elem? idx.reverse_map x.id) >>= λ key.
                collect f idx k xs >>= λ hits.
                ok (record { key = key; score = f.sub one x.dist; metadata = n.metadata } ∷ hits)
          ])
      answered none e more skip = skip
      answered (some n) e more skip =
          let at_x = ap live_node (sym a.0.at) ∙ e in
          let (same, live) = live_node-some a.0.node n at_x in
          let bound : x.id < length idx.reverse_map =
            omega (arith, named, get_elem?-lt idx.nodes x.id a.0.node a.0.at) in
          let (key, ke) = get_elem?-some idx.reverse_map x.id bound in
          rw ke (
            Returns-bind (Answers k) (Answers (suc k)) (collect f idx k xs)
              (λ hits.
                ok (record { key = key; score = f.sub one x.dist; metadata = n.metadata } ∷ hits))
              more
              (λ hits b. (
                omega (arith, b.0),
                (
                  record {
                    id = x.id;
                    node = a.0.node;
                    dist = x.dist;
                    at = a.0.at;
                    live = live;
                    named = ke;
                    measured = a.0.dist;
                    scored = refl;
                    described = ap (λ (m : Node). m.metadata) (sym same);
                  },
                  b.1,
                ),
              )))

  -- The links of every layer lead to ids, of which nothing is asked.
  anywhere-IsLayer : IsLayer idx.nodes (λ l i. Unit {0})
  anywhere-IsLayer = record { closed = λ l i n e p. anywhere (get_links n l); below = λ l i p. tt }
    where
      anywhere : (ids : List ℕ) → All (λ i. Unit {0}) ids
      anywhere [] = tt
      anywhere (i ∷ ids) = (tt, anywhere ids)

  search_width-pos : (k ef : ℕ) → 0 < idx.ef → 0 < search_width idx k ef
  unfolding search_width
  search_width-pos k ef pos = ground arith

  -- Search returns on an index whose vectors are at least as long as the query and whose own width is
  -- positive: it answers with at most k hits, each the key, the metadata and the similarity of a node
  -- that is not deleted, and changes nothing but its counter.
  pub search_from-Answers :
      (k ef : ℕ)
      → IsLong idx.nodes query
      → 0 < idx.ef
      → Returns
          (λ (hits, idx').
            (length hits ≤ k)
            × All Answer hits
            × (idx' ≡ record idx { search_count = idx.search_count + 1 }))
          (search_from f query k ef idx)
  unfolding search_from
  search_from-Answers k ef long pos =
      let Outcome : List Hit × Index → Type 0 = λ (hits, idx').
        (length hits ≤ k)
        × All Answer hits
        × (idx' ≡ record idx { search_count = idx.search_count + 1 }) in
      let P : ℕ → ℕ → Type 0 = λ l i. Unit {0} in
      let width = search_width idx k ef in
      let out = record idx { search_count = idx.search_count + 1 } in
      let result = λ (found : List Item).
        collect f idx k (backwards (drain max_less (length found) found) []) in
      Returns-bind (All (P 0)) Outcome
        (descend f idx.nodes query idx.current_max_layer 0 (idx.entry_point ∷ []))
        (λ eps. search_layer f idx.nodes query eps width 0 >>= λ found.
          result found >>= λ hits. ok (hits, out))
        (descend-Returns f idx.nodes query P long anywhere-IsLayer idx.current_max_layer 0
          (idx.entry_point ∷ []) (tt, tt))
        (λ eps p.
          Returns-bind (All (IsFound f idx.nodes query (P 0))) Outcome
            (search_layer f idx.nodes query eps width 0)
            (λ found. result found >>= λ hits. ok (hits, out))
            (search_layer-Found f idx.nodes query 0 (P 0) long (anywhere-IsLayer.closed 0) width
              (search_width-pos k ef pos) eps p)
            (λ found a.
              Returns-bind (Answers k) Outcome (result found) (λ hits. ok (hits, out))
                (collect-Answers k (backwards (drain max_less (length found) found) []) (
                  All-backwards Measured (drain max_less (length found) found) []
                    (All-drain Measured max_less (length found) found
                      (All-map (IsFound f idx.nodes query (P 0)) Measured (λ x m. m.0) found a))
                    tt))
                (λ hits b. (b.0, b.1, refl))))
