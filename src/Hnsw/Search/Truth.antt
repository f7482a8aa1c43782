-- ===== src/Hnsw/Search/Truth.antt =====
-- The answers of Search against the index as a map.
use hybrid_vector_cache_hnsw.Common.{
  ℕ, zero, suc, ◌+◌, ◌≤◌, ◌<◌, ◌≡◌, ◌≢◌, refl, sym, ap, ◌∙◌, Option, none, some, List, [], ◌∷◌,
  arith, if◌then◌else◌, length,
}
use hybrid_vector_cache_hnsw.Common.Bytes.{Bytes, same_refl}
use hybrid_vector_cache_hnsw.Common.Dict.{Dict, lookup}
use hybrid_vector_cache_hnsw.Common.Run.{Returns, Returns-map}
use hybrid_vector_cache_hnsw.Similarity.{Float}
use hybrid_vector_cache_hnsw.Heap.Items.{All, All-map}
use hybrid_vector_cache_hnsw.Hnsw.{Node, Index, cosine_distance, delete, delete_found, bury, one}
use hybrid_vector_cache_hnsw.Hnsw.Keys.{IsIndexed, delete-IsIndexed}
use hybrid_vector_cache_hnsw.Hnsw.Contents.{content, content_at, stored, stored-delete}
use hybrid_vector_cache_hnsw.Hnsw.Insert.Descend.{IsLong}
use hybrid_vector_cache_hnsw.Hnsw.Search.{Hit, search_from}
use hybrid_vector_cache_hnsw.Hnsw.Search.Answers.{IsAnswer, search_from-Answers}

-- A hit that is what the index holds for its key, with the similarity of its vector.
pub record IsTrue (f : Float) (idx : Index) (query : List ℕ) (hit : Hit) : Type 0 where
  pub vector : List ℕ
  pub dist : ℕ
  pub held : stored idx hit.key ≡ some (vector, hit.metadata)
  pub measured : cosine_distance f query vector ≡ some dist
  pub scored : hit.score ≡ f.sub one dist

IsAnswer-IsTrue :
    (f : Float) (idx : Index) (query : List ℕ)
    → IsIndexed idx
    → (hit : Hit) → IsAnswer f idx query hit
    → IsTrue f idx query hit
IsAnswer-IsTrue f idx query v hit a = record {
  vector = a.node.vector;
  dist = a.dist;
  held =
      ap (content_at idx.nodes) (v.owner a.id a.node hit.key a.at a.named a.live)
      ∙ ap content a.at
      ∙ ap (λ m. some (a.node.vector, m)) (sym a.described);
  measured = a.measured;
  scored = a.scored;
}

-- Search returns on an index whose maps are in step, whose vectors are at least as long as the query
-- and whose own width is positive. It answers with at most k hits; each is what the index holds for
-- the key, with the similarity of the vector that is stored. The index is as before but for its
-- counter.
pub search_from-IsTrue :
    (f : Float) (idx : Index) (query : List ℕ) (k ef : ℕ)
    → IsIndexed idx
    → IsLong idx.nodes query
    → 0 < idx.ef
    → Returns
        (λ (hits, idx').
          (length hits ≤ k)
          × All (IsTrue f idx query) hits
          × (idx' ≡ record idx { search_count = idx.search_count + 1 }))
        (search_from f query k ef idx)
search_from-IsTrue f idx query k ef v long pos =
    Returns-map
      (λ (hits, idx').
        (length hits ≤ k)
        × All (IsAnswer f idx query) hits
        × (idx' ≡ record idx { search_count = idx.search_count + 1 }))
      (λ (hits, idx').
        (length hits ≤ k)
        × All (IsTrue f idx query) hits
        × (idx' ≡ record idx { search_count = idx.search_count + 1 }))
      (search_from f query k ef idx) (search_from-Answers f idx query v.same_size k ef long pos)
      (λ (hits, idx') a. (
        a.0,
        All-map (IsAnswer f idx query) (IsTrue f idx query) (IsAnswer-IsTrue f idx query v) hits
            a.1,
        a.2,
      ))

IsTrue-ne :
    (f : Float) (idx : Index) (query : List ℕ) (key : Bytes)
    → stored idx key ≡ none
    → (hit : Hit) → IsTrue f idx query hit
    → hit.key ≢ key
IsTrue-ne f idx query key e hit t at =
    let clash : ◌≡◌ {A = Option (List ℕ × Dict Bytes)} (some (t.vector, hit.metadata)) none =
      sym t.held ∙ ap (stored idx) at ∙ e in
    cc

bury-IsLong :
    (id : ℕ) (nodes : List Node) (query : List ℕ)
    → IsLong nodes query
    → IsLong (bury id nodes) query
unfolding bury
bury-IsLong id [] query long i n e = cc
bury-IsLong zero (x ∷ ns) query long zero n e =
    let first : length query ≤ length x.vector = long 0 x refl in ground arith
bury-IsLong zero (x ∷ ns) query long (suc i) n e = long (suc i) n e
bury-IsLong (suc id) (x ∷ ns) query long zero n e = long 0 n e
bury-IsLong (suc id) (x ∷ ns) query long (suc i) n e =
    bury-IsLong id ns query (λ j. long (suc j)) i n e

delete-IsLong :
    (key : Bytes) (idx : Index) (query : List ℕ)
    → IsLong idx.nodes query
    → (0 < idx.ef)
    → IsLong (delete key idx).1.nodes query × (0 < (delete key idx).1.ef)
unfolding delete delete_found
delete-IsLong key idx query long pos = deleted (lookup key idx.id_map)
  where
    deleted :
        (o : Option ℕ)
        → IsLong (delete_found key idx o).1.nodes query × (0 < (delete_found key idx o).1.ef)
    deleted none = (long, pos)
    deleted (some id) = (bury-IsLong id idx.nodes query long, pos)

-- Search behind a Delete returns, and none of its hits has the deleted key.
pub search_behind_delete :
    (f : Float) (idx : Index) (query : List ℕ) (k ef : ℕ) (key : Bytes)
    → IsIndexed idx
    → IsLong idx.nodes query
    → 0 < idx.ef
    → Returns
        (λ (hits, idx'). All (λ hit. hit.key ≢ key) hits)
        (search_from f query k ef (delete key idx).1)
search_behind_delete f idx query k ef key v long pos =
    let after = (delete key idx).1 in
    let gone : stored after key ≡ none =
      (stored-delete key key idx v).0
      ∙ ap (λ b. if b then none else stored idx key) (same_refl key) in
    let (long', pos') = delete-IsLong key idx query long pos in
    Returns-map
      (λ (hits, idx').
        (length hits ≤ k)
        × All (IsTrue f after query) hits
        × (idx' ≡ record after { search_count = after.search_count + 1 }))
      (λ (hits, idx'). All (λ hit. hit.key ≢ key) hits) (search_from f query k ef after)
      (search_from-IsTrue f after query k ef (delete-IsIndexed key idx v) long' pos')
      (λ (hits, idx') a.
        All-map (IsTrue f after query) (λ hit. hit.key ≢ key) (IsTrue-ne f after query key gone)
          hits a.1)
