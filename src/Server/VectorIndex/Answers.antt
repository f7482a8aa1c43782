-- ===== src/Server/VectorIndex/Answers.antt =====
-- VSIMILARITY over an index.
use hybrid_vector_cache_hnsw.Common.{
  ℕ, ◌+◌, ◌≤◌, ◌<◌, ◌≡◌, refl, sym, ap, ◌∙◌, false, not, Option, none, some, List, [], ◌∷◌, map,
  arith, length, Bool-cases, inl, inr, ◌==◌, Option-cases,
}
use hybrid_vector_cache_hnsw.Common.Int.{ℤ}
use hybrid_vector_cache_hnsw.Common.Bytes.{Bytes, same, same_refl}
use hybrid_vector_cache_hnsw.Common.Dict.{Dict, lookup, insert, lookup-insert}
use hybrid_vector_cache_hnsw.Common.Dict.Sweep.{keep_if}
use hybrid_vector_cache_hnsw.Common.Run.{Run, ok, panic, out_of_fuel, ◌>>=◌, Returns, Returns-bind}
use hybrid_vector_cache_hnsw.Heap.Items.{All, All-map}
use hybrid_vector_cache_hnsw.Protocol.Response.{Response}
use hybrid_vector_cache_hnsw.Similarity.{Float, Result}
use hybrid_vector_cache_hnsw.Store.{Store, VectorEntry, vector_expired}
use hybrid_vector_cache_hnsw.Store.Vector.{live_entries, vsnapshot}
use hybrid_vector_cache_hnsw.Store.Vector.View.{vector_view}
use hybrid_vector_cache_hnsw.Hnsw.{Node, Index, cosine_distance, one}
use hybrid_vector_cache_hnsw.Hnsw.Contents.{content_at, stored}
use hybrid_vector_cache_hnsw.Hnsw.Insert.Descend.{IsLong}
use hybrid_vector_cache_hnsw.Hnsw.Search.{Hit, search, search_from}
use hybrid_vector_cache_hnsw.Hnsw.Search.Truth.{IsTrue, search_from-IsTrue}
use hybrid_vector_cache_hnsw.Server.Words.{Numerals, accepted}
use hybrid_vector_cache_hnsw.Server.Vector.Similar.{SimilarityRequest, read_vsimilarity, result_of}
use hybrid_vector_cache_hnsw.Server.Vector.Query.{
  reply, find_similar, run_vsimilarity, handle_vsimilarity,
}
use hybrid_vector_cache_hnsw.Server.VectorIndex.Filled.{entry_content}
use hybrid_vector_cache_hnsw.Server.VectorIndex.Create.{Agrees}

-- A live entry stands in the snapshot.
live_entries-some :
    (now : ℤ) (k : Bytes) (e : VectorEntry) (m : Dict VectorEntry)
    → keep_if (λ x. not (vector_expired now x)) (lookup k m) ≡ some e
    → (x : VectorEntry) × (xs : List VectorEntry) × (live_entries now m ≡ x ∷ xs)
unfolding lookup live_entries
live_entries-some now k e [] h = cc
live_entries-some now k e ((j, x) ∷ m) h = elim (Bool-cases (vector_expired now x)) [
  | inr lives ↦ (x, live_entries now m, rw lives refl)
  | inl gone ↦
      let later : keep_if (λ y. not (vector_expired now y)) (lookup k m) ≡ some e =
        elim (Bool-cases (same j k)) [
          | inl s ↦ ground (arith, h, gone, s)
          | inr s ↦ ground (arith, h, s)
        ] in
      let (y, ys, eq) = live_entries-some now k e m later in (y, ys, rw gone eq)
]

vsnapshot-some :
    (now : ℤ) (s : Store) (namespace k : Bytes) (e : VectorEntry)
    → vector_view now s namespace k ≡ some e
    → (x : VectorEntry) × (xs : List VectorEntry) × (vsnapshot namespace now s ≡ x ∷ xs)
unfolding vector_view vsnapshot
vsnapshot-some now s namespace k e h = elim (Option-cases (lookup namespace s.vectors)) [
  | inl missing ↦ ground (arith, h, missing)
  | inr (ns, here) ↦
      let inside : keep_if (λ x. not (vector_expired now x)) (lookup k ns.entries) ≡ some e =
        ground (arith, h, here) in
      let (x, xs, eq) = live_entries-some now k e ns.entries inside in
      (x, xs, rw (here, vsnapshot) eq)
]

content_at-nodes :
    (nodes : List Node) (o : Option ℕ) (c : List ℕ × Dict Bytes)
    → content_at nodes o ≡ some c
    → 0 < length nodes
content_at-nodes [] none c h = cc
content_at-nodes [] (some i) c h = cc
content_at-nodes (n ∷ ns) o c h = omega arith

-- What is stored stands in a node.
stored-nodes :
    (idx : Index) (k : Bytes) (c : List ℕ × Dict Bytes)
    → stored idx k ≡ some c
    → (length idx.nodes == 0) ≡ false
stored-nodes idx k c h = ground (arith, content_at-nodes idx.nodes (lookup k idx.id_map) c h)

-- A hit that is a live entry of the store, with the similarity of its vector.
pub record IsLive (f : Float) (now : ℤ) (s : Store) (namespace : Bytes) (query : List ℕ) (hit : Hit)
    : Type 0 where
  pub entry : VectorEntry
  pub dist : ℕ
  pub visible : vector_view now s namespace hit.key ≡ some entry
  pub described : hit.metadata ≡ entry.metadata
  pub measured : cosine_distance f query entry.vector ≡ some dist
  pub scored : hit.score ≡ f.sub one dist

IsTrue-IsLive :
    (f : Float) (dim : ℕ) (now : ℤ) (s : Store) (namespace : Bytes) (idx : Index) (query : List ℕ)
    → Agrees dim now s namespace idx
    → (hit : Hit) → IsTrue f idx query hit
    → IsLive f now s namespace query hit
IsTrue-IsLive f dim now s namespace idx query a hit t =
    live (vector_view now s namespace hit.key) refl
  where
    live :
        (o : Option VectorEntry)
        → vector_view now s namespace hit.key ≡ o
        → IsLive f now s namespace query hit
    live none e =
        let clash : ◌≡◌ {A = Option (List ℕ × Dict Bytes)} none (some (t.vector, hit.metadata)) =
          sym (ap entry_content e) ∙ sym (a.contents hit.key) ∙ t.held in
        cc
    live (some x) e =
        let same_content : ◌≡◌ {A = Option (List ℕ × Dict Bytes)} (some (x.vector, x.metadata))
            (some (t.vector, hit.metadata)) =
          sym (ap entry_content e) ∙ sym (a.contents hit.key) ∙ t.held in
        let vec : x.vector ≡ t.vector = cc in
        record {
          entry = x;
          dist = t.dist;
          visible = e;
          described = cc;
          measured = rw vec t.measured;
          scored = t.scored;
        }

Agrees-counted :
    (dim : ℕ) (now : ℤ) (s : Store) (namespace : Bytes) (idx : Index)
    → Agrees dim now s namespace idx
    → Agrees dim now s namespace (record idx { search_count = idx.search_count + 1 })
Agrees-counted dim now s namespace idx a = record {
  graph = record {
    dims = a.graph.dims;
    linked = a.graph.linked;
    wide = a.graph.wide;
    width = a.graph.width;
    entry = a.graph.entry;
  };
  indexed = a.indexed;
  contents = a.contents;
}

-- The answer to a search, and what it leaves.
abbrev pub Answered :
    Float → Numerals → ℕ → ℤ → Store → SimilarityRequest → Response × Store × Dict Index → Type 0
Answered f num dim now s q (r, s', indexes) =
    ((hits : List Hit) × (r ≡ reply num (map result_of hits))
      × (length hits ≤ q.k)
      × All (IsLive f now s q.namespace q.query) hits)
    × (s' ≡ s)
    × ((idx : Index) × (lookup q.namespace indexes ≡ some idx) × Agrees dim now s q.namespace idx)

-- The answer behind a search of the index.
abbrev pub searched :
    Float
    → Numerals
    → SimilarityRequest
    → Index
    → Store
    → Dict Index
    → Run (Response × Store × Dict Index)
searched f num q idx s indexes =
    search_from f q.query q.k 0 idx
    >>= (λ (hits, idx'). ok (reply num (map result_of hits), s, insert q.namespace idx' indexes))

searches :
    (f : Float) (q : SimilarityRequest) (idx : Index)
    → (length idx.nodes == 0) ≡ false
    → search f q.query q.k 0 idx ≡ some (search_from f q.query q.k 0 idx)
unfolding search
searches f q idx full = rw (full, search) refl

module _ (f : Float) (arrive : List Result → List Result) (workers : ℕ) (num : Numerals)
    (q : SimilarityRequest) where
  find_similar-searched :
      (entries : List VectorEntry) (idx : Index) (s : Store) (indexes : Dict Index)
      → (length idx.nodes == 0) ≡ false
      → find_similar f arrive workers num q entries (some idx) s indexes
        ≡ searched f num q idx s indexes
  unfolding find_similar
  find_similar-searched entries idx s indexes full = rw (searches f q idx full, find_similar) refl

  -- With an index that has nodes, a live entry suffices for the search.
  pub run_vsimilarity-searched :
      (now : ℤ) (idx : Index) (s : Store) (indexes : Dict Index) (x : VectorEntry)
      (xs : List VectorEntry)
      → vsnapshot q.namespace now s ≡ x ∷ xs
      → lookup q.namespace indexes ≡ some idx
      → (length idx.nodes == 0) ≡ false
      → run_vsimilarity f arrive workers num (accepted q) now (s, indexes)
        ≡ searched f num q idx s indexes
  unfolding run_vsimilarity
  run_vsimilarity-searched now idx s indexes x xs entries here full =
      rw (entries, here) (find_similar-searched (x ∷ xs) idx s indexes full)

-- VSIMILARITY on a namespace with a live entry, whose index agrees with the store, answers with at
-- most k results. Each is a live entry of the store, with its metadata and with the similarity of its
-- vector. The store is as before, and the index still agrees with it. The query is no longer than the
-- vectors of the index.
pub vsimilarity_answers_truth :
    (f : Float) (arrive : List Result → List Result) (workers : ℕ) (num : Numerals) (dim : ℕ)
    (args : List Bytes) (q : SimilarityRequest) (now : ℤ) (s : Store) (indexes : Dict Index)
    (idx : Index) (id : Bytes) (e : VectorEntry)
    → read_vsimilarity num.parse32 args ≡ accepted q
    → length q.query ≤ dim
    → lookup q.namespace indexes ≡ some idx
    → Agrees dim now s q.namespace idx
    → vector_view now s q.namespace id ≡ some e
    → Returns
        (Answered f num dim now s q)
        (handle_vsimilarity f arrive workers num args now (s, indexes))
unfolding handle_vsimilarity
vsimilarity_answers_truth f arrive workers num dim args q now s indexes idx id e reads short here
      agrees visible =
    let (x, xs, entries) = vsnapshot-some now s q.namespace id e visible in
    let kept : stored idx id ≡ some (e.vector, e.metadata) =
      agrees.contents id ∙ ap entry_content visible in
    let full = stored-nodes idx id (e.vector, e.metadata) kept in
    let g = agrees.graph in
    let long : IsLong idx.nodes q.query = λ i n at. omega (arith, g.dims i n at, short) in
    rw
      (
        reads,
        run_vsimilarity-searched f arrive workers num q now idx s indexes x xs entries here full,
      )
      (Returns-bind
        (λ (hits, idx').
          (length hits ≤ q.k)
          × All (IsTrue f idx q.query) hits
          × (idx' ≡ record idx { search_count = idx.search_count + 1 }))
        (Answered f num dim now s q) (search_from f q.query q.k 0 idx)
        (λ (hits, idx'). ok (reply num (map result_of hits), s, insert q.namespace idx' indexes))
        (search_from-IsTrue f idx q.query q.k 0 agrees.indexed long g.width)
        (λ (hits, idx') a. (
          (
            hits,
            refl,
            a.0,
            All-map (IsTrue f idx q.query) (IsLive f now s q.namespace q.query)
                (IsTrue-IsLive f dim now s q.namespace idx q.query agrees) hits a.1,
          ),
          refl,
          (
            idx',
            lookup-insert q.namespace q.namespace idx' indexes ∙ rw (same_refl q.namespace) refl,
            rw a.2 (Agrees-counted dim now s q.namespace idx agrees),
          ),
        )))

-- What a client is told, without the state behind it.
abbrev pub response_of : Run (Response × Store × Dict Index) → Run Response
response_of r = r >>= (λ (a : Response × Store × Dict Index). ok a.0)

response_of-searched :
    (f : Float) (num : Numerals) (q : SimilarityRequest) (idx : Index) (s s' : Store)
    (indexes indexes' : Dict Index)
    → response_of (searched f num q idx s indexes) ≡ response_of (searched f num q idx s' indexes')
response_of-searched f num q idx s s' indexes indexes' = answers (search_from f q.query q.k 0 idx)
  where
    answers :
        (found : Run (List Hit × Index))
        → response_of (
            found >>= (λ (hits, idx').
              ok (reply num (map result_of hits), s, insert q.namespace idx' indexes)))
          ≡ response_of (
              found >>= (λ (hits, idx').
                ok (reply num (map result_of hits), s', insert q.namespace idx' indexes')))
    answers (ok _) = refl
    answers panic = refl
    answers out_of_fuel = refl

-- With an index that is not empty, VSIMILARITY gives the same answer on any two stores and at any two
-- times at which the namespace has some live entry: which of the entries have expired makes no
-- difference.
pub vsimilarity_ignores_deadlines :
    (f : Float) (arrive : List Result → List Result) (workers : ℕ) (num : Numerals)
    (args : List Bytes) (q : SimilarityRequest) (now later : ℤ) (s s' : Store)
    (indexes : Dict Index) (idx : Index) (id id' : Bytes) (e e' : VectorEntry)
    → read_vsimilarity num.parse32 args ≡ accepted q
    → lookup q.namespace indexes ≡ some idx
    → 0 < length idx.nodes
    → vector_view now s q.namespace id ≡ some e
    → vector_view later s' q.namespace id' ≡ some e'
    → response_of (handle_vsimilarity f arrive workers num args now (s, indexes))
      ≡ response_of (handle_vsimilarity f arrive workers num args later (s', indexes))
unfolding handle_vsimilarity
vsimilarity_ignores_deadlines f arrive workers num args q now later s s' indexes idx id id' e e'
      reads here some_nodes live live' =
    let (x, xs, entries) = vsnapshot-some now s q.namespace id e live in
    let (y, ys, entries') = vsnapshot-some later s' q.namespace id' e' live' in
    let full : (length idx.nodes == 0) ≡ false = ground (arith, some_nodes) in
    rw
      (
        reads,
        run_vsimilarity-searched f arrive workers num q now idx s indexes x xs entries here full,
        run_vsimilarity-searched f arrive workers num q later idx s' indexes y ys entries' here
            full,
      )
      (response_of-searched f num q idx s s' indexes indexes)
