-- ===== src/Server/VectorIndex/Filled.antt =====
-- An index behind a row of inserts.
use hybrid_vector_cache_hnsw.Common.{
  ℕ, ◌+◌, ◌^◌, ◌≤◌, ◌≡◌, refl, sym, ap, ◌∙◌, Bool, true, false, not, Option, none, some, List, [],
  ◌∷◌, map, arith, length, if◌then◌else◌, Bool-cases, inl, inr,
}
use hybrid_vector_cache_hnsw.Common.Int.{ℤ}
use hybrid_vector_cache_hnsw.Common.Bytes.{Bytes, same, same_iff}
use hybrid_vector_cache_hnsw.Common.Dict.{Dict, lookup, IsDistinct}
use hybrid_vector_cache_hnsw.Common.Dict.Sweep.{keep_if}
use hybrid_vector_cache_hnsw.Common.Run.{Returns, Returns-bind, Returns-map}
use hybrid_vector_cache_hnsw.Heap.Items.{All}
use hybrid_vector_cache_hnsw.Similarity.{Float}
use hybrid_vector_cache_hnsw.Store.{VectorEntry, vector_expired}
use hybrid_vector_cache_hnsw.Store.Vector.{BatchEntry, live_entries}
use hybrid_vector_cache_hnsw.Hnsw.{Index}
use hybrid_vector_cache_hnsw.Hnsw.Keys.{IsIndexed}
use hybrid_vector_cache_hnsw.Hnsw.Contents.{stored}
use hybrid_vector_cache_hnsw.Hnsw.Insert.{insert_vector}
use hybrid_vector_cache_hnsw.Hnsw.Insert.Total.{
  IsGraph, HasDegree, HasDegree-kept, Inserted, insert_vector-Inserted,
}
use hybrid_vector_cache_hnsw.Server.Vector.Write.{insert_all}
use hybrid_vector_cache_hnsw.Server.VectorIndex.{batch_of}

abbrev pub Content : Type 0
Content = List ℕ × Dict Bytes

-- What a key holds behind a row of writes, if it held `o` before.
abbrev pub written : Bytes → List BatchEntry → Option Content → Option Content
written k [] o = o
written k (b ∷ bs) o = written k bs (if same b.id k then some (b.vector, b.metadata) else o)

-- A sound index behind the inserts of some entries.
pub record Filled (dim : ℕ) (bs : List BatchEntry) (idx idx' : Index) : Type 0 where
  pub graph : IsGraph dim idx'
  pub indexed : IsIndexed idx'
  pub grown : length idx'.nodes ≤ length idx.nodes + length bs
  pub degree : idx'.m ≡ idx.m
  pub contents : (k : Bytes) → stored idx' k ≡ written k bs (stored idx k)

pub insert_all-Filled :
    (f : Float) (draw : ℕ → ℕ) (dim n : ℕ) (bs : List BatchEntry) (idx : Index)
    → All (λ (b : BatchEntry). length b.vector ≡ dim) bs
    → length idx.nodes + length bs ≤ 2 ^ 32
    → IsGraph dim idx
    → IsIndexed idx
    → HasDegree idx
    → Returns (Filled dim bs idx) (insert_all f draw n bs idx)
unfolding insert_all
insert_all-Filled f draw dim n [] idx a room g v several = record {
  graph = g;
  indexed = v;
  grown = omega arith;
  degree = refl;
  contents = λ k. refl;
}
insert_all-Filled f draw dim n (b ∷ bs) idx a room g v several =
    Returns-bind (Inserted dim idx b.id b.vector b.metadata) (Filled dim (b ∷ bs) idx)
      (insert_vector f b.id b.vector b.metadata (draw n) idx) (insert_all f draw (n + 1) bs)
      (insert_vector-Inserted f dim idx b.id b.vector b.metadata (draw n) a.0 (omega (arith, room))
        g v several)
      (λ idx' i.
        Returns-map (Filled dim bs idx') (Filled dim (b ∷ bs) idx)
          (insert_all f draw (n + 1) bs idx')
          (insert_all-Filled f draw dim (n + 1) bs idx' a.1 (omega (arith, room, i.grown)) i.graph
            i.indexed (HasDegree-kept idx idx' i.degree several))
          (λ idx'' w. record {
            graph = w.graph;
            indexed = w.indexed;
            grown = omega (arith, w.grown, i.grown);
            degree = w.degree ∙ i.degree;
            contents = λ k. w.contents k ∙ ap (written k bs) (i.contents k);
          }))

abbrev pub entry_content : Option VectorEntry → Option Content
entry_content none = none
entry_content (some e) = some (e.vector, e.metadata)

-- Every entry of a namespace has its key as its id.
abbrev pub IsKeyed : Dict VectorEntry → Type 0
IsKeyed [] = Unit {0}
IsKeyed ((k, e) ∷ m) = (e.id ≡ k) × IsKeyed m

abbrev live : ℤ → VectorEntry → Bool
live now e = not (vector_expired now e)

abbrev written_one : VectorEntry → Bytes → Option Content → Option Content
written_one x k o = if same x.id k then some (x.vector, x.metadata) else o

unwritten :
    (x : VectorEntry) (k : Bytes) (o : Option Content) → same x.id k ≡ false → written_one x k o ≡ o
unwritten x k o e = rw e refl

-- No live entry of the id, no write of it.
written-absent :
    (now : ℤ) (k : Bytes) (m : Dict VectorEntry) (o : Option Content)
    → IsKeyed m
    → lookup k m ≡ none
    → written k (map batch_of (live_entries now m)) o ≡ o
unfolding lookup live_entries
written-absent now k [] o d e = refl
written-absent now k ((j, x) ∷ m) o d e =
    let other : same j k ≡ false = ground (arith, e) in
    let rest : lookup k m ≡ none = ground (arith, e) in
    let same_id : same x.id k ≡ false = rw d.0 other in
    elim (Bool-cases (vector_expired now x)) [
      | inl gone ↦ rw gone (written-absent now k m o d.1 rest)
      | inr stays ↦ rw stays (
          ap (written k (map batch_of (live_entries now m))) (unwritten x k o same_id)
          ∙ written-absent now k m o d.1 rest)
    ]

-- The writes of the live entries of a namespace leave exactly those.
pub written-live_entries :
    (now : ℤ) (k : Bytes) (m : Dict VectorEntry)
    → IsKeyed m
    → IsDistinct m
    → written k (map batch_of (live_entries now m)) none
      ≡ entry_content (keep_if (live now) (lookup k m))
unfolding lookup live_entries
written-live_entries now k [] d u = refl
written-live_entries now k ((j, x) ∷ m) d u =
    split (written-live_entries now k m d.1 u.1) (same j k) refl
  where
    later : List BatchEntry
    later = map batch_of (live_entries now m)

    split :
        written k later none ≡ entry_content (keep_if (live now) (lookup k m))
        → (b : Bool) → same j k ≡ b
        → written k
            (map batch_of
              (if vector_expired now x then live_entries now m else x ∷ live_entries now m))
            none
          ≡ entry_content (keep_if (live now) (if b then some x else lookup k m))
    split rec true s =
        let at : j ≡ k = (same_iff j k).0 s in
        let rest : lookup k m ≡ none = sym (ap (λ i. lookup i m) at) ∙ u.0 in
        elim (Bool-cases (vector_expired now x)) [
          | inl gone ↦ rw gone (written-absent now k m none d.1 rest)
          | inr stays ↦ rw stays (
              let here : same x.id k ≡ true = rw d.0 s in
              let new : written_one x k none ≡ some (x.vector, x.metadata) = rw here refl in
              ap (written k later) new
              ∙ written-absent now k m (some (x.vector, x.metadata)) d.1 rest)
        ]
    split rec false s = elim (Bool-cases (vector_expired now x)) [
      | inl gone ↦ rw gone rec
      | inr stays ↦ rw stays (ap (written k later) (unwritten x k none (rw d.0 s)) ∙ rec)
    ]
