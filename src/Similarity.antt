-- ===== src/Similarity.antt =====
-- internal/similarity: CosineSimilarity of cosine.go, and TopK of engine.go.
-- A float32 is its bit pattern. Its comparisons are written out; its arithmetic is the processor's
-- and so a parameter, the fields of `Float`.
mod Tests
pub mod TopK
pub mod Best
use hybrid_vector_cache_hnsw.Common.{
  ℕ, zero, suc, ◌+◌, ◌-◌, ◌*◌, ◌^◌, ◌%◌, Bool, true, false, not, ◌&&◌, ◌||◌, Option, none, some,
  List, [], ◌∷◌, ◌++◌, if◌then◌else◌, length, get_elem?, set, backwards, ◌==◌, ltb, leb,
}
use hybrid_vector_cache_hnsw.Common.Bytes.{Bytes}
use hybrid_vector_cache_hnsw.Common.Dict.{Dict}
use hybrid_vector_cache_hnsw.Common.Int.{ℤ, pos, ltb_ℤ, pos_part}
use hybrid_vector_cache_hnsw.Store.{VectorEntry}
use hybrid_vector_cache_hnsw.Heap.{push, fix_root, drain}

-- The arithmetic of float32; `root` is float32(math.Sqrt(float64(x))).
pub record Float : Type 0 where
  pub add : ℕ → ℕ → ℕ
  pub sub : ℕ → ℕ → ℕ
  pub mul : ℕ → ℕ → ℕ
  pub div : ℕ → ℕ → ℕ
  pub root : ℕ → ℕ

abbrev pub sign_bit : ℕ
sign_bit = 2 ^ 31

unfoldable pub is_nan : ℕ → Bool
is_nan x = ltb 0x7F800000 (x % sign_bit)

-- x == 0, for either sign
unfoldable pub is_zero : ℕ → Bool
is_zero x = x % sign_bit == 0

-- The place of a number on the line; both zeros have the same.
unfoldable pub rank : ℕ → ℕ
rank x = if ltb x sign_bit then sign_bit + x else 2 * sign_bit - x

-- x < y
unfoldable pub float_less : ℕ → ℕ → Bool
unfolding is_nan rank
float_less x y = not (is_nan x) && not (is_nan y) && ltb (rank x) (rank y)

pub data Similarity : Type 0 where
  dimension_mismatch zero_vector : Similarity
  similarity : ℕ → Similarity

-- The three sums: a·b, a·a and b·b.
pub record Sums : Type 0 where
  pub dot : ℕ
  pub norm_a : ℕ
  pub norm_b : ℕ

abbrev pub zero_sums : Sums
zero_sums = record { dot = 0; norm_a = 0; norm_b = 0 }

module _ (f : Float) where
  -- One product of each kind added to the sums.
  unfoldable pub add_products : ℕ → ℕ → Sums → Sums
  add_products x y s = record {
    dot = f.add s.dot (f.mul x y);
    norm_a = f.add s.norm_a (f.mul x x);
    norm_b = f.add s.norm_b (f.mul y y);
  }

  -- The sums of the four lanes together.
  unfoldable pub join_lanes : Sums → Sums → Sums → Sums → Sums
  join_lanes p q r s = record {
    dot = f.add (f.add (f.add p.dot q.dot) r.dot) s.dot;
    norm_a = f.add (f.add (f.add p.norm_a q.norm_a) r.norm_a) s.norm_a;
    norm_b = f.add (f.add (f.add p.norm_b q.norm_b) r.norm_b) s.norm_b;
  }

  -- The tail loop
  unfoldable pub tail_sums : List ℕ → List ℕ → Sums → Sums
  unfolding add_products
  tail_sums (x ∷ a) (y ∷ b) s = tail_sums a b (add_products x y s)
  tail_sums a b s = s

  -- The loop unrolled four times, and what is behind it.
  unfoldable pub unrolled : List ℕ → List ℕ → Sums → Sums → Sums → Sums → Sums
  unfolding tail_sums join_lanes add_products
  unrolled (a0 ∷ a1 ∷ a2 ∷ a3 ∷ a) (b0 ∷ b1 ∷ b2 ∷ b3 ∷ b) p q r s =
      unrolled a b (add_products a0 b0 p) (add_products a1 b1 q) (add_products a2 b2 r)
        (add_products a3 b3 s)
  unrolled a b p q r s = tail_sums a b (join_lanes p q r s)

  -- CosineSimilarity
  unfoldable pub cosine_similarity : List ℕ → List ℕ → Similarity
  unfolding unrolled is_zero
  cosine_similarity a b =
      let s = unrolled a b zero_sums zero_sums zero_sums zero_sums in
      if not (length a == length b)
      then dimension_mismatch
      else if is_zero s.norm_a || is_zero s.norm_b
      then zero_vector
      else similarity (f.div s.dot (f.mul (f.root s.norm_a) (f.root s.norm_b)))

-- SimilarityResult
pub record Result : Type 0 where
  pub id : Bytes
  pub score : ℕ
  pub metadata : Dict Bytes

-- The Less of minHeap
unfoldable pub result_less : Result → Result → Bool
unfolding float_less
result_less r s = float_less r.score s.score

-- The loop body of TopK for an entry with a score: k results at most are kept. The heap is not
-- empty where its top is read, since k is positive there.
unfoldable pub offer : ℕ → List Result → Result → List Result
unfolding result_less
offer k h r =
    let better : List Result = elim (get_elem? h 0) [
      | none ↦ h
      | some top ↦ if float_less top.score r.score then fix_root result_less (set h 0 r) else h
    ] in
    if ltb (length h) k then push result_less r h else better

unfoldable pub offer_all : ℕ → List Result → List Result → List Result
unfolding offer
offer_all k h [] = h
offer_all k h (r ∷ rs) = offer_all k (offer k h r) rs

-- Each Pop fills the last free place of the answer.
unfoldable pub extract : List Result → List Result
extract h = backwards (drain result_less (length h) h) []

abbrev pub keep_scored : VectorEntry → Similarity → List Result → List Result
keep_scored e dimension_mismatch rest = rest
keep_scored e zero_vector rest = rest
keep_scored e (similarity x) rest = record { id = e.id; score = x; metadata = e.metadata } ∷ rest

-- The entries of a loop that have a score, with it.
unfoldable pub scored : Float → List ℕ → List VectorEntry → List Result
unfolding cosine_similarity
scored f query [] = []
scored f query (e ∷ es) = keep_scored e (cosine_similarity f query e.vector) (scored f query es)

-- topKSingleThread, and topKParallel for the results in the order in which they arrive
unfoldable pub top_of : ℕ → List Result → List Result
unfolding offer_all extract
top_of k rs = extract (offer_all k [] rs)

unfoldable pub smaller : ℕ → ℕ → ℕ
smaller k n = if ltb n k then n else k

-- TopK; `arrive` is the order in which the workers' results reach the channel.
unfoldable pub top_k :
    Float → (List Result → List Result) → ℕ → List ℕ → List VectorEntry → ℤ → List Result
unfolding smaller
top_k f arrive workers query entries k =
    let n = smaller (pos_part k) (length entries) in
    let rs = scored f query entries in
    if length entries == 0 || not (ltb_ℤ (pos 0) k)
    then []
    else if leb (length entries) 100 || leb workers 1
    then top_of n rs
    else top_of n (arrive rs)
