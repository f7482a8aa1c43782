-- ===== src/Similarity/TopK.antt =====
-- How many results TopK gives.
use hybrid_vector_cache_hnsw.Common.{
  ℕ, ◌+◌, ◌≤◌, ◌≡◌, refl, ap, ◌∙◌, Option, none, some, List, [], ◌∷◌, arith, if◌then◌else◌, length,
  get_elem?, set, ltb, length-set, length-backwards,
}
use hybrid_vector_cache_hnsw.Common.Int.{ℤ, pos, negsuc, pos_part, ltb_ℤ}
use hybrid_vector_cache_hnsw.Store.{VectorEntry}
use hybrid_vector_cache_hnsw.Heap.{fix_root, drain}
use hybrid_vector_cache_hnsw.Heap.Keeps.{length-push, length-fix_root, length-drain}
use hybrid_vector_cache_hnsw.Similarity.{
  Float, Result, result_less, float_less, offer, offer_all, extract, scored, top_of, top_k, smaller,
  cosine_similarity, Similarity, dimension_mismatch, zero_vector, similarity, keep_scored,
}

length-better :
    (h : List Result) (r : Result) (top : Option Result)
    → length (elim top [
      | none ↦ h
      | some t ↦ if float_less t.score r.score then fix_root result_less (set h 0 r) else h
    ])
      ≡ length h
length-better h r none = refl
length-better h r (some t) =
    ground (arith, length-fix_root result_less (set h 0 r), length-set h 0 r)

length-offer :
    (k : ℕ) (h : List Result) (r : Result)
    → length (offer k h r) ≡ (if ltb (length h) k then length h + 1 else length h)
unfolding offer
length-offer k h r = ground (arith, length-push result_less r h, length-better h r (get_elem? h 0))

length-offer_all :
    (k : ℕ) (rs h : List Result)
    → length h ≤ k
    → length (offer_all k h rs) ≡ smaller k (length h + length rs)
unfolding offer_all smaller
length-offer_all k [] h b = ground arith
length-offer_all k (r ∷ rs) h b =
    let step = length-offer k h r in
    ground (arith, step, length-offer_all k rs (offer k h r) (ground (arith, step)))

length-top_of : (k : ℕ) (rs : List Result) → length (top_of k rs) ≡ smaller k (length rs)
unfolding top_of extract
length-top_of k rs =
    let h = offer_all k [] rs in
    let none_yet : length {A = Result} [] + length rs ≡ length rs = omega arith in
    length-backwards (drain result_less (length h) h) []
    ∙ omega (arith, length-drain result_less (length h) h (omega arith))
    ∙ length-offer_all k rs [] (omega arith)
    ∙ ap (smaller k) none_yet

length-keep_scored :
    (e : VectorEntry) (s : Similarity) (rest : List Result)
    → length (keep_scored e s rest) ≤ length rest + 1
length-keep_scored e dimension_mismatch rest = omega arith
length-keep_scored e zero_vector rest = omega arith
length-keep_scored e (similarity x) rest = omega arith

length-scored :
    (f : Float) (query : List ℕ) (es : List VectorEntry) → length (scored f query es) ≤ length es
unfolding scored
length-scored f query [] = omega arith
length-scored f query (e ∷ es) = omega (
  arith,
  length-keep_scored e (cosine_similarity f query e.vector) (scored f query es),
  length-scored f query es,
)

pos_part-positive : (k : ℤ) → ltb_ℤ (pos 0) k ≡ ltb 0 (pos_part k)
pos_part-positive (pos n) = ground arith
pos_part-positive (negsuc n) = ground arith

-- TopK gives as many results as entries have a score, up to k: no entry is lost while there is room,
-- and there are never more than k, nor any for a k that is not positive. The order in which the
-- workers' results arrive does not matter.
pub length-top_k :
    (f : Float) (arrive : List Result → List Result) (workers : ℕ) (query : List ℕ)
    (es : List VectorEntry) (k : ℤ)
    → ((rs : List Result) → length (arrive rs) ≡ length rs)
    → length (top_k f arrive workers query es k) ≡ smaller (pos_part k) (length (scored f query es))
unfolding top_k smaller
length-top_k f arrive workers query es k a =
    let n = smaller (pos_part k) (length es) in
    let rs = scored f query es in
    ground (
      arith,
      length-scored f query es,
      length-top_of n rs,
      length-top_of n (arrive rs),
      a rs,
      pos_part-positive k,
    )
