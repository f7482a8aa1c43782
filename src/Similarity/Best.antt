-- ===== src/Similarity/Best.antt =====
-- TopK gives the best results, the best first.
use mathlib.Core.Path.{subst}
use hybrid_vector_cache_hnsw.Common.{
  ◌==◌, ℕ, ◌+◌, ◌≤◌, ◌<◌, ◌≡◌, refl, sym, ◌∙◌, Bool, true, false, not, ◌||◌, none, some, List, [],
  ◌∷◌, arith, if◌then◌else◌, length, get_elem?, set, ltb, ltb→lt, leb, backwards, Bool-cases, inl,
  inr,
}
use hybrid_vector_cache_hnsw.Common.Int.{ℤ, pos, pos_part, ltb_ℤ}
use hybrid_vector_cache_hnsw.Store.{VectorEntry}
use hybrid_vector_cache_hnsw.Heap.{push, fix_root, drain}
use hybrid_vector_cache_hnsw.Heap.Items.{
  All, All-map, All-push, All-fix_root, All-drain, All-backwards,
}
use hybrid_vector_cache_hnsw.Heap.Keeps.{length-push, length-fix_root}
use hybrid_vector_cache_hnsw.Heap.Tally.{tally, tally-push, tally-fix_root, tally-backwards}
use hybrid_vector_cache_hnsw.Heap.Order.{IsHeap, push-IsHeap, fix_root-IsHeap}
use hybrid_vector_cache_hnsw.Heap.Sorted.{
  AtLeast, IsAscending, root-AtLeast, drain-IsAscending, tally-drain,
}
use hybrid_vector_cache_hnsw.Similarity.TopK.{length-top_k}
use hybrid_vector_cache_hnsw.Similarity.{
  Float, Result, result_less, float_less, rank, is_nan, offer, offer_all, extract, scored, top_of,
  top_k, smaller,
}

-- A result whose score is a number.
abbrev pub IsPlain : Result → Type 0
IsPlain r = is_nan r.score ≡ false

abbrev pub score_rank : Result → ℕ
score_rank r = rank r.score

-- No score is greater than one before it.
abbrev pub IsDescending : List Result → Type 0
IsDescending [] = Unit {0}
IsDescending (r ∷ rs) = All (λ s. score_rank s ≤ score_rank r) rs × IsDescending rs

-- The best of some results, in their order: what is left out is no better than what is kept.
pub record IsBest (rs kept : List Result) : Type 0 where
  pub descending : IsDescending kept
  pub rest : List Result
  pub parted : (p : Result → Bool) → tally p rs ≡ tally p kept + tally p rest
  pub beaten : All (λ d. All (AtLeast score_rank (score_rank d)) kept) rest

result_less-rank :
    (r s : Result) → IsPlain r → IsPlain s → result_less r s ≡ ltb (score_rank r) (score_rank s)
unfolding result_less float_less
result_less-rank r s p q = rw (p, q) refl

-- The heap of the loop, and what was left out.
record Kept (k : ℕ) (rs h : List Result) : Type 0 where
  heap : IsHeap score_rank (length h) h
  plain : All IsPlain h
  rest : List Result
  full : 0 < length rest → k ≤ length h
  parted : (p : Result → Bool) → tally p rs ≡ tally p h + tally p rest
  beaten : All (λ d. All (AtLeast score_rank (score_rank d)) h) rest

nothing_left : (A : Type 0) (P : A → Type 0) (rest : List A) → (0 < length rest → ⊥) → All P rest
nothing_left A P [] h = tt
nothing_left A P (x ∷ rest) h = absurd (h (omega arith))

AtLeast-trans :
    (a b : ℕ) (h : List Result)
    → a ≤ b
    → All (AtLeast score_rank b) h
    → All (AtLeast score_rank a) h
AtLeast-trans a b h le =
    All-map (AtLeast score_rank b) (AtLeast score_rank a) (λ x q. omega (arith, le, q)) h

-- A result that is better than the root takes its place.
replaced-Kept :
    (k : ℕ) (rs g : List Result) (t r : Result)
    → IsPlain r
    → k ≤ length (t ∷ g)
    → score_rank t < score_rank r
    → Kept k rs (t ∷ g)
    → Kept k (r ∷ rs) (fix_root result_less (r ∷ g))
replaced-Kept k rs g t r p full better v =
    let size = length-fix_root result_less (r ∷ g) in
    let least = root-AtLeast score_rank (t ∷ g) t v.heap refl in
    let all_above : (d : ℕ)
        → d ≤ score_rank t
        → All (AtLeast score_rank d) (fix_root result_less (r ∷ g)) =
      λ d q.
        All-fix_root (AtLeast score_rank d) result_less (r ∷ g)
          (omega (arith, q, better), AtLeast-trans d (score_rank t) g q least.1) in
    record {
      heap =
          subst (λ n. IsHeap score_rank n (fix_root result_less (r ∷ g))) (sym size)
            (fix_root-IsHeap score_rank result_less IsPlain result_less-rank r (t ∷ g)
              (p, v.plain.1) (omega arith) v.heap);
      plain = All-fix_root IsPlain result_less (r ∷ g) (p, v.plain.1);
      rest = t ∷ v.rest;
      full = λ q. omega (arith, size, full);
      parted = λ f. omega (arith, v.parted f, tally-fix_root f result_less (r ∷ g));
      beaten = (
        all_above (score_rank t) (omega arith),
        All-map (λ d. All (AtLeast score_rank (score_rank d)) (t ∷ g))
            (λ d. All (AtLeast score_rank (score_rank d)) (fix_root result_less (r ∷ g)))
            (λ d above. all_above (score_rank d) above.0) v.rest v.beaten,
      );
    }

-- A result that is no better than the root is left out.
left_out-Kept :
    (k : ℕ) (rs h : List Result) (r : Result)
    → k ≤ length h
    → All (AtLeast score_rank (score_rank r)) h
    → Kept k rs h
    → Kept k (r ∷ rs) h
left_out-Kept k rs h r full below v = record {
  heap = v.heap;
  plain = v.plain;
  rest = r ∷ v.rest;
  full = λ q. full;
  parted = λ f. omega (arith, v.parted f);
  beaten = (below, v.beaten);
}

offer-Kept :
    (k : ℕ) (rs h : List Result) (r : Result)
    → IsPlain r
    → Kept k rs h
    → Kept k (r ∷ rs) (offer k h r)
unfolding offer
offer-Kept k rs h r p v = elim (Bool-cases (ltb (length h) k)) [
  | inl room ↦ rw room (record {
    heap =
        subst (λ n. IsHeap score_rank n (push result_less r h)) (sym (length-push result_less r h))
          (push-IsHeap score_rank result_less IsPlain result_less-rank r h p v.plain v.heap);
    plain = All-push IsPlain result_less r h p v.plain;
    rest = v.rest;
    full = λ q. absurd (ground (arith, room, v.full q));
    parted = λ f. omega (arith, v.parted f, tally-push f result_less r h);
    beaten = nothing_left Result _ v.rest (λ q. ground (arith, room, v.full q));
  })
  | inr full ↦ rw full (kept_full h v full)
]
  where
    kept_full :
        (g : List Result)
        → Kept k rs g
        → ltb (length g) k ≡ false
        → Kept k (r ∷ rs) (elim (get_elem? g 0) [
          | none ↦ g
          | some top ↦ if float_less top.score r.score then fix_root result_less (set g 0 r) else g
        ])
    kept_full [] w e = left_out-Kept k rs [] r (ground (arith, e)) tt w
    kept_full (t ∷ g) w e =
        let many : k ≤ length (t ∷ g) = ground (arith, e) in
        let test : float_less t.score r.score ≡ ltb (score_rank t) (score_rank r) =
          result_less-rank t r w.plain.0 p in
        elim (Bool-cases (ltb (score_rank t) (score_rank r))) [
          | inl better ↦
              rw (test, better)
                (replaced-Kept k rs g t r p many (ltb→lt (score_rank t) (score_rank r) better) w)
          | inr worse ↦
              rw (test, worse)
                (left_out-Kept k rs (t ∷ g) r many
                  (AtLeast-trans (score_rank r) (score_rank t) (t ∷ g) (ground (arith, worse))
                    (root-AtLeast score_rank (t ∷ g) t w.heap refl))
                  w)
        ]

offer_all-Kept :
    (k : ℕ) (rs seen h : List Result)
    → All IsPlain rs
    → Kept k seen h
    → Kept k (backwards rs seen) (offer_all k h rs)
unfolding offer_all
offer_all-Kept k [] seen h a v = v
offer_all-Kept k (r ∷ rs) seen h a v =
    offer_all-Kept k rs (r ∷ seen) (offer k h r) a.1 (offer-Kept k seen h r a.0 v)

IsDescending-backwards :
    (xs acc : List Result)
    → IsAscending score_rank xs
    → IsDescending acc
    → All (λ y. All (AtLeast score_rank (score_rank y)) xs) acc
    → IsDescending (backwards xs acc)
IsDescending-backwards [] acc a d b = d
IsDescending-backwards (x ∷ xs) acc a d b =
    IsDescending-backwards xs (x ∷ acc) a.1
      (
        All-map (λ y. All (AtLeast score_rank (score_rank y)) (x ∷ xs))
            (λ y. score_rank y ≤ score_rank x) (λ y above. above.0) acc b,
        d,
      )
      (
        a.0,
        All-map (λ y. All (AtLeast score_rank (score_rank y)) (x ∷ xs))
            (λ y. All (AtLeast score_rank (score_rank y)) xs) (λ y above. above.1) acc b,
      )

top_of-IsBest : (k : ℕ) (rs : List Result) → All IsPlain rs → IsBest rs (top_of k rs)
unfolding top_of extract
top_of-IsBest k rs a =
    let start : Kept k [] [] = record {
      heap = λ c p q. absurd (omega (arith, q));
      plain = tt;
      rest = [];
      full = λ q. absurd (omega (arith, q));
      parted = λ f. refl;
      beaten = tt;
    } in
    let h = offer_all k [] rs in
    let v = offer_all-Kept k rs [] [] a start in
    let out = drain result_less (length h) h in
    record {
      descending =
          IsDescending-backwards out []
            (drain-IsAscending score_rank result_less IsPlain result_less-rank (length h) h v.plain
              v.heap)
            tt tt;
      rest = v.rest;
      parted = λ f. omega (
        arith,
        v.parted f,
        tally-backwards f rs [],
        tally-backwards f out [],
        tally-drain score_rank result_less IsPlain result_less-rank f (length h) h (omega arith)
            v.plain v.heap,
      );
      beaten =
          All-map (λ d. All (AtLeast score_rank (score_rank d)) h)
            (λ d. All (AtLeast score_rank (score_rank d)) (backwards out []))
            (λ d above.
              All-backwards (AtLeast score_rank (score_rank d)) out []
                (All-drain (AtLeast score_rank (score_rank d)) result_less (length h) h above) tt)
            v.rest v.beaten;
    }

IsBest-none : (rs : List Result) → IsBest rs []
IsBest-none rs = record { descending = tt; rest = rs; parted = λ f. omega arith; beaten = every rs }
  where
    every : (xs : List Result) → All (λ d. All (AtLeast score_rank (score_rank d)) []) xs
    every [] = tt
    every (x ∷ xs) = (tt, every xs)

-- The results arrive in some order, none lost and none twice.
abbrev pub IsArrival : (List Result → List Result) → Type 0
IsArrival arrive = (rs : List Result) (p : Result → Bool) → tally p (arrive rs) ≡ tally p rs

IsBest-arrival :
    (rs rs' kept : List Result)
    → ((p : Result → Bool) → tally p rs' ≡ tally p rs)
    → IsBest rs' kept
    → IsBest rs kept
IsBest-arrival rs rs' kept same b = record {
  descending = b.descending;
  rest = b.rest;
  parted = λ f. omega (arith, b.parted f, same f);
  beaten = b.beaten;
}

tally-plain : (rs : List Result) → All IsPlain rs → tally (λ r. is_nan r.score) rs ≡ 0
tally-plain [] a = refl
tally-plain (r ∷ rs) a = rw (a.0, tally-plain rs a.1) refl

plain-tally : (rs : List Result) → tally (λ r. is_nan r.score) rs ≡ 0 → All IsPlain rs
plain-tally [] e = tt
plain-tally (r ∷ rs) e = elim (Bool-cases (is_nan r.score)) [
  | inl nan ↦ absurd (ground (arith, e, nan))
  | inr plain ↦ (plain, plain-tally rs (ground (arith, e, plain)))
]

tally-all : (rs : List Result) → tally (λ r. true) rs ≡ length rs
tally-all [] = refl
tally-all (r ∷ rs) = omega (arith, tally-all rs)

-- TopK gives the k best of the results, the best first, if no similarity is NaN: as many as entries
-- have a score, up to k; none that is left out is better than one that is given. The order in which
-- the workers' results arrive does not matter, so long as each arrives once.
pub top_k-IsBest :
    (f : Float) (arrive : List Result → List Result) (workers : ℕ) (query : List ℕ)
    (es : List VectorEntry) (k : ℤ)
    → IsArrival arrive
    → All IsPlain (scored f query es)
    → (length (top_k f arrive workers query es k)
        ≡ smaller (pos_part k) (length (scored f query es)))
      × IsBest (scored f query es) (top_k f arrive workers query es k)
unfolding top_k
top_k-IsBest f arrive workers query es k same a = (
  length-top_k f arrive workers query es k
      (λ rs. sym (tally-all (arrive rs)) ∙ same rs (λ r. true) ∙ tally-all rs),
  chosen (length es == 0 || not (ltb_ℤ (pos 0) k)) (leb (length es) 100 || leb workers 1),
)
  where
    rs : List Result
    rs = scored f query es

    n : ℕ
    n = smaller (pos_part k) (length es)

    chosen :
        (b c : Bool) → IsBest rs (if b then [] else if c then top_of n rs else top_of n (arrive rs))
    chosen true c = IsBest-none rs
    chosen false true = top_of-IsBest n rs a
    chosen false false = IsBest-arrival rs (arrive rs) (top_of n (arrive rs)) (same rs) (
        top_of-IsBest n (arrive rs)
          (plain-tally (arrive rs) (same rs (λ r. is_nan r.score) ∙ tally-plain rs a)))
