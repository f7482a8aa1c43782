-- ===== src/Heap/Tally.antt =====
-- The heap operations lose no item and add none: of each kind there are as many as before.
use hybrid_vector_cache_hnsw.Common.{
  ℕ, zero, suc, ◌+◌, ◌-◌, ◌/◌, ◌≤◌, ◌≡◌, refl, Bool, some, List, [], ◌∷◌, ◌++◌, arith, length,
  get_elem?, set, take, backwards, if◌then◌else◌, Option-cases, inl, inr,
}
use hybrid_vector_cache_hnsw.Heap.{swap, up, child, down, push, fix_root}

module _ {A : Type 0} (p : A → Bool) where
  abbrev pub one_if : A → ℕ
  one_if x = if p x then 1 else 0

  -- How many items are of a kind.
  abbrev pub tally : List A → ℕ
  tally [] = 0
  tally (x ∷ xs) = one_if x + tally xs

  pub tally-append : (xs ys : List A) → tally (xs ++ ys) ≡ tally xs + tally ys
  tally-append [] ys = omega arith
  tally-append (x ∷ xs) ys = omega (arith, tally-append xs ys)

  pub tally-backwards : (xs acc : List A) → tally (backwards xs acc) ≡ tally xs + tally acc
  tally-backwards [] acc = omega arith
  tally-backwards (x ∷ xs) acc = omega (arith, tally-backwards xs (x ∷ acc))

  pub tally-set :
      (h : List A) (i : ℕ) (x y : A)
      → get_elem? h i ≡ some x
      → tally (set h i y) + one_if x ≡ tally h + one_if y
  tally-set [] i x y e = cc
  tally-set (z ∷ h) zero x y e = let same : z ≡ x = cc in rw same (omega arith)
  tally-set (z ∷ h) (suc i) x y e = omega (arith, tally-set h i x y e)

  get_elem?-set_again :
      (h : List A) (i j : ℕ) (x y : A)
      → get_elem? h i ≡ some x
      → get_elem? h j ≡ some y
      → get_elem? (set h i y) j ≡ some y
  get_elem?-set_again [] i j x y e d = cc
  get_elem?-set_again (z ∷ h) zero zero x y e d = refl
  get_elem?-set_again (z ∷ h) zero (suc j) x y e d = d
  get_elem?-set_again (z ∷ h) (suc i) zero x y e d = d
  get_elem?-set_again (z ∷ h) (suc i) (suc j) x y e d = get_elem?-set_again h i j x y e d

  pub tally-swap : (h : List A) (i j : ℕ) → tally (swap h i j) ≡ tally h
  unfolding swap
  tally-swap h i j = elim (Option-cases (get_elem? h i)) [
    | inl e ↦ rw e refl
    | inr (x, e) ↦ elim (Option-cases (get_elem? h j)) [
      | inl d ↦ rw (e, d) refl
      | inr (y, d) ↦
          rw (e, d)
            (omega (
              arith,
              tally-set h i x y e,
              tally-set (set h i y) j y x (get_elem?-set_again h i j x y e d),
            ))
    ]
  ]

  module _ (less : A → A → Bool) where
    tally-up : (fuel : ℕ) (h : List A) (j : ℕ) → tally (up less fuel h j) ≡ tally h
    unfolding up
    tally-up zero h j = refl
    tally-up (suc fuel) h j =
        let i = (j - 1) / 2 in ground (arith, tally-up fuel (swap h i j) i, tally-swap h i j)

    pub tally-down : (fuel : ℕ) (h : List A) (i n : ℕ) → tally (down less fuel h i n) ≡ tally h
    unfolding down
    tally-down zero h i n = refl
    tally-down (suc fuel) h i n =
        let j = child less h i n in
        ground (arith, tally-down fuel (swap h i j) j n, tally-swap h i j)

    pub tally-push : (x : A) (h : List A) → tally (push less x h) ≡ one_if x + tally h
    unfolding push
    tally-push x h =
        omega (arith, tally-up (length h + 1) (h ++ x ∷ []) (length h), tally-append h (x ∷ []))

    pub tally-fix_root : (h : List A) → tally (fix_root less h) ≡ tally h
    unfolding fix_root
    tally-fix_root h = tally-down (length h) h 0 (length h)

  -- The last item, apart from the others.
  pub tally-take :
      (n : ℕ) (h : List A) (x : A)
      → length h ≤ n + 1
      → get_elem? h n ≡ some x
      → tally h ≡ one_if x + tally (take n h)
  tally-take n [] x b e = cc
  tally-take zero (y ∷ []) x b e = let same : y ≡ x = cc in rw same refl
  tally-take zero (y ∷ z ∷ h) x b e = absurd (omega (arith, b))
  tally-take (suc n) (y ∷ h) x b e = omega (arith, tally-take n h x (omega (arith, b)) e)
