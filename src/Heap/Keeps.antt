-- ===== src/Heap/Keeps.antt =====
-- What the heap operations do to the number of items.
use hybrid_vector_cache_hnsw.Common.{
  ℕ, zero, suc, ◌+◌, ◌-◌, ◌/◌, ◌≤◌, ◌<◌, ◌≡◌, refl, ◌∙◌, Bool, Option, none, some, List, [], ◌∷◌,
  ◌++◌, arith, length, get_elem?, set, length-set, length-append, length-take,
}
use hybrid_vector_cache_hnsw.Heap.{
  swap, swap_with, up, child, down, push, pop, pop_last, fix_root, drain,
}

module _ {A : Type 0} where
  length-swap_with :
      (h : List A) (i j : ℕ) (x y : Option A) → length (swap_with h i j x y) ≡ length h
  length-swap_with h i j none y = refl
  length-swap_with h i j (some x) none = refl
  length-swap_with h i j (some x) (some y) = length-set (set h i y) j x ∙ length-set h i y

  pub length-swap : (h : List A) (i j : ℕ) → length (swap h i j) ≡ length h
  unfolding swap
  length-swap h i j = length-swap_with h i j (get_elem? h i) (get_elem? h j)

  module _ (less : A → A → Bool) where
    pub length-up : (fuel : ℕ) (h : List A) (j : ℕ) → length (up less fuel h j) ≡ length h
    unfolding up
    length-up zero h j = refl
    length-up (suc fuel) h j =
        let i = (j - 1) / 2 in ground (arith, length-up fuel (swap h i j) i, length-swap h i j)

    pub length-down : (fuel : ℕ) (h : List A) (i n : ℕ) → length (down less fuel h i n) ≡ length h
    unfolding down
    length-down zero h i n = refl
    length-down (suc fuel) h i n =
        let j = child less h i n in
        ground (arith, length-down fuel (swap h i j) j n, length-swap h i j)

    pub length-push : (x : A) (h : List A) → length (push less x h) ≡ length h + 1
    unfolding push
    length-push x h = length-up (length h + 1) (h ++ x ∷ []) (length h) ∙ length-append h (x ∷ [])

    -- A slice has an item at an index exactly below its length.
    Bounded : List A → ℕ → Option A → Type 0
    Bounded h i none = length h ≤ i
    Bounded h i (some x) = i < length h

    get_elem?-Bounded : (h : List A) (i : ℕ) → Bounded h i (get_elem? h i)
    unfolding Bounded
    get_elem?-Bounded [] i = omega arith
    get_elem?-Bounded (x ∷ h) zero = omega arith
    get_elem?-Bounded (x ∷ h) (suc i) = later (get_elem? h i) (get_elem?-Bounded h i)
      where
        later : (o : Option A) → Bounded h i o → Bounded (x ∷ h) (suc i) o
        later none b = omega (arith, b)
        later (some y) b = omega (arith, b)

    -- heap.Pop takes one item, if there is one.
    abbrev pub PopsOne : List A → Option (A × List A) → Type 0
    PopsOne h none = length h ≡ 0
    PopsOne h (some (x, h')) = length h ≡ length h' + 1

    pub pop-PopsOne : (h : List A) → PopsOne h (pop less h)
    unfolding pop Bounded
    pop-PopsOne h =
        let n = length h - 1 in
        let h' = down less (length h) (swap h 0 n) 0 n in
        popped h' n refl (length-down (length h) (swap h 0 n) 0 n ∙ length-swap h 0 n)
          (get_elem? h' n) (get_elem?-Bounded h' n)
      where
        popped :
            (h' : List A) (n : ℕ)
            → n ≡ length h - 1
            → length h' ≡ length h
            → (o : Option A) → Bounded h' n o
            → PopsOne h (pop_last h' n o)
        popped h' n d e none b = omega (arith, d, e, b)
        popped h' n d e (some x) b = omega (arith, d, e, b, length-take n h')

    pub length-fix_root : (h : List A) → length (fix_root less h) ≡ length h
    unfolding fix_root
    length-fix_root h = length-down (length h) h 0 (length h)

    -- Draining a heap, with its length as fuel, gives every item.
    pub length-drain :
        (fuel : ℕ) (h : List A) → length h ≤ fuel → length (drain less fuel h) ≡ length h
    unfolding drain
    length-drain zero h b = omega arith
    length-drain (suc fuel) h b = drained (length-drain fuel) (pop less h) (pop-PopsOne h)
      where
        drained :
            ((g : List A) → length g ≤ fuel → length (drain less fuel g) ≡ length g)
            → (o : Option (A × List A)) → PopsOne h o
            → length (elim o [ none ↦ [] | some (x, h') ↦ x ∷ drain less fuel h' ]) ≡ length h
        drained rec none e = omega (arith, e)
        drained rec (some (x, h')) e = omega (arith, e, rec h' (omega (arith, e)))
