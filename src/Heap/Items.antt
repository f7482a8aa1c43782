-- ===== src/Heap/Items.antt =====
-- The heap operations move items about: what holds of each item still does.
use hybrid_vector_cache_hnsw.Common.{
  ℕ, zero, suc, ◌+◌, ◌-◌, ◌*◌, ◌/◌, Bool, true, false, not, ◌||◌, Option, none, some, List, [], ◌∷◌,
  ◌++◌, if◌then◌else◌, length, get_elem?, set, take, backwards, ◌==◌, leb,
}
use hybrid_vector_cache_hnsw.Heap.{
  swap, swap_with, less_at, up, child, down, push, pop, pop_last, fix_root, drain,
}

abbrev pub All : {A : Type 0} → (A → Type 0) → List A → Type 0
All P [] = Unit {0}
All P (x ∷ xs) = P x × All P xs

abbrev pub Holds : {A : Type 0} → (A → Type 0) → Option A → Type 0
Holds P none = Unit {0}
Holds P (some x) = P x

-- What heap.Pop gives.
abbrev pub Popped : {A : Type 0} → (A → Type 0) → Option (A × List A) → Type 0
Popped P none = Unit {0}
Popped P (some (x, h)) = P x × All P h

pub All-map :
    {A : Type 0} (P Q : A → Type 0) → ((x : A) → P x → Q x) → (xs : List A) → All P xs → All Q xs
All-map P Q g [] a = tt
All-map P Q g (x ∷ xs) a = (g x a.0, All-map P Q g xs a.1)

module _ {A : Type 0} (P : A → Type 0) where
  pub All-get : (h : List A) (i : ℕ) → All P h → Holds P (get_elem? h i)
  All-get [] i a = tt
  All-get (x ∷ h) zero a = a.0
  All-get (x ∷ h) (suc i) a = All-get h i a.1

  All-set : (h : List A) (i : ℕ) (x : A) → All P h → P x → All P (set h i x)
  All-set [] i x a p = tt
  All-set (y ∷ h) zero x a p = (p, a.1)
  All-set (y ∷ h) (suc i) x a p = (a.0, All-set h i x a.1 p)

  pub All-append : (xs ys : List A) → All P xs → All P ys → All P (xs ++ ys)
  All-append [] ys a b = b
  All-append (x ∷ xs) ys a b = (a.0, All-append xs ys a.1 b)

  pub All-backwards : (xs acc : List A) → All P xs → All P acc → All P (backwards xs acc)
  All-backwards [] acc a b = b
  All-backwards (x ∷ xs) acc a b = All-backwards xs (x ∷ acc) a.1 (a.0, b)

  All-take : (n : ℕ) (h : List A) → All P h → All P (take n h)
  All-take zero h a = tt
  All-take (suc n) [] a = tt
  All-take (suc n) (x ∷ h) a = (a.0, All-take n h a.1)

  All-if : (b : Bool) (x y : List A) → All P x → All P y → All P (if b then x else y)
  All-if true x y a b = a
  All-if false x y a b = b

  All-swap_with :
      (h : List A) (i j : ℕ) (x y : Option A)
      → All P h
      → Holds P x
      → Holds P y
      → All P (swap_with h i j x y)
  All-swap_with h i j none y a p q = a
  All-swap_with h i j (some x) none a p q = a
  All-swap_with h i j (some x) (some y) a p q = All-set (set h i y) j x (All-set h i y a q) p

  pub All-swap : (h : List A) (i j : ℕ) → All P h → All P (swap h i j)
  unfolding swap
  All-swap h i j a =
      All-swap_with h i j (get_elem? h i) (get_elem? h j) a (All-get h i a) (All-get h j a)

  module _ (less : A → A → Bool) where
    All-up : (fuel : ℕ) (h : List A) (j : ℕ) → All P h → All P (up less fuel h j)
    unfolding up
    All-up zero h j a = a
    All-up (suc fuel) h j a =
        let i = (j - 1) / 2 in
        All-if (i == j || not (less_at less h j i)) h (up less fuel (swap h i j) i) a
          (All-up fuel (swap h i j) i (All-swap h i j a))

    pub All-down : (fuel : ℕ) (h : List A) (i n : ℕ) → All P h → All P (down less fuel h i n)
    unfolding down
    All-down zero h i n a = a
    All-down (suc fuel) h i n a =
        let j = child less h i n in
        let rest = down less fuel (swap h i j) j n in
        All-if (leb n (2 * i + 1)) h (if less_at less h j i then rest else h) a
          (All-if (less_at less h j i) rest h (All-down fuel (swap h i j) j n (All-swap h i j a)) a)

    pub All-push : (x : A) (h : List A) → P x → All P h → All P (push less x h)
    unfolding push
    All-push x h p a =
        All-up (length h + 1) (h ++ x ∷ []) (length h) (All-append h (x ∷ []) a (p, tt))

    Popped-pop_last :
        (h : List A) (n : ℕ) (x : Option A) → All P h → Holds P x → Popped P (pop_last h n x)
    Popped-pop_last h n none a p = tt
    Popped-pop_last h n (some x) a p = (p, All-take n h a)

    pub Popped-pop : (h : List A) → All P h → Popped P (pop less h)
    unfolding pop
    Popped-pop h a =
        let n = length h - 1 in
        let h' = down less (length h) (swap h 0 n) 0 n in
        let b = All-down (length h) (swap h 0 n) 0 n (All-swap h 0 n a) in
        Popped-pop_last h' n (get_elem? h' n) b (All-get h' n b)

    pub All-drain : (fuel : ℕ) (h : List A) → All P h → All P (drain less fuel h)
    unfolding drain
    All-drain zero h a = tt
    All-drain (suc fuel) h a = drained (All-drain fuel) (pop less h) (Popped-pop h a)
      where
        drained :
            ((g : List A) → All P g → All P (drain less fuel g))
            → (o : Option (A × List A)) → Popped P o
            → All P (elim o [ none ↦ [] | some (x, h') ↦ x ∷ drain less fuel h' ])
        drained rec none b = tt
        drained rec (some (x, h')) b = (b.0, rec h' b.1)

    pub All-fix_root : (h : List A) → All P h → All P (fix_root less h)
    unfolding fix_root
    All-fix_root h a = All-down (length h) h 0 (length h) a
