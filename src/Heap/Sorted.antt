-- ===== src/Heap/Sorted.antt =====
-- heap.Pop takes a least item, so that the items leave a heap in ascending order.
use mathlib.Core.Path.{subst}
use hybrid_vector_cache_hnsw.Common.{
  ℕ, zero, suc, ◌+◌, ◌-◌, ◌*◌, ◌≤◌, ◌<◌, ◌≡◌, refl, sym, ◌∙◌, Bool, Option, none, some, List, [],
  ◌∷◌, arith, length, get_elem?, take, if◌then◌else◌, ltb, length-take, get_elem?-lt, ◌==◌,
}
use hybrid_vector_cache_hnsw.Heap.{swap, child, down, pop, pop_last, drain}
use hybrid_vector_cache_hnsw.Heap.Items.{All, All-swap, All-drain, Popped, Popped-pop}
use hybrid_vector_cache_hnsw.Heap.Keeps.{length-swap, length-down, PopsOne, pop-PopsOne}
use hybrid_vector_cache_hnsw.Heap.Tally.{tally, one_if, tally-take, tally-down, tally-swap}
use hybrid_vector_cache_hnsw.Heap.Order.{key, parent, IsHeap, down-IsHeap, key-swap, get_elem?-swap}

get_elem?-take {ℓ} :
    {A : Type ℓ} (n : ℕ) (h : List A) (m : ℕ) → m < n → get_elem? (take n h) m ≡ get_elem? h m
get_elem?-take zero h m q = absurd (omega (arith, q))
get_elem?-take (suc n) [] m q = refl
get_elem?-take (suc n) (x ∷ h) zero q = refl
get_elem?-take (suc n) (x ∷ h) (suc m) q = get_elem?-take n h m (omega (arith, q))

module _ {A : Type 0} where
  All-at :
      (Q : A → Type 0) (h : List A) → ((i : ℕ) (x : A) → get_elem? h i ≡ some x → Q x) → All Q h
  All-at Q [] g = tt
  All-at Q (x ∷ h) g = (g 0 x refl, All-at Q h (λ i. g (suc i)))

  tally-empty : (p : A → Bool) (g : List A) → length g ≡ 0 → tally p g ≡ 0
  tally-empty p [] e = refl
  tally-empty p (x ∷ g) e = absurd (omega (arith, e))

  child_inside : (less : A → A → Bool) (h : List A) (i n : ℕ) → 2 * i + 1 < n → child less h i n < n
  unfolding child
  child_inside less h i n q = ground (arith, q)

  -- down leaves what lies behind its places.
  get_elem?-down :
      (less : A → A → Bool) (fuel : ℕ) (h : List A) (i n m : ℕ)
      → n ≤ length h
      → n ≤ m
      → get_elem? (down less fuel h i n) m ≡ get_elem? h m
  unfolding down
  get_elem?-down less zero h i n m size q = refl
  get_elem?-down less (suc fuel) h i n m size q =
      let j = child less h i n in
      ground (
        arith,
        child_inside less h i n,
        get_elem?-swap h i j m,
        length-swap h i j,
        get_elem?-down less fuel (swap h i j) j n m,
        size,
        q,
      )

module _ {A : Type 0} (rank : A → ℕ) where
  abbrev pub AtLeast : ℕ → A → Type 0
  AtLeast k x = k ≤ rank x

  -- No item is smaller than one before it.
  abbrev pub IsAscending : List A → Type 0
  IsAscending [] = Unit {0}
  IsAscending (x ∷ xs) = All (AtLeast (rank x)) xs × IsAscending xs

  root_least :
      (h : List A)
      → IsHeap rank (length h) h
      → (fuel m : ℕ) → m ≤ fuel
      → m < length h
      → key rank h 0 ≤ key rank h m
  root_least h v zero m f q = let at : m ≡ 0 = omega (arith, f) in rw at (omega arith)
  root_least h v (suc fuel) zero f q = omega arith
  root_least h v (suc fuel) (suc m) f q = omega (
    arith,
    v (suc m) (omega arith) q,
    root_least h v fuel (parent rank (suc m)) (omega (arith, f)) (omega (arith, q)),
  )

  -- The root is a least item.
  pub root-AtLeast :
      (h : List A) (x : A)
      → IsHeap rank (length h) h
      → get_elem? h 0 ≡ some x
      → All (AtLeast (rank x)) h
  root-AtLeast h x v e = All-at (AtLeast (rank x)) h least
    where
      least : (i : ℕ) (y : A) → get_elem? h i ≡ some y → rank x ≤ rank y
      least i y d =
          let low = root_least h v i i (omega arith) (get_elem?-lt h i y d) in
          let top : key rank h 0 ≡ rank x = rw e refl in
          let here : key rank h i ≡ rank y = rw d refl in omega (arith, low, top, here)

  -- What heap.Pop takes and leaves: a least item, and a heap of the others.
  abbrev pub PopsLeast : List A → Option (A × List A) → Type 0
  PopsLeast h none = length h ≡ 0
  PopsLeast h (some (x, rest)) =
      IsHeap rank (length rest) rest
      × (All (AtLeast (rank x)) h × ((p : A → Bool) → tally p h ≡ one_if p x + tally p rest))

  module _ (less : A → A → Bool) (P : A → Type 0)
      (agree : (x y : A) → P x → P y → less x y ≡ ltb (rank x) (rank y)) where
    -- The slice of a heap behind the work of heap.Pop, with the item that it returns at the end.
    popped : List A → List A
    popped h = down less (length h) (swap h 0 (length h - 1)) 0 (length h - 1)

    popped-last : (h : List A) → 0 < length h → get_elem? (popped h) (length h - 1) ≡ get_elem? h 0
    unfolding popped
    popped-last h pos =
        let n = length h - 1 in
        get_elem?-down less (length h) (swap h 0 n) 0 n n (omega (arith, length-swap h 0 n))
          (omega arith)
        ∙ get_elem?-swap h 0 n n pos (omega (arith, pos))
        ∙ ground arith

    length-popped : (h : List A) → length (popped h) ≡ length h
    unfolding popped
    length-popped h =
        let n = length h - 1 in length-down less (length h) (swap h 0 n) 0 n ∙ length-swap h 0 n

    tally-popped : (p : A → Bool) (h : List A) → tally p (popped h) ≡ tally p h
    unfolding popped
    tally-popped p h =
        let n = length h - 1 in tally-down p less (length h) (swap h 0 n) 0 n ∙ tally-swap p h 0 n

    popped-IsHeap :
        (h : List A)
        → All P h
        → 0 < length h
        → IsHeap rank (length h) h
        → IsHeap rank (length h - 1) (popped h)
    unfolding popped
    popped-IsHeap h a pos v =
        let n = length h - 1 in
        let at : (m : ℕ)
            → key rank (swap h 0 n) m
              ≡ (if m == n then key rank h 0 else if m == 0 then key rank h n else key rank h m) =
          λ m. key-swap rank h 0 n m pos (omega (arith, pos)) in
        down-IsHeap rank less P agree (length h) n (swap h 0 n) 0 (All-swap P h 0 n a)
          (omega (arith, length-swap h 0 n)) (omega arith)
          (record {
            edges = λ c p q r. ground (arith, at c, at (parent rank c), v c);
            bridged = λ c p q r t. absurd (omega (arith, t));
          })

    key-take : (n : ℕ) (h : List A) (m : ℕ) → m < n → key rank (take n h) m ≡ key rank h m
    key-take n h m q = rw (get_elem?-take n h m q) refl

    pop-nonempty :
        (h : List A) (x : A)
        → All P h
        → get_elem? h 0 ≡ some x
        → IsHeap rank (length h) h
        → PopsLeast h (some (x, take (length h - 1) (popped h)))
    pop-nonempty h x a e v =
        let n = length h - 1 in
        let pos : 0 < length h = get_elem?-lt h 0 x e in
        let size : length (take n (popped h)) ≡ n =
          omega (arith, length-take n (popped h), length-popped h) in
        let whole = popped-IsHeap h a pos v in
        (
          (λ c p q. ground (
            arith,
            size,
            key-take n (popped h) c,
            key-take n (popped h) (parent rank c),
            whole c,
          )),
          (
            root-AtLeast h x v e,
            (λ p. omega (
              arith,
              tally-popped p h,
              tally-take p n (popped h) x (omega (arith, length-popped h)) (popped-last h pos ∙ e),
            )),
          ),
        )

    pub pop-PopsLeast : (h : List A) → All P h → IsHeap rank (length h) h → PopsLeast h (pop less h)
    unfolding pop popped
    pop-PopsLeast [] a v = refl
    pop-PopsLeast (y ∷ ys) a v =
        let h = y ∷ ys in
        let last : get_elem? (popped h) (length h - 1) ≡ some y = popped-last h (omega arith) in
        subst (λ o. PopsLeast h (pop_last (popped h) (length h - 1) o)) (sym last)
          (pop-nonempty h y a refl v)

    -- The items leave a heap in ascending order.
    pub drain-IsAscending :
        (fuel : ℕ) (h : List A)
        → All P h
        → IsHeap rank (length h) h
        → IsAscending (drain less fuel h)
    unfolding drain
    drain-IsAscending zero h a v = tt
    drain-IsAscending (suc fuel) h a v =
        drained (drain-IsAscending fuel) (pop less h) refl (pop-PopsLeast h a v)
          (Popped-pop P less h a)
      where
        drained :
            ((g : List A) → All P g → IsHeap rank (length g) g → IsAscending (drain less fuel g))
            → (o : Option (A × List A)) → pop less h ≡ o
            → PopsLeast h o
            → Popped P o
            → IsAscending (elim o [ none ↦ [] | some (x, g) ↦ x ∷ drain less fuel g ])
        drained rec none e l b = tt
        drained rec (some (x, g)) e l b =
            let above : Popped (AtLeast (rank x)) (some (x, g)) =
              subst (Popped (AtLeast (rank x))) e (Popped-pop (AtLeast (rank x)) less h l.1.0) in
            (All-drain (AtLeast (rank x)) less fuel g above.1, rec g b.1 l.0)

    -- They are the items of the heap.
    pub tally-drain :
        (p : A → Bool) (fuel : ℕ) (h : List A)
        → length h ≤ fuel
        → All P h
        → IsHeap rank (length h) h
        → tally p (drain less fuel h) ≡ tally p h
    unfolding drain
    tally-drain p zero [] f a v = refl
    tally-drain p zero (x ∷ h) f a v = absurd (omega (arith, f))
    tally-drain p (suc fuel) h f a v =
        drained (tally-drain p fuel) (pop less h) (pop-PopsLeast h a v) (Popped-pop P less h a)
          (pop-PopsOne less h)
      where
        drained :
            ((g : List A)
              → length g ≤ fuel
              → All P g
              → IsHeap rank (length g) g
              → tally p (drain less fuel g) ≡ tally p g)
            → (o : Option (A × List A)) → PopsLeast h o
            → Popped P o
            → PopsOne less h o
            → tally p (elim o [ none ↦ [] | some (x, g) ↦ x ∷ drain less fuel g ]) ≡ tally p h
        drained rec none l b n = sym (tally-empty p h n)
        drained rec (some (x, g)) l b n =
            omega (arith, rec g (omega (arith, n, f)) b.1 l.0, l.1.1 p)
