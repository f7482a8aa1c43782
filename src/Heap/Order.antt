-- ===== src/Heap/Order.antt =====
-- The heap order, by the rank of the items: push and pop restore it.
use mathlib.Core.Path.{subst}
use hybrid_vector_cache_hnsw.Common.{
  ℕ, zero, suc, ◌+◌, ◌-◌, ◌*◌, ◌/◌, ◌≤◌, ◌<◌, ◌≡◌, ◌≢◌, refl, sym, ◌∙◌, ap, Bool, Option, none,
  some, List, [], ◌∷◌, ◌++◌, arith, length, get_elem?, set, if◌then◌else◌, length-set,
  length-append, get_elem?-some, ◌==◌, ltb, ltb→lt, leb, Bool-cases, inl, inr,
}
use hybrid_vector_cache_hnsw.Heap.{swap, less_at, up, child, down, push, fix_root}
use hybrid_vector_cache_hnsw.Heap.Items.{All, Holds, All-get, All-append, All-swap}
use hybrid_vector_cache_hnsw.Heap.Keeps.{length-swap}

get_elem?-set {ℓ} :
    {A : Type ℓ} (xs : List A) (i m : ℕ) (v : A)
    → i < length xs
    → get_elem? (set xs i v) m ≡ (if m == i then some v else get_elem? xs m)
get_elem?-set [] i m v h = absurd (omega (arith, h))
get_elem?-set (x ∷ xs) zero zero v h = refl
get_elem?-set (x ∷ xs) zero (suc m) v h = ground arith
get_elem?-set (x ∷ xs) (suc i) zero v h = ground arith
get_elem?-set (x ∷ xs) (suc i) (suc m) v h =
    ground (arith, get_elem?-set xs i m v (omega (arith, h)))

pub get_elem?-swap :
    {A : Type 0} (h : List A) (i j m : ℕ)
    → i < length h
    → j < length h
    → get_elem? (swap h i j) m
      ≡ (if m == j then get_elem? h i else if m == i then get_elem? h j else get_elem? h m)
unfolding swap
get_elem?-swap h i j m p q =
    let (x, e) = get_elem?-some h i p in
    let (y, d) = get_elem?-some h j q in
    rw (e, d)
      (get_elem?-set (set h i y) j m x (omega (arith, length-set h i y, q))
        ∙ ap (λ o. if m == j then some x else o) (get_elem?-set h i m y p))

module _ {A : Type 0} (rank : A → ℕ) where
  abbrev rank_of : Option A → ℕ
  rank_of none = 0
  rank_of (some x) = rank x

  -- The rank at an index.
  abbrev pub key : List A → ℕ → ℕ
  key h i = rank_of (get_elem? h i)

  pub key-swap :
      (h : List A) (i j m : ℕ)
      → i < length h
      → j < length h
      → key (swap h i j) m ≡ (if m == j then key h i else if m == i then key h j else key h m)
  key-swap h i j m p q = rw (get_elem?-swap h i j m p q) (ground arith)

  abbrev pub parent : ℕ → ℕ
  parent c = (c - 1) / 2

  -- The first n items are in the heap order.
  abbrev pub IsHeap : ℕ → List A → Type 0
  IsHeap n h = (c : ℕ) → 0 < c → c < n → key h (parent c) ≤ key h c

  -- All but the edges below i; those bypass i.
  pub record DownInv (n : ℕ) (h : List A) (i : ℕ) : Type 0 where
    pub edges : (c : ℕ) → 0 < c → c < n → parent c ≢ i → key h (parent c) ≤ key h c
    pub bridged : (c : ℕ) → 0 < c → c < n → parent c ≡ i → 0 < i → key h (parent i) ≤ key h c

  -- All but the edge above j, which the edges below j bypass.
  record UpInv (h : List A) (j : ℕ) : Type 0 where
    edges : (c : ℕ) → 0 < c → c < length h → c ≢ j → key h (parent c) ≤ key h c
    bridged : (c : ℕ) → 0 < c → c < length h → parent c ≡ j → 0 < j → key h (parent j) ≤ key h c

  -- The smaller child of i.
  record IsSmallerChild (n : ℕ) (h : List A) (i j : ℕ) : Type 0 where
    inside : j < n
    up_one : parent j ≡ i
    below : i < j
    least : (c : ℕ) → 0 < c → c < n → parent c ≡ i → key h j ≤ key h c

  swap-DownInv :
      (n : ℕ) (h : List A) (i j : ℕ)
      → n ≤ length h
      → DownInv n h i
      → IsSmallerChild n h i j
      → key h j < key h i
      → DownInv n (swap h i j) j
  swap-DownInv n h i j size v s less =
      let at : (m : ℕ)
          → key (swap h i j) m ≡ (if m == j then key h i else if m == i then key h j else key h m) =
        λ m.
          key-swap h i j m (omega (arith, size, s.inside, s.below))
            (omega (arith, size, s.inside)) in
      record {
        edges = λ c p q r. ground (arith, at c, at (parent c), v.edges c, v.bridged j, s.least c);
        bridged = λ c p q r t. ground (arith, at c, at (parent j), v.edges c);
      }

  key-concat : (x : A) (h : List A) (m : ℕ) → m < length h → key (h ++ x ∷ []) m ≡ key h m
  key-concat x [] m q = absurd (omega (arith, q))
  key-concat x (y ∷ h) zero q = refl
  key-concat x (y ∷ h) (suc m) q = key-concat x h m (omega (arith, q))

  key-set_root : (x : A) (h : List A) (m : ℕ) → 0 < m → key (set h 0 x) m ≡ key h m
  key-set_root x [] m q = refl
  key-set_root x (y ∷ h) zero q = absurd (omega (arith, q))
  key-set_root x (y ∷ h) (suc m) q = refl

  module _ (less : A → A → Bool) (P : A → Type 0)
      (agree : (x y : A) → P x → P y → less x y ≡ ltb (rank x) (rank y)) where
    compare_at-key :
        (h : List A) (i j : ℕ)
        → All P h
        → i < length h
        → j < length h
        → less_at less h i j ≡ ltb (key h i) (key h j)
    compare_at-key h i j a p q =
        let (x, e) = get_elem?-some h i p in
        let (y, d) = get_elem?-some h j q in
        let px : Holds P (some x) = subst (Holds P) e (All-get P h i a) in
        let py : Holds P (some y) = subst (Holds P) d (All-get P h j a) in
        rw (e, d) (agree x y px py)

    child-IsSmallerChild :
        (n : ℕ) (h : List A) (i : ℕ)
        → All P h
        → n ≤ length h
        → 2 * i + 1 < n
        → IsSmallerChild n h i (child less h i n)
    unfolding child
    child-IsSmallerChild n h i a size inside =
        let test = compare_at-key h (2 * i + 1 + 1) (2 * i + 1) a in
        record {
          inside = ground (arith, inside);
          up_one = ground arith;
          below = ground arith;
          least = λ c p q r. ground (arith, test, size, inside);
        }

    pub down-IsHeap :
        (fuel n : ℕ) (h : List A) (i : ℕ)
        → All P h
        → n ≤ length h
        → n ≤ fuel + i
        → DownInv n h i
        → IsHeap n (down less fuel h i n)
    unfolding down
    down-IsHeap zero n h i a size f v = λ c p q. v.edges c p q (λ e. omega (arith, f, e, p, q))
    down-IsHeap (suc fuel) n h i a size f v = elim (Bool-cases (leb n (2 * i + 1))) [
      | inl leaf ↦ rw leaf (λ c p q. v.edges c p q (λ e. ground (arith, leaf)))
      | inr inner ↦
          let deep : 2 * i + 1 < n = ground (arith, inner) in
          let j = child less h i n in
          let s = child-IsSmallerChild n h i a size deep in
          let test =
            compare_at-key h j i a (omega (arith, s.inside, size)) (omega (arith, deep, size)) in
          elim (Bool-cases (ltb (key h j) (key h i))) [
            | inl lower ↦
                rw (inner, test, lower)
                  (down-IsHeap fuel n (swap h i j) j (All-swap P h i j a)
                    (omega (arith, size, length-swap h i j)) (omega (arith, f, s.below))
                    (swap-DownInv n h i j size v s (ltb→lt (key h j) (key h i) lower)))
            | inr settled ↦
                rw (inner, test, settled) (λ c p q. ground (arith, v.edges c, s.least c, settled))
          ]
    ]

    swap-UpInv :
        (h : List A) (j : ℕ)
        → 0 < j
        → j < length h
        → UpInv h j
        → key h j < key h (parent j)
        → UpInv (swap h (parent j) j) (parent j)
    swap-UpInv h j pos inside v lower =
        let i = parent j in
        let size = length-swap h i j in
        let at : (m : ℕ)
            → key (swap h i j) m
              ≡ (if m == j then key h i else if m == i then key h j else key h m) =
          λ m. key-swap h i j m (omega (arith, inside)) inside in
        record {
          edges = λ c p q r. ground (arith, size, at c, at (parent c), v.edges c, v.bridged c);
          bridged = λ c p q r t. ground (arith, size, at c, at (parent i), v.edges c, v.edges i);
        }

    up-IsHeap :
        (fuel : ℕ) (h : List A) (j : ℕ)
        → All P h
        → j < length h
        → j < fuel
        → UpInv h j
        → IsHeap (length h) (up less fuel h j)
    unfolding up
    up-IsHeap zero h j a inside f v = absurd (omega (arith, f))
    up-IsHeap (suc fuel) h j a inside f v =
        let i = parent j in
        let test = compare_at-key h j i a inside (omega (arith, inside)) in
        elim (Bool-cases (i == j)) [
          | inl root ↦ rw root (λ c p q. v.edges c p q (λ e. ground (arith, root, e)))
          | inr inner ↦ elim (Bool-cases (ltb (key h j) (key h i))) [
            | inl lower ↦
                rw (inner, test, lower)
                  (let pos : 0 < j = ground (arith, inner) in
                    subst (λ n. IsHeap n (up less fuel (swap h i j) i)) (length-swap h i j)
                      (up-IsHeap fuel (swap h i j) i (All-swap P h i j a)
                        (omega (arith, inside, length-swap h i j)) (omega (arith, f, pos))
                        (swap-UpInv h j pos inside v (ltb→lt (key h j) (key h i) lower))))
            | inr settled ↦ rw (inner, test, settled) (λ c p q. ground (arith, v.edges c, settled))
          ]
        ]

    -- heap.Push keeps the order.
    pub push-IsHeap :
        (x : A) (h : List A)
        → P x
        → All P h
        → IsHeap (length h) h
        → IsHeap (length h + 1) (push less x h)
    unfolding push
    push-IsHeap x h px a v =
        let longer = h ++ x ∷ [] in
        let size : length longer ≡ length h + 1 = length-append h (x ∷ []) in
        subst (λ n. IsHeap n (up less (length h + 1) longer (length h))) size
          (up-IsHeap (length h + 1) longer (length h) (All-append P h (x ∷ []) a (px, tt))
            (omega (arith, size)) (omega arith)
            (record {
              edges =
                  λ c p q r. ground (arith, size, key-concat x h c, key-concat x h (parent c), v c);
              bridged = λ c p q r t. absurd (omega (arith, size, p, q, r));
            }))

    -- heap.Fix at the root restores the order that a new root has disturbed.
    pub fix_root-IsHeap :
        (x : A) (h : List A)
        → All P (set h 0 x)
        → 0 < length h
        → IsHeap (length h) h
        → IsHeap (length h) (fix_root less (set h 0 x))
    unfolding fix_root
    fix_root-IsHeap x h a pos v =
        let size = length-set h 0 x in
        let at : (m : ℕ) → 0 < m → key (set h 0 x) m ≡ key h m = λ m q. key-set_root x h m q in
        subst (λ n. IsHeap (length h) (down less n (set h 0 x) 0 n)) (sym size)
          (down-IsHeap (length h) (length h) (set h 0 x) 0 a (omega (arith, size)) (omega arith)
            (record {
              edges = λ c p q r. ground (arith, at c, at (parent c), v c);
              bridged = λ c p q r t. absurd (omega (arith, t));
            }))
