-- ===== src/Heap.antt =====
-- container/heap, as the program uses it: the heap is a slice, ordered by a `Less` of its items.
pub mod Items
pub mod Keeps
pub mod Tally
pub mod Order
pub mod Sorted
use hybrid_vector_cache_hnsw.Common.{
  ℕ, zero, suc, ◌+◌, ◌-◌, ◌*◌, ◌/◌, Bool, true, false, Option, none, some, List, [], ◌∷◌, ◌++◌,
  if◌then◌else◌, length, get_elem?, set, take, ◌==◌, ltb, leb, ◌&&◌, ◌||◌, not,
}

module _ {A : Type 0} (less : A → A → Bool) where
  abbrev pub compare_at : Option A → Option A → Bool
  compare_at (some x) (some y) = less x y
  compare_at (some x) none = false
  compare_at none y = false

  -- h.Less(i, j)
  abbrev pub less_at : List A → ℕ → ℕ → Bool
  less_at h i j = compare_at (get_elem? h i) (get_elem? h j)

abbrev pub swap_with : {A : Type 0} → List A → ℕ → ℕ → Option A → Option A → List A
swap_with h i j (some x) (some y) = set (set h i y) j x
swap_with h i j (some x) none = h
swap_with h i j none y = h

-- h.Swap(i, j)
unfoldable pub swap : {A : Type 0} → List A → ℕ → ℕ → List A
swap h i j = swap_with h i j (get_elem? h i) (get_elem? h j)

-- The method Pop of a heap, with the item it returns.
abbrev pub pop_last : {A : Type 0} → List A → ℕ → Option A → Option (A × List A)
pop_last h n none = none
pop_last h n (some x) = some (x, take n h)

module _ {A : Type 0} (less : A → A → Bool) where
  -- up; the index at least halves, so the length of the heap is enough fuel.
  unfoldable pub up : ℕ → List A → ℕ → List A
  unfolding swap
  up zero h j = h
  up (suc fuel) h j =
      let i = (j - 1) / 2 in
      let rest = up fuel (swap h i j) i in if i == j || not (less_at less h j i) then h else rest

  -- The smaller child of i in the first n places; the left one must be there.
  unfoldable pub child : List A → ℕ → ℕ → ℕ
  child h i n =
      let left = 2 * i + 1 in
      if ltb (left + 1) n && less_at less h (left + 1) left then left + 1 else left

  -- down over the first n places
  unfoldable pub down : ℕ → List A → ℕ → ℕ → List A
  unfolding swap child
  down zero h i n = h
  down (suc fuel) h i n =
      let j = child h i n in
      let rest = down fuel (swap h i j) j n in
      if leb n (2 * i + 1) then h else if less_at less h j i then rest else h

  -- heap.Push
  unfoldable pub push : A → List A → List A
  unfolding up
  push x h = up (length h + 1) (h ++ x ∷ []) (length h)

  -- heap.Pop
  unfoldable pub pop : List A → Option (A × List A)
  unfolding down swap
  pop h =
      let n = length h - 1 in
      let h' = down (length h) (swap h 0 n) 0 n in pop_last h' n (get_elem? h' n)

  -- heap.Fix(h, 0): the root has no parent, so it can only go down.
  unfoldable pub fix_root : List A → List A
  unfolding down
  fix_root h = down (length h) h 0 (length h)

  -- All items in the order in which heap.Pop gives them.
  unfoldable pub drain : ℕ → List A → List A
  unfolding pop
  drain zero h = []
  drain (suc fuel) h = elim (pop h) [ none ↦ [] | some (x, h') ↦ x ∷ drain fuel h' ]
