-- ===== src/Hnsw/Layer/Visited.antt =====
-- The ids that a search has not visited, which bound its rounds.
use hybrid_vector_cache_hnsw.Common.{
  ℕ, zero, suc, ◌+◌, ◌≤◌, ◌<◌, ◌≡◌, false, List, ◌∷◌, arith, if◌then◌else◌, Bool-cases, inl, inr,
  ◌==◌,
}
use hybrid_vector_cache_hnsw.Hnsw.Layer.{has}

-- How many ids below n are not in a list.
pub unvisited : ℕ → List ℕ → ℕ
unvisited zero v = 0
unvisited (suc n) v = (if has v n then 0 else 1) + unvisited n v

pub unvisited-le : (n : ℕ) (v : List ℕ) → unvisited n v ≤ n
unfolding unvisited
unvisited-le zero v = omega arith
unvisited-le (suc n) v = ground (arith, unvisited-le n v)

pub unvisited-visit_le : (n i : ℕ) (v : List ℕ) → unvisited n (i ∷ v) ≤ unvisited n v
unfolding unvisited
unvisited-visit_le zero i v = omega arith
unvisited-visit_le (suc n) i v = ground (arith, unvisited-visit_le n i v)

pub unvisited-visit_lt :
    (n i : ℕ) (v : List ℕ) → i < n → has v i ≡ false → unvisited n (i ∷ v) + 1 ≤ unvisited n v
unfolding unvisited
unvisited-visit_lt zero i v b e = absurd (omega arith)
unvisited-visit_lt (suc n) i v b e = elim (Bool-cases (i == n)) [
  | inl same ↦ ground (arith, unvisited-visit_le n i v)
  | inr other ↦ ground (arith, unvisited-visit_lt n i v)
]
