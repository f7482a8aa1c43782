-- ===== src/Common/Dict/Sweep.antt =====
-- Loops over a map: deleting while ranging, counting, and writing every value.
use mathlib.Core.List.{[], ◌∷◌}
use mathlib.Core.Option.{Option, none, some}
use mathlib.Core.Path.{◌≡◌, refl}
use mathlib.Core.Bool.{Bool, not}
use native.Mathlib.Omega.{arith}
use Prim.Native.Nat.{ℕ, ◌+◌}
use hybrid_vector_cache_hnsw.Common.Tests.{if◌then◌else◌}
use hybrid_vector_cache_hnsw.Common.Lists.{length}
use hybrid_vector_cache_hnsw.Common.Bytes.{Bytes, same_iff}
use hybrid_vector_cache_hnsw.Common.Dict.{Dict, lookup, remove, IsDistinct}

-- A value that passes the test, if there is one.
abbrev pub keep_if {ℓ} : {V : Type ℓ} → (V → Bool) → Option V → Option V
keep_if p none = none
keep_if p (some v) = if p v then some v else none

module _ {ℓ} {V : Type ℓ} (p : V → Bool) where
  -- for k, v := range m { if p(v) { delete(m, k) } }
  unfoldable pub sweep : Dict V → Dict V
  sweep [] = []
  sweep ((k, v) ∷ m) = let rest = sweep m in if p v then rest else (k, v) ∷ rest

  -- for _, v := range m { if p(v) { count++ } }
  unfoldable pub count_if : Dict V → ℕ
  count_if [] = 0
  count_if ((k, v) ∷ m) = let rest = count_if m in if p v then rest + 1 else rest

  pub lookup-sweep :
      (j : Bytes) (m : Dict V)
      → IsDistinct m
      → lookup j (sweep m) ≡ keep_if (λ v. not (p v)) (lookup j m)
  unfolding lookup sweep
  lookup-sweep j [] d = refl
  lookup-sweep j ((k, v) ∷ m) d = ground (arith, same_iff k j, lookup-sweep j m)

  pub sweep-IsDistinct : (m : Dict V) → IsDistinct m → IsDistinct (sweep m)
  unfolding sweep
  sweep-IsDistinct [] d = d
  sweep-IsDistinct ((k, v) ∷ m) d = ground (arith, lookup-sweep k m, sweep-IsDistinct m)

  -- What is deleted and what is left make up the map.
  pub count_if-add-length-sweep : (m : Dict V) → count_if m + length (sweep m) ≡ length m
  unfolding sweep count_if
  count_if-add-length-sweep [] = refl
  count_if-add-length-sweep ((k, v) ∷ m) = ground (arith, count_if-add-length-sweep m)

  pub sweep-sweep : (m : Dict V) → sweep (sweep m) ≡ sweep m
  unfolding sweep
  sweep-sweep [] = refl
  sweep-sweep ((k, v) ∷ m) = ground (arith, sweep-sweep m)

  pub count_if-sweep : (m : Dict V) → count_if (sweep m) ≡ 0
  unfolding sweep count_if
  count_if-sweep [] = refl
  count_if-sweep ((k, v) ∷ m) = ground (arith, count_if-sweep m)

  -- With nothing to delete, the loop deletes nothing.
  pub sweep-eq_self : (m : Dict V) → count_if m ≡ 0 → sweep m ≡ m
  unfolding sweep count_if
  sweep-eq_self [] h = refl
  sweep-eq_self ((k, v) ∷ m) h = ground (arith, sweep-eq_self m)

module _ {ℓ} {V : Type ℓ} (f : V → V) where
  -- for _, v := range m { f(v) }, where f writes through the pointer v
  unfoldable pub update_all : Dict V → Dict V
  update_all [] = []
  update_all ((k, v) ∷ m) = (k, f v) ∷ update_all m

  abbrev pub map_option : Option V → Option V
  map_option none = none
  map_option (some v) = some (f v)

  pub lookup-update_all :
      (j : Bytes) (m : Dict V) → lookup j (update_all m) ≡ map_option (lookup j m)
  unfolding lookup update_all
  lookup-update_all j [] = refl
  lookup-update_all j ((k, v) ∷ m) = ground (arith, lookup-update_all j m)

  pub update_all-IsDistinct : (m : Dict V) → IsDistinct m → IsDistinct (update_all m)
  unfolding update_all
  update_all-IsDistinct [] d = d
  update_all-IsDistinct ((k, v) ∷ m) d =
      ground (arith, lookup-update_all k m, update_all-IsDistinct m)

module _ {ℓ} {V : Type ℓ} where
  -- The number of keys, with and without one of them.
  pub length-remove :
      (k : Bytes) (m : Dict V)
      → IsDistinct m
      → length m ≡ length (remove k m) + elim (lookup k m) [ none ↦ 0 | some _ ↦ 1 ]
  unfolding lookup remove
  length-remove k [] d = refl
  length-remove k ((j, w) ∷ m) d = ground (arith, same_iff j k, length-remove k m)
