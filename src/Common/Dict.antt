-- ===== src/Common/Dict.antt =====
-- Go maps with string keys, as association lists: iteration is in the order of the list.
pub mod Sweep
use mathlib.Core.List.{List, [], ◌∷◌}
use mathlib.Core.Option.{Option, none, some}
use mathlib.Core.Path.{◌≡◌, refl}
use native.Mathlib.Omega.{arith}
use hybrid_vector_cache_hnsw.Common.Tests.{if◌then◌else◌}
use hybrid_vector_cache_hnsw.Common.Bytes.{Bytes, same, same_iff}

abbrev pub Dict {ℓ} : Type ℓ → Type ℓ
Dict V = List (Bytes × V)

module _ {ℓ} {V : Type ℓ} where
  -- v, ok := m[k]
  unfoldable pub lookup : Bytes → Dict V → Option V
  lookup k [] = none
  lookup k ((j, v) ∷ m) = if same j k then some v else lookup k m

  -- m[k] = v
  unfoldable pub insert : Bytes → V → Dict V → Dict V
  insert k v [] = (k, v) ∷ []
  insert k v ((j, w) ∷ m) = if same j k then (k, v) ∷ m else (j, w) ∷ insert k v m

  -- delete(m, k)
  unfoldable pub remove : Bytes → Dict V → Dict V
  remove k [] = []
  remove k ((j, w) ∷ m) = let rest = remove k m in if same j k then rest else (j, w) ∷ rest

  -- No key twice, as in every Go map.
  abbrev pub IsDistinct : Dict V → Type ℓ
  IsDistinct [] = Unit {ℓ}
  IsDistinct ((k, v) ∷ m) = (lookup k m ≡ none) × IsDistinct m

  pub lookup-insert :
      (k j : Bytes) (v : V) (m : Dict V)
      → lookup j (insert k v m) ≡ (if same k j then some v else lookup j m)
  unfolding lookup insert
  lookup-insert k j v [] = refl
  lookup-insert k j v ((i, w) ∷ m) =
      ground (arith, same_iff k j, same_iff i k, same_iff i j, lookup-insert k j v m)

  pub lookup-remove :
      (k j : Bytes) (m : Dict V) → lookup j (remove k m) ≡ (if same k j then none else lookup j m)
  unfolding lookup remove
  lookup-remove k j [] = ground arith
  lookup-remove k j ((i, w) ∷ m) =
      ground (arith, same_iff k j, same_iff i k, same_iff i j, lookup-remove k j m)

  pub insert-IsDistinct :
      (k : Bytes) (v : V) (m : Dict V) → IsDistinct m → IsDistinct (insert k v m)
  unfolding lookup insert
  insert-IsDistinct k v [] d = (refl, tt)
  insert-IsDistinct k v ((j, w) ∷ m) d =
      ground (arith, same_iff j k, lookup-insert k j v m, same_iff k j, insert-IsDistinct k v m)

  pub remove-IsDistinct : (k : Bytes) (m : Dict V) → IsDistinct m → IsDistinct (remove k m)
  unfolding lookup remove
  remove-IsDistinct k [] d = d
  remove-IsDistinct k ((j, w) ∷ m) d =
      ground (arith, same_iff j k, same_iff k j, lookup-remove k j m, remove-IsDistinct k m)

  -- A second write of a key undoes the first.
  pub insert-insert : (k : Bytes) (v w : V) (m : Dict V) → insert k w (insert k v m) ≡ insert k w m
  unfolding insert
  insert-insert k v w [] = ground (arith, same_iff k k)
  insert-insert k v w ((j, x) ∷ m) =
      ground (arith, same_iff k k, same_iff j k, insert-insert k v w m)
