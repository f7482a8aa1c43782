-- ===== src/Common/Lists.antt =====
-- Lists measured and indexed by native numbers, under the library's names.
use Prim.Native.Nat.{ℕ, zero, suc, ◌+◌, ◌<◌, min}
use mathlib.Core.Path.{◌≡◌, refl, sym, ap, ◌∙◌}
use mathlib.Core.List.{List, [], ◌∷◌, ◌++◌, append_assoc}
use mathlib.Core.Logic.{◌⊎◌, inl, inr}
use mathlib.Core.Option.{Option, none, some}
use native.Mathlib.Omega.{arith}

module _ {ℓ} {A : Type ℓ} where
  abbrev pub length : List A → ℕ
  length [] = 0
  length (x ∷ xs) = suc (length xs)

  abbrev pub get_elem? : List A → ℕ → Option A
  get_elem? [] i = none
  get_elem? (x ∷ xs) zero = some x
  get_elem? (x ∷ xs) (suc i) = get_elem? xs i

  abbrev pub set : List A → ℕ → A → List A
  set [] i v = []
  set (x ∷ xs) zero v = v ∷ xs
  set (x ∷ xs) (suc i) v = x ∷ set xs i v

  abbrev pub take : ℕ → List A → List A
  take zero xs = []
  take (suc n) [] = []
  take (suc n) (x ∷ xs) = x ∷ take n xs

  abbrev pub drop : ℕ → List A → List A
  drop zero xs = xs
  drop (suc n) [] = []
  drop (suc n) (x ∷ xs) = drop n xs

  -- The items of a list from the last to the first, before those of `acc`.
  abbrev pub backwards : List A → List A → List A
  backwards [] acc = acc
  backwards (x ∷ xs) acc = backwards xs (x ∷ acc)

  pub backwards-append :
      (xs ys acc : List A) → backwards (xs ++ ys) acc ≡ backwards ys (backwards xs acc)
  backwards-append [] ys acc = refl
  backwards-append (x ∷ xs) ys acc = backwards-append xs ys (x ∷ acc)

  pub backwards-backwards : (xs acc : List A) → backwards (backwards xs acc) [] ≡ backwards acc xs
  backwards-backwards [] acc = refl
  backwards-backwards (x ∷ xs) acc = backwards-backwards xs (x ∷ acc)

  pub backwards_onto : (xs acc : List A) → backwards xs acc ≡ backwards xs [] ++ acc
  backwards_onto [] acc = refl
  backwards_onto (x ∷ xs) acc =
      backwards_onto xs (x ∷ acc)
      ∙ sym (append_assoc (backwards xs []) (x ∷ []) acc)
      ∙ sym (ap (λ l. l ++ acc) (backwards_onto xs (x ∷ [])))

  pub length-backwards : (xs acc : List A) → length (backwards xs acc) ≡ length xs + length acc
  length-backwards [] acc = omega arith
  length-backwards (x ∷ xs) acc = omega (arith, length-backwards xs (x ∷ acc))

  pub length-append : (xs ys : List A) → length (xs ++ ys) ≡ length xs + length ys
  length-append [] ys = omega arith
  length-append (x ∷ xs) ys = omega (arith, length-append xs ys)

module _ {ℓ} {A : Type ℓ} where
  pub get_elem?-lt : (xs : List A) (i : ℕ) (x : A) → get_elem? xs i ≡ some x → i < length xs
  get_elem?-lt [] i x e = cc
  get_elem?-lt (y ∷ xs) zero x e = omega arith
  get_elem?-lt (y ∷ xs) (suc i) x e = omega (arith, get_elem?-lt xs i x e)

  pub get_elem?-some : (xs : List A) (i : ℕ) → i < length xs → (x : A) × (get_elem? xs i ≡ some x)
  get_elem?-some [] i h = absurd (omega arith)
  get_elem?-some (x ∷ xs) zero h = (x, refl)
  get_elem?-some (x ∷ xs) (suc i) h = get_elem?-some xs i (omega arith)

  pub length-set : (xs : List A) (i : ℕ) (v : A) → length (set xs i v) ≡ length xs
  length-set [] i v = refl
  length-set (x ∷ xs) zero v = refl
  length-set (x ∷ xs) (suc i) v = ap suc (length-set xs i v)

  pub length-take : (n : ℕ) (xs : List A) → length (take n xs) ≡ min n (length xs)
  length-take zero xs = omega arith
  length-take (suc n) [] = omega arith
  length-take (suc n) (x ∷ xs) = omega (arith, length-take n xs)

  -- A list with one more item.
  pub get_elem?-concat :
      (xs : List A) (y z : A) (i : ℕ)
      → get_elem? (xs ++ y ∷ []) i ≡ some z
      → (get_elem? xs i ≡ some z) ⊎ ((i ≡ length xs) × (y ≡ z))
  get_elem?-concat [] y z zero e = inr (refl, (cc))
  get_elem?-concat [] y z (suc i) e = cc
  get_elem?-concat (x ∷ xs) y z zero e = inl e
  get_elem?-concat (x ∷ xs) y z (suc i) e = elim (get_elem?-concat xs y z i e) [
    | inl old ↦ inl old
    | inr (at, same) ↦ inr (ap suc at, same)
  ]

  pub get_elem?-concat_old :
      (xs : List A) (y z : A) (i : ℕ)
      → get_elem? xs i ≡ some z
      → get_elem? (xs ++ y ∷ []) i ≡ some z
  get_elem?-concat_old [] y z i e = cc
  get_elem?-concat_old (x ∷ xs) y z zero e = e
  get_elem?-concat_old (x ∷ xs) y z (suc i) e = get_elem?-concat_old xs y z i e

  pub get_elem?-concat_new : (xs : List A) (y : A) → get_elem? (xs ++ y ∷ []) (length xs) ≡ some y
  get_elem?-concat_new [] y = refl
  get_elem?-concat_new (x ∷ xs) y = get_elem?-concat_new xs y
