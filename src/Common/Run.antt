-- ===== src/Common/Run.antt =====
-- How a call of the Go code ends: with a value, with a run-time panic, or, in the model alone, with
-- the fuel used up.
use mathlib.Core.Bool.{Bool, true, false}
use mathlib.Core.Path.{◌≡◌, refl}
use mathlib.Core.Option.{Option, none, some}
use hybrid_vector_cache_hnsw.Common.Tests.{if◌then◌else◌}

pub data Run (A : Type 0) : Type 0 where
  ok : A → Run A
  panic out_of_fuel : Run A

infixl 5 ◌>>=◌
abbrev pub ◌>>=◌ : {A B : Type 0} → Run A → (A → Run B) → Run B
ok a >>= f = f a
panic >>= f = panic
out_of_fuel >>= f = out_of_fuel

-- A value that the code reads, or its panic.
abbrev pub or_panic : {A : Type 0} → Option A → Run A
or_panic (some a) = ok a
or_panic none = panic

-- The run ends with a value of which P holds.
abbrev pub Returns : {A : Type 0} → (A → Type 0) → Run A → Type 0
Returns P (ok a) = P a
Returns P panic = ⊥
Returns P out_of_fuel = ⊥

module _ {A B : Type 0} where
  pub Returns-bind :
      (P : A → Type 0) (Q : B → Type 0) (r : Run A) (f : A → Run B)
      → Returns P r
      → ((a : A) → P a → Returns Q (f a))
      → Returns Q (r >>= f)
  Returns-bind P Q (ok a) f p k = k a p
  Returns-bind P Q panic f p k = absurd p
  Returns-bind P Q out_of_fuel f p k = absurd p

module _ {A : Type 0} (P : A → Type 0) where
  pub Returns-map : (Q : A → Type 0) (r : Run A) → Returns P r → ((a : A) → P a → Q a) → Returns Q r
  Returns-map Q (ok a) p k = k a p
  Returns-map Q panic p k = absurd p
  Returns-map Q out_of_fuel p k = absurd p

  pub Returns-if :
      (b : Bool) (x y : Run A)
      → (b ≡ true → Returns P x)
      → (b ≡ false → Returns P y)
      → Returns P (if b then x else y)
  Returns-if true x y p q = p refl
  Returns-if false x y p q = q refl
