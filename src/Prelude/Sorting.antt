-- ===== src/Prelude/Sorting.antt =====
-- `sorted(set(xs))` for a strict order with its equality.
use mathlib.Core.Bool.{Bool}
use mathlib.Core.List.{List, [], ◌∷◌}
use smartenit_rescue.Prelude.Tests.{Eq, ◌===◌, if◌then◌else◌}

-- A strict order that the source sorts by.
pub record Ord {ℓ} (A : Type ℓ) : Type ℓ where
  pub lt : A → A → Bool

module _ {ℓ} {A : Type ℓ} ⦃e : Eq A⦄ ⦃o : Ord A⦄ where
  insert_sorted : A → List A → List A
  insert_sorted x [] = x ∷ []
  insert_sorted x (y ∷ ys) =
      if x === y then y ∷ ys else if o.lt x y then x ∷ y ∷ ys else y ∷ insert_sorted x ys

  -- `sorted(set(xs))`
  unfoldable pub sorted_set : List A → List A
  unfolding insert_sorted
  sorted_set [] = []
  sorted_set (x ∷ xs) = insert_sorted x (sorted_set xs)

  insert_item : A → List A → List A
  insert_item x [] = x ∷ []
  insert_item x (y ∷ ys) = if o.lt y x then y ∷ insert_item x ys else x ∷ y ∷ ys

  -- `sorted(xs)`: stable, so equal items keep their order.
  unfoldable pub sorted : List A → List A
  unfolding insert_item
  sorted [] = []
  sorted (x ∷ xs) = insert_item x (sorted xs)
