-- ===== src/Prelude/Exec/Returns.antt =====
-- What holds of the state behind an action that returned: a rule for each way to build an action.
use mathlib.Core.Path.{◌≡◌, refl}
use mathlib.Core.List.{List, [], ◌∷◌}
use smartenit_rescue.Prelude.Result.{Result, ok, err}
use smartenit_rescue.Prelude.Exec.{Exec, lift, for_each, ◌>>=◌}

pub record Returns {ℓ κ μ ν} {S : Type ℓ} {A : Type κ} (P : S → Type μ) (m : Exec S A)
    (Q : A → S → Type ν) : Type (ℓ ⊔ κ ⊔ μ ⊔ ν) where
  pub at : (s : S) → P s → (a : A) → (m s).0 ≡ ok a → Q a (m s).1

module _ {ℓ κ μ} {S : Type ℓ} {A : Type κ} {P : S → Type μ} where
  -- a value that was computed, with the equation of its computation
  pub Returns-lift : (r : Result A) → Returns P (lift r) (λ a s. (r ≡ ok a) × P s)
  Returns-lift r = record { at = λ s h a e. (e, h) }

module _ {ℓ κ κ' μ ν ρ} {S : Type ℓ} {A : Type κ} {B : Type κ'} {Q : A → S → Type ν}
    {R : B → S → Type ρ} where
  continued :
      (f : A → Exec S B)
      → ((a : A) → Returns (Q a) (f a) R)
      → (r : Result A) (s : S) → ((a : A) → r ≡ ok a → Q a s)
      → (b : B) → ((lift r >>= f) s).0 ≡ ok b
      → R b ((lift r >>= f) s).1
  continued f kf (ok a) s h b e = (kf a).at s (h a refl) b e
  continued f kf (err x) s h b e = cc

  pub Returns-bind :
      {P : S → Type μ} (m : Exec S A) (f : A → Exec S B)
      → Returns P m Q
      → ((a : A) → Returns (Q a) (f a) R)
      → Returns P (m >>= f) R
  Returns-bind m f km kf = record {
    at = λ s h. continued f kf (m s).0 (m s).1 (λ a e. km.at s h a e);
  }

module _ {ℓ κ μ} {S : Type ℓ} {A : Type κ} {P : S → Type μ} where
  pub Returns-for_each :
      (xs : List A) (f : A → Exec S (Unit {0}))
      → ((a : A) → Returns P (f a) (λ _. P))
      → Returns P (for_each xs f) (λ _. P)
  Returns-for_each [] f k = record { at = λ s h a e. h }
  Returns-for_each (x ∷ xs) f k = record {
    at = (Returns-bind (f x) (λ _. for_each xs f) (k x) (λ _. Returns-for_each xs f k)).at;
  }
