-- ===== src/Prelude/Exec/Keeps.antt =====
-- Invariants of actions, whether they return or raise: one rule for each way to build an action.
use mathlib.Core.Path.{◌≡◌, refl}
use mathlib.Core.Logic.{◌≢◌}
use mathlib.Core.Bool.{Bool, true, false}
use mathlib.Core.List.{List, [], ◌∷◌}
use smartenit_rescue.Prelude.{if◌then◌else◌, All}
use smartenit_rescue.Prelude.Result.{Error, Result, ok, err}
use smartenit_rescue.Prelude.Exec.{
  finally, restore, modify, Exec, pure, raise, lift, gets, when, for_each, ◌>>=◌,
}

pub record Keeps {ℓ κ μ} {S : Type ℓ} {A : Type κ} (P : S → Type μ) (m : Exec S A)
    : Type (ℓ ⊔ μ) where
  pub at : (s : S) → P s → P (m s).1

module _ {ℓ κ μ} {S : Type ℓ} {A : Type κ} {P : S → Type μ} where
  pub Keeps-pure : (a : A) → Keeps P (pure a)
  Keeps-pure a = record { at = λ s h. h }

  pub Keeps-raise : (e : Error) → Keeps P (raise {A = A} e)
  Keeps-raise e = record { at = λ s h. h }

  pub Keeps-lift : (r : Result A) → Keeps P (lift r)
  Keeps-lift r = record { at = λ s h. h }

  pub Keeps-gets : (f : S → A) → Keeps P (gets f)
  Keeps-gets f = record { at = λ s h. h }

  pub Keeps-if : (b : Bool) (m n : Exec S A) → Keeps P m → Keeps P n → Keeps P (if b then m else n)
  Keeps-if true m n km kn = km
  Keeps-if false m n km kn = kn

module _ {ℓ κ κ' μ} {S : Type ℓ} {A : Type κ} {B : Type κ'} {P : S → Type μ} where
  pub Keeps-continue :
      (f : A → Exec S B)
      → ((a : A) → Keeps P (f a))
      → (r : Result A) (s : S) → P s
      → P ((lift r >>= f) s).1
  Keeps-continue f kf (ok a) s h = (kf a).at s h
  Keeps-continue f kf (err e) s h = h

  pub Keeps-bind :
      (m : Exec S A) (f : A → Exec S B) → Keeps P m → ((a : A) → Keeps P (f a)) → Keeps P (m >>= f)
  Keeps-bind m f km kf = record { at = λ s h. Keeps-continue f kf (m s).0 (m s).1 (km.at s h) }

module _ {ℓ μ} {S : Type ℓ} {P : S → Type μ} where
  pub Keeps-modify : (f : S → S) → ((s : S) → P s → P (f s)) → Keeps P (modify f)
  Keeps-modify f k = record { at = k }

  pub Keeps-when : (b : Bool) (m : Exec S (Unit {0})) → Keeps P m → Keeps P (when b m)
  Keeps-when true m k = k
  Keeps-when false m k = record { at = λ s h. h }

module _ {ℓ κ} {S : Type ℓ} {A : Type κ} where
  restore_state : (r : Result A) (q : Result (Unit {0}) × S) → (restore r q).1 ≡ q.1
  restore_state r (ok _, s) = refl
  restore_state r (err e, s) = refl

  restore_error : (e : Error) (q : Result (Unit {0}) × S) (a : A) → (restore (err e) q).0 ≢ ok a
  restore_error e (ok _, s) a h = cc
  restore_error e (err x, s) a h = cc

  -- Whatever finishes an action that raised, nothing returns.
  pub finally_error :
      (e : Error) (k : Exec S (Unit {0})) (s : S) (a : A) → (finally (raise e) k s).0 ≢ ok a
  finally_error e k s a = restore_error e (k s) a

  pub finally_state :
      (m : Exec S A) (k : Exec S (Unit {0})) (s : S) → (finally m k s).1 ≡ (k (m s).1).1
  finally_state m k s = restore_state (m s).0 (k (m s).1)

module _ {ℓ κ μ} {S : Type ℓ} {A : Type κ} {P : S → Type μ} where
  pub Keeps-finally :
      (m : Exec S A) (k : Exec S (Unit {0})) → Keeps P m → Keeps P k → Keeps P (finally m k)
  Keeps-finally m k km kk = record {
    at = λ s h. rw (finally_state m k s) (kk.at (m s).1 (km.at s h));
  }

module _ {ℓ κ μ} {S : Type ℓ} {A : Type κ} {P : S → Type μ} where
  pub Keeps-for_each :
      (xs : List A) (f : A → Exec S (Unit {0}))
      → ((a : A) → Keeps P (f a))
      → Keeps P (for_each xs f)
  Keeps-for_each [] f k = record { at = λ s h. h }
  Keeps-for_each (x ∷ xs) f k = record {
    at = (Keeps-bind (f x) (λ _. for_each xs f) (k x) (λ _. Keeps-for_each xs f k)).at;
  }

module _ {ℓ κ κ' μ} {S : Type ℓ} {A : Type κ} {P : S → Type μ} {Q : A → Type κ'} where
  -- a loop over items that all have a property
  pub Keeps-for-All :
      (xs : List A) (f : A → Exec S (Unit {0}))
      → All Q xs
      → ((a : A) → Q a → Keeps P (f a))
      → Keeps P (for_each xs f)
  Keeps-for-All [] f q k = record { at = λ s h. h }
  Keeps-for-All (x ∷ xs) f q k = record {
    at = (Keeps-bind (f x) (λ _. for_each xs f) (k x q.0) (λ _. Keeps-for-All xs f q.1 k)).at;
  }

pub ruleset keeps_rules = (
  Keeps-pure, Keeps-raise, Keeps-lift, Keeps-gets, Keeps-if, Keeps-bind, Keeps-when, Keeps-for_each,
)
