-- ===== src/Prelude/Exec.antt =====
-- Methods that change their object, talk to the outside and may raise. What was done before a
-- raise stays done, so the state comes back beside the error too.
pub mod Keeps
pub mod Returns
pub mod Ends
use mathlib.Core.Bool.{Bool, true, false}
use mathlib.Core.List.{List, [], ◌∷◌}
use smartenit_rescue.Prelude.Result.{Error, Result, ok, err}

abbrev pub Exec {ℓ κ} : Type ℓ → Type κ → Type (ℓ ⊔ κ)
Exec S A = S → Result A × S

module _ {ℓ κ} {S : Type ℓ} {A : Type κ} where
  abbrev pub pure : A → Exec S A
  pure a s = (ok a, s)

  abbrev pub raise : Error → Exec S A
  raise e s = (err e, s)

  abbrev pub lift : Result A → Exec S A
  lift r s = (r, s)

  abbrev pub gets : (S → A) → Exec S A
  gets f s = (ok (f s), s)

  -- `try: m; finally: k`, where `k` replaces the outcome only if it raises itself
  abbrev restore : Result A → Result (Unit {0}) × S → Result A × S
  restore r (ok _, s) = (r, s)
  restore r (err e, s) = (err e, s)

  abbrev pub finally : Exec S A → Exec S (Unit {0}) → Exec S A
  finally m k s = let (r, s') = m s in restore r (k s')

  abbrev recover : Exec S A → Exec S (Unit {0}) → Result (Unit {0}) → Exec S A
  recover next k (ok _) = next
  recover next k (err e) = finally (raise e) k

  -- `m` and then `next`, where `k` finishes only if `m` raises
  abbrev pub or_finish : Exec S (Unit {0}) → Exec S A → Exec S (Unit {0}) → Exec S A
  or_finish m next k s = let (r, s') = m s in recover next k r s'

module _ {ℓ} {S : Type ℓ} where
  abbrev pub modify : (S → S) → Exec S (Unit {0})
  modify f s = (ok tt, f s)

infixl 5 ◌>>=◌ ◌>>◌
abbrev pub ◌>>=◌ {ℓ κ μ} :
    {S : Type ℓ} {A : Type κ} {B : Type μ} → Exec S A → (A → Exec S B) → Exec S B
◌>>=◌ m f s = let (r, s') = m s in elim r [ ok a ↦ f a s' | err e ↦ (err e, s') ]

abbrev pub ◌>>◌ {ℓ κ} : {S : Type ℓ} {B : Type κ} → Exec S (Unit {0}) → Exec S B → Exec S B
m >> k = m >>= λ _. k

abbrev pub when {ℓ} : {S : Type ℓ} → Bool → Exec S (Unit {0}) → Exec S (Unit {0})
when true m = m
when false m = pure tt

-- `for x in xs: f(x)`
abbrev pub for_each {ℓ κ} :
    {S : Type ℓ} {A : Type κ} → List A → (A → Exec S (Unit {0})) → Exec S (Unit {0})
for_each [] f s = (ok tt, s)
for_each (x ∷ xs) f s = (f x >>= λ _. for_each xs f) s
