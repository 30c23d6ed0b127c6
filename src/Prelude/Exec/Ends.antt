-- ===== src/Prelude/Exec/Ends.antt =====
-- What holds behind an action in both of its ends, the value and the error: a rule for each way to
-- build an action.
use mathlib.Core.Path.{◌≡◌, refl}
use mathlib.Core.Logic.{◌↔◌}
use smartenit_rescue.Prelude.Result.{Error, Result, ok, err}
use smartenit_rescue.Prelude.Exec.Keeps.{Keeps}
use smartenit_rescue.Prelude.Exec.{recover, or_finish, Exec, finally, restore, lift, ◌>>=◌}

module _ {ℓ μ} {S : Type ℓ} {A : Type 0} where
  abbrev pub Ended : (A → S → Type μ) → (Error → S → Type μ) → Result A → S → Type μ
  Ended Q E (ok a) s = Q a s
  Ended Q E (err e) s = E e s

  pub record Ends (P : S → Type μ) (m : Exec S A) (Q : A → S → Type μ) (E : Error → S → Type μ)
      : Type (ℓ ⊔ μ) where
    pub at : (s : S) → P s → Ended Q E (m s).0 (m s).1

module _ {ℓ μ} {S : Type ℓ} {A : Type 0} {P : S → Type μ} {E : Error → S → Type μ} where
  lift-Ended :
      (r : Result A)
      → ((e : Error) (s : S) → r ≡ err e → P s → E e s)
      → (s : S) → P s
      → Ended (λ a s. (r ≡ ok a) × P s) E r s
  lift-Ended (ok a) k s h = (refl, h)
  lift-Ended (err e) k s h = k e s refl h

  -- a value that was computed, with the equation of its computation
  pub Ends-lift :
      (r : Result A)
      → ((e : Error) (s : S) → r ≡ err e → P s → E e s)
      → Ends P (lift r) (λ a s. (r ≡ ok a) × P s) E
  Ends-lift r k = record { at = lift-Ended r k }

module _ {ℓ μ} {S : Type ℓ} {A B : Type 0} {Q : A → S → Type μ} {R : B → S → Type μ}
    {E : Error → S → Type μ} where
  bind-Ended :
      (f : A → Exec S B)
      → ((a : A) → Ends (Q a) (f a) R E)
      → (r : Result A) (s : S) → Ended Q E r s
      → Ended R E ((lift r >>= f) s).0 ((lift r >>= f) s).1
  bind-Ended f kf (ok a) s h = (kf a).at s h
  bind-Ended f kf (err e) s h = h

  pub Ends-bind :
      {P : S → Type μ} (m : Exec S A) (f : A → Exec S B)
      → Ends P m Q E
      → ((a : A) → Ends (Q a) (f a) R E)
      → Ends P (m >>= f) R E
  Ends-bind m f km kf = record { at = λ s h. bind-Ended f kf (m s).0 (m s).1 (km.at s h) }

module _ {ℓ μ} {S : Type ℓ} {A : Type 0} (P : S → Type μ) where
  Ended-same : (r : Result A) (s : S) → Ended (λ _. P) (λ _. P) r s ↔ P s
  Ended-same (ok a) s = (λ h. h, λ h. h)
  Ended-same (err e) s = (λ h. h, λ h. h)

module _ {ℓ μ} {S : Type ℓ} {A : Type 0} {P : S → Type μ} where
  -- An invariant holds in both ends.
  pub Ends-Keeps : (m : Exec S A) → Ends P m (λ _. P) (λ _. P) → Keeps P m
  Ends-Keeps m k = record { at = λ s h. (Ended-same P (m s).0 (m s).1).0 (k.at s h) }

  pub Keeps-Ends : (m : Exec S A) → Keeps P m → Ends P m (λ _. P) (λ _. P)
  Keeps-Ends m k = record { at = λ s h. (Ended-same P (m s).0 (m s).1).1 (k.at s h) }

module _ {ℓ μ} {S : Type ℓ} (A : Type 0) (R E : S → Type μ) where
  after_error :
      (e : Error) (q : Result (Unit {0}) × S)
      → E q.1
      → let p : Result A × S = restore (err e) q in Ended (λ _. R) (λ _. E) p.0 p.1
  after_error e (ok _, s) h = h
  after_error e (err x, s) h = h

module _ {ℓ μ} {S : Type ℓ} {A : Type 0} (R E : S → Type μ) where
  after_value :
      (a : A) (q : Result (Unit {0}) × S)
      → Ended (λ _. R) (λ _. E) q.0 q.1
      → let p = restore (ok a) q in Ended (λ _. R) (λ _. E) p.0 p.1
  after_value a (ok _, s) h = h
  after_value a (err e, s) h = h

  after_either :
      (Q : S → Type μ) (k : Exec S (Unit {0}))
      → Ends Q k (λ _. R) (λ _. E)
      → Keeps E k
      → (r : Result A) (s : S) → Ended (λ _. Q) (λ _. E) r s
      → let p = restore r (k s) in Ended (λ _. R) (λ _. E) p.0 p.1
  after_either Q k kq ke (ok a) s h = after_value a (k s) (kq.at s h)
  after_either Q k kq ke (err e) s h = after_error A R E e (k s) (ke.at s h)

  recovered :
      (Q : S → Type μ) (next : Exec S A) (k : Exec S (Unit {0}))
      → Ends Q next (λ _. R) (λ _. E)
      → Keeps E k
      → (r : Result (Unit {0})) (s : S) → Ended (λ _. Q) (λ _. E) r s
      → let q = recover next k r s in Ended (λ _. R) (λ _. E) q.0 q.1
  recovered Q next k kn ke (ok _) s h = kn.at s h
  recovered Q next k kn ke (err e) s h = after_error A R E e (k s) (ke.at s h)

module _ {ℓ μ} {S : Type ℓ} {A : Type 0} {P Q R E : S → Type μ} where
  pub Ends-finally :
      (m : Exec S A) (k : Exec S (Unit {0}))
      → Ends P m (λ _. Q) (λ _. E)
      → Ends Q k (λ _. R) (λ _. E)
      → Keeps E k
      → Ends P (finally m k) (λ _. R) (λ _. E)
  Ends-finally m k km kq ke = record {
    at = λ s h. after_either R E Q k kq ke (m s).0 (m s).1 (km.at s h);
  }

  pub Ends-or_finish :
      (m : Exec S (Unit {0})) (next : Exec S A) (k : Exec S (Unit {0}))
      → Ends P m (λ _. Q) (λ _. E)
      → Ends Q next (λ _. R) (λ _. E)
      → Keeps E k
      → Ends P (or_finish m next k) (λ _. R) (λ _. E)
  Ends-or_finish m next k km kn ke = record {
    at = λ s h. recovered R E Q next k kn ke (m s).0 (m s).1 (km.at s h);
  }

module _ {ℓ μ} {S : Type ℓ} {A : Type 0} {Q E : S → Type μ} (Q' E' : S → Type μ)
    (value : (s : S) → Q s → Q' s) (error : (s : S) → E s → E' s) where
  weaken-Ended :
      (r : Result A) (s : S) → Ended (λ _. Q) (λ _. E) r s → Ended (λ _. Q') (λ _. E') r s
  weaken-Ended (ok a) s h = value s h
  weaken-Ended (err e) s h = error s h

  pub Ends-weaken :
      {P : S → Type μ} (m : Exec S A) → Ends P m (λ _. Q) (λ _. E) → Ends P m (λ _. Q') (λ _. E')
  Ends-weaken m k = record { at = λ s h. weaken-Ended (m s).0 (m s).1 (k.at s h) }

module _ {ℓ μ} {S : Type ℓ} {A : Type 0} (Q E K : S → Type μ) where
  and-Ended :
      (r : Result A) (s : S)
      → Ended (λ _. Q) (λ _. E) r s
      → K s
      → Ended (λ _ s. Q s × K s) (λ _ s. E s × K s) r s
  and-Ended (ok a) s h k = (h, k)
  and-Ended (err e) s h k = (h, k)

module _ {ℓ μ} {S : Type ℓ} {A : Type 0} {P Q E K : S → Type μ} where
  pub Ends-and :
      (m : Exec S A)
      → Ends P m (λ _. Q) (λ _. E)
      → Keeps K m
      → Ends (λ s. P s × K s) m (λ _ s. Q s × K s) (λ _ s. E s × K s)
  Ends-and m e k = record { at = λ s h. and-Ended Q E K (m s).0 (m s).1 (e.at s h.0) (k.at s h.1) }
