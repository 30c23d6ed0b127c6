-- ===== src/Backends/HarmonyG2/Transport/Phases.antt =====
-- What a request over a pinned connection writes, and what its outcome tells of that.
use smartenit_rescue.Prelude.Value.{Value}
use smartenit_rescue.Prelude.Exec.Ends.{Ends-bind, Ends, Ended}
use smartenit_rescue.Prelude.Result.{
  os_error, validation, Text, timeout_error, ok, err, raise_if, Result, g2_response, g2_transport,
  python, Error, raised, returned, attempted, Attempt,
}
use smartenit_rescue.Prelude.Exec.{gets, lift, Exec, ◌>>=◌}
use smartenit_rescue.Prelude.{
  arith, ℕ, if◌then◌else◌, refl, ◌∙◌, [], ◌∷◌, true, false, not, ◌≡◌, Bool, List,
}
use smartenit_rescue.Prelude.Text.{text_eq}
use smartenit_rescue.Backends.HarmonyG2.Transport.Json.{IsRefusal}
use smartenit_rescue.Backends.HarmonyG2.Transport.Pinned.{
  invalid_response, as_object, as_bounded, as_json, close, get_response, read_certificate, connect,
  stay_closed, read_monotonic, read_content, set_timeout, open_connection, call, Exchange,
  Submission, submit, Call,
}
use smartenit_rescue.Prelude.Result as R

-- what was written, newest first
unfoldable pub writes : List Call → List Submission
writes [] = []
writes (submit sent ∷ calls) = sent ∷ writes calls
writes (read_monotonic ∷ calls) = writes calls
writes (open_connection x h p t ∷ calls) = writes calls
writes (connect ∷ calls) = writes calls
writes (stay_closed ∷ calls) = writes calls
writes (read_certificate ∷ calls) = writes calls
writes (get_response ∷ calls) = writes calls
writes (close ∷ calls) = writes calls
writes (set_timeout t ∷ calls) = writes calls
writes (read_content k ∷ calls) = writes calls

unfoldable pub is_submit : Call → Bool
is_submit (submit sent) = true
is_submit _ = false

pub writes-cons :
    (c : Call) (calls : List Call) → is_submit c ≡ false → writes (c ∷ calls) ≡ writes calls
unfolding writes is_submit
writes-cons (submit sent) calls h = cc
writes-cons read_monotonic calls h = refl
writes-cons (open_connection x a p t) calls h = refl
writes-cons connect calls h = refl
writes-cons stay_closed calls h = refl
writes-cons read_certificate calls h = refl
writes-cons get_response calls h = refl
writes-cons close calls h = refl
writes-cons (set_timeout t) calls h = refl
writes-cons (read_content k) calls h = refl

same : Bool → Bool → Bool
same true b = b
same false b = not b

-- Does an error raised inside of the `try` block say whether the request has started?
unfoldable pub tells : Bool → Error → Bool
unfolding same
tells started (python e) = true
tells started (g2_transport m st b) = same started b
tells started (g2_response m st b) = same started b
tells started _ = false

-- A point of the exchange: the request has started or not, and these are the writes.
pub record Phase (started : Bool) (w : List Submission) (s : Exchange) : Type 0 where
  pub flag : s.request_started ≡ started
  pub written : writes s.calls ≡ w

abbrev pub Fails : Bool → List Submission → Error → Exchange → Type 0
Fails b w e s = Phase b w s × (tells b e ≡ true)

-- An action of one phase.
abbrev pub Stays : {A : Type 0} → Bool → List Submission → Exec Exchange A → Type 0
Stays b w m = Ends (Phase b w) m (λ _. Phase b w) (Fails b w)

module _ {A : Type 0} (b : Bool) (w : List Submission) where
  pub call-Stays :
      (c : Call) (answer : List Call → Attempt A) → is_submit c ≡ false → Stays b w (call c answer)
  unfolding call tells
  call-Stays c answer h = record { at = λ s p. go (answer s.calls) s p }
    where
      go :
          (a : Attempt A) (s : Exchange)
          → Phase b w s
          → Ended (λ _. Phase b w) (Fails b w) (attempted a) (record s { calls = c ∷ s.calls })
      go (returned v) s p = record { flag = p.flag; written = writes-cons c s.calls h ∙ p.written }
      go (raised e) s p =
          (record { flag = p.flag; written = writes-cons c s.calls h ∙ p.written }, refl)

  pub lift-Stays :
      (r : Result A) → ((e : Error) → r ≡ err e → tells b e ≡ true) → Stays b w (lift r)
  lift-Stays (ok a) k = record { at = λ s p. p }
  lift-Stays (err e) k = record { at = λ s p. (p, k e refl) }

module _ {A B : Type 0} (b : Bool) (w : List Submission) where
  pub bind-Stays :
      (m : Exec Exchange A) (f : A → Exec Exchange B)
      → Stays b w m
      → ((a : A) → Stays b w (f a))
      → Stays b w (m >>= f)
  bind-Stays m f km kf = Ends-bind m f km kf

pub timely :
    {A : Type 0} (b c : Bool) (a : A) (e : Error)
    → (if c then err (python timeout_error) else ok a) ≡ err e
    → tells b e ≡ true
unfolding tells
timely b true a e h = cc
timely b false a e h = cc

pub raise-Stays :
    (b : Bool) (w : List Submission) (c : Bool) (x : Error)
    → tells b x ≡ true
    → Stays b w (lift (raise_if c x))
raise-Stays b w true x t = record { at = λ s p. (p, t) }
raise-Stays b w false x t = record { at = λ s p. p }

pub gets-Stays :
    {A : Type 0} (b : Bool) (w : List Submission) (f : Exchange → A) → Stays b w (gets f)
gets-Stays b w f = record { at = λ s p. p }

pub as_json-tells :
    (status : ℕ) (a : Attempt Value) (e : Error) → as_json status a ≡ err e → tells true e ≡ true
unfolding as_json tells invalid_response
as_json-tells status (returned v) e h = cc
as_json-tells status (raised x) e h = ground arith

as_bounded-refused :
    (status : ℕ) (m : Text) (e : Error)
    → as_bounded status (err (validation m)) ≡ err e
    → tells true e ≡ true
unfolding as_bounded tells invalid_response
as_bounded-refused status m e h = ground arith

pub as_bounded-tells :
    (status : ℕ) (r : Result ℕ) (e : Error)
    → ((x : Error) → r ≡ err x → IsRefusal x)
    → as_bounded status r ≡ err e
    → tells true e ≡ true
unfolding as_bounded
as_bounded-tells status (ok a) e k h = cc
as_bounded-tells status (err x) e k h =
    let (m, same) = k x refl in as_bounded-refused status m e (rw same at h)

pub as_object-tells :
    (status : ℕ) (v : Value) (e : Error) → as_object status v ≡ err e → tells true e ≡ true
unfolding as_object tells invalid_response
as_object-tells status v e h = ground arith

-- a chain of two checks
pub chain-tells :
    {A B : Type 0} (r : Result A) (f : A → Result B) (e : Error)
    → ((x : Error) → r ≡ err x → tells true x ≡ true)
    → ((a : A) (x : Error) → f a ≡ err x → tells true x ≡ true)
    → R.◌>>=◌ r f ≡ err e
    → tells true e ≡ true
chain-tells (ok a) f e k kf h = kf a e h
chain-tells (err x) f e k kf h = k e (ground (arith, h))
