-- ===== src/Prelude/Result.antt =====
-- errors.py, and the other exceptions that the modelled code raises. A function that may raise
-- returns a `Result`.
use Prim.Native.Nat.{ℕ}
use mathlib.Core.Path.{◌≡◌, refl}
use mathlib.Core.Bool.{Bool, true, false}
use mathlib.Core.List.{List}
use mathlib.Core.Option.{Option, none, some}
use mathlib.Core.Logic.{◌⊎◌, inl, inr}
use native.Mathlib.Omega.{arith}

-- A text is the list of its code points.
abbrev pub Text : Type 0
Text = List ℕ

-- Other builtin exceptions, by the class that handlers tell apart; `os_error` has its subclasses
-- but `TimeoutError`, and `other_exception` is what no handler names.
pub data Exception : Type 0 where
  timeout_error os_error http_exception : Exception
  value_error type_error runtime_error overflow_error other_exception : Exception

pub data Error : Type 0 where
  -- ValidationError, UnsupportedError, and the TransportError of the MQTT transport
  validation unsupported transport : Text → Error
  -- G2TransportError and its subclass G2ResponseError: message, status, request_started
  g2_transport g2_response : Text → Option ℕ → Bool → Error
  -- builtin exceptions
  key_error index_error stop_iteration assertion_error : Error
  python : Exception → Error

-- `isinstance(error, RescueError)`
abbrev pub is_rescue_error : Error → Bool
is_rescue_error (validation _) = true
is_rescue_error (unsupported _) = true
is_rescue_error (transport _) = true
is_rescue_error (g2_transport _ _ _) = true
is_rescue_error (g2_response _ _ _) = true
is_rescue_error _ = false

pub data Result {ℓ} (A : Type ℓ) : Type ℓ where
  ok : A → Result A
  err : Error → Result A

-- A block goes on only behind a value that was returned.
infixl 5 ◌>>=◌
abbrev pub ◌>>=◌ {κ μ} : {V : Type κ} {W : Type μ} → Result V → (V → Result W) → Result W
raised >>= next = elim raised [ ok v ↦ next v | err raised_error ↦ err raised_error ]

infixl 5 ◌>>◌
abbrev pub ◌>>◌ {κ} : {V : Type κ} → Result (Unit {0}) → Result V → Result V
check >> next = check >>= λ _. next

-- `if bad: raise e`
abbrev pub raise_if : Bool → Error → Result (Unit {0})
raise_if true e = err e
raise_if false e = ok tt

abbrev pub or_raise {ℓ} : {A : Type ℓ} → Option A → Error → Result A
or_raise none e = err e
or_raise (some a) e = ok a

-- `except ValidationError: return a`
unfoldable pub on_invalid {ℓ} : {A : Type ℓ} → A → Error → Result A
on_invalid a (validation _) = ok a
on_invalid a e = err e

-- A block that returned did so through its first part.
pub >>=-eq-ok {κ μ} :
    {V : Type κ} {W : Type μ} (part : Result V) (next : V → Result W) {w : W}
    → part >>= next ≡ ok w
    → (v : V) × (part ≡ ok v) × (next v ≡ ok w)
>>=-eq-ok (ok v) next returned = (v, refl, returned)
>>=-eq-ok (err raised) next returned = cc

-- A block that raised did so in its first part or behind it.
pub >>=-eq-err {κ μ} :
    {V : Type κ} {W : Type μ} (part : Result V) (next : V → Result W) {e : Error}
    → part >>= next ≡ err e
    → (part ≡ err e) ⊎ ((v : V) × (part ≡ ok v) × (next v ≡ err e))
>>=-eq-err (ok v) next failed = inr (v, refl, failed)
>>=-eq-err (err raised) next failed = inl cc

pub Result-cases {ℓ} :
    {A : Type ℓ} (r : Result A) → ((a : A) × (r ≡ ok a)) ⊎ ((e : Error) × (r ≡ err e))
Result-cases (ok a) = inl (a, refl)
Result-cases (err e) = inr (e, refl)

pub on_invalid-eq-ok {ℓ} : {A : Type ℓ} (a b : A) (e : Error) → on_invalid a e ≡ ok b → a ≡ b
unfolding on_invalid
on_invalid-eq-ok a b e h = ground arith

-- An outcome whose error, if it is one, is a ValidationError.
abbrev pub IsRefusal {ℓ} : {A : Type ℓ} → Result A → Type 0
IsRefusal (ok a) = Unit
IsRefusal (err (validation m)) = Unit
IsRefusal (err e) = ⊥

-- A handler of ValidationError takes every refusal.
pub on_invalid_refused {ℓ κ} :
    {A : Type ℓ} {B : Type κ} (a : A) (r : Result B) (e : Error)
    → IsRefusal r
    → r ≡ err e
    → on_invalid a e ≡ ok a
unfolding on_invalid
on_invalid_refused a (ok b) e h same = cc
on_invalid_refused a (err x) e h same = ground (arith, h, same)

pub IsRefusal->>= {κ μ} :
    {V : Type κ} {W : Type μ} (part : Result V) (next : V → Result W)
    → IsRefusal part
    → ((v : V) → IsRefusal (next v))
    → IsRefusal (part >>= next)
IsRefusal->>= (ok v) next h k = k v
IsRefusal->>= (err e) next h k = ground (arith, h)

-- An answer of the outside: a value, or an exception that is none of the program's own.
pub data Attempt {ℓ} (A : Type ℓ) : Type ℓ where
  returned : A → Attempt A
  raised : Exception → Attempt A

abbrev pub attempted {ℓ} : {A : Type ℓ} → Attempt A → Result A
attempted (returned a) = ok a
attempted (raised e) = err (python e)
