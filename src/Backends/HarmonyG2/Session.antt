-- ===== src/Backends/HarmonyG2/Session.antt =====
-- backends/harmony_g2/session.py: the validation of sessions. Their file stands in Store and Saving;
-- the backend takes the store as an argument. A time counts microseconds from the first day of year
-- 1, as far as `datetime.max`.
pub mod Renewal
pub mod Store
pub mod Saving
pub mod Atomic
pub mod Outcome
pub mod Replacement
pub mod Guarded
use smartenit_rescue.Prelude.{
  ℕ, ◌+◌, ◌*◌, ◌/◌, ◌%◌, ◌^◌, Bool, true, false, not, ◌&&◌, ◌||◌, Option, none, some, [], ◌∷◌, ◌++◌,
  ◌===◌, leb, ltb, length, any, all, contains, if◌then◌else◌,
}
use smartenit_rescue.Prelude.Number.{pos, finite}
use smartenit_rescue.Prelude.Value.{Value, int, float, str, Fields, get, field_names}
use smartenit_rescue.Prelude.Result.{Text, Result, ok, err, validation, raise_if, ◌>>=◌, ◌>>◌}
use smartenit_rescue.Prelude.Text.{codes, is_space, text_eq}
use smartenit_rescue.Prelude.Datetime.{Datetime, Zone}

pub record LocalSession : Type 0 where
  pub access_token : Text
  pub refresh_token : Text
  pub expires_at : Datetime

-- the test of `_token` on a string
unfoldable pub is_token : Text → Bool
is_token value =
    leb 1 (length value)
    && (leb (length value) 8192
        && (all (λ c. ltb c 128) value
            && (not (any is_space value) && not (any (λ c. ltb c 0x21 || ltb 0x7E c) value))))

-- `_token`
unfoldable pub token : Value → Text → Result Text
token (str value) context =
    if is_token value
    then ok value
    else err (validation (context ++ codes " contains an invalid token"))
token _ context = err (validation (context ++ codes " contains an invalid token"))

-- `_aware_utc`
unfoldable pub aware_utc : Datetime → Text → Result Datetime
aware_utc value context = elim value.zone [
  | Zone.utc ↦ ok value
  | _ ↦ err (validation (context ++ codes " clock must be timezone-aware UTC"))
]

-- `LocalSession(...)`, with `__post_init__`
unfoldable pub make_session : Text → Text → Datetime → Result LocalSession
make_session access_token refresh_token expires_at = do
  access ← token (str access_token) (codes "local session")
  refresh ← token (str refresh_token) (codes "local session")
  at ← aware_utc expires_at (codes "local session")
  ok (record { access_token = access; refresh_token = refresh; expires_at = at })

abbrev pub max_expires_in : ℕ
max_expires_in = 366 * 24 * 60 * 60

-- `n / d` rounded to the nearest integer, halves to even, as `timedelta` rounds
unfoldable pub round_half_even : ℕ → ℕ → ℕ
round_half_even n d =
    let q = n / d in
    let r = n % d in if ltb (2 * r) d then q else if ltb d (2 * r) then q + 1 else q + q % 2

-- The lifetime in microseconds of an accepted `expires_in`: an integer or a finite float `m / 2 ^ k`
-- that is positive and within the bound.
unfoldable pub lifetime : Value → Option ℕ
unfolding round_half_even
lifetime (int (pos n)) = if ltb 0 n && leb n max_expires_in then some (n * 1000000) else none
lifetime (float (finite (pos m) k)) =
    if ltb 0 m && leb m (max_expires_in * 2 ^ k)
    then some (round_half_even (m * 1000000) (2 ^ k))
    else none
lifetime _ = none

-- the last instant of `datetime.max`
abbrev pub max_instant : ℕ
max_instant = 315537897599999999

abbrev is_bearer : Option Value → Bool
is_bearer none = true
is_bearer (some (str s)) = s === codes "Bearer"
is_bearer (some _) = false

-- the test of the closed response
unfoldable pub has_session_fields : Fields → Bool
has_session_fields payload =
    let names = field_names payload in
    all (λ k. contains k names)
      (codes "access_token" ∷ codes "refresh_token" ∷ codes "expires_in" ∷ [])
    && (all
          (λ k. contains k (
            codes "access_token"
            ∷ codes "refresh_token"
            ∷ codes "expires_in"
            ∷ codes "token_type"
            ∷ []))
          names
        && is_bearer (get (codes "token_type") payload))

-- `payload[key]` of a key that is there
abbrev item : Text → Fields → Value
item k payload = elim (get k payload) [ none ↦ Value.null | some v ↦ v ]

expiry_after : Datetime → Option ℕ → Result Datetime
expiry_after now none =
    err (validation (codes "refresh response contains an invalid session lifetime"))
expiry_after now (some micros) =
    if leb (now.instant + micros) max_instant
    then ok (record now { instant = now.instant + micros })
    else err (validation (codes "refresh response contains an invalid session lifetime"))

-- `parse_refreshed_session`
unfoldable pub parse_refreshed_session : Fields → Datetime → Result LocalSession
unfolding expiry_after
parse_refreshed_session payload now = do
  raise_if (not (has_session_fields payload))
      (validation (codes "refresh response must contain the exact session fields"))
  normalized_now ← aware_utc now (codes "refresh response")
  expires_at ← expiry_after normalized_now (lifetime (item (codes "expires_in") payload))
  access_token ← token (item (codes "access_token") payload) (codes "refresh response")
  refresh_token ← token (item (codes "refresh_token") payload) (codes "refresh response")
  make_session access_token refresh_token expires_at
