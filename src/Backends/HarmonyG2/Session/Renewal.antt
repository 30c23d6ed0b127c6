-- ===== src/Backends/HarmonyG2/Session/Renewal.antt =====
-- When a renewed session expires, against the lifetime that the gateway states.
use native.Mathlib.Nat.{div-add-mod'}
use smartenit_rescue.Prelude.{
  true, ◌≡◌, ◌⊎◌, inl, inr, refl, ℕ, zero, suc, ◌+◌, ◌-◌, subst, ap, ◌*◌, ◌/◌, ◌%◌, ◌^◌, ◌≤◌, ◌<◌,
  arith, Option, none, some,
}
use smartenit_rescue.Prelude.{any, All, length, [], ◌∷◌, not, false, ◌||◌, ltb}
use smartenit_rescue.Prelude.Result.{Text, ok, >>=-eq-ok, raise_if, validation}
use smartenit_rescue.Prelude.Text.{codes}
use smartenit_rescue.Prelude.Datetime.{Datetime, utc}
use smartenit_rescue.Prelude.Number.{pos, finite}
use smartenit_rescue.Prelude.Value.{Value, null, int, float, str, Fields, get}
use smartenit_rescue.Backends.HarmonyG2.Session.{
  round_half_even, lifetime, LocalSession, is_token, token, aware_utc, make_session, max_instant,
  expiry_after, has_session_fields, item, parse_refreshed_session,
}

-- `v` is `n / d` to the nearest integer
abbrev IsNearest : ℕ → ℕ → ℕ → Type 0
IsNearest n d v = (2 * (v * d) ≤ 2 * n + d) × (2 * n ≤ 2 * (v * d) + d)

-- the quotient or the next number, by the remainder
round_half_even-cases :
    (n d : ℕ)
    → ((round_half_even n d ≡ n / d) × (2 * (n % d) ≤ d))
      ⊎ ((round_half_even n d ≡ n / d + 1) × (d ≤ 2 * (n % d)))
unfolding round_half_even
round_half_even-cases n d =
    let odd : (n / d % 2 ≡ 0) ⊎ (n / d % 2 ≡ 1) = omega arith in ground (arith, odd)

IsNearest-low : (n d q r : ℕ) → q * d + r ≡ n → 2 * r ≤ d → IsNearest n d q
IsNearest-low n d q r e h = omega arith

IsNearest-high : (n d q r : ℕ) → q * d + r ≡ n → r < d → d ≤ 2 * r → IsNearest n d (q + 1)
IsNearest-high n d q r e h k = omega arith

round_half_even-IsNearest : (n d : ℕ) → 0 < d → IsNearest n d (round_half_even n d)
round_half_even-IsNearest n d h = elim (round_half_even-cases n d) [
  | inl (e, k) ↦ rw e (IsNearest-low n d (n / d) (n % d) (div-add-mod' n d) k)
  | inr (e, k) ↦ rw e (IsNearest-high n d (n / d) (n % d) (div-add-mod' n d) (omega arith) k)
]

too_near : (n d m t : ℕ) → 0 < d → n ≤ m * d → ¬ IsNearest n d (m + 1 + t)
too_near n d m t h k near = omega arith

-- What is at most `m` divisors is at most `m`.
IsNearest-le : (n d v m : ℕ) → 0 < d → n ≤ m * d → IsNearest n d v → v ≤ m
IsNearest-le n d v m h k near =
    let split : (v ≤ m) ⊎ (v ≡ m + 1 + (v - (m + 1))) = omega arith in
    elim split [
      | inl small ↦ small
      | inr e ↦ absurd (too_near n d m (v - (m + 1)) h k (subst (IsNearest n d) e near))
    ]

-- The value states a number of seconds, `n / d`.
abbrev Lasts : Value → ℕ → ℕ → Type 0
Lasts v n d =
    ((v ≡ int (pos n)) × (d ≡ 1)) ⊎ ((k : ℕ) × (v ≡ float (finite (pos n) k)) × (d ≡ 2 ^ k))

-- What a lifetime in microseconds is of the value: its seconds, which are positive and at most 366
-- days, to the nearest microsecond.
abbrev IsLifetime : Value → ℕ → Type 0
IsLifetime v micros =
    (n : ℕ) × (d : ℕ) × Lasts v n d
    × (0 < d)
    × (1 ≤ n)
    × (n ≤ 366 * 86400 * d)
    × IsNearest (n * 1000000) d micros

two_power_positive : (k : ℕ) → 0 < 2 ^ k
two_power_positive zero = omega arith
two_power_positive (suc k) = omega (arith, two_power_positive k)

lifetime-IsLifetime : (v : Value) (micros : ℕ) → lifetime v ≡ some micros → IsLifetime v micros
unfolding lifetime
lifetime-IsLifetime (int (pos n)) micros h = (
  n,
  1,
  inl (refl, refl),
  omega arith,
  ground (arith, h),
  ground (arith, h),
  let same : micros ≡ n * 1000000 = ground (arith, h) in rw same (omega arith, omega arith),
)
lifetime-IsLifetime (float (finite (pos n) k)) micros h =
    let one = two_power_positive k in
    let same : micros ≡ round_half_even (n * 1000000) (2 ^ k) = ground (arith, h) in
    (
      n,
      2 ^ k,
      inr (k, refl, refl),
      one,
      ground (arith, h),
      ground (arith, h),
      rw same (round_half_even-IsNearest (n * 1000000) (2 ^ k) one),
    )
lifetime-IsLifetime _ micros h = cc

IsLifetime-le : (v : Value) (micros : ℕ) → IsLifetime v micros → micros ≤ 366 * 86400 * 1000000
IsLifetime-le v micros (n, d, lasts, some_d, low, high, near) =
    IsNearest-le (n * 1000000) d micros (366 * 86400 * 1000000) some_d (omega arith) near

-- Printable characters of ASCII, of which a bearer token is made.
abbrev IsPrintable : Text → Type 0
IsPrintable t = (1 ≤ length t) × (length t ≤ 8192) × All (λ c. (0x21 ≤ c) × (c ≤ 0x7E)) t

any-All :
    (t : Text)
    → any (λ c. ltb c 0x21 || ltb 0x7E c) t ≡ false
    → All (λ c. (0x21 ≤ c) × (c ≤ 0x7E)) t
any-All [] h = tt
any-All (c ∷ t) h = ((ground (arith, h), ground (arith, h)), any-All t (ground (arith, h)))

is_token-IsPrintable : (t : Text) → is_token t ≡ true → IsPrintable t
unfolding is_token
is_token-IsPrintable t h = (ground (arith, h), ground (arith, h), any-All t (ground (arith, h)))

-- The text stands in a field, and is printable.
token_lem :
    (k : Text) (p : Fields) (c t : Text)
    → token (item k p) c ≡ ok t
    → (get k p ≡ some (str t)) × IsPrintable t
unfolding token
token_lem k p c t h = present (get k p) h
  where
    present :
        (o : Option Value)
        → token (elim o [ none ↦ null | some v ↦ v ]) c ≡ ok t
        → (o ≡ some (str t)) × IsPrintable t
    present none g = cc
    present (some (str x)) g =
        let same : x ≡ t = ground (arith, g) in
        let good : is_token x ≡ true = ground (arith, g) in
        (ap (λ y. some (str y)) same, subst IsPrintable same (is_token-IsPrintable x good))
    present (some _) g = cc

-- A session that is what a response states, for a renewal at `now`.
pub record IsRenewal (p : Fields) (now : Datetime) (s : LocalSession) : Type 0 where
  pub access : get (codes "access_token") p ≡ some (str s.access_token)
  pub refreshing : get (codes "refresh_token") p ≡ some (str s.refresh_token)
  pub access_printable : IsPrintable s.access_token
  pub refresh_printable : IsPrintable s.refresh_token
  pub lifetime :
      (v : Value) × (micros : ℕ) × (get (codes "expires_in") p ≡ some v)
      × IsLifetime v micros
      × (s.expires_at.instant ≡ now.instant + micros)
  pub latest : s.expires_at.instant ≤ now.instant + 366 * 86400 * 1000000
  pub zone : (now.zone ≡ utc) × (s.expires_at.zone ≡ utc)
  pub representable : s.expires_at.instant ≤ max_instant

expiry_after_lem :
    (now : Datetime) (v : Option ℕ) (e : Datetime)
    → expiry_after now v ≡ ok e
    → (micros : ℕ) × (v ≡ some micros)
      × (e.instant ≡ now.instant + micros)
      × (e.instant ≤ max_instant)
unfolding expiry_after
expiry_after_lem now none e h = cc
expiry_after_lem now (some m) e h = (m, refl, ground (arith, h), ground (arith, h))

lifetime_item :
    (p : Fields) (micros : ℕ)
    → lifetime (item (codes "expires_in") p) ≡ some micros
    → (v : Value) × (get (codes "expires_in") p ≡ some v) × IsLifetime v micros
unfolding lifetime
lifetime_item p micros h = present (get (codes "expires_in") p) h
  where
    present :
        (o : Option Value)
        → lifetime (elim o [ none ↦ null | some v ↦ v ]) ≡ some micros
        → (v : Value) × (o ≡ some v) × IsLifetime v micros
    present none g = cc
    present (some v) g = (v, refl, lifetime-IsLifetime v micros g)

make_session_lem :
    (a r : Text) (at : Datetime) (s : LocalSession)
    → make_session a r at ≡ ok s
    → (s ≡ record { access_token = a; refresh_token = r; expires_at = at }) × (at.zone ≡ utc)
unfolding make_session token aware_utc
make_session_lem a r at s h = (ground (arith, h), ground (arith, h))

aware_utc_lem :
    (d : Datetime) (c : Text) (e : Datetime) → aware_utc d c ≡ ok e → (d ≡ e) × (d.zone ≡ utc)
unfolding aware_utc
aware_utc_lem d c e h = ground (arith, h)

-- A renewal that is accepted gives the session that the response states: its tokens, which are 1 to
-- 8192 printable characters of ASCII, and an expiry in UTC that lies behind the renewal by the stated
-- number of seconds, to the nearest microsecond. The number is positive and at most 366 days, and so
-- the expiry is at most 366 days away, and no later than the last instant that there is.
pub parse_refreshed_session-IsRenewal :
    (p : Fields) (now : Datetime) (s : LocalSession)
    → parse_refreshed_session p now ≡ ok s
    → IsRenewal p now s
unfolding parse_refreshed_session
parse_refreshed_session-IsRenewal p now s h =
    let (_, _, h1) =
      >>=-eq-ok
        (raise_if (not (has_session_fields p))
          (validation (codes "refresh response must contain the exact session fields")))
        _ h in
    let (n, u, h2) = >>=-eq-ok (aware_utc now (codes "refresh response")) _ h1 in
    let (at, x, h3) = >>=-eq-ok (expiry_after n (lifetime (item (codes "expires_in") p))) _ h2 in
    let (a, ta, h4) =
      >>=-eq-ok (token (item (codes "access_token") p) (codes "refresh response")) _ h3 in
    let (r, tr, h5) =
      >>=-eq-ok (token (item (codes "refresh_token") p) (codes "refresh response")) _ h4 in
    let (same, zone) = aware_utc_lem now (codes "refresh response") n u in
    let (micros, l, e, high) = expiry_after_lem n (lifetime (item (codes "expires_in") p)) at x in
    let (v, g, stated) = lifetime_item p micros l in
    let (made, utc_at) = make_session_lem a r at s h5 in
    let (access, printable) = token_lem (codes "access_token") p (codes "refresh response") a ta in
    let (refreshing, printable_too) =
      token_lem (codes "refresh_token") p (codes "refresh response") r tr in
    let short = IsLifetime-le v micros stated in
    let ends : at.instant ≡ now.instant + micros = rw same e in
    rw made (record {
      access = access;
      refreshing = refreshing;
      access_printable = printable;
      refresh_printable = printable_too;
      lifetime = (v, micros, g, stated, ends);
      latest = omega (arith, ends, short);
      zone = (zone, utc_at);
      representable = high;
    })
