-- ===== src/Prelude/Decimal.antt =====
-- `str(n)` and `int(s)` for natural numbers.
use Prim.Native.Nat.{ℕ, zero, suc, ◌+◌, ◌-◌, ◌*◌, ◌/◌, ◌%◌, ◌<◌, ◌≤◌}
use mathlib.Core.Path.{◌≡◌, refl}
use mathlib.Core.Bool.{Bool, true, false, not, ◌&&◌}
use mathlib.Core.List.{[], ◌∷◌, ◌++◌}
use native.Mathlib.Omega.{arith}
use smartenit_rescue.Prelude.Tests.{leb, ltb, ◌==◌, if◌then◌else◌}
use smartenit_rescue.Prelude.Lists.{all, length}
use smartenit_rescue.Prelude.Result.{Text}
use smartenit_rescue.Prelude.Text.{has}

-- The last digit last. `n` itself is fuel enough, since each round divides by ten.
show_digits : ℕ → ℕ → Text
show_digits zero n = []
show_digits (suc f) n =
    let rest = show_digits f (n / 10) in
    if ltb n 10 then (b'0' + n) ∷ [] else rest ++ (b'0' + n % 10) ∷ []

-- `str(n)`
unfoldable pub show : ℕ → Text
unfolding show_digits
show n = show_digits (suc n) n

-- `s.isascii() and s.isdecimal()`
unfoldable pub is_decimal : Text → Bool
is_decimal [] = false
is_decimal (c ∷ s) = all (λ d. leb b'0' d && leb d b'9') (c ∷ s)

read_digits : ℕ → Text → ℕ
read_digits n [] = n
read_digits n (c ∷ s) = read_digits (n * 10 + (c - b'0')) s

-- `int(s)` for a decimal text
unfoldable pub read : Text → ℕ
unfolding read_digits
read s = read_digits 0 s

-- Does a test hold of each of the numbers below a bound?
unfoldable pub every : (ℕ → Bool) → ℕ → Bool
every test zero = true
every test (suc bound) = every test bound && test bound

pub test-every :
    (test : ℕ → Bool) (bound k : ℕ) → k < bound → every test bound ≡ true → test k ≡ true
unfolding every
test-every test zero k small table = absurd (omega arith)
test-every test (suc bound) k small table = ground (arith, test-every test bound k)

-- what is needed of the printed form of a number below 1000
is_shown : ℕ → Bool
is_shown n =
    leb (length (show n)) 3
    && is_decimal (show n)
    && read (show n) == n
    && not (has b'/' (show n))
    && not (has b'+' (show n))
    && not (has b'#' (show n))
    && not (has 0 (show n))

shown_table : every is_shown 1000 ≡ true
unfolding every is_shown show is_decimal read has
shown_table = refl

pub record Shown (n : ℕ) : Type 0 where
  pub short : length (show n) ≤ 3
  pub decimal : is_decimal (show n) ≡ true
  pub read_back : read (show n) ≡ n
  pub no_slash : has b'/' (show n) ≡ false
  pub no_plus : has b'+' (show n) ≡ false
  pub no_hash : has b'#' (show n) ≡ false
  pub no_nul : has 0 (show n) ≡ false

shown : (n : ℕ) → is_shown n ≡ true → Shown n
unfolding is_shown
shown n h = ground arith

pub show-Shown : (n : ℕ) → n < 1000 → Shown n
show-Shown n h = shown n (test-every is_shown 1000 n h shown_table)
