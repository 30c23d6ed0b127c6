-- ===== src/Backends/HarmonyG2/Transport/Pins.antt =====
-- Fingerprints as they are printed, and the digests that are read from them.
use smartenit_rescue.Prelude.Text.{is_hex}
use smartenit_rescue.Prelude.Result.{ok, Text}
use smartenit_rescue.Prelude.{
  ◌||◌, length, all, &&-eq_true, ◌==◌, ℕ, zero, suc, ◌+◌, ◌*◌, ◌/◌, ◌%◌, ◌<◌, [], ◌∷◌, refl, true,
  false, ◌≡◌, arith, Bool, if◌then◌else◌, ltb, ap, ap₂,
}
use smartenit_rescue.Backends.HarmonyG2.Transport.{
  str, is_pin, hex_digit, is_colon_pin, pin_digest, from_hex, without_colons,
}

-- A hexadecimal digit, in either case.
unfoldable pub hex_char : Bool → ℕ → ℕ
hex_char upper n = if ltb n 10 then 48 + n else if upper then 55 + n else 87 + n

-- The digits of bytes, two for each.
unfoldable pub to_hex : Bool → Text → Text
to_hex upper [] = []
to_hex upper (b ∷ bs) = hex_char upper (b / 16) ∷ hex_char upper (b % 16) ∷ to_hex upper bs

-- The same, with a colon between two bytes.
unfoldable pub colon_hex : Bool → Text → Text
colon_hex upper [] = []
colon_hex upper (b ∷ []) = hex_char upper (b / 16) ∷ hex_char upper (b % 16) ∷ []
colon_hex upper (b ∷ c ∷ bs) =
    hex_char upper (b / 16) ∷ hex_char upper (b % 16) ∷ b':' ∷ colon_hex upper (c ∷ bs)

abbrev pub are_bytes : Text → Bool
are_bytes = all (λ b. ltb b 256)

record IsDigit (c n : ℕ) : Type 0 where
  hex : is_hex c ≡ true
  no_colon : (c == b':') ≡ false
  value : hex_digit c ≡ n

hex_char-IsDigit : (upper : Bool) (n : ℕ) → n < 16 → IsDigit (hex_char upper n) n
unfolding hex_char is_hex hex_digit
hex_char-IsDigit upper n h = record {
  hex = ground arith;
  no_colon = ground arith;
  value = ground arith;
}

from_hex-to_hex : (u : Bool) (bs : Text) → are_bytes bs ≡ true → from_hex (to_hex u bs) ≡ bs
unfolding from_hex to_hex
from_hex-to_hex u [] h = refl
from_hex-to_hex u (b ∷ bs) h =
    let (hb, hs) = &&-eq_true (ltb b 256) (are_bytes bs) h in
    let lt : b < 256 = ground arith in
    let hi = hex_char-IsDigit u (b / 16) (omega arith) in
    let lo = hex_char-IsDigit u (b % 16) (omega arith) in
    ap₂ (λ x xs. x ∷ xs) (omega (arith, hi.value, lo.value)) (from_hex-to_hex u bs hs)

without_colons-to_hex :
    (u : Bool) (bs : Text) → are_bytes bs ≡ true → without_colons (to_hex u bs) ≡ to_hex u bs
unfolding without_colons to_hex
without_colons-to_hex u [] h = refl
without_colons-to_hex u (b ∷ bs) h =
    let (hb, hs) = &&-eq_true (ltb b 256) (are_bytes bs) h in
    let lt : b < 256 = ground arith in
    let hi = hex_char-IsDigit u (b / 16) (omega arith) in
    let lo = hex_char-IsDigit u (b % 16) (omega arith) in
    rw (hi.no_colon, lo.no_colon, without_colons-to_hex u bs hs) refl

all_hex-to_hex : (u : Bool) (bs : Text) → are_bytes bs ≡ true → all is_hex (to_hex u bs) ≡ true
unfolding to_hex
all_hex-to_hex u [] h = refl
all_hex-to_hex u (b ∷ bs) h =
    let (hb, hs) = &&-eq_true (ltb b 256) (are_bytes bs) h in
    let lt : b < 256 = ground arith in
    rw
      (
        (hex_char-IsDigit u (b / 16) (omega arith)).hex,
        (hex_char-IsDigit u (b % 16) (omega arith)).hex,
      )
      (all_hex-to_hex u bs hs)

length-to_hex : (u : Bool) (bs : Text) → length (to_hex u bs) ≡ 2 * length bs
unfolding to_hex
length-to_hex u [] = refl
length-to_hex u (b ∷ bs) = omega (arith, length-to_hex u bs)

without_colons-colon_hex :
    (u : Bool) (bs : Text) → are_bytes bs ≡ true → without_colons (colon_hex u bs) ≡ to_hex u bs
unfolding without_colons to_hex colon_hex
without_colons-colon_hex u [] h = refl
without_colons-colon_hex u (b ∷ []) h = without_colons-to_hex u (b ∷ []) h
without_colons-colon_hex u (b ∷ c ∷ bs) h =
    let (hb, hs) = &&-eq_true (ltb b 256) (are_bytes (c ∷ bs)) h in
    let lt : b < 256 = ground arith in
    let hi = hex_char-IsDigit u (b / 16) (omega arith) in
    let lo = hex_char-IsDigit u (b % 16) (omega arith) in
    rw (hi.no_colon, lo.no_colon)
      (ap (λ r. hex_char u (b / 16) ∷ hex_char u (b % 16) ∷ r)
        (without_colons-colon_hex u (c ∷ bs) hs))

colon_hex-is_colon_pin :
    (u : Bool) (n : ℕ) (bs : Text)
    → are_bytes bs ≡ true
    → length bs ≡ suc n
    → is_colon_pin n (colon_hex u bs) ≡ true
unfolding is_colon_pin colon_hex
colon_hex-is_colon_pin u n [] h l = absurd (omega arith)
colon_hex-is_colon_pin u zero (b ∷ []) h l =
    let lt : b < 256 = ground arith in
    rw
      (
        (hex_char-IsDigit u (b / 16) (omega arith)).hex,
        (hex_char-IsDigit u (b % 16) (omega arith)).hex,
      )
      refl
colon_hex-is_colon_pin u (suc n) (b ∷ []) h l = absurd (omega arith)
colon_hex-is_colon_pin u zero (b ∷ c ∷ bs) h l = absurd (omega arith)
colon_hex-is_colon_pin u (suc n) (b ∷ c ∷ bs) h l =
    let (hb, hs) = &&-eq_true (ltb b 256) (are_bytes (c ∷ bs)) h in
    let lt : b < 256 = ground arith in
    rw
      (
        (hex_char-IsDigit u (b / 16) (omega arith)).hex,
        (hex_char-IsDigit u (b % 16) (omega arith)).hex,
      )
      (colon_hex-is_colon_pin u n (c ∷ bs) hs (omega arith))

or_true : (a b : Bool) → b ≡ true → (a || b) ≡ true
or_true a b h = ground arith

to_hex-is_pin :
    (u : Bool) (bs : Text) → are_bytes bs ≡ true → length bs ≡ 32 → is_pin (to_hex u bs) ≡ true
unfolding is_pin
to_hex-is_pin u bs h l = ground (arith, length-to_hex u bs, all_hex-to_hex u bs h)

colon_hex-is_pin :
    (u : Bool) (bs : Text) → are_bytes bs ≡ true → length bs ≡ 32 → is_pin (colon_hex u bs) ≡ true
unfolding is_pin
colon_hex-is_pin u bs h l = or_true _ _ (colon_hex-is_colon_pin u 31 bs h l)

-- A digest of 32 bytes is read back from its fingerprint, in either case, with or without colons.
pub pin_digest-hex :
    (u : Bool) (digest : Text)
    → are_bytes digest ≡ true
    → length digest ≡ 32
    → (pin_digest (str (to_hex u digest)) ≡ ok digest)
      × (pin_digest (str (colon_hex u digest)) ≡ ok digest)
unfolding pin_digest
pin_digest-hex u digest h l = (
  rw (to_hex-is_pin u digest h l, without_colons-to_hex u digest h, from_hex-to_hex u digest h)
      refl,
  rw
      (
        colon_hex-is_pin u digest h l,
        without_colons-colon_hex u digest h,
        from_hex-to_hex u digest h,
      )
      refl,
)
