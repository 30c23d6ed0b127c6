-- ===== src/Models/Identity/Canonical.antt =====
-- What `DeviceId` promises: canonical values, and parsing that is stable.
use smartenit_rescue.Prelude.{ℕ, true, false, ◌≡◌, refl, [], ◌∷◌, arith, length, all, any-not}
use smartenit_rescue.Prelude.Result.{IsRefusal, IsRefusal->>=, Text, ok, >>=-eq-ok}
use smartenit_rescue.Prelude.Text.{
  codes, lower, lower_char, is_hex, text_beq, text_beq_iff, text_eq, has-is_hex,
}
use smartenit_rescue.Models.Identity.{
  DeviceId, EndpointId, make_device_id, strip_0x, join_groups, ungroup, parse_device_id,
  make_endpoint_id,
}
use smartenit_rescue.Prelude.{◌≤◌}
use smartenit_rescue.Prelude.Number.{ℤ, pos, negsuc}
use smartenit_rescue.Prelude.Decimal.{Shown, show-Shown}

-- Sixteen lowercase hexadecimal digits.
pub record IsCanonical (d : DeviceId) : Type 0 where
  pub digits : length d.value ≡ 16
  pub hex : all is_hex d.value ≡ true
  pub lowercase : lower d.value ≡ d.value

pub make_device_id-IsCanonical : (v : Text) (d : DeviceId) → make_device_id v ≡ ok d → IsCanonical d
unfolding make_device_id
make_device_id-IsCanonical v d h =
    ground (arith, any-not is_hex v, text_beq_iff v (lower v), text_beq_iff v d.value)

pub make_device_id_value : (d : DeviceId) → IsCanonical d → make_device_id d.value ≡ ok d
unfolding make_device_id
make_device_id_value d c =
    ground (arith, any-not is_hex d.value, text_beq_iff d.value (lower d.value))

-- What `parse` returns is canonical.
pub parse_device_id-IsCanonical :
    (raw : Text) (d : DeviceId) → parse_device_id raw ≡ ok d → IsCanonical d
unfolding parse_device_id
parse_device_id-IsCanonical raw d h =
    let (v, _, h') = >>=-eq-ok (ungroup (strip_0x raw)) _ h in
    ground (arith, make_device_id-IsCanonical (lower v) d)

-- Reading an identity raises nothing but ValidationError.
ungroup-IsRefusal : (v : Text) → IsRefusal (ungroup v)
unfolding ungroup join_groups
ungroup-IsRefusal v = ground arith

make_device_id-IsRefusal : (v : Text) → IsRefusal (make_device_id v)
unfolding make_device_id
make_device_id-IsRefusal v = ground arith

pub parse_device_id-IsRefusal : (raw : Text) → IsRefusal (parse_device_id raw)
unfolding parse_device_id
parse_device_id-IsRefusal raw =
    IsRefusal->>= (ungroup (strip_0x raw)) _ (ungroup-IsRefusal (strip_0x raw))
      λ v. ground (arith, make_device_id-IsRefusal (lower v))

pub not_x :
    (c d : ℕ) (s : Text)
    → all is_hex (c ∷ d ∷ s) ≡ true
    → text_beq (lower (c ∷ d ∷ [])) (codes "0x") ≡ false
unfolding is_hex lower_char text_beq
not_x c d s h = ground arith

pub strip_0x-hex : (s : Text) → all is_hex s ≡ true → strip_0x s ≡ s
unfolding strip_0x
strip_0x-hex [] h = refl
strip_0x-hex (c ∷ []) h = refl
strip_0x-hex (c ∷ d ∷ s) h = rw (not_x c d s h)

pub ungroup-hex : (s : Text) → all is_hex s ≡ true → ungroup s ≡ ok s
unfolding ungroup is_hex
ungroup-hex s h = rw (has-is_hex b':' s refl h, has-is_hex b'-' s refl h)

-- A canonical identity is read back from its own text.
pub parse_device_id_value : (d : DeviceId) → IsCanonical d → parse_device_id d.value ≡ ok d
unfolding parse_device_id
parse_device_id_value d c =
    rw (strip_0x-hex d.value c.hex, ungroup-hex d.value c.hex, c.lowercase)
      (ground (arith, any-not is_hex d.value, make_device_id_value d c))

pub record IsEndpoint (e : EndpointId) : Type 0 where
  pub low : 1 ≤ e.value
  pub high : e.value ≤ 240

pub make_endpoint_id-IsEndpoint :
    (n : ℕ) (e : EndpointId) → make_endpoint_id (pos n) ≡ ok e → (e.value ≡ n) × IsEndpoint e
unfolding make_endpoint_id
make_endpoint_id-IsEndpoint n e h = ground arith

pub make_endpoint_id-IsRefusal : (i : ℤ) → IsRefusal (make_endpoint_id i)
unfolding make_endpoint_id
make_endpoint_id-IsRefusal (pos n) = ground arith
make_endpoint_id-IsRefusal (negsuc n) = tt

pub make_endpoint_id_value : (e : EndpointId) → IsEndpoint e → make_endpoint_id (pos e.value) ≡ ok e
unfolding make_endpoint_id
make_endpoint_id_value e h = ground arith

-- An endpoint is printed in at most three digits, and its text separates and matches nothing.
pub endpoint_text-Shown : (e : EndpointId) → IsEndpoint e → Shown e.value
endpoint_text-Shown e h = show-Shown e.value (omega arith)
