-- ===== src/Models/Identity.antt =====
-- models/identity.py: canonical device and endpoint identities.
pub mod Canonical
pub mod Spelling
use smartenit_rescue.Prelude.{
  ℕ, zero, suc, Bool, true, false, not, ◌&&◌, ◌||◌, ◌≡◌, ◌↔◌, List, [], ◌∷◌, arith, Eq, ◌===◌, ◌==◌,
  leb, length, all, any, if◌then◌else◌,
}
use smartenit_rescue.Prelude.Number.{ℤ, pos, negsuc}
use smartenit_rescue.Prelude.Result.{Text, Result, ok, err, validation, raise_if, ◌>>=◌, ◌>>◌}
use smartenit_rescue.Prelude.Text.{codes, has, lower, is_hex, split, concat, text_beq_iff, text_eq}
use smartenit_rescue.Prelude.Decimal.{show}

pub record DeviceId : Type 0 where
  pub value : Text

-- `DeviceId(value)`, with `__post_init__`
unfoldable pub make_device_id : Text → Result DeviceId
make_device_id value =
    if not (length value == 16) || not (value === lower value) || any (λ c. not (is_hex c)) value
    then err (validation (codes "device ID must be canonical lowercase 16 hexadecimal digits"))
    else ok (record { value = value })

-- `value[2:]` where `value[:2].lower() == "0x"`
unfoldable pub strip_0x : Text → Text
strip_0x [] = []
strip_0x (c ∷ []) = c ∷ []
strip_0x (c ∷ d ∷ value) = if lower (c ∷ d ∷ []) === codes "0x" then value else c ∷ d ∷ value

-- the checks on the groups, and `"".join(groups)`
unfoldable pub join_groups : List Text → Result Text
join_groups groups = do
  raise_if (not (length groups == 8) || any (λ group. not (length group == 2)) groups)
      (validation (codes "device ID must contain eight two-hex groups"))
  raise_if (any (any (λ c. not (is_hex c))) groups)
      (validation (codes "device ID contains non-hex characters"))
  ok (concat groups)

-- The branch for identities in eight groups of two digits.
unfoldable pub ungroup : Text → Result Text
unfolding join_groups
ungroup value =
    if has b':' value || has b'-' value
    then join_groups (split (if has b':' value then b':' else b'-') value)
    else ok value

-- `DeviceId.parse(raw)`
unfoldable pub parse_device_id : Text → Result DeviceId
parse_device_id raw = do
  value ← ungroup (strip_0x raw)
  raise_if (not (length value == 16) || any (λ c. not (is_hex c)) value)
      (validation (codes "device ID must be exactly 16 hexadecimal digits"))
  make_device_id (lower value)

pub record EndpointId : Type 0 where
  pub value : ℕ

-- `EndpointId(value)`, with `__post_init__`
unfoldable pub make_endpoint_id : ℤ → Result EndpointId
make_endpoint_id (pos n) =
    if leb 1 n && leb n 240
    then ok (record { value = n })
    else err (validation (codes "endpoint ID must be between 1 and 240"))
make_endpoint_id (negsuc n) = err (validation (codes "endpoint ID must be between 1 and 240"))

-- `str(endpoint)`
abbrev pub endpoint_text : EndpointId → Text
endpoint_text e = show e.value

pub device_beq_iff : (a b : DeviceId) → ((a.value === b.value) ≡ true) ↔ (a ≡ b)
device_beq_iff a b = ground (arith, text_beq_iff a.value b.value)

instance abbrev pub device_eq : Eq DeviceId
device_eq = record { beq = λ a b. a.value === b.value; beq_iff = device_beq_iff }

pub endpoint_beq_iff : (a b : EndpointId) → ((a.value == b.value) ≡ true) ↔ (a ≡ b)
endpoint_beq_iff a b = ground arith

instance abbrev pub endpoint_eq : Eq EndpointId
endpoint_eq = record { beq = λ a b. a.value == b.value; beq_iff = endpoint_beq_iff }
