-- ===== src/Config/Fields.antt =====
-- config.py: the checks on single values. `source` is the text of the path of the file.
use smartenit_rescue.Prelude.{
  ℕ, Bool, false, not, ◌&&◌, ◌||◌, none, some, List, [], ◌∷◌, ◌++◌, all, contains, leb, ◌==◌,
  if◌then◌else◌,
}
use smartenit_rescue.Prelude.Number.{pos}
use smartenit_rescue.Prelude.Value.{Value, Fields, get, field_names, items}
use smartenit_rescue.Prelude.Result.{
  Text, Error, validation, Result, ok, err, raise_if, ◌>>=◌, ◌>>◌,
}
use smartenit_rescue.Prelude.Text.{codes, has, is_blank, starts_with, text_eq}
use smartenit_rescue.Models.Identity.{DeviceId, parse_device_id}

-- `_invalid`
unfoldable pub invalid : Text → Text → Text → Error
invalid source location message =
    validation (source ++ (codes ": " ++ (location ++ (codes ": " ++ message))))

module _ (source : Text) where
  -- `_mapping`
  unfoldable pub mapping : Value → Text → Result Fields
  mapping (Value.dict fs) location = ok fs
  mapping _ location = err (invalid source location (codes "must be a table"))

  -- `_closed_mapping`, with the keys that are required and those that are allowed
  unfoldable pub closed_mapping : Value → List Text → List Text → Text → Result Fields
  closed_mapping value required allowed location = do
    item ← mapping value location
    raise_if (not (all (λ k. contains k allowed) (field_names item)))
        (invalid source location (codes "contains an unsupported key"))
    raise_if (not (all (λ k. contains k (field_names item)) required))
        (invalid source location (codes "is missing a required key"))
    ok item

  -- `_required`
  unfoldable pub required_value : Fields → Text → Text → Result Value
  required_value item name location = elim (get name item) [
    | none ↦ err (invalid source location (codes "is missing a required key"))
    | some v ↦ ok v
  ]

  -- `_nonblank_string`
  unfoldable pub nonblank_string : Value → Text → Result Text
  nonblank_string (Value.str s) location =
      if is_blank s then err (invalid source location (codes "must be nonblank")) else ok s
  nonblank_string _ location = err (invalid source location (codes "must be a string"))

  -- `_boolean`
  unfoldable pub boolean : Value → Text → Result Bool
  boolean (Value.bool b) location = ok b
  boolean _ location = err (invalid source location (codes "must be a boolean"))

  -- `_bounded_integer`, for a minimum that is no negative number; `range` is the text of the bounds
  unfoldable pub bounded_integer : Value → ℕ → ℕ → Text → Text → Result ℕ
  bounded_integer (Value.int (pos n)) minimum maximum range location =
      if leb minimum n && leb n maximum
      then ok n
      else err (invalid source location (codes "must be between " ++ range))
  bounded_integer (Value.int _) minimum maximum range location =
      err (invalid source location (codes "must be between " ++ range))
  bounded_integer _ minimum maximum range location =
      err (invalid source location (codes "must be an integer"))

  -- `topic.endswith("/")`
  unfoldable pub ends_with_slash : Text → Bool
  ends_with_slash [] = false
  ends_with_slash (c ∷ []) = c == b'/'
  ends_with_slash (c ∷ d ∷ s) = ends_with_slash (d ∷ s)

  -- `"//" in topic`
  unfoldable pub has_empty_level : Text → Bool
  has_empty_level [] = false
  has_empty_level (c ∷ []) = false
  has_empty_level (c ∷ d ∷ s) = (c == b'/' && d == b'/') || has_empty_level (d ∷ s)

  -- `_topic`
  unfoldable pub topic_name : Value → Text → Result Text
  topic_name value location = do
    topic ← nonblank_string value location
    raise_if
        (starts_with (codes "/") topic
          || (ends_with_slash topic
              || (has_empty_level topic || (has b'+' topic || (has b'#' topic || has 0 topic)))))
        (invalid source location (codes "must be a valid MQTT topic name"))
    ok topic

  -- the `try` around `DeviceId.parse`
  abbrev pub as_invalid_id : Text → Result DeviceId → Result DeviceId
  as_invalid_id location (err (validation _)) =
      err (invalid source location (codes "must be a valid device ID"))
  as_invalid_id location r = r

  -- `_device_id`
  unfoldable pub configured_id : Value → Bool → Text → Result DeviceId
  configured_id value synthetic_only location = do
    raw ← nonblank_string value location
    device_id ← as_invalid_id location (parse_device_id raw)
    raise_if (synthetic_only && not (starts_with (codes "02000000000000") device_id.value))
        (invalid source location (codes "must use the reserved synthetic range"))
    ok device_id

  -- the two checks of `_raw_devices`
  unfoldable pub device_items : List Value → Result (List Value)
  device_items [] =
      err (invalid source (codes "backend.devices") (codes "must contain at least one device"))
  device_items (v ∷ vs) = ok (v ∷ vs)

  unfoldable pub device_list : Value → Result (List Value)
  device_list (Value.list vs) = device_items (items vs)
  device_list _ =
      err (invalid source (codes "backend.devices") (codes "must be an array of tables"))

  -- `_raw_devices`
  unfoldable pub raw_devices : Fields → Result (List Value)
  raw_devices backend = do
    value ← required_value backend (codes "devices") (codes "backend")
    device_list value

  -- `_profile_id`, with the identities of the built-in profiles
  unfoldable pub known_profile_id : List Text → Fields → Text → Result Text
  known_profile_id known item location = do
    value ← required_value item (codes "profile_id") location
    profile_id ← nonblank_string value (location ++ codes ".profile_id")
    raise_if (not (contains profile_id known))
        (invalid source (location ++ codes ".profile_id") (codes "is an unknown profile"))
    ok profile_id
