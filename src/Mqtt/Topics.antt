-- ===== src/Mqtt/Topics.antt =====
-- mqtt/topics.py: topics, and the codecs of payloads. `json.dumps` and the formatting of a time are
-- the standard library's: parameters of the functions that call them.
pub mod RoundTrip
use smartenit_rescue.Prelude.{
  ℕ, Bool, true, false, not, ◌&&◌, ◌||◌, Option, none, some, List, [], ◌∷◌, ◌++◌, ◌===◌, ltb,
  length, if◌then◌else◌,
}
use smartenit_rescue.Prelude.Number.{pos}
use smartenit_rescue.Prelude.Value.{Value, str, dict, dict_of}
use smartenit_rescue.Prelude.Result.{
  Text, Result, ok, err, validation, raise_if, on_invalid, ◌>>=◌, ◌>>◌,
}
use smartenit_rescue.Prelude.Text.{codes, has, starts_with, after_prefix, split, text_eq}
use smartenit_rescue.Prelude.Decimal.{is_decimal, read}
use smartenit_rescue.Prelude.Datetime.{Datetime, is_aware}
use smartenit_rescue.Models.Capability.{CapabilityId, on_off, capability_text}
use smartenit_rescue.Models.Identity.{
  DeviceId, EndpointId, parse_device_id, make_endpoint_id, endpoint_text,
}
use smartenit_rescue.Models.State.{CommandStatus, status_text}
use smartenit_rescue.Backends.Base.{CapabilityAddress, make_address}

pub record TopicLayout : Type 0 where
  pub topic_prefix : Text
  pub discovery_prefix : Text
  pub home_assistant_status_topic : Text

unfoldable pub bridge_availability : TopicLayout → Text
bridge_availability t = t.topic_prefix ++ codes "/bridge/availability"

unfoldable pub device_availability : TopicLayout → DeviceId → Text
device_availability t d = t.topic_prefix ++ b'/' ∷ (d.value ++ codes "/availability")

-- `_capability_topic`
unfoldable pub capability_topic : TopicLayout → CapabilityAddress → Text → Text
capability_topic t a kind =
    (t.topic_prefix ++ codes "/")
    ++ (a.device_id.value
        ++ b'/'
          ∷ (endpoint_text a.endpoint ++ b'/' ∷ (capability_text a.capability ++ b'/' ∷ kind)))

unfoldable pub command_topic : TopicLayout → CapabilityAddress → Text
unfolding capability_topic
command_topic t a = capability_topic t a (codes "command")

unfoldable pub state_topic : TopicLayout → CapabilityAddress → Text
unfolding capability_topic
state_topic t a = capability_topic t a (codes "state")

unfoldable pub confidence_topic : TopicLayout → CapabilityAddress → Text
unfolding capability_topic
confidence_topic t a = capability_topic t a (codes "confidence")

unfoldable pub last_command_topic : TopicLayout → CapabilityAddress → Text
unfolding capability_topic
last_command_topic t a = capability_topic t a (codes "last-command")

unfoldable pub discovery_topic : TopicLayout → DeviceId → Text
discovery_topic t d =
    t.discovery_prefix ++ (codes "/device/smartenit_rescue_" ++ (d.value ++ codes "/config"))

-- The checks on the four parts of a topic, and the address that they name. The `try` turns a
-- ValidationError of the two identities into `None`.
parse_parts : Text → Text → Text → Text → Result (Option CapabilityAddress)
parse_parts raw_device_id raw_endpoint raw_capability kind =
    if not (raw_capability === capability_text on_off) || not (kind === codes "command")
    then ok none
    else if ltb 3 (length raw_endpoint) || not (is_decimal raw_endpoint)
    then ok none
    else elim (parse_device_id raw_device_id) [
      | err e ↦ on_invalid none e
      | ok device_id ↦ elim (make_endpoint_id (pos (read raw_endpoint))) [
        | err e ↦ on_invalid none e
        | ok endpoint ↦
            if not (device_id.value === raw_device_id)
              || not (endpoint_text endpoint === raw_endpoint)
            then ok none
            else (do address ← make_address device_id endpoint on_off; ok (some address))
      ]
    ]

parse_suffix : List Text → Result (Option CapabilityAddress)
unfolding parse_parts
parse_suffix (a ∷ b ∷ c ∷ d ∷ []) = parse_parts a b c d
parse_suffix _ = ok none

-- the `startswith` and `removeprefix` of the prefix
parse_behind : Option Text → Result (Option CapabilityAddress)
unfolding parse_suffix
parse_behind none = ok none
parse_behind (some suffix) = parse_suffix (split b'/' suffix)

unfoldable pub parse_command_topic : TopicLayout → Text → Result (Option CapabilityAddress)
unfolding parse_behind
parse_command_topic t topic =
    if not (starts_with (t.topic_prefix ++ codes "/") topic)
      || (has b'+' topic || (has b'#' topic || has 0 topic))
    then ok none
    else parse_behind (after_prefix (t.topic_prefix ++ codes "/") topic)

unfoldable pub decode_on_off : Text → Result Bool
decode_on_off payload =
    if payload === codes "ON"
    then ok true
    else if payload === codes "OFF"
    then ok false
    else err (validation (codes "on/off payload must be exactly ON or OFF"))

unfoldable pub encode_on_off : Bool → Text
encode_on_off value = if value then codes "ON" else codes "OFF"

-- What the standard library does for the payloads: `json.dumps(..., sort_keys=True)`, and
-- `astimezone(UTC).isoformat()` with its offset written `Z`.
pub record Codec : Type 0 where
  pub dumps : Value → Text
  pub iso_utc : Datetime → Text

unfoldable pub encode_last_command : Codec → Bool → CommandStatus → Datetime → Result Text
encode_last_command codec action status occurred_at = do
  raise_if (not (is_aware occurred_at))
      (validation (codes "last-command time must be timezone-aware"))
  ok (
      codec.dumps (
        dict (
          dict_of (
            (codes "action", str (encode_on_off action))
            ∷ (codes "at", str (codec.iso_utc occurred_at))
            ∷ (codes "status", str (status_text status))
            ∷ []))))
