-- ===== src/Tests/TopicTests.antt =====
-- Identities and topics at concrete inputs.
use smartenit_rescue.Prelude.{◌↔◌, ◌≡◌, ◌≢◌, refl, some, arith}
use smartenit_rescue.Prelude.Result.{ok, err, key_error}
use smartenit_rescue.Prelude.Text.{codes, has, is_hex, lower_char, text_beq, split_first}
use smartenit_rescue.Models.Identity.{
  parse_device_id, join_groups, ungroup, strip_0x, make_device_id,
}
use smartenit_rescue.Models.Identity.Spelling.{Spells, parse_device_id_iff}
use smartenit_rescue.Models.Identity.Canonical.{IsCanonical, parse_device_id_value}
use smartenit_rescue.Mqtt.Topics.{parse_command_topic, command_topic}
use smartenit_rescue.Mqtt.Topics.RoundTrip.{
  IsPlain, IsAddress, parse_command_topic-command_topic, parse_command_topic_sound,
  parse_command_topic-ne-err,
}
use smartenit_rescue.Tests.Fixtures.{device, address, topics}

pub device-IsCanonical : IsCanonical device
unfolding is_hex lower_char
device-IsCanonical = record { digits = refl; hex = refl; lowercase = refl }

pub address-IsAddress : IsAddress address
address-IsAddress = record {
  device = device-IsCanonical;
  endpoint = omega arith;
  capability = refl;
}

pub prefix-IsPlain : IsPlain topics.topic_prefix
unfolding has
prefix-IsPlain = record { no_plus = refl; no_hash = refl; no_nul = refl }

parse_colons : parse_device_id (codes "02:00:00:00:00:00:00:01") ≡ ok device
unfolding parse_device_id join_groups ungroup has strip_0x text_beq lower_char split_first is_hex
    make_device_id
parse_colons = refl

parse_device_id_iff_example :
    (parse_device_id (codes "02:00:00:00:00:00:00:01") ≡ ok device)
    ↔ Spells (codes "02:00:00:00:00:00:00:01") device
parse_device_id_iff_example = parse_device_id_iff (codes "02:00:00:00:00:00:00:01") device

parse_device_id_value_example : parse_device_id device.value ≡ ok device
parse_device_id_value_example = parse_device_id_value device device-IsCanonical

parse_command_topic-command_topic_example :
    parse_command_topic topics (command_topic topics address) ≡ ok (some address)
parse_command_topic-command_topic_example =
    parse_command_topic-command_topic topics address prefix-IsPlain address-IsAddress

parse_command_topic_sound_example :
    (command_topic topics address ≡ command_topic topics address) × IsAddress address
parse_command_topic_sound_example =
    parse_command_topic_sound topics (command_topic topics address) address
      (parse_command_topic-command_topic topics address prefix-IsPlain address-IsAddress)

parse_command_topic-ne-err_example :
    parse_command_topic topics (codes "rescue/+/1/on_off/command") ≢ err key_error
parse_command_topic-ne-err_example =
    parse_command_topic-ne-err topics (codes "rescue/+/1/on_off/command") key_error
