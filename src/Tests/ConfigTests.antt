-- ===== src/Tests/ConfigTests.antt =====
-- The configuration at concrete inputs.
use smartenit_rescue.Prelude.{
  ◌≡◌, ◌≢◌, ◌≤◌, ℕ, refl, true, false, none, some, List, [], ◌∷◌, All, Option,
}
use smartenit_rescue.Prelude.Number.{pos}
use smartenit_rescue.Prelude.Result.{ok, Text}
use smartenit_rescue.Prelude.Text.{codes}
use smartenit_rescue.Prelude.Value.{Value, dict_of, list_of}
use smartenit_rescue.Config.Settings.{
  RuntimeSettings, MqttSettings, SimulatorDeviceSettings, simulator,
}
use smartenit_rescue.Config.Loading.{
  Environment, runtime_settings, mqtt_settings, simulator_settings,
}
use smartenit_rescue.Config.Accepted.{
  layout_of, IsPair, command_topics_round_trip, mqtt_settings_bounds,
}
use smartenit_rescue.Config.Devices.{IsAccepted, Distinct, ids, simulator_settings_devices}
use smartenit_rescue.Mqtt.Topics.{command_topic, parse_command_topic}
use smartenit_rescue.Tests.Fixtures.{device, address}
use smartenit_rescue.Tests.TopicTests.{address-IsAddress}

abbrev env : Environment
env = record {
  source = codes "config.toml";
  resolve = λ t. t;
  parse_toml = λ _. none;
  parse_ipv4 = λ _. none;
  known_profiles = codes "example-switch" ∷ [];
}

abbrev text : Text → Value
text s = Value.str s

abbrev runtime_table : Value
runtime_table = Value.dict (
    dict_of (
      (codes "client_id", text (codes "bridge"))
      ∷ (codes "topic_prefix", text (codes "rescue"))
      ∷ (codes "discovery_prefix", text (codes "homeassistant"))
      ∷ (codes "home_assistant_status_topic", text (codes "homeassistant/status"))
      ∷ []))

abbrev runtime_read : RuntimeSettings
runtime_read = record {
  client_id = codes "bridge";
  topic_prefix = codes "rescue";
  discovery_prefix = codes "homeassistant";
  home_assistant_status_topic = codes "homeassistant/status";
}

runtime_settings-runtime_table : runtime_settings env runtime_table ≡ ok runtime_read
unfolding runtime_settings smartenit_rescue.Config.Fields.closed_mapping
    smartenit_rescue.Config.Fields.mapping smartenit_rescue.Prelude.Value.field_names
    smartenit_rescue.Prelude.Text.text_beq smartenit_rescue.Config.Fields.required_value
    smartenit_rescue.Prelude.Value.get smartenit_rescue.Config.Fields.nonblank_string
    smartenit_rescue.Prelude.Text.is_space smartenit_rescue.Config.Fields.topic_name
    smartenit_rescue.Prelude.Text.after_prefix smartenit_rescue.Config.Fields.ends_with_slash
    smartenit_rescue.Config.Fields.has_empty_level smartenit_rescue.Prelude.Text.has
runtime_settings-runtime_table = refl

command_topics_round_trip_example :
    parse_command_topic (layout_of runtime_read) (command_topic (layout_of runtime_read) address)
    ≡ ok (some address)
command_topics_round_trip_example =
    command_topics_round_trip env runtime_table runtime_read address runtime_settings-runtime_table
      address-IsAddress

abbrev mqtt_table : Value
mqtt_table = Value.dict (
    dict_of (
      (codes "host", text (codes "broker"))
      ∷ (codes "port", Value.int (pos 1883))
      ∷ (codes "keepalive_seconds", Value.int (pos 60))
      ∷ (codes "tls", Value.bool false)
      ∷ []))

abbrev mqtt_read : MqttSettings
mqtt_read = record {
  host = codes "broker";
  port = 1883;
  keepalive_seconds = 60;
  tls = false;
  username_file = none;
  password_file = none;
}

mqtt_settings-mqtt_table : mqtt_settings env mqtt_table ≡ ok mqtt_read
unfolding mqtt_settings smartenit_rescue.Config.Fields.closed_mapping
    smartenit_rescue.Config.Fields.mapping smartenit_rescue.Prelude.Value.field_names
    smartenit_rescue.Prelude.Text.text_beq smartenit_rescue.Config.Fields.required_value
    smartenit_rescue.Prelude.Value.get smartenit_rescue.Config.Fields.nonblank_string
    smartenit_rescue.Prelude.Text.is_space smartenit_rescue.Config.Fields.bounded_integer
    smartenit_rescue.Config.Fields.boolean
mqtt_settings-mqtt_table = refl

mqtt_settings_bounds_example :
    ((1 ≤ 1883) × (1883 ≤ 65535)) × ((1 ≤ 60) × (60 ≤ 65535)) × IsPair none none
mqtt_settings_bounds_example =
    mqtt_settings_bounds env mqtt_table mqtt_read mqtt_settings-mqtt_table

abbrev simulator_table : Value
simulator_table = Value.dict (
    dict_of (
      (codes "type", text (codes "simulator"))
      ∷ (
        codes "devices",
        Value.list (
            list_of (
              Value.dict (
                dict_of (
                  (codes "device_id", text device.value)
                  ∷ (codes "name", text (codes "Lamp"))
                  ∷ (codes "profile_id", text (codes "example-switch"))
                  ∷ (codes "initial_on", Value.bool true)
                  ∷ []))
              ∷ [])),
      )
      ∷ []))

abbrev lamp : SimulatorDeviceSettings
lamp = record {
  device_id = device;
  name = codes "Lamp";
  profile_id = codes "example-switch";
  initial_on = true;
}

simulator_settings-simulator_table :
    simulator_settings env simulator_table ≡ ok (simulator (lamp ∷ []))
unfolding simulator_settings smartenit_rescue.Config.Fields.closed_mapping
    smartenit_rescue.Config.Fields.mapping smartenit_rescue.Prelude.Value.field_names
    smartenit_rescue.Prelude.Text.text_beq smartenit_rescue.Config.Fields.raw_devices
    smartenit_rescue.Config.Fields.required_value smartenit_rescue.Prelude.Value.get
    smartenit_rescue.Config.Fields.device_list smartenit_rescue.Config.Fields.device_items
    smartenit_rescue.Prelude.Value.items smartenit_rescue.Config.Loading.simulator_devices
    smartenit_rescue.Config.Fields.configured_id smartenit_rescue.Config.Fields.nonblank_string
    smartenit_rescue.Prelude.Text.is_space smartenit_rescue.Models.Identity.parse_device_id
    smartenit_rescue.Models.Identity.ungroup smartenit_rescue.Config.Fields.boolean
    smartenit_rescue.Config.Fields.known_profile_id smartenit_rescue.Models.Identity.make_device_id
    smartenit_rescue.Models.Identity.strip_0x smartenit_rescue.Prelude.Text.after_prefix
    smartenit_rescue.Prelude.Text.has smartenit_rescue.Prelude.Text.is_hex
    smartenit_rescue.Prelude.Text.lower_char
simulator_settings-simulator_table = refl

simulator_settings_devices_example :
    ((lamp ∷ []) ≢ []) × All (IsAccepted env) (lamp ∷ []) × Distinct (ids env (lamp ∷ []))
simulator_settings_devices_example =
    simulator_settings_devices env simulator_table (lamp ∷ []) simulator_settings-simulator_table
