-- ===== src/Mqtt/Discovery.antt =====
-- mqtt/discovery.py: Home Assistant device-discovery documents. `json.dumps` is a parameter, and
-- so is the package's version, which the build sets.
use smartenit_rescue.Prelude.{false, List, [], ◌∷◌, ◌++◌, ◌===◌, if◌then◌else◌}
use smartenit_rescue.Prelude.Number.{pos}
use smartenit_rescue.Prelude.Value.{Value, bool, int, str, list, dict, list_of, dict_of}
use smartenit_rescue.Prelude.Result.{Text, Result, ok, ◌>>=◌}
use smartenit_rescue.Prelude.Text.{codes, text_eq}
use smartenit_rescue.Prelude.Dict.{Dict, insert}
use smartenit_rescue.Models.Capability.{on_off, capability_text, capability_eq}
use smartenit_rescue.Models.Identity.{endpoint_text}
use smartenit_rescue.Backends.Base.{
  CapabilityAddress, make_address, CapabilityMode, RuntimeCapability, RuntimeDevice,
}
use smartenit_rescue.Mqtt.Topics.{
  TopicLayout, Codec, bridge_availability, device_availability, command_topic, state_topic,
  confidence_topic, last_command_topic,
}

abbrev text : Text → Value
text s = str s

unfoldable pub device_identifier : RuntimeDevice → Text
device_identifier device = codes "smartenit_rescue_" ++ device.device.device_id.value

availability : RuntimeDevice → TopicLayout → Value
availability device topics = list (
    list_of (
      dict (dict_of ((codes "topic", text (bridge_availability topics)) ∷ []))
      ∷ dict (
          dict_of ((codes "topic", text (device_availability topics device.device.device_id)) ∷ []))
      ∷ []))

-- the switch of an observable capability
switch_component : Value → TopicLayout → CapabilityAddress → Text → Value
switch_component available topics address component_id = dict (
    dict_of (
      (codes "availability", available)
      ∷ (codes "availability_mode", text (codes "all"))
      ∷ (codes "command_topic", text (command_topic topics address))
      ∷ (codes "name", text (codes "On/off"))
      ∷ (codes "optimistic", bool false)
      ∷ (codes "payload_off", text (codes "OFF"))
      ∷ (codes "payload_on", text (codes "ON"))
      ∷ (codes "platform", text (codes "switch"))
      ∷ (codes "qos", int (pos 1))
      ∷ (codes "state_off", text (codes "OFF"))
      ∷ (codes "state_on", text (codes "ON"))
      ∷ (codes "state_topic", text (state_topic topics address))
      ∷ (codes "unique_id", text component_id)
      ∷ []))

confidence_component : Value → TopicLayout → CapabilityAddress → Text → Value
confidence_component available topics address confidence_id = dict (
    dict_of (
      (codes "availability", available)
      ∷ (codes "availability_mode", text (codes "all"))
      ∷ (codes "entity_category", text (codes "diagnostic"))
      ∷ (codes "name", text (codes "On/off confidence"))
      ∷ (codes "platform", text (codes "sensor"))
      ∷ (codes "state_topic", text (confidence_topic topics address))
      ∷ (codes "unique_id", text confidence_id)
      ∷ []))

-- a button of a command-only capability: the action, and the payload of a press
button_component : Value → TopicLayout → CapabilityAddress → Text → Text → Text → Value
button_component available topics address action payload action_id = dict (
    dict_of (
      (codes "availability", available)
      ∷ (codes "availability_mode", text (codes "all"))
      ∷ (codes "command_topic", text (command_topic topics address))
      ∷ (codes "name", text (codes "Turn " ++ action))
      ∷ (codes "payload_press", text payload)
      ∷ (codes "platform", text (codes "button"))
      ∷ (codes "qos", int (pos 1))
      ∷ (codes "unique_id", text action_id)
      ∷ []))

diagnostic_component : Value → TopicLayout → CapabilityAddress → Text → Value
diagnostic_component available topics address diagnostic_id = dict (
    dict_of (
      (codes "availability", available)
      ∷ (codes "availability_mode", text (codes "all"))
      ∷ (codes "entity_category", text (codes "diagnostic"))
      ∷ (codes "json_attributes_topic", text (last_command_topic topics address))
      ∷ (codes "name", text (codes "Last command"))
      ∷ (codes "platform", text (codes "sensor"))
      ∷ (codes "state_topic", text (last_command_topic topics address))
      ∷ (codes "unique_id", text diagnostic_id)
      ∷ (codes "value_template", text (codes "{{ value_json.status }}"))
      ∷ []))

-- What one On/off capability adds to `components`, by its mode.
unfoldable pub add_components :
    Value
    → TopicLayout
    → CapabilityAddress
    → Text
    → CapabilityMode
    → Dict Text Value
    → Dict Text Value
unfolding switch_component confidence_component button_component diagnostic_component
add_components available topics address component_id CapabilityMode.observable components =
    let confidence_id = component_id ++ codes "_confidence" in
    insert confidence_id (confidence_component available topics address confidence_id)
      (insert component_id (switch_component available topics address component_id) components)
add_components available topics address component_id CapabilityMode.command_only components =
    let on_id = component_id ++ codes "_on" in
    let off_id = component_id ++ codes "_off" in
    let diagnostic_id = component_id ++ codes "_last_command" in
    insert diagnostic_id (diagnostic_component available topics address diagnostic_id) (
      insert off_id (button_component available topics address (codes "off") (codes "OFF") off_id) (
        insert on_id (button_component available topics address (codes "on") (codes "ON") on_id)
          components))

unfoldable pub component_id : RuntimeDevice → RuntimeCapability → Text
unfolding device_identifier
component_id device capability =
    device_identifier device
    ++ b'_' ∷ (endpoint_text capability.endpoint ++ b'_' ∷ capability_text capability.capability)

-- the loop over the capabilities of the device
unfoldable pub components_of :
    RuntimeDevice
    → TopicLayout
    → List RuntimeCapability
    → Dict Text Value
    → Result (Dict Text Value)
unfolding availability
components_of device topics [] components = ok components
components_of device topics (c ∷ cs) components =
    if c.capability === on_off
    then (do
      address ← make_address device.device.device_id c.endpoint c.capability
      components_of device topics cs (
          add_components (availability device topics) topics address (component_id device c) c.mode
            components))
    else components_of device topics cs components

unfoldable pub discovery_value : Text → RuntimeDevice → Dict Text Value → Value
discovery_value version device components = dict (
    dict_of (
      (codes "components", dict (dict_of components))
      ∷ (
        codes "device",
        dict (
            dict_of (
              (codes "identifiers", list (list_of (text (device_identifier device) ∷ [])))
              ∷ (codes "manufacturer", text device.device.manufacturer)
              ∷ (codes "model", text device.device.model)
              ∷ (codes "name", text device.name)
              ∷ [])),
      )
      ∷ (
        codes "origin",
        dict (
            dict_of (
              (codes "name", text (codes "smartenit-rescue"))
              ∷ (codes "sw_version", text version)
              ∷ [])),
      )
      ∷ []))

unfoldable pub discovery_document : Codec → Text → RuntimeDevice → TopicLayout → Result Text
discovery_document codec version device topics = do
  components ← components_of device topics device.capabilities []
  ok (codec.dumps (discovery_value version device components))
