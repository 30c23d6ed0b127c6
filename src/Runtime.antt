-- ===== src/Runtime.antt =====
-- runtime.py: the broker-independent event loop of the MQTT bridge. Every call of the transport, of
-- the clock, of the factory of request ids, and every command given to the backend is recorded in
-- a trace, newest first. What the outside answers is a function of the trace, so it may depend on
-- all that happened before. Log lines are left out.
pub mod Publishing
pub mod Preserved
pub mod Loop
pub mod Commands
pub mod Connection
pub mod Shutdown
pub mod Snapshot
use smartenit_rescue.Prelude.{
  ℕ, Bool, true, false, not, ◌&&◌, ◌||◌, Option, none, some, List, [], ◌∷◌, ◌++◌, map, contains,
  ◌===◌, ◌==◌, if◌then◌else◌,
}
use smartenit_rescue.Prelude.Result as R
use smartenit_rescue.Prelude.Result.{
  Text, Error, Result, ok, err, validation, transport, key_error, assertion_error, raise_if,
  or_raise,
}
use smartenit_rescue.Prelude.Exec.{
  Exec, pure, raise, lift, gets, modify, when, finally, for_each, ◌>>=◌, ◌>>◌,
}
use smartenit_rescue.Prelude.Text.{codes, text_eq}
use smartenit_rescue.Prelude.Datetime.{Datetime}
use smartenit_rescue.Prelude.Dict.{Dict, keys, lookup, insert}
use smartenit_rescue.Models.Capability.{on_off, capability_eq}
use smartenit_rescue.Models.Identity.{DeviceId, device_eq}
use smartenit_rescue.Models.State.{
  AvailabilityState, offline, is_online, same_state, availability_text, confidence_text,
  CommandStatus, confirmed, WireValue, bool, Observation, Command, make_command, CommandResult,
}
use smartenit_rescue.Models.Device.{DeviceAvailability}
use smartenit_rescue.Backends.Base.{
  CapabilityAddress, make_address, address_eq, CapabilityMode, is_observable, RuntimeCapability,
  RuntimeDevice, Backend,
}
use smartenit_rescue.Mqtt.Events.{
  Message, TransportEvent, connected, disconnected, message, Publish,
}
use smartenit_rescue.Mqtt.Topics.{
  TopicLayout, bridge_availability, device_availability, command_topic, state_topic,
  confidence_topic, last_command_topic, discovery_topic, parse_command_topic, decode_on_off,
  encode_on_off, Codec, encode_last_command,
}
use smartenit_rescue.Mqtt.Discovery.{discovery_document}

-- A call that leaves the runtime.
pub data Effect : Type 0 where
  connect disconnect read_clock new_request_id refresh close_backend : Effect
  subscribe : Text → ℕ → Effect
  publish publish_and_wait : Publish → Effect
  set_desired : Command → Effect

-- The world: the outcome of a call of the transport (an error that it raises, if any), the clock,
-- the factory of request ids, whether the transport can wait for delivery, and the codecs.
pub record World : Type 0 where
  pub outcome : List Effect → Effect → Option Error
  pub now : List Effect → Datetime
  pub request_id : List Effect → Text
  pub has_delivery : Bool
  pub codec : Codec
  pub version : Text

-- What `__init__` sets once and no method changes.
pub record Config : Type 0 where
  pub topics : TopicLayout
  pub home_assistant_status_topic : Text
  pub devices : List RuntimeDevice
  pub capability_modes : Dict CapabilityAddress CapabilityMode

pub record Runtime (S : Type 0) : Type 0 where
  pub is_connected : Bool
  pub is_closed : Bool
  pub published_availability : Dict DeviceId AvailabilityState
  pub backend : S
  pub trace : List Effect

abbrev pub writable_addresses : Config → List CapabilityAddress
writable_addresses c = keys c.capability_modes

-- `_find_capability_modes`, the inner and the outer loop
modes_of_device :
    RuntimeDevice
    → List RuntimeCapability
    → Dict CapabilityAddress CapabilityMode
    → Result (Dict CapabilityAddress CapabilityMode)
modes_of_device item [] modes = ok modes
modes_of_device item (c ∷ cs) modes =
    if not (c.capability === on_off)
    then modes_of_device item cs modes
    else R.◌>>=◌ (make_address item.device.device_id c.endpoint c.capability)
        (λ address. modes_of_device item cs (insert address c.mode modes))

find_modes :
    List RuntimeDevice
    → Dict CapabilityAddress CapabilityMode
    → Result (Dict CapabilityAddress CapabilityMode)
unfolding modes_of_device
find_modes [] modes = ok modes
find_modes (item ∷ rest) modes =
    R.◌>>=◌ (modes_of_device item item.capabilities modes) (λ modes'. find_modes rest modes')

unfoldable pub find_capability_modes :
    List RuntimeDevice → Result (Dict CapabilityAddress CapabilityMode)
unfolding find_modes
find_capability_modes devices = find_modes devices []

-- the topics that `_validate_status_topic` collects
device_topics : TopicLayout → List RuntimeDevice → List Text
device_topics t [] = []
device_topics t (item ∷ rest) =
    discovery_topic t item.device.device_id
    ∷ device_availability t item.device.device_id
    ∷ device_topics t rest

address_topics : TopicLayout → Dict CapabilityAddress CapabilityMode → List Text
address_topics t [] = []
address_topics t ((a, CapabilityMode.observable) ∷ rest) =
    command_topic t a ∷ state_topic t a ∷ confidence_topic t a ∷ address_topics t rest
address_topics t ((a, CapabilityMode.command_only) ∷ rest) =
    command_topic t a ∷ last_command_topic t a ∷ address_topics t rest

unfoldable pub generated_topics : Config → List Text
unfolding device_topics address_topics
generated_topics c =
    bridge_availability c.topics
    ∷ (device_topics c.topics c.devices ++ address_topics c.topics c.capability_modes)

unfoldable pub validate_status_topic : Config → Result (Unit {0})
validate_status_topic c =
    raise_if (contains c.home_assistant_status_topic (generated_topics c))
      (validation (codes "home assistant status topic conflicts with a generated bridge topic"))

module _ (b : Backend) (w : World) where
  -- `BridgeRuntime(...)`
  unfoldable pub make_runtime : b.State → TopicLayout → Text → Result (Config × Runtime b.State)
  make_runtime s topics status_topic =
      let devices = b.devices s in
      R.◌>>=◌ (find_capability_modes devices) λ modes.
        let config : Config = record {
          topics = topics;
          home_assistant_status_topic = status_topic;
          devices = devices;
          capability_modes = modes;
        } in
        R.◌>>=◌ (validate_status_topic config) λ _. ok (
          config,
          record {
            is_connected = false;
            is_closed = false;
            published_availability = [];
            backend = s;
            trace = [];
          },
        )
