-- ===== src/Runtime/Publishing.antt =====
-- runtime.py: what the runtime publishes and subscribes to.
use smartenit_rescue.Prelude.{
  Bool, true, false, not, ◌&&◌, Option, none, some, List, [], ◌∷◌, ◌===◌, if◌then◌else◌,
}
use smartenit_rescue.Prelude.Result.{Text, Error, Result, ok, err}
use smartenit_rescue.Prelude.Exec.{Exec, pure, lift, gets, modify, for_each, ◌>>=◌, ◌>>◌}
use smartenit_rescue.Prelude.Text.{codes}
use smartenit_rescue.Prelude.Dict.{lookup, insert}
use smartenit_rescue.Models.Identity.{DeviceId, device_eq}
use smartenit_rescue.Models.State.{
  AvailabilityState, offline, same_state, availability_text, confidence_text, WireValue,
  Observation,
}
use smartenit_rescue.Backends.Base.{
  CapabilityAddress, address_eq, CapabilityMode, RuntimeDevice, Backend,
}
use smartenit_rescue.Mqtt.Events.{Publish}
use smartenit_rescue.Mqtt.Topics.{
  bridge_availability, device_availability, command_topic, state_topic, confidence_topic,
  discovery_topic, encode_on_off,
}
use smartenit_rescue.Mqtt.Discovery.{discovery_document}
use smartenit_rescue.Runtime.{
  Effect, publish, subscribe, World, Config, Runtime, writable_addresses,
}

abbrev pub outcome_of : Option Error → Result (Unit {0})
outcome_of none = ok tt
outcome_of (some e) = err e

module _ {S : Type 0} where
  -- Puts a call into the trace.
  abbrev pub record_effect : Effect → Runtime S → Runtime S
  record_effect e r = record r { trace = e ∷ r.trace }

  -- Runs a method of the backend on the backend's own state.
  abbrev pub on_backend {κ} : {A : Type κ} → Exec S A → Exec (Runtime S) A
  on_backend m r = let (a, s) = m r.backend in (a, record r { backend = s })

  -- `self._published_availability[device_id] = state`
  abbrev pub note_published : DeviceId → AvailabilityState → Runtime S → Runtime S
  note_published device_id state r = record r {
    published_availability = insert device_id state r.published_availability;
  }

  -- A call of the transport: it is made, and then returns or raises.
  unfoldable pub call_transport : World → Effect → Exec (Runtime S) (Unit {0})
  call_transport w e r = (outcome_of (w.outcome r.trace e), record_effect e r)

-- `Publish(topic, payload, qos=_QOS, retain=...)`
abbrev pub retained : Text → Text → Publish
retained topic payload = record { topic = topic; payload = payload; qos = 1; retain = true }

abbrev pub unretained : Text → Text → Publish
unretained topic payload = record { topic = topic; payload = payload; qos = 1; retain = false }

module _ (b : Backend) (w : World) (c : Config) where
  -- `_subscribe`
  unfoldable pub subscribe_all : Exec (Runtime b.State) (Unit {0})
  subscribe_all = do
    for_each (writable_addresses c)
        (λ address. call_transport w (subscribe (command_topic c.topics address) 1))
    call_transport w (subscribe c.home_assistant_status_topic 1)

  unfoldable pub publish_boolean :
      CapabilityAddress → Observation → WireValue → Exec (Runtime b.State) Bool
  publish_boolean address observation (WireValue.bool value) = do
    call_transport w (publish (retained (state_topic c.topics address) (encode_on_off value)))
    call_transport w (
        publish
          (retained (confidence_topic c.topics address) (confidence_text observation.confidence)))
    pure true
  publish_boolean address observation _ = pure false

  -- `_publish_observation`
  unfoldable pub publish_observation : CapabilityAddress → Observation → Exec (Runtime b.State) Bool
  unfolding publish_boolean
  publish_observation address observation = publish_boolean address observation observation.value

  -- `observation is None or not self._publish_observation(...)`, negated
  unfoldable pub publish_known :
      CapabilityAddress → Option Observation → Exec (Runtime b.State) Bool
  publish_known address none = pure false
  publish_known address (some observation) = publish_observation address observation

  -- One address in the loop of the snapshot: whether the snapshot stays complete.
  unfoldable pub snapshot_address :
      DeviceId → CapabilityAddress → CapabilityMode → Exec (Runtime b.State) Bool
  unfolding publish_known
  snapshot_address device_id address mode =
      if address.device_id === device_id
      then elim mode [
        | CapabilityMode.command_only ↦ pure true
        | CapabilityMode.observable ↦ do
          observation ← gets (λ r. b.observation address r.backend)
          publish_known address observation
      ]
      else pure true

  -- The loop over the addresses; each address is a key of `capability_modes`.
  unfoldable pub snapshot_addresses :
      DeviceId → List (CapabilityAddress × CapabilityMode) → Bool → Exec (Runtime b.State) Bool
  unfolding snapshot_address
  snapshot_addresses device_id [] complete = pure complete
  snapshot_addresses device_id ((address, mode) ∷ rest) complete = do
    published ← snapshot_address device_id address mode
    snapshot_addresses device_id rest (complete && published)

  -- Publishes an availability and notes it in `_published_availability`.
  unfoldable pub publish_availability :
      DeviceId → AvailabilityState → Exec (Runtime b.State) (Unit {0})
  publish_availability device_id state = do
    call_transport w
        (publish (retained (device_availability c.topics device_id) (availability_text state)))
    modify (note_published device_id state)

  -- One device in the second loop of the snapshot.
  unfoldable pub snapshot_device : RuntimeDevice → Exec (Runtime b.State) (Unit {0})
  unfolding snapshot_addresses
  snapshot_device item = do
    complete ← snapshot_addresses item.device.device_id c.capability_modes true
    availability ← on_backend (b.availability item.device.device_id)
    publish_availability item.device.device_id (if complete then availability.state else offline)

  -- One device in the first loop of the snapshot.
  unfoldable pub publish_discovery : RuntimeDevice → Exec (Runtime b.State) (Unit {0})
  publish_discovery item = do
    document ← lift (discovery_document w.codec w.version item c.topics)
    call_transport w
        (publish (unretained (discovery_topic c.topics item.device.device_id) document))

  -- `_publish_snapshot`, up to its last publication
  unfoldable pub prepare_snapshot : Exec (Runtime b.State) (Unit {0})
  unfolding snapshot_device publish_discovery
  prepare_snapshot = do
    call_transport w (publish (retained (bridge_availability c.topics) (codes "offline")))
    for_each c.devices publish_discovery
    for_each c.devices snapshot_device

  -- `_publish_snapshot`
  unfoldable pub publish_snapshot : Exec (Runtime b.State) (Unit {0})
  unfolding prepare_snapshot
  publish_snapshot = do
    prepare_snapshot
    call_transport w (publish (retained (bridge_availability c.topics) (codes "online")))

  -- `self._published_availability.get(device_id) is state`
  abbrev is_published : Option AvailabilityState → AvailabilityState → Bool
  is_published none state = false
  is_published (some published) state = same_state published state

  -- `force_device != device_id`
  abbrev is_forced : Option DeviceId → DeviceId → Bool
  is_forced none device_id = false
  is_forced (some forced) device_id = forced === device_id

  unfoldable pub changed_availability :
      Option DeviceId → RuntimeDevice → Exec (Runtime b.State) (Unit {0})
  changed_availability force item = do
    availability ← on_backend (b.availability item.device.device_id)
    published ← gets (λ r. lookup item.device.device_id r.published_availability)
    if is_published published availability.state && not (is_forced force item.device.device_id)
        then pure tt
        else publish_availability item.device.device_id availability.state

  -- `_publish_changed_availability`
  unfoldable pub publish_changed_availability : Option DeviceId → Exec (Runtime b.State) (Unit {0})
  unfolding changed_availability
  publish_changed_availability force = for_each c.devices (changed_availability force)
