-- ===== src/Backends/Simulator.antt =====
-- backends/simulator.py: the deterministic in-memory backend. The clock is a function of the
-- number of times that it was read.
pub mod Commands
pub mod Invariant
pub mod Validity
pub mod Construction
use smartenit_rescue.Prelude.{
  ℕ, suc, ◌+◌, Bool, true, false, not, ◌&&◌, ◌||◌, Option, none, some, List, [], ◌∷◌, ◌++◌, map,
  contains, find, select, ◌===◌, if◌then◌else◌,
}
use smartenit_rescue.Prelude.Number.{pos}
use smartenit_rescue.Prelude.Result as R
use smartenit_rescue.Prelude.Result.{
  Text, Error, Result, ok, err, validation, key_error, index_error, stop_iteration, or_raise,
}
use smartenit_rescue.Prelude.Exec.{Exec, pure, raise, lift, gets, modify, for_each, ◌>>=◌, ◌>>◌}
use smartenit_rescue.Prelude.Sorting.{sorted}
use smartenit_rescue.Prelude.Text.{codes, text_eq}
use smartenit_rescue.Prelude.Datetime.{Datetime}
use smartenit_rescue.Prelude.Dict.{Dict, keys, has_key, lookup, insert}
use smartenit_rescue.Models.Capability.{CapabilityId, on_off, capability_eq}
use smartenit_rescue.Models.Identity.{DeviceId, EndpointId, device_eq, endpoint_eq}
use smartenit_rescue.Models.State.{
  AvailabilityState, online, unknown, Confidence, observed, CommandStatus, confirmed, rejected,
  WireValue, bool, Observation, make_observation, Command, CommandResult, make_result,
}
use smartenit_rescue.Models.Device.{make_device, DeviceAvailability, make_availability}
use smartenit_rescue.Profiles.Model.{CapabilityProfile, EndpointProfile, DeviceProfile}
use smartenit_rescue.Config.Settings.{SimulatorDeviceSettings}
use smartenit_rescue.Backends.Base.{
  CapabilityAddress, make_address, address_eq, observable, RuntimeCapability, runtime_capability_eq,
  runtime_capability_ord, RuntimeDevice, make_runtime_device, Backend,
}

pub record Simulator : Type 0 where
  pub is_closed : Bool
  pub observations : Dict CapabilityAddress Observation
  pub sequences : Dict CapabilityAddress ℕ
  pub capabilities : Dict CapabilityAddress CapabilityProfile
  pub availability : Dict DeviceId DeviceAvailability
  pub devices : List RuntimeDevice
  pub ticks : ℕ

abbrev pub source_name : Text
source_name = codes "simulator"

unfoldable pub first_model : List Text → Result Text
first_model [] = err index_error
first_model (m ∷ _) = ok m

-- the On/off capabilities that can be written, as the generator yields them
writable_of : EndpointId → List CapabilityProfile → List RuntimeCapability
writable_of e cs =
    map
      (λ (p : CapabilityProfile). record {
        endpoint = e;
        capability = p.capability;
        mode = observable;
      })
      (select (λ (p : CapabilityProfile). p.capability === on_off && p.writable) cs)

unfoldable pub writable_capabilities : Dict EndpointId EndpointProfile → List RuntimeCapability
unfolding writable_of
writable_capabilities [] = []
writable_capabilities ((e, p) ∷ rest) = writable_of e p.capabilities ++ writable_capabilities rest

-- `observation`
unfoldable pub observation : CapabilityAddress → Simulator → Option Observation
observation address s = lookup address s.observations

-- `_rejected`
unfoldable pub reject : Command → Text → Exec Simulator CommandResult
reject command reason = lift (make_result command.request_id rejected none (some reason))

-- `close`
unfoldable pub close : Exec Simulator (Unit {0})
close = modify (λ s. record s { is_closed = true })

module _ (clock : ℕ → Datetime) where
  unfoldable pub read_clock : Exec Simulator Datetime
  read_clock s = (ok (clock s.ticks), record s { ticks = s.ticks + 1 })

  -- the inner loop of `__init__`, for one capability of one endpoint
  unfoldable pub add_capability :
      DeviceId → Bool → Datetime → EndpointId → CapabilityProfile → Exec Simulator (Unit {0})
  add_capability device_id initial_on observed_at endpoint capability = do
    address ← lift (make_address device_id endpoint capability.capability)
    modify (λ s. record s { capabilities = insert address capability s.capabilities })
    if capability.capability === on_off
        then (do
          modify (λ s. record s { sequences = insert address 0 s.sequences })
          observation ←
              lift (make_observation (bool initial_on) source_name observed observed_at (pos 0))
          modify (λ s. record s { observations = insert address observation s.observations }))
        else pure tt

  unfoldable pub add_endpoint :
      DeviceId → Bool → Datetime → EndpointId × EndpointProfile → Exec Simulator (Unit {0})
  add_endpoint device_id initial_on observed_at (endpoint, profile) =
      for_each profile.capabilities (add_capability device_id initial_on observed_at endpoint)

  -- the outer loop of `__init__`, for one configured device
  unfoldable pub add_device :
      List DeviceProfile → SimulatorDeviceSettings → Exec Simulator (Unit {0})
  unfolding add_endpoint first_model writable_capabilities
  add_device profiles item = do
    profile ← lift (
        or_raise (find (λ (p : DeviceProfile). p.profile_id === item.profile_id) profiles)
          (validation (codes "unknown simulator profile")))
    model ← lift (first_model profile.models)
    device ← lift (make_device item.device_id profile.manufacturer model (keys profile.endpoints))
    runtime_device ← lift (
        make_runtime_device device item.name profile
          (sorted (writable_capabilities profile.endpoints)))
    modify (λ s. record s { devices = s.devices ++ runtime_device ∷ [] })
    observed_at ← read_clock
    available ← lift (make_availability item.device_id online observed_at source_name none)
    modify (λ s. record s { availability = insert item.device_id available s.availability })
    for_each profile.endpoints (add_endpoint item.device_id item.initial_on observed_at)

  -- `SimulatorBackend(settings, profiles, clock)`, from the empty object
  unfoldable pub initialise :
      List SimulatorDeviceSettings → List DeviceProfile → Exec Simulator (Unit {0})
  initialise settings profiles = for_each settings (add_device profiles)

  -- The part of `set_desired` that changes the state, for a value that is a boolean.
  unfoldable pub write_value : Command → CapabilityAddress → Bool → Exec Simulator CommandResult
  write_value command address desired = do
    last ← gets (λ s. s.sequences)
    sequence ← lift (or_raise (lookup address last) key_error)
    at ← read_clock
    o ← lift (make_observation (bool desired) source_name observed at (pos (sequence + 1)))
    modify (λ s. record s { sequences = insert address (sequence + 1) s.sequences })
    modify (λ s. record s { observations = insert address o s.observations })
    lift (make_result command.request_id confirmed (some o) none)

  -- The checks on the capability that the address names.
  unfoldable pub write_capability :
      Command → CapabilityAddress → Option CapabilityProfile → Exec Simulator CommandResult
  write_capability command address none = reject command (codes "unsupported capability")
  write_capability command address (some capability) =
      if not capability.writable
      then reject command (codes "capability is read-only")
      else if not (capability.capability === on_off)
      then reject command (codes "unsupported writable capability")
      else elim command.desired [
        | WireValue.bool desired ↦ write_value command address desired
        | _ ↦ reject command (codes "desired value must be boolean")
      ]

  -- `set_desired`. The identities of a command are typed here, so the branch for invalid ones is
  -- not there.
  unfoldable pub set_desired : Command → Exec Simulator CommandResult
  set_desired command s =
      if s.is_closed
      then reject command (codes "backend is closed") s
      else if not (has_key command.device_id s.availability)
      then reject command (codes "unknown device") s
      else (do
        runtime_device ← lift (
            or_raise
              (find (λ (d : RuntimeDevice). d.device.device_id === command.device_id) s.devices)
              stop_iteration)
        if not (contains command.endpoint runtime_device.device.endpoints)
            then reject command (codes "unknown endpoint")
            else (do
              address ← lift (make_address command.device_id command.endpoint command.capability)
              (λ t. write_capability command address (lookup address t.capabilities) t)))
          s

  known_or_unknown : DeviceId → Option DeviceAvailability → Exec Simulator DeviceAvailability
  known_or_unknown device_id (some known) = pure known
  known_or_unknown device_id none = do
    at ← read_clock
    lift (make_availability device_id unknown at source_name none)

  -- `availability`
  unfoldable pub availability_of : DeviceId → Exec Simulator DeviceAvailability
  unfolding known_or_unknown
  availability_of device_id s = known_or_unknown device_id (lookup device_id s.availability) s

  -- The simulator behind the interface of a backend.
  abbrev pub simulator : Backend
  simulator = record {
    State = Simulator;
    devices = λ s. s.devices;
    observation = observation;
    set_desired = set_desired;
    availability = availability_of;
    close = close;
    refresh = none;
  }

abbrev pub empty : Simulator
empty = record {
  is_closed = false;
  observations = [];
  sequences = [];
  capabilities = [];
  availability = [];
  devices = [];
  ticks = 0;
}
