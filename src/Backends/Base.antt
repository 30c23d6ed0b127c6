-- ===== src/Backends/Base.antt =====
-- backends/base.py: addresses, runtime devices, and the interface of a backend.
use smartenit_rescue.Prelude.{
  ℕ, Bool, true, false, not, ◌&&◌, ◌||◌, ◌≡◌, ◌↔◌, Option, none, some, List, [], ◌∷◌, arith, Eq,
  ◌===◌, ◌==◌, ltb, any,
}
use smartenit_rescue.Prelude.Result.{Text, Result, ok, validation, raise_if, ◌>>◌}
use smartenit_rescue.Prelude.Exec.{Exec}
use smartenit_rescue.Prelude.Sorting.{Ord, sorted_set}
use smartenit_rescue.Prelude.Text.{codes, is_blank, text_beq_iff}
use smartenit_rescue.Prelude.Dict.{lookup}
use smartenit_rescue.Models.Capability.{
  CapabilityId, capability_rank, capability_beq_iff, capability_eq,
}
use smartenit_rescue.Models.Identity.{DeviceId, EndpointId, device_eq, endpoint_eq}
use smartenit_rescue.Models.State.{Observation, Command, CommandResult}
use smartenit_rescue.Models.Device.{Device, DeviceAvailability, require_canonical}
use smartenit_rescue.Profiles.Model.{CapabilityProfile, EndpointProfile, DeviceProfile}

pub record CapabilityAddress : Type 0 where
  pub device_id : DeviceId
  pub endpoint : EndpointId
  pub capability : CapabilityId

-- `CapabilityAddress(...)`, with `__post_init__`
unfoldable pub make_address : DeviceId → EndpointId → CapabilityId → Result CapabilityAddress
make_address device_id endpoint capability = do
  require_canonical device_id
  ok (record { device_id = device_id; endpoint = endpoint; capability = capability })

unfoldable pub address_beq : CapabilityAddress → CapabilityAddress → Bool
address_beq a b =
    a.device_id === b.device_id && (a.endpoint === b.endpoint && a.capability === b.capability)

pub address_beq_iff : (a b : CapabilityAddress) → (address_beq a b ≡ true) ↔ (a ≡ b)
unfolding address_beq
address_beq_iff a b = ground (
  arith,
  text_beq_iff a.device_id.value b.device_id.value,
  capability_beq_iff a.capability b.capability,
)

instance abbrev pub address_eq : Eq CapabilityAddress
address_eq = record { beq = address_beq; beq_iff = address_beq_iff }

pub data CapabilityMode : Type 0 where
  observable command_only : CapabilityMode

abbrev pub is_observable : CapabilityMode → Bool
is_observable CapabilityMode.observable = true
is_observable CapabilityMode.command_only = false

pub record RuntimeCapability : Type 0 where
  pub endpoint : EndpointId
  pub capability : CapabilityId
  pub mode : CapabilityMode

-- the order of the members' strings: "command_only" comes first
unfoldable pub mode_rank : CapabilityMode → ℕ
mode_rank CapabilityMode.command_only = 0
mode_rank CapabilityMode.observable = 1

unfoldable pub runtime_capability_beq : RuntimeCapability → RuntimeCapability → Bool
runtime_capability_beq a b =
    a.endpoint === b.endpoint
    && (a.capability === b.capability && mode_rank a.mode == mode_rank b.mode)

pub runtime_capability_beq_iff :
    (a b : RuntimeCapability) → (runtime_capability_beq a b ≡ true) ↔ (a ≡ b)
unfolding runtime_capability_beq mode_rank
runtime_capability_beq_iff a b = ground (arith, capability_beq_iff a.capability b.capability)

instance abbrev pub runtime_capability_eq : Eq RuntimeCapability
runtime_capability_eq = record {
  beq = runtime_capability_beq;
  beq_iff = runtime_capability_beq_iff;
}

-- `order=True`: by endpoint, then capability, then mode
unfoldable pub runtime_capability_lt : RuntimeCapability → RuntimeCapability → Bool
unfolding mode_rank capability_rank
runtime_capability_lt a b =
    ltb a.endpoint.value b.endpoint.value
    || (a.endpoint === b.endpoint
        && (ltb (capability_rank a.capability) (capability_rank b.capability)
            || (a.capability === b.capability && ltb (mode_rank a.mode) (mode_rank b.mode))))

instance abbrev pub runtime_capability_ord : Ord RuntimeCapability
runtime_capability_ord = record { lt = runtime_capability_lt }

pub record RuntimeDevice : Type 0 where
  pub device : Device
  pub name : Text
  pub profile : DeviceProfile
  pub capabilities : List RuntimeCapability

same_capabilities : List RuntimeCapability → List RuntimeCapability → Bool
same_capabilities [] [] = true
same_capabilities [] (y ∷ ys) = false
same_capabilities (x ∷ xs) [] = false
same_capabilities (x ∷ xs) (y ∷ ys) = x === y && same_capabilities xs ys

declares : CapabilityId → Option EndpointProfile → Bool
declares capability none = false
declares capability (some endpoint) =
    any (λ (c : CapabilityProfile). c.capability === capability && c.writable) endpoint.capabilities

-- the loop over the capabilities in `RuntimeDevice.__post_init__`
check_declared : DeviceProfile → List RuntimeCapability → Result (Unit {0})
unfolding declares
check_declared profile [] = ok tt
check_declared profile (c ∷ cs) = do
  raise_if (not (declares c.capability (lookup c.endpoint profile.endpoints)))
      (validation (codes "runtime capability must be writable and declared by profile"))
  check_declared profile cs

-- `RuntimeDevice(...)`, with `__post_init__`
unfoldable pub make_runtime_device :
    Device → Text → DeviceProfile → List RuntimeCapability → Result RuntimeDevice
unfolding check_declared same_capabilities
make_runtime_device device name profile capabilities = do
  require_canonical device.device_id
  raise_if (is_blank name) (validation (codes "name must be a nonblank string"))
  raise_if (not (same_capabilities capabilities (sorted_set capabilities)))
      (validation (codes "runtime capabilities must be sorted and unique"))
  check_declared profile capabilities
  ok (record { device = device; name = name; profile = profile; capabilities = capabilities })

-- The protocols `Backend` and `RefreshableBackend`: an object with its own state, whose methods
-- may change it and may raise. `refresh` is `none` where the backend has no such method.
pub record Backend : Type 1 where
  pub State : Type 0
  pub devices : State → List RuntimeDevice
  pub observation : CapabilityAddress → State → Option Observation
  pub set_desired : Command → Exec State CommandResult
  pub availability : DeviceId → Exec State DeviceAvailability
  pub close : Exec State (Unit {0})
  pub refresh : Option (Exec State (Unit {0}))
