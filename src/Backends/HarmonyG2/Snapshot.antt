-- ===== src/Backends/HarmonyG2/Snapshot.antt =====
-- backends/harmony_g2/backend.py: the runtime devices and bindings that the configuration and an
-- inventory give together.
use smartenit_rescue.Prelude.{
  Bool, false, not, ◌&&◌, Option, none, some, List, [], ◌∷◌, ◌++◌, ◌===◌, any, select,
}
use smartenit_rescue.Prelude.Result.{Text, Result, ok, err, validation, raise_if, ◌>>=◌, ◌>>◌}
use smartenit_rescue.Prelude.Sorting.{sorted}
use smartenit_rescue.Prelude.Text.{codes, text_eq}
use smartenit_rescue.Prelude.Dict.{Dict, keys, has_key, lookup, insert}
use smartenit_rescue.Models.Capability.{on_off, capability_eq}
use smartenit_rescue.Models.Identity.{DeviceId, EndpointId, device_eq, endpoint_eq}
use smartenit_rescue.Models.Device.{make_device, endpoint_ord}
use smartenit_rescue.Profiles.Model.{CapabilityProfile, EndpointProfile, DeviceProfile}
use smartenit_rescue.Config.Settings.{HarmonyG2DeviceSettings}
use smartenit_rescue.Backends.Base.{command_only, RuntimeDevice, make_runtime_device}
use smartenit_rescue.Backends.HarmonyG2.Client.{G2Endpoint}

-- `_PRIMARY_ENDPOINT`
abbrev pub primary_endpoint : EndpointId
primary_endpoint = record { value = 1 }

-- `len(matches) != 1`
unfoldable pub exactly_one {ℓ} : {A : Type ℓ} → List A → Text → Result A
exactly_one (x ∷ []) message = ok x
exactly_one _ message = err (validation message)

has_on_off : Option EndpointProfile → Bool
has_on_off none = false
has_on_off (some e) =
    any (λ (c : CapabilityProfile). c.capability === on_off && c.writable) e.capabilities

-- The model, or the error of a profile with none.
first_model : List Text → Result Text
first_model [] = err (validation (codes "Harmony G2 profile must declare a model"))
first_model (m ∷ _) = ok m

-- `_profile`, with the first model of the profile
unfoldable pub find_profile : Text → List DeviceProfile → Result (DeviceProfile × Text)
unfolding has_on_off first_model exactly_one
find_profile profile_id profiles = do
  profile ←
      exactly_one (select (λ (p : DeviceProfile). p.profile_id === profile_id) profiles)
        (codes "Harmony G2 configuration requires one exact profile")
  raise_if (not (has_on_off (lookup primary_endpoint profile.endpoints)))
      (validation (codes "Harmony G2 profile must declare writable OnOff at endpoint 1"))
  model ← first_model profile.models
  ok (profile, model)

-- The endpoints of the inventory that a configured device names.
unfoldable pub matching : HarmonyG2DeviceSettings → List G2Endpoint → List G2Endpoint
matching configured endpoints =
    select
      (λ (e : G2Endpoint).
        e.device_id === configured.device_id && e.component_id === configured.component_id)
      endpoints

-- the runtime device of a configured device
runtime_device : HarmonyG2DeviceSettings → List DeviceProfile → Result RuntimeDevice
runtime_device configured profiles = do
  found ← find_profile configured.profile_id profiles
  device ←
      make_device configured.device_id found.0.manufacturer found.1
        (sorted (keys found.0.endpoints))
  make_runtime_device device configured.name found.0
      (record { endpoint = primary_endpoint; capability = on_off; mode = command_only } ∷ [])

-- The loop of `_snapshot`. A pair that was seen has its identity among the bindings, so the set of
-- pairs is not kept beside them.
bind_devices :
    List HarmonyG2DeviceSettings
    → List DeviceProfile
    → List G2Endpoint
    → List RuntimeDevice × Dict DeviceId G2Endpoint
    → Result (List RuntimeDevice × Dict DeviceId G2Endpoint)
unfolding runtime_device
bind_devices [] profiles endpoints (devices, bindings) = ok (devices, bindings)
bind_devices (configured ∷ rest) profiles endpoints (devices, bindings) = do
  raise_if (has_key configured.device_id bindings)
      (validation (codes "Harmony G2 configured binding is duplicated"))
  endpoint ←
      exactly_one (matching configured endpoints)
        (codes "Harmony G2 configured binding must match inventory exactly once")
  device ← runtime_device configured profiles
  bind_devices rest profiles endpoints
      (devices ++ device ∷ [], insert configured.device_id endpoint bindings)

-- `_snapshot`
unfoldable pub snapshot :
    List HarmonyG2DeviceSettings
    → List DeviceProfile
    → List G2Endpoint
    → Result (List RuntimeDevice × Dict DeviceId G2Endpoint)
unfolding bind_devices
snapshot [] profiles endpoints =
    err (validation (codes "Harmony G2 requires at least one configured device"))
snapshot (configured ∷ rest) profiles endpoints =
    bind_devices (configured ∷ rest) profiles endpoints ([], [])
