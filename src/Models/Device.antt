-- ===== src/Models/Device.antt =====
-- models/device.py: device snapshots and availability records.
pub mod Canonical
use smartenit_rescue.Prelude.{
  ℕ, Bool, true, false, not, ◌&&◌, ◌≡◌, ◌↔◌, Option, none, some, List, [], ◌∷◌, ◌++◌, arith, Eq,
  ◌===◌, ltb, if◌then◌else◌,
}
use smartenit_rescue.Prelude.Result.{Text, Result, ok, err, validation, raise_if, ◌>>=◌, ◌>>◌}
use smartenit_rescue.Prelude.Sorting.{Ord, sorted_set}
use smartenit_rescue.Prelude.Text.{codes}
use smartenit_rescue.Prelude.Datetime.{Datetime}
use smartenit_rescue.Models.Identity.{DeviceId, EndpointId, parse_device_id, device_eq, endpoint_eq}
use smartenit_rescue.Models.State.{AvailabilityState, require_nonblank, require_aware}

instance abbrev pub endpoint_ord : Ord EndpointId
endpoint_ord = record { lt = λ a b. ltb a.value b.value }

-- `_require_canonical`
unfoldable pub require_canonical : DeviceId → Result (Unit {0})
require_canonical d = do
  parsed ← parse_device_id d.value
  raise_if (not (d === parsed)) (validation (codes "device ID must be canonical"))

pub record Device : Type 0 where
  pub device_id : DeviceId
  pub manufacturer : Text
  pub model : Text
  pub endpoints : List EndpointId

-- `xs == ys` on tuples of endpoints
same_endpoints : List EndpointId → List EndpointId → Bool
same_endpoints [] [] = true
same_endpoints [] (y ∷ ys) = false
same_endpoints (x ∷ xs) [] = false
same_endpoints (x ∷ xs) (y ∷ ys) = x === y && same_endpoints xs ys

unfoldable pub make_device : DeviceId → Text → Text → List EndpointId → Result Device
unfolding same_endpoints sorted_set require_nonblank
make_device device_id manufacturer model endpoints = do
  require_nonblank manufacturer (codes "manufacturer")
  require_nonblank model (codes "model")
  raise_if (not (same_endpoints endpoints (sorted_set endpoints)))
      (validation (codes "endpoints must be sorted and unique"))
  ok (record {
    device_id = device_id;
    manufacturer = manufacturer;
    model = model;
    endpoints = endpoints;
  })

pub record DeviceAvailability : Type 0 where
  pub device_id : DeviceId
  pub state : AvailabilityState
  pub observed_at : Datetime
  pub source : Text
  pub detail : Option Text

unfoldable pub make_availability :
    DeviceId → AvailabilityState → Datetime → Text → Option Text → Result DeviceAvailability
unfolding require_canonical require_aware require_nonblank
make_availability device_id state observed_at source detail = do
  require_canonical device_id
  require_aware observed_at (codes "observed_at")
  require_nonblank source (codes "source")
  ok (record {
    device_id = device_id;
    state = state;
    observed_at = observed_at;
    source = source;
    detail = detail;
  })
