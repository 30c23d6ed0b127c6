-- ===== src/Models/State.antt =====
-- models/state.py: observations, commands and command outcomes. The records are made by the
-- functions `make_…`, which are the constructors with `__post_init__`.
use smartenit_rescue.Prelude.{ℕ, Bool, true, false, not, Option, none, some, ◌++◌}
use smartenit_rescue.Prelude.Number.{ℤ, pos, negsuc, Float}
use smartenit_rescue.Prelude.Result.{Text, Result, ok, err, validation, raise_if, ◌>>=◌, ◌>>◌}
use smartenit_rescue.Prelude.Text.{codes, is_blank}
use smartenit_rescue.Prelude.Datetime.{Datetime, is_aware}
use smartenit_rescue.Models.Capability.{CapabilityId}
use smartenit_rescue.Models.Identity.{DeviceId, EndpointId}

pub data Confidence : Type 0 where
  observed assumed stale unknown : Confidence

pub data AvailabilityState : Type 0 where
  online offline unknown : AvailabilityState

pub data CommandStatus : Type 0 where
  rejected accepted confirmed indeterminate : CommandStatus

-- The strings that the `StrEnum` members are.
unfoldable pub confidence_text : Confidence → Text
confidence_text Confidence.observed = codes "observed"
confidence_text Confidence.assumed = codes "assumed"
confidence_text Confidence.stale = codes "stale"
confidence_text Confidence.unknown = codes "unknown"

unfoldable pub availability_text : AvailabilityState → Text
availability_text AvailabilityState.online = codes "online"
availability_text AvailabilityState.offline = codes "offline"
availability_text AvailabilityState.unknown = codes "unknown"

unfoldable pub status_text : CommandStatus → Text
status_text CommandStatus.rejected = codes "rejected"
status_text CommandStatus.accepted = codes "accepted"
status_text CommandStatus.confirmed = codes "confirmed"
status_text CommandStatus.indeterminate = codes "indeterminate"

-- `state is AvailabilityState.ONLINE`, and `is` on any two members
abbrev pub is_online : AvailabilityState → Bool
is_online AvailabilityState.online = true
is_online _ = false

abbrev pub same_state : AvailabilityState → AvailabilityState → Bool
same_state AvailabilityState.online AvailabilityState.online = true
same_state AvailabilityState.offline AvailabilityState.offline = true
same_state AvailabilityState.unknown AvailabilityState.unknown = true
same_state _ _ = false

-- `bool | int | float | str` of backends/base.py: the type parameter of the generic records.
pub data WireValue : Type 0 where
  bool : Bool → WireValue
  int : ℤ → WireValue
  float : Float → WireValue
  str : Text → WireValue

unfoldable pub require_nonblank : Text → Text → Result (Unit {0})
require_nonblank value label =
    raise_if (is_blank value) (validation (label ++ codes " must be a nonblank string"))

unfoldable pub require_aware : Datetime → Text → Result (Unit {0})
require_aware value label =
    raise_if (not (is_aware value)) (validation (label ++ codes " must be timezone-aware"))

pub record Observation : Type 0 where
  pub value : WireValue
  pub source : Text
  pub confidence : Confidence
  pub observed_at : Datetime
  pub sequence : ℕ

-- A sequence number that passes the check is a natural number.
natural : ℤ → Result ℕ
natural (pos n) = ok n
natural (negsuc _) = err (validation (codes "sequence must be a nonnegative integer"))

unfoldable pub make_observation : WireValue → Text → Confidence → Datetime → ℤ → Result Observation
unfolding natural require_nonblank require_aware
make_observation value source confidence observed_at sequence = do
  require_nonblank source (codes "source")
  require_aware observed_at (codes "observed_at")
  n ← natural sequence
  ok (record {
    value = value;
    source = source;
    confidence = confidence;
    observed_at = observed_at;
    sequence = n;
  })

pub record Command : Type 0 where
  pub request_id : Text
  pub device_id : DeviceId
  pub endpoint : EndpointId
  pub capability : CapabilityId
  pub desired : WireValue

-- `none` is Python's `None`.
desired_value : Option WireValue → Result WireValue
desired_value none = err (validation (codes "desired value must not be None"))
desired_value (some v) = ok v

unfoldable pub make_command :
    Text → DeviceId → EndpointId → CapabilityId → Option WireValue → Result Command
unfolding desired_value require_nonblank
make_command request_id device_id endpoint capability desired = do
  require_nonblank request_id (codes "request ID")
  v ← desired_value desired
  ok (record {
    request_id = request_id;
    device_id = device_id;
    endpoint = endpoint;
    capability = capability;
    desired = v;
  })

pub record CommandResult : Type 0 where
  pub request_id : Text
  pub status : CommandStatus
  pub observation : Option Observation
  pub reason : Option Text

has_reason : Option Text → Bool
has_reason none = false
has_reason (some r) = not (is_blank r)

is_observed : Confidence → Bool
is_observed Confidence.observed = true
is_observed _ = false

-- The checks on a status with its observation and reason.
unfoldable pub check_result : CommandStatus → Option Observation → Option Text → Result (Unit {0})
unfolding has_reason is_observed
check_result CommandStatus.confirmed none _ =
    err (validation (codes "confirmed command result requires an observation"))
check_result CommandStatus.confirmed (some o) _ =
    raise_if (not (is_observed o.confidence))
      (validation (codes "confirmed command result requires observed confidence"))
check_result CommandStatus.rejected _ reason =
    raise_if (not (has_reason reason))
      (validation (codes "rejected or indeterminate command result requires a nonblank reason"))
check_result CommandStatus.indeterminate _ reason =
    raise_if (not (has_reason reason))
      (validation (codes "rejected or indeterminate command result requires a nonblank reason"))
check_result CommandStatus.accepted _ _ = ok tt

unfoldable pub make_result :
    Text → CommandStatus → Option Observation → Option Text → Result CommandResult
unfolding check_result require_nonblank
make_result request_id status observation reason = do
  require_nonblank request_id (codes "request ID")
  check_result status observation reason
  ok (record {
    request_id = request_id;
    status = status;
    observation = observation;
    reason = reason;
  })
