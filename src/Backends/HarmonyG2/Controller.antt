-- ===== src/Backends/HarmonyG2/Controller.antt =====
-- backends/harmony_g2/backend.py: the command-only backend. Times are instants; that a sum with a
-- margin passes `datetime.max` is not modelled.
pub mod Quiet
pub mod Commands
pub mod Submission
pub mod Truthful
pub mod Opening
pub mod OpeningQuiet
use smartenit_rescue.Prelude.{
  ℕ, ◌+◌, Bool, true, false, not, ◌||◌, Option, none, some, List, ◌∷◌, any, ◌===◌, ◌==◌, leb, ltb,
  if◌then◌else◌,
}
use smartenit_rescue.Prelude.Result.{
  Text, Error, is_rescue_error, Result, ok, err, validation, g2_transport, g2_response,
}
use smartenit_rescue.Prelude.Exec.{
  Exec, pure, raise, lift, gets, modify, when, for_each, ◌>>=◌, ◌>>◌,
}
use smartenit_rescue.Prelude.Text.{codes}
use smartenit_rescue.Prelude.Datetime.{Datetime, is_aware}
use smartenit_rescue.Prelude.Dict.{Dict, keys, has_key, lookup, insert}
use smartenit_rescue.Models.Capability.{on_off, capability_eq}
use smartenit_rescue.Models.Identity.{DeviceId, device_eq, endpoint_eq}
use smartenit_rescue.Models.State.{
  AvailabilityState, online, offline, unknown, is_online, rejected, accepted, indeterminate,
  WireValue, Command, CommandResult, make_result,
}
use smartenit_rescue.Models.Device.{DeviceAvailability, make_availability}
use smartenit_rescue.Profiles.Model.{DeviceProfile}
use smartenit_rescue.Config.Settings.{HarmonyG2DeviceSettings}
use smartenit_rescue.Backends.Base.{RuntimeDevice, Backend}
use smartenit_rescue.Backends.HarmonyG2.Session.{LocalSession}
use smartenit_rescue.Backends.HarmonyG2.Client.{
  Effect, read_clock, save_session, Gateway, G2Endpoint, renew, set_on_off,
}
use smartenit_rescue.Backends.HarmonyG2.Client.Inventory.{read_endpoints}
use smartenit_rescue.Backends.HarmonyG2.Snapshot.{primary_endpoint, snapshot}

-- `_SESSION_REFRESH_MARGIN` and `_INVENTORY_FRESHNESS`, in microseconds
abbrev pub refresh_margin : ℕ
refresh_margin = 300000000

abbrev pub inventory_freshness : ℕ
inventory_freshness = 60000000

-- What `__init__` sets once.
pub record Setup : Type 0 where
  pub settings : List HarmonyG2DeviceSettings
  pub profiles : List DeviceProfile

pub record HarmonyG2 : Type 0 where
  pub session : LocalSession
  pub devices : List RuntimeDevice
  pub bindings : Dict DeviceId G2Endpoint
  pub inventory_at : ℕ
  pub next_refresh_at : ℕ
  pub force_renew : Bool
  pub is_closed : Bool
  pub availability : Dict DeviceId DeviceAvailability
  pub trace : List Effect

abbrev pub source_name : Text
source_name = codes "harmony_g2"

-- Runs an action on the trace alone.
abbrev pub on_trace {κ} : {A : Type κ} → Exec (List Effect) A → Exec HarmonyG2 A
on_trace m s = let (r, t) = m s.trace in (r, record s { trace = t })

-- `isinstance(error, G2ResponseError) and error.status in {401, 403}`
unfoldable pub is_refusal : Error → Bool
is_refusal (g2_response _ (some status) _) = status == 401 || status == 403
is_refusal _ = false

-- `try: m except RescueError as error: handler(error)`
abbrev pub handled {ℓ κ} : {S : Type ℓ} {A : Type κ} → (Error → Exec S A) → Result A → Exec S A
handled handler (ok a) s = (ok a, s)
handled handler (err e) s = if is_rescue_error e then handler e s else (err e, s)

abbrev pub catch {ℓ κ} : {S : Type ℓ} {A : Type κ} → Exec S A → (Error → Exec S A) → Exec S A
catch m handler s = let (r, s') = m s in handled handler r s'

abbrev is_not_online : DeviceId × DeviceAvailability → Bool
is_not_online (_, a) = not (is_online a.state)

-- the two conditions of `_maintain`
abbrev pub must_renew : Datetime → HarmonyG2 → Bool
must_renew now s = s.force_renew || leb s.session.expires_at.instant (now.instant + refresh_margin)

abbrev pub must_read : Datetime → HarmonyG2 → Bool
must_read now s =
    leb (s.inventory_at + inventory_freshness) now.instant || any is_not_online s.availability

module _ (g : Gateway) (setup : Setup) where
  -- `_aware_now`, on the trace
  unfoldable pub aware_now : Exec (List Effect) Datetime
  aware_now trace =
      let t = g.now trace in
      (
        if is_aware t
            then ok t
            else err (validation (codes "Harmony G2 clock must be timezone-aware")),
        read_clock ∷ trace,
      )

  -- `_mark_device`
  unfoldable pub mark_device : DeviceId → AvailabilityState → Exec HarmonyG2 (Unit {0})
  mark_device device_id state = do
    at ← on_trace aware_now
    available ← lift (make_availability device_id state at source_name none)
    modify (λ s. record s { availability = insert device_id available s.availability })

  -- `_mark_all`
  unfoldable pub mark_all : AvailabilityState → Exec HarmonyG2 (Unit {0})
  mark_all state = do
    ids ← gets (λ s. keys s.availability)
    for_each ids (λ device_id. mark_device device_id state)

  -- the renewal of the session with its storage
  renew_session : Datetime → Exec HarmonyG2 (Unit {0})
  renew_session now = do
    session ← gets (λ s. s.session)
    renewed ← on_trace (renew g session now)
    on_trace (λ trace. (g.save trace renewed, save_session renewed ∷ trace))
    modify (λ s. record s { session = renewed; force_renew = false })

  -- the reading of the inventory, and the new bindings
  read_inventory : Datetime → Exec HarmonyG2 (Unit {0})
  read_inventory now = do
    session ← gets (λ s. s.session)
    endpoints ← on_trace (read_endpoints g session.access_token)
    found ← lift (snapshot setup.settings setup.profiles endpoints)
    modify (λ s. record s { devices = found.0; bindings = found.1; inventory_at = now.instant })
    mark_all online

  -- `_maintain`
  unfoldable pub maintain : Exec HarmonyG2 (Unit {0})
  unfolding renew_session read_inventory
  maintain = do
    now ← on_trace aware_now
    renewal ← gets (must_renew now)
    when renewal (renew_session now)
    reading ← gets (must_read now)
    when reading (read_inventory now)

  -- the handler of a failed maintenance
  unfoldable pub maintenance_failed : Error → Exec HarmonyG2 (Unit {0})
  maintenance_failed error = do
    when (is_refusal error) (modify (λ s. record s { force_renew = true }))
    mark_all offline

  -- `refresh`
  unfoldable pub refresh : Exec HarmonyG2 (Unit {0})
  refresh s =
      if s.is_closed
      then (ok tt, s)
      else (do
        now ← on_trace aware_now
        due ← gets (λ (s' : HarmonyG2). not (ltb now.instant s'.next_refresh_at))
        when due (do
          modify (λ s'. record s' { next_refresh_at = now.instant + inventory_freshness })
          catch maintain maintenance_failed))
          s

  -- `_rejected` and `_indeterminate`
  unfoldable pub reject : Command → Text → Exec HarmonyG2 CommandResult
  reject command reason = lift (make_result command.request_id rejected none (some reason))

  unfoldable pub give_up : Command → Exec HarmonyG2 CommandResult
  give_up command = lift (
      make_result command.request_id indeterminate none
        (some (codes "G2 command outcome is unknown")))

  abbrev is_boolean : WireValue → Bool
  is_boolean (WireValue.bool _) = true
  is_boolean _ = false

  -- `_command_problem`. The identities of a command are typed here, so the branch for invalid ones
  -- is not there.
  unfoldable pub command_problem : Command → HarmonyG2 → Option Text
  command_problem command s =
      if s.is_closed
      then some (codes "backend is closed")
      else if not (has_key command.device_id s.bindings)
      then some (codes "unknown device")
      else if not (command.endpoint === primary_endpoint)
      then some (codes "unknown endpoint")
      else if not (command.capability === on_off)
      then some (codes "unsupported capability")
      else if not (is_boolean command.desired)
      then some (codes "desired value must be boolean")
      else none

  -- The handlers of the two errors of the transport around the command.
  unfoldable pub command_failed : Command → Error → Exec HarmonyG2 CommandResult
  command_failed command (g2_response message status started) =
      if elim status [ none ↦ false | some n ↦ n == 400 || (n == 401 || n == 403) ]
      then (do
        when (is_refusal (g2_response message status started))
            (do modify (λ s. record s { force_renew = true }); mark_all offline)
        reject command (codes "G2 refused command"))
      else (do mark_all offline; give_up command)
  command_failed command (g2_transport message status started) = do
    mark_all offline
    if started then give_up command else reject command (codes "G2 command was not submitted")
  command_failed command e = raise e

  -- the end of `set_desired`, by what became of the request
  unfoldable pub conclude : Command → Result (Unit {0}) → Exec HarmonyG2 CommandResult
  conclude command (err e) = command_failed command e
  conclude command (ok _) = do
    mark_device command.device_id online
    lift (make_result command.request_id accepted none none)

  -- `self._client.set_on_off(...)`, with its outcome as a value
  unfoldable pub submit : Command → G2Endpoint → Bool → Exec HarmonyG2 CommandResult
  unfolding conclude
  submit command endpoint desired s =
      let (r, trace) = set_on_off g endpoint desired s.session.access_token s.trace in
      conclude command r (record s { trace = trace })

  submit_value : Command → G2Endpoint → WireValue → Exec HarmonyG2 CommandResult
  unfolding submit
  submit_value command endpoint (WireValue.bool desired) = submit command endpoint desired
  submit_value command endpoint _ = reject command (codes "desired value must be boolean")

  -- the part of `set_desired` behind the maintenance
  submit_bound : Command → Option G2Endpoint → Exec HarmonyG2 CommandResult
  unfolding submit_value
  submit_bound command none = do
    mark_all offline
    reject command (codes "G2 binding is unavailable")
  submit_bound command (some endpoint) = submit_value command endpoint command.desired

  -- `set_desired` from the maintenance on, by what became of it
  after_maintenance : Command → Result (Unit {0}) → Exec HarmonyG2 CommandResult
  unfolding submit_bound
  after_maintenance command (ok _) s = submit_bound command (lookup command.device_id s.bindings) s
  after_maintenance command (err e) s =
      if is_rescue_error e
      then (do maintenance_failed e; reject command (codes "G2 maintenance failed before command"))
          s
      else (err e, s)

  maintain_and_submit : Command → Exec HarmonyG2 CommandResult
  unfolding after_maintenance
  maintain_and_submit command s = let (r, s') = maintain s in after_maintenance command r s'

  by_problem : Command → Option Text → Exec HarmonyG2 CommandResult
  unfolding maintain_and_submit
  by_problem command (some problem) = reject command problem
  by_problem command none = maintain_and_submit command

  -- `set_desired`
  unfoldable pub set_desired : Command → Exec HarmonyG2 CommandResult
  unfolding by_problem
  set_desired command s = by_problem command (command_problem command s) s

  known_or_unknown : DeviceId → Option DeviceAvailability → Exec HarmonyG2 DeviceAvailability
  known_or_unknown device_id (some known) = pure known
  known_or_unknown device_id none = do
    at ← on_trace aware_now
    lift (make_availability device_id unknown at source_name none)

  -- `availability`
  unfoldable pub availability_of : DeviceId → Exec HarmonyG2 DeviceAvailability
  unfolding known_or_unknown
  availability_of device_id s = known_or_unknown device_id (lookup device_id s.availability) s

  -- `close`
  unfoldable pub close : Exec HarmonyG2 (Unit {0})
  close s = if s.is_closed then (ok tt, s) else mark_all offline (record s { is_closed = true })

  -- The backend behind the interface. Nothing is ever observed.
  abbrev pub harmony_g2 : Backend
  harmony_g2 = record {
    State = HarmonyG2;
    devices = λ s. s.devices;
    observation = λ _ _. none;
    set_desired = set_desired;
    availability = availability_of;
    close = close;
    refresh = some refresh;
  }
