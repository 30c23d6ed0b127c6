-- ===== src/Runtime/Preserved.antt =====
-- What all calls of the runtime but those of `set_desired` preserve: one lemma for each function of
-- runtime.py, over the laws of the single calls.
use smartenit_rescue.Prelude.{ℕ, Bool, Option, none, some, List, [], ◌∷◌}
use smartenit_rescue.Prelude.Result.{Text, key_error, or_raise}
use smartenit_rescue.Prelude.Exec.{Exec, lift, modify, ◌>>=◌}
use smartenit_rescue.Prelude.Exec.Keeps.{Keeps, Keeps-bind, keeps_rules}
use smartenit_rescue.Prelude.Dict.{lookup}
use smartenit_rescue.Prelude.Text.{text_eq}
use smartenit_rescue.Models.Identity.{DeviceId, device_eq}
use smartenit_rescue.Models.State.{
  AvailabilityState, WireValue, Observation, CommandStatus, CommandResult,
}
use smartenit_rescue.Backends.Base.{
  CapabilityAddress, address_eq, CapabilityMode, RuntimeDevice, Backend,
}
use smartenit_rescue.Mqtt.Events.{Publish}
use smartenit_rescue.Runtime.{read_clock, refresh, subscribe, publish, World, Config, Runtime}
use smartenit_rescue.Runtime.Publishing.{
  note_published, record_effect, on_backend, call_transport, subscribe_all, publish_boolean,
  publish_observation, publish_known, snapshot_address, snapshot_addresses, publish_availability,
  snapshot_device, publish_discovery, publish_snapshot, changed_availability,
  publish_changed_availability,
}
use smartenit_rescue.Runtime.Loop.{
  clock, publish_result, after_observable, after_command, refresh_backend,
}

-- `P` survives each single change of the state but a command.
pub record IsPreserved (b : Backend) (P : Runtime b.State → Type 0) : Type 0 where
  pub by_publish : (p : Publish) (r : Runtime b.State) → P r → P (record_effect (publish p) r)
  pub by_subscribe :
      (t : Text) (q : ℕ) (r : Runtime b.State) → P r → P (record_effect (subscribe t q) r)
  pub by_refresh : (r : Runtime b.State) → P r → P (record_effect refresh r)
  pub by_clock : (r : Runtime b.State) → P r → P (record_effect read_clock r)
  pub by_backend : (s : b.State) (r : Runtime b.State) → P r → P (record r { backend = s })
  pub by_note :
      (d : DeviceId) (s : AvailabilityState) (r : Runtime b.State) → P r → P (note_published d s r)

module _ (b : Backend) (w : World) (c : Config) (P : Runtime b.State → Type 0)
    (law : IsPreserved b P) where
  abbrev Kept : {A : Type 0} → Exec (Runtime b.State) A → Type 0
  Kept m = Keeps P m

  Kept-publish : (p : Publish) → Kept (call_transport w (publish p))
  unfolding call_transport
  Kept-publish p = record { at = law.by_publish p }

  Kept-subscribe : (t : Text) (q : ℕ) → Kept (call_transport w (subscribe t q))
  unfolding call_transport
  Kept-subscribe t q = record { at = law.by_subscribe t q }

  pub Kept-backend : {A : Type 0} (m : Exec b.State A) → Kept (on_backend m)
  Kept-backend m = record { at = λ r h. law.by_backend (m r.backend).1 r h }

  Kept-refresh_effect : Kept (modify (record_effect refresh))
  Kept-refresh_effect = record { at = law.by_refresh }

  Kept-note : (d : DeviceId) (s : AvailabilityState) → Kept (modify (note_published d s))
  Kept-note d s = record { at = law.by_note d s }

  Kept-clock : Kept (clock b w c)
  unfolding clock
  Kept-clock = record { at = law.by_clock }

  ruleset kept_rules = (
    keeps_rules, Kept-publish, Kept-subscribe, Kept-backend, Kept-refresh_effect, Kept-note,
    Kept-clock,
  )

  pub Kept-subscribe_all : Kept (subscribe_all b w c)
  unfolding subscribe_all
  Kept-subscribe_all = search kept_rules

  Kept-boolean :
      (a : CapabilityAddress) (o : Observation) (v : WireValue) → Kept (publish_boolean b w c a o v)
  unfolding publish_boolean
  Kept-boolean a o (WireValue.bool v) = search kept_rules
  Kept-boolean a o _ = search kept_rules

  Kept-observation :
      (a : CapabilityAddress) (o : Observation) → Kept (publish_observation b w c a o)
  unfolding publish_observation
  Kept-observation a o = Kept-boolean a o o.value

  Kept-known : (a : CapabilityAddress) (o : Option Observation) → Kept (publish_known b w c a o)
  unfolding publish_known
  Kept-known a none = search kept_rules
  Kept-known a (some o) = Kept-observation a o

  Kept-snapshot_mode :
      (d : DeviceId) (a : CapabilityAddress) (m : CapabilityMode)
      → Kept (snapshot_address b w c d a m)
  unfolding snapshot_address
  Kept-snapshot_mode d a CapabilityMode.command_only = search kept_rules
  Kept-snapshot_mode d a CapabilityMode.observable = search (kept_rules, Kept-known)

  Kept-snapshot_addresses :
      (d : DeviceId) (l : List (CapabilityAddress × CapabilityMode)) (complete : Bool)
      → Kept (snapshot_addresses b w c d l complete)
  unfolding snapshot_addresses
  Kept-snapshot_addresses d [] complete = search kept_rules
  Kept-snapshot_addresses d ((a, m) ∷ rest) complete =
      Keeps-bind _ _ (Kept-snapshot_mode d a m) (λ p. Kept-snapshot_addresses d rest _)

  Kept-availability : (d : DeviceId) (s : AvailabilityState) → Kept (publish_availability b w c d s)
  unfolding publish_availability
  Kept-availability d s = search kept_rules

  Kept-snapshot_device : (item : RuntimeDevice) → Kept (snapshot_device b w c item)
  unfolding snapshot_device
  Kept-snapshot_device item = search (kept_rules, Kept-snapshot_addresses, Kept-availability)

  Kept-discovery : (item : RuntimeDevice) → Kept (publish_discovery b w c item)
  unfolding publish_discovery
  Kept-discovery item = search kept_rules

  pub Kept-snapshot : Kept (publish_snapshot b w c)
  unfolding publish_snapshot
  Kept-snapshot = search (kept_rules, Kept-discovery, Kept-snapshot_device)

  Kept-changed :
      (force : Option DeviceId) (item : RuntimeDevice)
      → Kept (changed_availability b w c force item)
  unfolding changed_availability
  Kept-changed force item = search (kept_rules, Kept-availability)

  Kept-changed_availability :
      (force : Option DeviceId) → Kept (publish_changed_availability b w c force)
  unfolding publish_changed_availability
  Kept-changed_availability force = search (kept_rules, Kept-changed)

  pub Kept-refresh : (m : Option (Exec b.State (Unit {0}))) → Kept (refresh_backend b w c m)
  unfolding refresh_backend
  Kept-refresh none = search kept_rules
  Kept-refresh (some m) = search (kept_rules, Kept-changed_availability)

  Kept-result : (a : CapabilityAddress) (o : Option Observation) → Kept (publish_result b w c a o)
  unfolding publish_result
  Kept-result a none = search kept_rules
  Kept-result a (some o) = search (kept_rules, Kept-observation)

  Kept-observable :
      (a : CapabilityAddress) (r : CommandResult) (s : CommandStatus)
      → Kept (after_observable b w c a r s)
  unfolding after_observable
  Kept-observable a r CommandStatus.confirmed = Kept-result a r.observation
  Kept-observable a r _ = search kept_rules

  Kept-after_command :
      (a : CapabilityAddress) (d : Bool) (r : CommandResult) (m : CapabilityMode)
      → Kept (after_command b w c a d r m)
  unfolding after_command
  Kept-after_command a d r CapabilityMode.command_only =
      search (kept_rules, Kept-changed_availability)
  Kept-after_command a d r CapabilityMode.observable = Kept-observable a r r.status

  -- what follows the submission of a command
  pub Kept-rest :
      (a : CapabilityAddress) (d : Bool) (r : CommandResult)
      → Kept (lift (or_raise (lookup a c.capability_modes) key_error) >>= after_command b w c a d r)
  Kept-rest a d r = search (kept_rules, Kept-after_command)
