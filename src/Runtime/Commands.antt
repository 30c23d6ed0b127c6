-- ===== src/Runtime/Commands.antt =====
-- Which commands the runtime gives to its backend, and for which messages.
pub mod Gate
pub mod NoReplay
use smartenit_rescue.Prelude.{
  ℕ, Bool, true, false, not, ◌&&◌, ◌||◌, ◌≡◌, ◌⊎◌, inl, inr, refl, Option, none, some, List, [],
  ◌∷◌, arith, ◌===◌, ◌==◌, contains, if◌then◌else◌, Bool-cases, Option-cases,
}
use smartenit_rescue.Prelude.Result.{
  Text, Error, Result, ok, err, key_error, or_raise, Result-cases,
}
use smartenit_rescue.Prelude.Exec.{
  Exec, pure, raise, lift, gets, modify, when, finally, ◌>>=◌, ◌>>◌,
}
use smartenit_rescue.Prelude.Exec.Keeps.{Keeps, Keeps-bind, keeps_rules}
use smartenit_rescue.Prelude.Dict.{lookup}
use smartenit_rescue.Prelude.Text.{text_eq}
use smartenit_rescue.Models.Identity.{DeviceId, device_eq}
use smartenit_rescue.Models.State.{
  AvailabilityState, WireValue, bool, Observation, Command, make_command, CommandStatus,
  CommandResult,
}
use smartenit_rescue.Backends.Base.{
  CapabilityAddress, address_eq, CapabilityMode, RuntimeDevice, Backend,
}
use smartenit_rescue.Mqtt.Events.{Message, TransportEvent, Publish}
use smartenit_rescue.Runtime.{
  Effect, connect, disconnect, read_clock, new_request_id, refresh, close_backend, subscribe,
  publish, publish_and_wait, set_desired, World, Config, Runtime, writable_addresses,
}
use smartenit_rescue.Runtime.Publishing.{
  record_effect, on_backend, call_transport, subscribe_all, publish_boolean, publish_observation,
  publish_known, snapshot_address, snapshot_addresses, publish_availability, snapshot_device,
  publish_discovery, publish_snapshot, changed_availability, publish_changed_availability,
}
use smartenit_rescue.Runtime.Preserved.{
  IsPreserved, Kept-backend, Kept-subscribe_all, Kept-snapshot, Kept-refresh, Kept-rest,
}
use smartenit_rescue.Runtime.Loop.{
  clock, request_id, submit, publish_result, after_observable, after_command, run_command,
  decode_and_run, handle_address, handle_message, handle_event, refresh_backend, step,
  note_connection, loop, run, farewell, close,
}

-- The commands of a trace, newest first.
abbrev pub submitted : List Effect → List Command
submitted [] = []
submitted (connect ∷ t) = submitted t
submitted (disconnect ∷ t) = submitted t
submitted (read_clock ∷ t) = submitted t
submitted (new_request_id ∷ t) = submitted t
submitted (refresh ∷ t) = submitted t
submitted (close_backend ∷ t) = submitted t
submitted (subscribe _ _ ∷ t) = submitted t
submitted (publish _ ∷ t) = submitted t
submitted (publish_and_wait _ ∷ t) = submitted t
submitted (set_desired c ∷ t) = c ∷ submitted t

-- An action that submits nothing beyond the commands `l`.
abbrev pub Stays : {S : Type 0} → List Command → Runtime S → Type 0
Stays l r = submitted r.trace ≡ l

module _ (b : Backend) (w : World) (c : Config) (l : List Command) where
  abbrev pub Quiet : {A : Type 0} → Exec (Runtime b.State) A → Type 0
  Quiet m = Keeps (Stays l) m

  stays : IsPreserved b (Stays l)
  stays = record {
    by_publish = λ p r h. h;
    by_subscribe = λ t q r h. h;
    by_refresh = λ r h. h;
    by_clock = λ r h. h;
    by_backend = λ s r h. h;
    by_note = λ d s r h. h;
  }

  pub Quiet-backend : {A : Type 0} (m : Exec b.State A) → Quiet (on_backend m)
  Quiet-backend m = Kept-backend b w c (Stays l) stays m

  pub Quiet-subscribe_all : Quiet (subscribe_all b w c)
  Quiet-subscribe_all = Kept-subscribe_all b w c (Stays l) stays

  pub Quiet-snapshot : Quiet (publish_snapshot b w c)
  Quiet-snapshot = Kept-snapshot b w c (Stays l) stays

  pub Quiet-refresh : (m : Option (Exec b.State (Unit {0}))) → Quiet (refresh_backend b w c m)
  Quiet-refresh m = Kept-refresh b w c (Stays l) stays m

  -- what follows the submission of a command
  Quiet-rest :
      (a : CapabilityAddress) (d : Bool) (r : CommandResult)
      → Quiet
          (lift (or_raise (lookup a c.capability_modes) key_error) >>= after_command b w c a d r)
  Quiet-rest a d r = Kept-rest b w c (Stays l) stays a d r

module _ (b : Backend) (w : World) (c : Config) where
  -- A command that is made is submitted once, whatever happens after it.
  pub run_command_submits :
      (a : CapabilityAddress) (d : Bool) (r : Runtime b.State) (k : Command)
      → make_command (w.request_id r.trace) a.device_id a.endpoint a.capability (some (bool d))
        ≡ ok k
      → submitted (run_command b w c a d r).1.trace ≡ k ∷ submitted r.trace
  unfolding run_command
  run_command_submits a d r k e =
      let s = record_effect (set_desired k) (record_effect new_request_id r) in
      rw e (
        (Keeps-bind (on_backend (b.set_desired k)) _ (Quiet-backend b w c (k ∷ submitted r.trace) _)
            (λ result. Quiet-rest b w c (k ∷ submitted r.trace) a d result)).at
          s refl)

  pub run_command_refuses :
      (a : CapabilityAddress) (d : Bool) (r : Runtime b.State) (x : Error)
      → make_command (w.request_id r.trace) a.device_id a.endpoint a.capability (some (bool d))
        ≡ err x
      → submitted (run_command b w c a d r).1.trace ≡ submitted r.trace
  unfolding run_command
  run_command_refuses a d r x e = rw e
