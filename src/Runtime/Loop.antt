-- ===== src/Runtime/Loop.antt =====
-- runtime.py: the handler of messages, the event loop, and the shutdown.
use smartenit_rescue.Prelude.{
  Bool, true, false, not, Option, none, some, List, [], ◌∷◌, ◌===◌, ◌==◌, contains, if◌then◌else◌,
}
use smartenit_rescue.Prelude.Result.{
  Text, Result, ok, err, transport, key_error, assertion_error, or_raise, on_invalid,
}
use smartenit_rescue.Prelude.Exec.{
  Exec, pure, raise, lift, gets, modify, when, finally, ◌>>=◌, ◌>>◌,
}
use smartenit_rescue.Prelude.Text.{codes, text_eq}
use smartenit_rescue.Prelude.Datetime.{Datetime}
use smartenit_rescue.Prelude.Dict.{lookup}
use smartenit_rescue.Models.State.{
  is_online, CommandStatus, bool, Observation, Command, make_command, CommandResult,
}
use smartenit_rescue.Backends.Base.{CapabilityAddress, address_eq, CapabilityMode, Backend}
use smartenit_rescue.Mqtt.Events.{Message, TransportEvent}
use smartenit_rescue.Mqtt.Topics.{
  bridge_availability, last_command_topic, parse_command_topic, decode_on_off, encode_last_command,
}
use smartenit_rescue.Runtime.{
  connect, disconnect, read_clock, new_request_id, refresh, close_backend, publish,
  publish_and_wait, set_desired, World, Config, Runtime, writable_addresses,
}
use smartenit_rescue.Runtime.Publishing.{
  record_effect, on_backend, call_transport, retained, subscribe_all, publish_observation,
  publish_snapshot, publish_changed_availability,
}

module _ (b : Backend) (w : World) (c : Config) where
  unfoldable pub clock : Exec (Runtime b.State) Datetime
  clock r = (ok (w.now r.trace), record_effect read_clock r)

  unfoldable pub request_id : Exec (Runtime b.State) Text
  request_id r = (ok (w.request_id r.trace), record_effect new_request_id r)

  -- `backend.set_desired(command)`
  unfoldable pub submit : Command → Exec (Runtime b.State) CommandResult
  submit command = do
    modify (record_effect (set_desired command))
    on_backend (b.set_desired command)

  -- `assert result.observation is not None`, and its publication
  unfoldable pub publish_result :
      CapabilityAddress → Option Observation → Exec (Runtime b.State) (Unit {0})
  publish_result address none = raise assertion_error
  publish_result address (some observation) = do
    published ← publish_observation b w c address observation
    pure tt

  -- What follows a command of an observable capability: only a confirmation is published.
  unfoldable pub after_observable :
      CapabilityAddress → CommandResult → CommandStatus → Exec (Runtime b.State) (Unit {0})
  unfolding publish_result
  after_observable address result CommandStatus.confirmed =
      publish_result address result.observation
  after_observable address result _ = pure tt

  unfoldable pub after_command :
      CapabilityAddress → Bool → CommandResult → CapabilityMode → Exec (Runtime b.State) (Unit {0})
  unfolding after_observable clock
  after_command address desired result CapabilityMode.command_only = do
    at ← clock
    payload ← lift (encode_last_command w.codec desired result.status at)
    call_transport w (publish (retained (last_command_topic c.topics address) payload))
    publish_changed_availability b w c (some address.device_id)
  after_command address desired result CapabilityMode.observable =
      after_observable address result result.status

  -- The handler from the creation of the command on.
  unfoldable pub run_command : CapabilityAddress → Bool → Exec (Runtime b.State) (Unit {0})
  unfolding after_command submit request_id
  run_command address desired = do
    id ← request_id
    command ← lift (
        make_command id address.device_id address.endpoint address.capability (some (bool desired)))
    result ← submit command
    mode ← lift (or_raise (lookup address c.capability_modes) key_error)
    after_command address desired result mode

  -- `except ValidationError: return`
  unfoldable pub decode_and_run :
      CapabilityAddress → Result Bool → Exec (Runtime b.State) (Unit {0})
  decode_and_run address (err e) = lift (on_invalid tt e)
  decode_and_run address (ok desired) = run_command address desired

  -- The handler from the parsed topic on.
  unfoldable pub handle_address :
      Message → Option CapabilityAddress → Exec (Runtime b.State) (Unit {0})
  unfolding decode_and_run
  handle_address m none = pure tt
  handle_address m (some address) =
      if not (contains address (writable_addresses c)) then pure tt else do
        availability ← on_backend (b.availability address.device_id)
        if not (is_online availability.state)
            then pure tt
            else decode_and_run address (decode_on_off m.payload)

  -- `_handle_message`
  unfoldable pub handle_message : Message → Exec (Runtime b.State) (Unit {0})
  unfolding handle_address
  handle_message m =
      if m.topic === c.home_assistant_status_topic
      then when (m.payload === codes "online") (publish_snapshot b w c)
      else if m.retain
      then pure tt
      else if not (m.qos == 1)
      then pure tt
      else do address ← lift (parse_command_topic c.topics m.topic); handle_address m address

  -- One event in the body of the loop.
  unfoldable pub handle_event : Option TransportEvent → Exec (Runtime b.State) (Unit {0})
  handle_event none = pure tt
  handle_event (some TransportEvent.connected) = do
    modify (λ r. record r { is_connected = true })
    subscribe_all b w c
    publish_snapshot b w c
  handle_event (some (TransportEvent.disconnected none)) =
      modify (λ r. record r { is_connected = false })
  handle_event (some (TransportEvent.disconnected (some reason))) = do
    modify (λ r. record r { is_connected = false })
    raise (transport reason)
  handle_event (some (TransportEvent.message m)) = do
    is_connected ← gets (λ r. r.is_connected)
    when is_connected (handle_message m)

  -- `refresh` of a backend that has it, with the availability that it may have changed
  unfoldable pub refresh_backend :
      Option (Exec b.State (Unit {0})) → Exec (Runtime b.State) (Unit {0})
  refresh_backend none = pure tt
  refresh_backend (some method) = do
    modify (record_effect refresh)
    on_backend method
    publish_changed_availability b w c none

  -- The body of the loop, when no stop is requested.
  unfoldable pub step : Option TransportEvent → Exec (Runtime b.State) (Unit {0})
  unfolding refresh_backend
  step event = do
    handle_event event
    is_connected ← gets (λ r. r.is_connected)
    when is_connected (refresh_backend b.refresh)

  -- The event that came with the stop: only the connection is noted.
  unfoldable pub note_connection : Option TransportEvent → Exec (Runtime b.State) (Unit {0})
  note_connection (some TransportEvent.connected) = modify (λ r. record r { is_connected = true })
  note_connection (some (TransportEvent.disconnected _)) =
      modify (λ r. record r { is_connected = false })
  note_connection _ = pure tt

  -- The loop over the events that `next_event` returns (it raises in no transport of the program,
  -- nor does the test for a stop), up to a request to stop that is seen
  -- before an event is fetched (the end of the list), or right after (`none` in the second place
  -- of `stop`).
  unfoldable pub loop :
      List (Option TransportEvent)
      → Option (Option TransportEvent)
      → Exec (Runtime b.State) (Unit {0})
  unfolding note_connection
  loop [] none = pure tt
  loop [] (some event) = note_connection event
  loop (event ∷ rest) stop = do step event; loop rest stop

  -- `run`
  unfoldable pub run :
      List (Option TransportEvent)
      → Option (Option TransportEvent)
      → Exec (Runtime b.State) (Unit {0})
  run events stop = do call_transport w connect; loop events stop

  -- the last publication, if the bridge is connected
  unfoldable pub farewell : Bool → Exec (Runtime b.State) (Unit {0})
  farewell false = pure tt
  farewell true =
      if w.has_delivery
      then call_transport w
          (publish_and_wait (retained (bridge_availability c.topics) (codes "offline")))
      else raise (transport (codes "MQTT transport does not support delivery completion"))

  -- `close`
  unfoldable pub close : Exec (Runtime b.State) (Unit {0})
  unfolding farewell
  close r =
      if r.is_closed
      then (ok tt, r)
      else finally (farewell r.is_connected)
          (finally (do modify (record_effect close_backend); on_backend b.close)
            (call_transport w disconnect))
          (record r { is_closed = true })
