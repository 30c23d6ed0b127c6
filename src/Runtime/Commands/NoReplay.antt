-- ===== src/Runtime/Commands/NoReplay.antt =====
-- The commands over a whole run (runtime.py, `run`).
use smartenit_rescue.Prelude.{
  ℕ, ◌+◌, ◌≤◌, true, ◌≡◌, inl, inr, refl, ap, Option, none, some, List, [], ◌∷◌, arith, length,
}
use smartenit_rescue.Prelude.Result.{Result, ok, err}
use smartenit_rescue.Prelude.Exec.{Exec, gets, when, lift, ◌>>=◌}
use smartenit_rescue.Prelude.Exec.Keeps.{Keeps-bind, Keeps-continue, keeps_rules}
use smartenit_rescue.Backends.Base.{Backend}
use smartenit_rescue.Mqtt.Events.{TransportEvent}
use smartenit_rescue.Runtime.{connect, World, Config, Runtime}
use smartenit_rescue.Runtime.Publishing.{call_transport, publish_snapshot, subscribe_all}
use smartenit_rescue.Runtime.Loop.{
  handle_message, handle_event, refresh_backend, step, note_connection, loop, run,
}
use smartenit_rescue.Runtime.Commands.{
  submitted, Stays, Quiet-subscribe_all, Quiet-snapshot, Quiet-refresh,
}
use smartenit_rescue.Runtime.Commands.Gate.{Gated, handle_message_gate}

abbrev pub is_message : Option TransportEvent → ℕ
is_message (some (TransportEvent.message m)) = 1
is_message _ = 0

-- The number of messages among the events.
abbrev pub message_count : List (Option TransportEvent) → ℕ
message_count [] = 0
message_count (e ∷ es) = is_message e + message_count es

module _ (b : Backend) (w : World) (c : Config) where
  abbrev commands : Runtime b.State → ℕ
  commands r = length (submitted r.trace)

  Gated-count : (m : _) (r r' : Runtime b.State) → Gated b w c m r r' → commands r' ≤ commands r + 1
  Gated-count m r r' (inl h) = omega (arith, ap length h)
  Gated-count m r r' (inr (a, d, k, _, _, h)) = omega (arith, ap length h)

  -- An event that is no message submits nothing.
  pub handle_event_quiet :
      (e : Option TransportEvent) (r : Runtime b.State)
      → is_message e ≡ 0
      → submitted (handle_event b w c e r).1.trace ≡ submitted r.trace
  unfolding handle_event
  handle_event_quiet none r h = refl
  handle_event_quiet (some TransportEvent.connected) r h =
      (Keeps-bind (subscribe_all b w c) (λ _. publish_snapshot b w c)
          (Quiet-subscribe_all b w c (submitted r.trace))
          (λ _. Quiet-snapshot b w c (submitted r.trace))).at
        (record r { is_connected = true }) refl
  handle_event_quiet (some (TransportEvent.disconnected none)) r h = refl
  handle_event_quiet (some (TransportEvent.disconnected (some reason))) r h = refl
  handle_event_quiet (some (TransportEvent.message m)) r h = absurd (omega arith)

  handle_event_count :
      (e : Option TransportEvent) (r : Runtime b.State)
      → commands (handle_event b w c e r).1 ≤ commands r + is_message e
  unfolding handle_event
  handle_event_count (some (TransportEvent.message m)) r =
      ground (arith, Gated-count m r (handle_message b w c m r).1 (handle_message_gate b w c m r))
  handle_event_count none r = omega (arith, ap length (handle_event_quiet none r refl))
  handle_event_count (some TransportEvent.connected) r =
      omega (arith, ap length (handle_event_quiet (some TransportEvent.connected) r refl))
  handle_event_count (some (TransportEvent.disconnected x)) r =
      omega (arith, ap length (handle_event_quiet (some (TransportEvent.disconnected x)) r refl))

  abbrev refreshing : Unit {0} → Exec (Runtime b.State) (Unit {0})
  refreshing _ = gets (λ r. r.is_connected) >>= λ on. when on (refresh_backend b w c b.refresh)

  -- the refresh behind an event adds no command
  submitted-step :
      (e : Option TransportEvent) (r : Runtime b.State)
      → submitted (step b w c e r).1.trace ≡ submitted (handle_event b w c e r).1.trace
  unfolding step
  submitted-step e r =
      let (x, s) = handle_event b w c e r in
      Keeps-continue {P = Stays (submitted s.trace)} refreshing
        (λ _. search (keeps_rules, Quiet-refresh b w c (submitted s.trace))) x s refl

  loop_count :
      (es : List (Option TransportEvent)) (stop : Option (Option TransportEvent))
      (r : Runtime b.State)
      → commands (loop b w c es stop r).1 ≤ commands r + message_count es
  unfolding loop note_connection
  loop_count [] none r = omega arith
  loop_count [] (some none) r = omega arith
  loop_count [] (some (some TransportEvent.connected)) r = omega arith
  loop_count [] (some (some (TransportEvent.disconnected _))) r = omega arith
  loop_count [] (some (some (TransportEvent.message _))) r = omega arith
  loop_count (e ∷ es) stop r =
      let (x, s) = step b w c e r in
      let n : commands s ≤ commands r + is_message e =
        omega (arith, handle_event_count e r, ap length (submitted-step e r)) in
      after_step x s (loop_count es stop) n
    where
      after_step :
          (x : Result (Unit {0})) (s : Runtime b.State)
          → ((s' : Runtime b.State)
              → commands (loop b w c es stop s').1 ≤ commands s' + message_count es)
          → commands s ≤ commands r + is_message e
          → commands ((lift x >>= λ _. loop b w c es stop) s).1
            ≤ commands r + (is_message e + message_count es)
      after_step (ok _) s ih n = omega (arith, ih s)
      after_step (err _) s ih n = omega arith

  -- A run gives the backend at most one command for each message that it received.
  pub run_count :
      (es : List (Option TransportEvent)) (stop : Option (Option TransportEvent))
      (r : Runtime b.State)
      → commands (run b w c es stop r).1 ≤ commands r + message_count es
  unfolding run call_transport
  run_count es stop r = ground (arith, loop_count es stop (record r { trace = connect ∷ r.trace }))
