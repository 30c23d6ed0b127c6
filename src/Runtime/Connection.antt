-- ===== src/Runtime/Connection.antt =====
-- runtime.py: the connection flag over a whole run.
use smartenit_rescue.Prelude.{
  Bool, true, false, ◌≡◌, ◌⊎◌, inl, inr, refl, ◌∙◌, Option, none, some, List, [], ◌∷◌, ◌++◌, ap,
}
use smartenit_rescue.Prelude.Result.{Error, Result, ok, err}
use smartenit_rescue.Prelude.Exec.{Exec, lift, gets, when, ◌>>=◌, ◌>>◌}
use smartenit_rescue.Prelude.Exec.Keeps.{Keeps, Keeps-bind, Keeps-when, Keeps-continue, keeps_rules}
use smartenit_rescue.Models.State.{Command}
use smartenit_rescue.Backends.Base.{CapabilityAddress, address_eq, Backend}
use smartenit_rescue.Mqtt.Events.{Message, TransportEvent}
use smartenit_rescue.Runtime.{connect, World, Config, Runtime}
use smartenit_rescue.Runtime.Publishing.{
  outcome_of, record_effect, on_backend, call_transport, subscribe_all, publish_snapshot,
}
use smartenit_rescue.Runtime.Loop.{
  request_id, submit, run_command, decode_and_run, handle_address, handle_message, handle_event,
  refresh_backend, step, note_connection, loop, run,
}
use smartenit_rescue.Runtime.Preserved.{
  IsPreserved, Kept-backend, Kept-subscribe_all, Kept-snapshot, Kept-refresh, Kept-rest,
}

-- What an event makes of the connection.
abbrev pub connection : Bool → Option TransportEvent → Bool
connection on none = on
connection on (some TransportEvent.connected) = true
connection on (some (TransportEvent.disconnected _)) = false
connection on (some (TransportEvent.message _)) = on

abbrev pub connections : Bool → List (Option TransportEvent) → Bool
connections on [] = on
connections on (e ∷ es) = connections (connection on e) es

-- the event that came with the request to stop
abbrev pub last_connection : Bool → Option (Option TransportEvent) → Bool
last_connection on none = on
last_connection on (some e) = connection on e

abbrev pub IsFlag : {S : Type 0} → Bool → Runtime S → Type 0
IsFlag on r = r.is_connected ≡ on

module _ (b : Backend) (w : World) (c : Config) (on : Bool) where
  abbrev Steady : {A : Type 0} → Exec (Runtime b.State) A → Type 0
  Steady m = Keeps (IsFlag on) m

  steady : IsPreserved b (IsFlag on)
  steady = record {
    by_publish = λ p r h. h;
    by_subscribe = λ t q r h. h;
    by_refresh = λ r h. h;
    by_clock = λ r h. h;
    by_backend = λ s r h. h;
    by_note = λ d s r h. h;
  }

  Steady-backend : {A : Type 0} (m : Exec b.State A) → Steady (on_backend m)
  Steady-backend m = Kept-backend b w c (IsFlag on) steady m

  Steady-snapshot : Steady (publish_snapshot b w c)
  Steady-snapshot = Kept-snapshot b w c (IsFlag on) steady

  Steady-request_id : Steady (request_id b w c)
  unfolding request_id
  Steady-request_id = record { at = λ r h. h }

  Steady-submit : (k : Command) → Steady (submit b w c k)
  unfolding submit
  Steady-submit k = record { at = λ r h. h }

  Steady-run_command : (a : CapabilityAddress) (d : Bool) → Steady (run_command b w c a d)
  unfolding run_command
  Steady-run_command a d =
      search (keeps_rules, Steady-request_id, Steady-submit, Kept-rest b w c (IsFlag on) steady)

  Steady-decoded : (a : CapabilityAddress) (d : Result Bool) → Steady (decode_and_run b w c a d)
  unfolding decode_and_run
  Steady-decoded a (err e) = search keeps_rules
  Steady-decoded a (ok d) = Steady-run_command a d

  Steady-address : (m : Message) (a : Option CapabilityAddress) → Steady (handle_address b w c m a)
  unfolding handle_address
  Steady-address m none = search keeps_rules
  Steady-address m (some a) = search (keeps_rules, Steady-backend, Steady-decoded)

  Steady-message : (m : Message) → Steady (handle_message b w c m)
  unfolding handle_message
  Steady-message m = search (keeps_rules, Steady-snapshot, Steady-address)

  Steady-refreshing :
      Steady (gets (λ r. r.is_connected) >>= λ x. when x (refresh_backend b w c b.refresh))
  Steady-refreshing = search (keeps_rules, Kept-refresh b w c (IsFlag on) steady)

  Steady-connected : Steady (do subscribe_all b w c; publish_snapshot b w c)
  Steady-connected =
      Keeps-bind _ _ (Kept-subscribe_all b w c (IsFlag on) steady) (λ _. Steady-snapshot)

module _ (b : Backend) (w : World) (c : Config) where
  handle_event-connection :
      (e : Option TransportEvent) (r : Runtime b.State)
      → (handle_event b w c e r).1.is_connected ≡ connection r.is_connected e
  unfolding handle_event
  handle_event-connection none r = refl
  handle_event-connection (some TransportEvent.connected) r =
      (Steady-connected b w c true).at (record r { is_connected = true }) refl
  handle_event-connection (some (TransportEvent.disconnected none)) r = refl
  handle_event-connection (some (TransportEvent.disconnected (some x))) r = refl
  handle_event-connection (some (TransportEvent.message m)) r =
      (Keeps-when r.is_connected (handle_message b w c m)
          (Steady-message b w c r.is_connected m)).at
        r refl

  step-connection :
      (e : Option TransportEvent) (r : Runtime b.State)
      → (step b w c e r).1.is_connected ≡ connection r.is_connected e
  unfolding step
  step-connection e r =
      let (x, s) = handle_event b w c e r in
      Keeps-continue {P = IsFlag s.is_connected} _ (λ _. Steady-refreshing b w c s.is_connected) x s
        refl
      ∙ handle_event-connection e r

  abbrev Runner : Type 0
  Runner =
      List (Option TransportEvent)
      → Option (Option TransportEvent)
      → Result (Unit {0}) × Runtime b.State

  -- What `f`, which runs over events, makes of the flag: with all its events if it returns, and else
  -- with the events up to and with the one at which it raised.
  abbrev Follows :
      Runner → Bool → List (Option TransportEvent) → Option (Option TransportEvent) → Type 0
  Follows f on es stop =
      (((f es stop).0 ≡ ok tt)
        × ((f es stop).1.is_connected ≡ last_connection (connections on es) stop))
      ⊎ ((x : Error) × (seen : List (Option TransportEvent)) × (e : Option TransportEvent)
          × (rest : List (Option TransportEvent)) × ((f es stop).0 ≡ err x)
          × (es ≡ seen ++ e ∷ rest)
          × ((f seen none).0 ≡ ok tt)
          × ((f (seen ++ e ∷ []) none).0 ≡ err x)
          × ((f es stop).1.is_connected ≡ connections on (seen ++ e ∷ [])))

  loop-Follows :
      (es : List (Option TransportEvent)) (stop : Option (Option TransportEvent))
      (r : Runtime b.State)
      → Follows (λ l last. loop b w c l last r) r.is_connected es stop
  unfolding loop note_connection
  loop-Follows [] none r = inl (refl, refl)
  loop-Follows [] (some none) r = inl (refl, refl)
  loop-Follows [] (some (some TransportEvent.connected)) r = inl (refl, refl)
  loop-Follows [] (some (some (TransportEvent.disconnected _))) r = inl (refl, refl)
  loop-Follows [] (some (some (TransportEvent.message _))) r = inl (refl, refl)
  loop-Follows (e ∷ es) stop r =
      let (x, s) = step b w c e r in
      after_step (λ l last. loop b w c l last r) x s refl (λ l last. refl) (loop-Follows es stop s)
        (step-connection e r)
    where
      after_step :
          (f : Runner) (x : Result (Unit {0})) (s : Runtime b.State)
          → (f [] none).0 ≡ ok tt
          → ((l : List (Option TransportEvent)) (last : Option (Option TransportEvent))
              → f (e ∷ l) last ≡ (lift x >>= λ _. loop b w c l last) s)
          → Follows (λ l last. loop b w c l last s) s.is_connected es stop
          → s.is_connected ≡ connection r.is_connected e
          → Follows f r.is_connected (e ∷ es) stop
      after_step f (err y) s start next ih h = inr (
        y,
        [],
        e,
        es,
        rw (next es stop) refl,
        refl,
        start,
        rw (next [] none) refl,
        rw (next es stop) h,
      )
      after_step f (ok _) s start next (inl (ran, flag)) h =
          inl (rw (next es stop) ran, rw (next es stop) (rw (← h) flag))
      after_step f (ok _) s start next (inr (y, seen, d, rest, ran, same, before, at, flag)) h =
          inr (
            y,
            e ∷ seen,
            d,
            rest,
            rw (next es stop) ran,
            ap (λ l. e ∷ l) same,
            rw (next seen none) before,
            rw (next (seen ++ d ∷ []) none) at,
            rw (next es stop) (flag ∙ ap (λ on. connections on (seen ++ d ∷ [])) h),
          )

  -- What a run makes of the flag: either it could not connect, and leaves it; or it returns, with all
  -- its events and the one that came with the request to stop; or it raises at one of the events,
  -- having returned with those before, and the flag is what the events with this one make of it.
  abbrev pub Tracks :
      Runtime b.State → List (Option TransportEvent) → Option (Option TransportEvent) → Type 0
  Tracks r es stop =
      ((x : Error) × (w.outcome r.trace connect ≡ some x)
        × ((run b w c es stop r).0 ≡ err x)
        × ((run b w c es stop r).1.is_connected ≡ r.is_connected))
      ⊎ Follows (λ l last. run b w c l last r) r.is_connected es stop

  -- Whatever the backend and the transport answer, the connection flag is what the events make of it.
  -- If the transport cannot connect, the run raises and the flag stays. If the run returns, the flag
  -- is what all its events make of it, with the one that came with the request to stop. Else there is
  -- an event at which it raises the same error, while it returns with the events before it alone, and
  -- the flag is what those events and this one make of it.
  pub run-Tracks :
      (es : List (Option TransportEvent)) (stop : Option (Option TransportEvent))
      (r : Runtime b.State)
      → Tracks r es stop
  unfolding run call_transport
  run-Tracks es stop r = after_connect (w.outcome r.trace connect)
    where
      behind : Option Error → Runner
      behind x l last = (lift (outcome_of x) >>= λ _. loop b w c l last) (record_effect connect r)

      after_connect :
          (x : Option Error)
          → ((y : Error) × (x ≡ some y)
              × ((behind x es stop).0 ≡ err y)
              × ((behind x es stop).1.is_connected ≡ r.is_connected))
            ⊎ Follows (behind x) r.is_connected es stop
      after_connect none = inr (loop-Follows es stop (record_effect connect r))
      after_connect (some y) = inl (y, refl, refl, refl)
