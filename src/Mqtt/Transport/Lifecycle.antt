-- ===== src/Mqtt/Transport/Lifecycle.antt =====
-- How a transport ends: the disconnection of its client and the stopping of its loop.
use smartenit_rescue.Prelude.Text.{codes}
use smartenit_rescue.Prelude.Number.{Float}
use smartenit_rescue.Prelude.Result.{
  type_error, python, raised, attempted, err, ok, raise_if, returned, Result, Attempt, Text,
}
use smartenit_rescue.Prelude.Exec.{when, gets, lift, modify, Exec}
use smartenit_rescue.Prelude.Exec.Ends.{Keeps-Ends, Ends-bind, Ends-Keeps, Ends, Ended}
use smartenit_rescue.Prelude.Exec.Keeps.{
  Keeps-when, Keeps-gets, finally_state, Keeps-pure, Keeps-lift, Keeps-bind, Keeps,
}
use smartenit_rescue.Prelude.{
  not, arith, ◌+◌, ◌≤◌, ℕ, List, [], ◌∷◌, Option, none, some, Bool, true, false, ◌≡◌, refl,
}
use smartenit_rescue.Config.Settings.{MqttCredentials, MqttSettings}
use smartenit_rescue.Mqtt.Events.{Publish, TransportEvent}
use smartenit_rescue.Mqtt.Transport.Delivery.{
  taking, disconnecting, connecting, told_message, told_disconnect, told_connect, delivering,
  publishing, subscribing, Action, run, perform,
}
use smartenit_rescue.Mqtt.Transport.{
  fresh, will_set, tls_set, connect_to, success, authenticate, leave, create_client, stop,
  ErrorCode, is_published, raise_for_error, on_message, wait_for_publish, subscribe, on_disconnect,
  publish, on_connect, as_delivery_failure, next_event, do_call, connect, publish_and_wait,
  disconnect_client, put, disconnect, ask, loop_start, initialise, publish_message, taken,
  subscribe_to, loop_stop, code_of, PahoCall, Client, PahoTransport,
}

-- What a call adds to the counts of disconnections, of stops and of starts.
unfoldable pub leaves_by : PahoCall → ℕ
leaves_by disconnect_client = 1
leaves_by _ = 0

unfoldable pub stops_by : PahoCall → ℕ
stops_by loop_stop = 1
stops_by _ = 0

unfoldable pub starts_by : PahoCall → ℕ
starts_by loop_start = 1
starts_by _ = 0

unfoldable pub total : (PahoCall → ℕ) → List PahoCall → ℕ
total by [] = 0
total by (c ∷ calls) = by c + total by calls

-- The client is disconnected and the loop stopped the same number of times, once at most, only
-- behind a start of the loop, and only once the transport is disconnected.
pub record IsOrderly (s : PahoTransport) : Type 0 where
  pub paired : total stops_by s.calls ≡ total leaves_by s.calls
  pub once : total stops_by s.calls ≤ 1
  pub open_until : s.disconnected ≡ false → total stops_by s.calls ≡ 0
  pub looping : s.loop_started ≡ true → 1 ≤ total starts_by s.calls
  pub started : 1 ≤ total stops_by s.calls → 1 ≤ total starts_by s.calls

module _ (client : Client) where
  ask-IsOrderly :
      {A : Type 0} (c : PahoCall) (answer : List PahoCall → Attempt A)
      → stops_by c ≡ 0
      → leaves_by c ≡ 0
      → Keeps IsOrderly (ask c answer)
  unfolding ask total
  ask-IsOrderly c answer s l = record {
    at = λ t h. record {
      paired = omega (arith, h.paired, s, l);
      once = omega (arith, h.once, s);
      open_until = λ q. omega (arith, h.open_until q, s);
      looping = λ q. omega (arith, h.looping q);
      started = λ q. omega (arith, h.started (omega (arith, q, s)));
    };
  }

  -- Behind a start of the loop.
  Started : PahoTransport → Type 0
  Started s = IsOrderly s × (1 ≤ total starts_by s.calls)

  start-Ends : Ends IsOrderly (code_of client loop_start) (λ _. Started) (λ _. IsOrderly)
  unfolding code_of ask Started total stops_by leaves_by starts_by
  start-Ends = record { at = λ s h. go (client.coded s.calls loop_start) s h }
    where
      asked : PahoTransport → PahoTransport
      asked s = record s { calls = loop_start ∷ s.calls }

      orderly : (s : PahoTransport) → IsOrderly s → IsOrderly (asked s)
      orderly s h =
          (ask-IsOrderly {A = ErrorCode} loop_start (λ _. returned success) refl refl).at s h

      go :
          (a : Attempt ErrorCode) (s : PahoTransport)
          → IsOrderly s
          → Ended (λ _. Started) (λ _. IsOrderly) (attempted a) (asked s)
      go (returned c) s h = (orderly s h, omega arith)
      go (raised e) s h = orderly s h

  checked-Ends : (r : Result (Unit {0})) → Ends Started (lift r) (λ _. Started) (λ _. IsOrderly)
  unfolding Started
  checked-Ends (ok _) = record { at = λ s h. h }
  checked-Ends (err e) = record { at = λ s h. h.0 }

  looping-Ends :
      Ends Started
        (modify (λ (s : PahoTransport). record s { loop_started = true }))
        (λ _. IsOrderly)
        (λ _. IsOrderly)
  unfolding Started
  looping-Ends = record {
    at = λ s h. record {
      paired = h.0.paired;
      once = h.0.once;
      open_until = h.0.open_until;
      looping = λ _. h.1;
      started = h.0.started;
    };
  }

  connect-IsOrderly : Keeps IsOrderly (connect client)
  unfolding connect code_of stops_by leaves_by
  connect-IsOrderly = Ends-Keeps (connect client) (
      Ends-bind (gets (λ (s : PahoTransport). s.settings)) _
        (Keeps-Ends _ (Keeps-gets (λ (s : PahoTransport). s.settings)))
        λ settings.
          Ends-bind
            (code_of client (connect_to settings.host settings.port settings.keepalive_seconds)) _
            (Keeps-Ends _ (ask-IsOrderly _ _ refl refl))
            λ result.
              Ends-bind (lift (raise_for_error client (codes "connect") result)) _
                (Keeps-Ends _ (Keeps-lift _))
                λ _. Ends-bind (code_of client loop_start) _ start-Ends λ started.
                  Ends-bind (lift (raise_for_error client (codes "loop start") started)) _
                    (checked-Ends _) λ _. looping-Ends)

  -- the state behind a stop
  stop_state :
      (s : PahoTransport)
      → (stop client true s).1 ≡ record s { calls = loop_stop ∷ disconnect_client ∷ s.calls }
  unfolding stop do_call ask
  stop_state s = finally_state (do_call client disconnect_client) (do_call client loop_stop) s

  stopped-IsOrderly :
      (started : Bool) (s : PahoTransport)
      → s.disconnected ≡ false
      → s.loop_started ≡ started
      → IsOrderly s
      → IsOrderly (stop client started (record s { disconnected = true })).1
  unfolding total stops_by leaves_by starts_by stop
  stopped-IsOrderly false s o l h = record {
    paired = h.paired;
    once = h.once;
    open_until = λ q. h.open_until o;
    looping = h.looping;
    started = h.started;
  }
  stopped-IsOrderly true s o l h = rw (stop_state (record s { disconnected = true })) (record {
    paired = omega (arith, h.paired);
    once = omega (arith, h.open_until o);
    open_until = λ q. cc;
    looping = λ q. omega (arith, h.looping q);
    started = λ q. omega (arith, h.looping l);
  })

  leave-IsOrderly :
      (left : Bool) (s : PahoTransport)
      → s.disconnected ≡ left
      → IsOrderly s
      → IsOrderly (leave client left s).1
  unfolding leave
  leave-IsOrderly true s e h = h
  leave-IsOrderly false s e h = stopped-IsOrderly s.loop_started s e refl h

  disconnect-IsOrderly : Keeps IsOrderly (disconnect client)
  unfolding disconnect
  disconnect-IsOrderly = record { at = λ s h. leave-IsOrderly s.disconnected s refl h }

  publish_message-IsOrderly : (p : Publish) → Keeps IsOrderly (publish_message client p)
  unfolding publish_message code_of stops_by leaves_by
  publish_message-IsOrderly p =
      Keeps-bind (code_of client (publish p)) _ (ask-IsOrderly _ _ refl refl)
        λ result. Keeps-lift (raise_for_error client (codes "publish") result)

  failure-IsOrderly :
      {A : Type 0} (m : Exec PahoTransport A)
      → Keeps IsOrderly m
      → Keeps IsOrderly (as_delivery_failure client m)
  unfolding as_delivery_failure
  failure-IsOrderly m k = record { at = k.at }

  publish_and_wait-IsOrderly :
      (p : Publish) (t : Float) → Keeps IsOrderly (publish_and_wait client p t)
  unfolding publish_and_wait do_call stops_by leaves_by
  publish_and_wait-IsOrderly p t =
      Keeps-bind (publish_message client p) _ (publish_message-IsOrderly p) λ _.
        Keeps-bind (as_delivery_failure client _) _
          (failure-IsOrderly _ (
            Keeps-bind (do_call client (wait_for_publish t)) _ (ask-IsOrderly _ _ refl refl)
              λ _. ask-IsOrderly is_published client.published refl refl))
          λ delivered. Keeps-lift _

  subscribe_to-IsOrderly :
      (topic : Text) (qos : ℕ) → Keeps IsOrderly (subscribe_to client topic qos)
  unfolding subscribe_to code_of stops_by leaves_by
  subscribe_to-IsOrderly topic qos =
      Keeps-bind (code_of client (subscribe topic qos)) _ (ask-IsOrderly _ _ refl refl)
        λ result. Keeps-lift (raise_for_error client (codes "subscribe") result)

  taken-IsOrderly :
      (es : List TransportEvent) (s : PahoTransport) → IsOrderly s → IsOrderly (taken es s).1
  unfolding taken
  taken-IsOrderly [] s h = h
  taken-IsOrderly (e ∷ es) s h = record {
    paired = h.paired;
    once = h.once;
    open_until = h.open_until;
    looping = h.looping;
    started = h.started;
  }

  put-IsOrderly : (e : TransportEvent) (s : PahoTransport) → IsOrderly s → IsOrderly (put e s)
  unfolding put
  put-IsOrderly e s h = record {
    paired = h.paired;
    once = h.once;
    open_until = h.open_until;
    looping = h.looping;
    started = h.started;
  }

  perform-IsOrderly :
      (a : Action) (s : PahoTransport) → IsOrderly s → IsOrderly (perform client a s)
  unfolding perform next_event on_connect on_disconnect on_message
  perform-IsOrderly connecting s h = connect-IsOrderly.at s h
  perform-IsOrderly disconnecting s h = disconnect-IsOrderly.at s h
  perform-IsOrderly taking s h = taken-IsOrderly s.events s h
  perform-IsOrderly (subscribing topic qos) s h = (subscribe_to-IsOrderly topic qos).at s h
  perform-IsOrderly (publishing p) s h = (publish_message-IsOrderly p).at s h
  perform-IsOrderly (delivering p t) s h = (publish_and_wait-IsOrderly p t).at s h
  perform-IsOrderly (told_connect f reason) s h = put-IsOrderly _ s h
  perform-IsOrderly (told_disconnect f reason) s h = put-IsOrderly _ s h
  perform-IsOrderly (told_message none) s h = h
  perform-IsOrderly (told_message (some m)) s h = put-IsOrderly _ s h

  run-IsOrderly_from :
      (actions : List Action) (s : PahoTransport) → IsOrderly s → IsOrderly (run client actions s).1
  unfolding run
  run-IsOrderly_from [] s h = h
  run-IsOrderly_from (a ∷ actions) s h =
      run-IsOrderly_from actions (perform client a s) (perform-IsOrderly a s h)

  authenticate-IsOrderly :
      (credentials : Option MqttCredentials) → Keeps IsOrderly (authenticate client credentials)
  unfolding authenticate do_call stops_by leaves_by
  authenticate-IsOrderly none = Keeps-pure tt
  authenticate-IsOrderly (some c) = ask-IsOrderly _ _ refl refl

  initialise-IsOrderly :
      (settings : MqttSettings) (credentials : Option MqttCredentials) (will : Publish)
      (client_id : Text)
      → IsOrderly (initialise client settings credentials will client_id).1
  unfolding initialise do_call stops_by leaves_by total
  initialise-IsOrderly settings credentials will client_id =
      (Keeps-bind (do_call client (create_client client_id)) _ (ask-IsOrderly _ _ refl refl) λ _.
          Keeps-bind (lift (raise_if (not client.is_client) (python type_error))) _ (Keeps-lift _)
            λ _.
              Keeps-bind (authenticate client credentials) _ (authenticate-IsOrderly credentials)
                λ _.
                  Keeps-bind (when settings.tls (do_call client tls_set)) _
                    (Keeps-when settings.tls (do_call client tls_set) (ask-IsOrderly _ _ refl refl))
                    λ _. ask-IsOrderly (will_set will) _ refl refl).at
        (fresh client settings)
        (record {
          paired = refl;
          once = omega arith;
          open_until = λ q. refl;
          looping = λ q. cc;
          started = λ q. absurd (omega (arith, q));
        })

  -- From its construction on, whatever the interleaving of the two threads and the answers of the
  -- client, the client is disconnected and the loop stopped the same number of times, once at
  -- most, only behind a start of the loop, and only once the transport is disconnected.
  pub run-IsOrderly :
      (settings : MqttSettings) (credentials : Option MqttCredentials) (will : Publish)
      (client_id : Text) (actions : List Action)
      → IsOrderly (run client actions (initialise client settings credentials will client_id).1).1
  run-IsOrderly settings credentials will client_id actions =
      run-IsOrderly_from actions _ (initialise-IsOrderly settings credentials will client_id)
