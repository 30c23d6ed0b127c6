-- ===== src/Mqtt/Transport/Delivery.antt =====
-- The events of a transport, against a queue.
use smartenit_rescue.Prelude.Text.{text_eq, codes}
use smartenit_rescue.Prelude.Number.{Float}
use smartenit_rescue.Prelude.Result.{Attempt, Text}
use smartenit_rescue.Prelude.Exec.{modify, lift, gets, Exec}
use smartenit_rescue.Prelude.Exec.Keeps.{
  Keeps-finally, Keeps-pure, Keeps-modify, Keeps-lift, Keeps-gets, Keeps-bind, Keeps,
}
use smartenit_rescue.Prelude.{
  sym, ◌∙◌, ap, contains, ◌&&◌, ℕ, List, [], ◌∷◌, ◌++◌, Option, none, some, Bool, true, false,
  if◌then◌else◌, ◌≡◌, refl,
}
use smartenit_rescue.Mqtt.Transport.{
  put, is_published, wait_for_publish, subscribe, taken, leave, do_call, as_delivery_failure, stop,
  publish, loop_start, raise_for_error, on_message, on_disconnect, on_connect, publish_and_wait,
  code_of, publish_message, PahoCall, next_event, connect, PahoTransport, subscribe_to, ask,
  disconnect, Client,
}
use smartenit_rescue.Mqtt.Events.{
  Message, connected, Publish, disconnected, message, TransportEvent,
}

-- What the two threads do with a transport.
pub data Action : Type 0 where
  connecting disconnecting taking : Action
  subscribing : Text → ℕ → Action
  publishing : Publish → Action
  delivering : Publish → Float → Action
  told_connect told_disconnect : Bool → Text → Action
  told_message : Option Message → Action

-- What is asked of a queue of events.
pub data Op : Type 0 where
  post : TransportEvent → Op
  take : Op

-- A queue that never drops, doubles or swaps an event, oldest first, with its replies.
unfoldable pub serve :
    List TransportEvent → List Op → List (Option TransportEvent) × List TransportEvent
serve q [] = ([], q)
serve q (post e ∷ ops) = serve (q ++ e ∷ []) ops
serve [] (take ∷ ops) = let (r, q') = serve [] ops in (none ∷ r, q')
serve (e ∷ q) (take ∷ ops) = let (r, q') = serve q ops in (some e ∷ r, q')

-- The event that a refused connection makes, or a connection that was made.
abbrev pub connect_event : Bool → Text → TransportEvent
connect_event true reason = disconnected (some (codes "MQTT connection refused: " ++ reason))
connect_event false reason = connected

-- The event of a lost connection: it has a reason only if the server refused the credentials.
abbrev pub disconnect_event : Bool → Text → TransportEvent
disconnect_event from_server reason = disconnected (
    if from_server
      && contains reason (codes "Not authorized" ∷ codes "Bad authentication method" ∷ [])
    then some (codes "MQTT disconnected: " ++ reason)
    else none)

-- The part of an action that a queue sees, before further ones.
unfoldable pub with_ops : Action → List Op → List Op
with_ops taking ops = take ∷ ops
with_ops (told_connect f reason) ops = post (connect_event f reason) ∷ ops
with_ops (told_disconnect f reason) ops = post (disconnect_event f reason) ∷ ops
with_ops (told_message (some m)) ops = post (message m) ∷ ops
with_ops _ ops = ops

unfoldable pub queue_ops : List Action → List Op
queue_ops [] = []
queue_ops (a ∷ actions) = with_ops a (queue_ops actions)

module _ (client : Client) where
  -- An action, with the replies of `next_event` before further ones.
  unfoldable pub perform : Action → PahoTransport → PahoTransport
  perform connecting s = (connect client s).1
  perform disconnecting s = (disconnect client s).1
  perform taking s = (next_event s).1
  perform (subscribing topic qos) s = (subscribe_to client topic qos s).1
  perform (publishing p) s = (publish_message client p s).1
  perform (delivering p t) s = (publish_and_wait client p t s).1
  perform (told_connect f reason) s = on_connect f reason s
  perform (told_disconnect f reason) s = on_disconnect f reason s
  perform (told_message m) s = on_message m s

  unfoldable pub reply :
      Action → PahoTransport → List (Option TransportEvent) → List (Option TransportEvent)
  reply taking s rest = (next_event s).0 ∷ rest
  reply _ s rest = rest

  unfoldable pub run : List Action → PahoTransport → List (Option TransportEvent) × PahoTransport
  run [] s = ([], s)
  run (a ∷ actions) s = let (r, s') = run actions (perform a s) in (reply a s r, s')

  -- The operations that ask the client leave the queue alone.
  abbrev pub HasEvents : List TransportEvent → PahoTransport → Type 0
  HasEvents es s = s.events ≡ es

  module _ (es : List TransportEvent) where
    ask-HasEvents :
        {A : Type 0} (c : PahoCall) (answer : List PahoCall → Attempt A)
        → Keeps (HasEvents es) (ask c answer)
    unfolding ask
    ask-HasEvents c answer = record { at = λ s h. h }

    connect-HasEvents : Keeps (HasEvents es) (connect client)
    unfolding connect code_of
    connect-HasEvents =
        Keeps-bind (gets (λ (s : PahoTransport). s.settings)) _
          (Keeps-gets (λ (s : PahoTransport). s.settings))
          λ settings. Keeps-bind (code_of client _) _ (ask-HasEvents _ _) λ result.
            Keeps-bind (lift (raise_for_error client (codes "connect") result)) _ (Keeps-lift _)
              λ _. Keeps-bind (code_of client loop_start) _ (ask-HasEvents _ _) λ started.
                Keeps-bind (lift (raise_for_error client (codes "loop start") started)) _
                  (Keeps-lift _)
                  λ _.
                    Keeps-modify (λ (s : PahoTransport). record s { loop_started = true })
                      (λ s h. h)

    stop-HasEvents : (started : Bool) → Keeps (HasEvents es) (stop client started)
    unfolding stop do_call
    stop-HasEvents false = Keeps-pure tt
    stop-HasEvents true = Keeps-finally _ _ (ask-HasEvents _ _) (ask-HasEvents _ _)

    leave-HasEvents : (left : Bool) → Keeps (HasEvents es) (leave client left)
    unfolding leave
    leave-HasEvents true = Keeps-pure tt
    leave-HasEvents false =
        Keeps-bind (modify (λ (s : PahoTransport). record s { disconnected = true })) _
          (Keeps-modify (λ (s : PahoTransport). record s { disconnected = true }) (λ s h. h))
          λ _.
            Keeps-bind (gets (λ (s : PahoTransport). s.loop_started)) _
              (Keeps-gets (λ (s : PahoTransport). s.loop_started)) λ started. stop-HasEvents started

    disconnect-HasEvents : Keeps (HasEvents es) (disconnect client)
    unfolding disconnect
    disconnect-HasEvents = record { at = λ s h. (leave-HasEvents s.disconnected).at s h }

    publish_message-HasEvents : (p : Publish) → Keeps (HasEvents es) (publish_message client p)
    unfolding publish_message code_of
    publish_message-HasEvents p =
        Keeps-bind (code_of client (publish p)) _ (ask-HasEvents _ _)
          λ result. Keeps-lift (raise_for_error client (codes "publish") result)

    failure-HasEvents :
        {A : Type 0} (m : Exec PahoTransport A)
        → Keeps (HasEvents es) m
        → Keeps (HasEvents es) (as_delivery_failure client m)
    unfolding as_delivery_failure
    failure-HasEvents m k = record { at = k.at }

    publish_and_wait-HasEvents :
        (p : Publish) (t : Float) → Keeps (HasEvents es) (publish_and_wait client p t)
    unfolding publish_and_wait do_call
    publish_and_wait-HasEvents p t =
        Keeps-bind (publish_message client p) _ (publish_message-HasEvents p) λ _.
          Keeps-bind (as_delivery_failure client _) _
            (failure-HasEvents _ (
              Keeps-bind (do_call client (wait_for_publish t)) _ (ask-HasEvents _ _)
                λ _. ask-HasEvents is_published client.published))
            λ delivered. Keeps-lift _

    subscribe_to-HasEvents :
        (topic : Text) (qos : ℕ) → Keeps (HasEvents es) (subscribe_to client topic qos)
    unfolding subscribe_to code_of
    subscribe_to-HasEvents topic qos =
        Keeps-bind (code_of client (subscribe topic qos)) _ (ask-HasEvents _ _)
          λ result. Keeps-lift (raise_for_error client (codes "subscribe") result)

  -- The queue behind an action, and the replies with those of further actions.
  abbrev Serves : Action → PahoTransport → Type 0
  Serves a s =
      (ops : List Op)
      → serve s.events (with_ops a ops)
        ≡ (let (r, q) = serve (perform a s).events ops in (reply a s r, q))

  taking-Serves :
      (es : List TransportEvent) (s : PahoTransport) (ops : List Op)
      → s.events ≡ es
      → serve es (take ∷ ops)
        ≡ (let (r, q) = serve (taken es s).1.events ops in ((taken es s).0 ∷ r, q))
  unfolding serve taken
  taking-Serves [] s ops e = rw e refl
  taking-Serves (x ∷ es) s ops e = refl

  on_connect-events :
      (f : Bool) (reason : Text) (s : PahoTransport)
      → (on_connect f reason s).events ≡ s.events ++ connect_event f reason ∷ []
  unfolding on_connect put
  on_connect-events true reason s = refl
  on_connect-events false reason s = refl

  perform-Serves : (a : Action) (s : PahoTransport) → Serves a s
  unfolding with_ops perform reply serve next_event on_disconnect on_message put
  perform-Serves connecting s ops = rw ((connect-HasEvents s.events).at s refl) refl
  perform-Serves disconnecting s ops = rw ((disconnect-HasEvents s.events).at s refl) refl
  perform-Serves taking s ops = taking-Serves s.events s ops refl
  perform-Serves (subscribing topic qos) s ops =
      rw ((subscribe_to-HasEvents s.events topic qos).at s refl) refl
  perform-Serves (publishing p) s ops = rw ((publish_message-HasEvents s.events p).at s refl) refl
  perform-Serves (delivering p t) s ops =
      rw ((publish_and_wait-HasEvents s.events p t).at s refl) refl
  perform-Serves (told_connect f reason) s ops = rw (on_connect-events f reason s) refl
  perform-Serves (told_disconnect f reason) s ops = refl
  perform-Serves (told_message none) s ops = refl
  perform-Serves (told_message (some m)) s ops = refl

  -- Whatever the interleaving and the answers of the client, the replies of `next_event` and the
  -- events that are left are those of the queue.
  pub run-serve :
      (actions : List Action) (s : PahoTransport)
      → ((run actions s).0, (run actions s).1.events) ≡ serve s.events (queue_ops actions)
  unfolding run queue_ops serve
  run-serve [] s = refl
  run-serve (a ∷ actions) s =
      ap (λ p. (reply a s p.0, p.1)) (run-serve actions (perform a s))
      ∙ sym (perform-Serves a s (queue_ops actions))
