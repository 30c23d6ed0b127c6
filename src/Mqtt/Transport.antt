-- ===== src/Mqtt/Transport.antt =====
-- mqtt/transport.py: the transport over a Paho client. The client is an argument: its answers may
-- depend on the calls before. A callback of its thread is an operation of its own, so that a
-- sequence of operations is one interleaving of the two threads.
pub mod Delivery
pub mod Lifecycle
use smartenit_rescue.Prelude.Text.{text_eq, codes}
use smartenit_rescue.Prelude.Number.{Float}
use smartenit_rescue.Prelude.Result.{
  type_error, value_error, runtime_error, transport, raise_if, python, attempted, ok, err, Text,
  Result, Attempt,
}
use smartenit_rescue.Prelude.Exec.{when, lift, modify, finally, pure, gets, Exec, ◌>>=◌, ◌>>◌}
use smartenit_rescue.Prelude.{
  not, contains, ◌&&◌, ℕ, zero, suc, List, [], ◌∷◌, ◌++◌, Option, none, some, Bool, true, false,
  if◌then◌else◌,
}
use smartenit_rescue.Config.Settings.{MqttSettings, MqttCredentials}
use smartenit_rescue.Mqtt.Events.{connected, message, Publish, Message, TransportEvent}

-- `MQTTErrorCode`
pub data ErrorCode : Type 0 where
  success : ErrorCode
  failure : ℕ → ErrorCode

-- A call of the client.
pub data PahoCall : Type 0 where
  create_client : Text → PahoCall
  username_pw_set : Text → Text → PahoCall
  tls_set loop_start loop_stop is_published : PahoCall
  will_set publish : Publish → PahoCall
  -- host, port and keepalive; always a clean start, with a session that ends with its connection
  connect_to : Text → ℕ → ℕ → PahoCall
  subscribe : Text → ℕ → PahoCall
  wait_for_publish : Float → PahoCall
  disconnect_client : PahoCall

-- The answers of the client, by the calls before, newest first.
pub record Client : Type 0 where
  -- does the factory return a client?
  pub is_client : Bool
  -- an answer that is not read
  pub done : List PahoCall → PahoCall → Attempt (Unit {0})
  -- an answer that is a code
  pub coded : List PahoCall → PahoCall → Attempt ErrorCode
  pub published : List PahoCall → Attempt Bool
  pub error_string : ErrorCode → Text

-- the attributes of `PahoTransport`, with the calls of its client
pub record PahoTransport : Type 0 where
  pub settings : MqttSettings
  -- oldest first
  pub events : List TransportEvent
  pub loop_started : Bool
  pub disconnected : Bool
  pub calls : List PahoCall

-- A call with its answer.
unfoldable pub ask : {A : Type 0} → PahoCall → (List PahoCall → Attempt A) → Exec PahoTransport A
ask c answer s = (attempted (answer s.calls), record s { calls = c ∷ s.calls })

module _ (client : Client) where
  do_call : PahoCall → Exec PahoTransport (Unit {0})
  do_call c = ask c (λ calls. client.done calls c)

  code_of : PahoCall → Exec PahoTransport ErrorCode
  code_of c = ask c (λ calls. client.coded calls c)

  -- `_raise_for_error`
  unfoldable pub raise_for_error : Text → ErrorCode → Result (Unit {0})
  raise_for_error operation success = ok tt
  raise_for_error operation code =
      err (
        transport (codes "MQTT " ++ (operation ++ (codes " failed: " ++ client.error_string code))))

  authenticate : Option MqttCredentials → Exec PahoTransport (Unit {0})
  unfolding do_call
  authenticate none = pure tt
  authenticate (some c) = do_call (username_pw_set c.username c.password)

  abbrev fresh : MqttSettings → PahoTransport
  fresh settings = record {
    settings = settings;
    events = [];
    loop_started = false;
    disconnected = false;
    calls = [];
  }

  -- `PahoTransport.__init__`
  unfoldable pub initialise :
      MqttSettings → Option MqttCredentials → Publish → Text → Result (Unit {0}) × PahoTransport
  unfolding authenticate do_call
  initialise settings credentials will client_id =
      (do
        do_call (create_client client_id)
        lift (raise_if (not client.is_client) (python type_error))
        authenticate credentials
        when settings.tls (do_call tls_set)
        do_call (will_set will))
        (fresh settings)

  -- `connect`
  unfoldable pub connect : Exec PahoTransport (Unit {0})
  unfolding code_of
  connect = do
    settings ← gets (λ s. s.settings)
    result ← code_of (connect_to settings.host settings.port settings.keepalive_seconds)
    lift (raise_for_error (codes "connect") result)
    started ← code_of loop_start
    lift (raise_for_error (codes "loop start") started)
    modify (λ s. record s { loop_started = true })

  -- `subscribe`
  unfoldable pub subscribe_to : Text → ℕ → Exec PahoTransport (Unit {0})
  unfolding code_of
  subscribe_to topic qos = do
    result ← code_of (subscribe topic qos)
    lift (raise_for_error (codes "subscribe") result)

  -- `publish` and `_publish`
  unfoldable pub publish_message : Publish → Exec PahoTransport (Unit {0})
  unfolding code_of
  publish_message publication = do
    result ← code_of (publish publication)
    lift (raise_for_error (codes "publish") result)

  -- `except (RuntimeError, ValueError)`
  unfoldable pub as_delivery_failure : {A : Type 0} → Exec PahoTransport A → Exec PahoTransport A
  as_delivery_failure m s = let (r, s') = m s in (delivery r, s')
    where
      delivery : {A : Type 0} → Result A → Result A
      delivery (err (python runtime_error)) = err (transport (codes "MQTT publish delivery failed"))
      delivery (err (python value_error)) = err (transport (codes "MQTT publish delivery failed"))
      delivery r = r

  -- `publish_and_wait`
  unfoldable pub publish_and_wait : Publish → Float → Exec PahoTransport (Unit {0})
  unfolding do_call
  publish_and_wait publication timeout = do
    publish_message publication
    delivered ←
        as_delivery_failure
          (do do_call (wait_for_publish timeout); ask is_published client.published)
    lift (raise_if (not delivered) (transport (codes "MQTT publish delivery timed out")))

  stop : Bool → Exec PahoTransport (Unit {0})
  unfolding do_call
  stop false = pure tt
  stop true = finally (do_call disconnect_client) (do_call loop_stop)

  leave : Bool → Exec PahoTransport (Unit {0})
  unfolding stop
  leave true = pure tt
  leave false = do
    modify (λ s. record s { disconnected = true })
    started ← gets (λ s. s.loop_started)
    stop started

  -- `disconnect`
  unfoldable pub disconnect : Exec PahoTransport (Unit {0})
  unfolding leave
  disconnect s = leave s.disconnected s

-- `self._events.put(event)`
unfoldable pub put : TransportEvent → PahoTransport → PahoTransport
put event s = record s { events = s.events ++ event ∷ [] }

-- `_on_connect`, by whether the reason code is a failure, and its text
unfoldable pub on_connect : Bool → Text → PahoTransport → PahoTransport
on_connect is_failure reason s =
    put
      (if is_failure
        then disconnected_by (codes "MQTT connection refused: " ++ reason)
        else connected)
      s
  where
    disconnected_by : Text → TransportEvent
    disconnected_by t = TransportEvent.disconnected (some t)

-- `_on_disconnect`, by whether the server sent the packet, and the text of the reason code
unfoldable pub on_disconnect : Bool → Text → PahoTransport → PahoTransport
on_disconnect from_server reason s =
    put
      (TransportEvent.disconnected (
        if from_server
          && contains reason (codes "Not authorized" ∷ codes "Bad authentication method" ∷ [])
        then some (codes "MQTT disconnected: " ++ reason)
        else none))
      s

-- `_on_message`, where `none` is what is no incoming message
unfoldable pub on_message : Option Message → PahoTransport → PahoTransport
on_message none s = s
on_message (some m) s = put (message m) s

-- `next_event`, at the moment at which it takes an event or its time, which is not negative, is
-- over. While it waits, operations of the other thread come before that moment.
taken : List TransportEvent → PahoTransport → Option TransportEvent × PahoTransport
taken [] s = (none, s)
taken (e ∷ es) s = (some e, record s { events = es })

unfoldable pub next_event : PahoTransport → Option TransportEvent × PahoTransport
unfolding taken
next_event s = taken s.events s
