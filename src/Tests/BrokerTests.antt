-- ===== src/Tests/BrokerTests.antt =====
-- The transport of the broker and its credentials at concrete inputs.
use smartenit_rescue.Prelude.Result.{validation, returned, err, ok}
use smartenit_rescue.Prelude.Text.{codes, text_eq}
use smartenit_rescue.Prelude.{ℕ, ◌≡◌, refl, true, false, none, some, List, [], ◌∷◌, Option}
use smartenit_rescue.Config.Credentials.{load_credentials, read_credential}
use smartenit_rescue.Config.Settings.{MqttSettings}
use smartenit_rescue.Mqtt.Events.{disconnected, message, connected, Message, Publish}
use smartenit_rescue.Mqtt.Transport.Lifecycle.{run-IsOrderly, IsOrderly}
use smartenit_rescue.Mqtt.Transport.Delivery.{
  disconnecting, told_disconnect, told_message, run-serve, taking, queue_ops, serve, told_connect,
  run, connecting, Action,
}
use smartenit_rescue.Mqtt.Transport.{success, initialise, PahoTransport, Client}

-- A client that accepts every call, and one whose loop does not start.
abbrev client : Client
client = record {
  is_client = true;
  done = λ _ _. returned tt;
  coded = λ _ _. returned success;
  published = λ _. returned true;
  error_string = λ _. codes "error";
}

abbrev settings : MqttSettings
settings = record {
  host = codes "broker";
  port = 1883;
  keepalive_seconds = 60;
  tls = true;
  username_file = none;
  password_file = none;
}

abbrev will : Publish
will = record {
  topic = codes "bridge/availability";
  payload = codes "offline";
  qos = 1;
  retain = true;
}

abbrev hello : Message
hello = record { topic = codes "t"; payload = codes "ON"; qos = 1; retain = false }

abbrev made : PahoTransport
made = (initialise client settings none will (codes "bridge")).1

abbrev interleaving : List Action
interleaving =
    connecting
    ∷ told_connect false (codes "Success")
    ∷ taking
    ∷ told_message (some hello)
    ∷ told_disconnect true (codes "Not authorized")
    ∷ taking
    ∷ disconnecting
    ∷ taking
    ∷ disconnecting
    ∷ taking
    ∷ []

run-serve_example :
    ((run client interleaving made).0, (run client interleaving made).1.events)
    ≡ serve made.events (queue_ops interleaving)
run-serve_example = run-serve client interleaving made

run-IsOrderly_example :
    IsOrderly (run client interleaving (initialise client settings none will (codes "bridge")).1).1
run-IsOrderly_example = run-IsOrderly client settings none will (codes "bridge") interleaving

replies :
    (run client interleaving made).0
    ≡ some connected
      ∷ some (message hello)
      ∷ some (disconnected (some (codes "MQTT disconnected: Not authorized")))
      ∷ none
      ∷ []
unfolding run smartenit_rescue.Mqtt.Transport.Delivery.reply
    smartenit_rescue.Mqtt.Transport.next_event smartenit_rescue.Mqtt.Transport.Delivery.perform
    smartenit_rescue.Mqtt.Transport.on_connect smartenit_rescue.Mqtt.Transport.on_disconnect
    smartenit_rescue.Mqtt.Transport.disconnect smartenit_rescue.Mqtt.Transport.put
    smartenit_rescue.Mqtt.Transport.connect smartenit_rescue.Mqtt.Transport.ask
    smartenit_rescue.Mqtt.Transport.raise_for_error initialise
    smartenit_rescue.Mqtt.Transport.on_message smartenit_rescue.Prelude.Text.text_beq
replies = refl

one_ending :
    read_credential (λ _. some (codes "user\r\n")) (codes "p") (codes "f") ≡ ok (codes "user")
unfolding read_credential smartenit_rescue.Config.Credentials.without_ending
    smartenit_rescue.Prelude.Text.is_space
one_ending = refl

unpaired :
    load_credentials (λ _. none) (record settings { username_file = some (codes "u") })
    ≡ err (validation (codes "mqtt: username_file and password_file must be configured together"))
unfolding load_credentials
unpaired = refl
