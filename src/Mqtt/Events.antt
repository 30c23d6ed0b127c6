-- ===== src/Mqtt/Events.antt =====
-- mqtt/transport.py: what a transport delivers and what it is given.
use smartenit_rescue.Prelude.{ℕ, Bool, Option}
use smartenit_rescue.Prelude.Result.{Text}

pub record Message : Type 0 where
  pub topic : Text
  pub payload : Text
  pub qos : ℕ
  pub retain : Bool

pub data TransportEvent : Type 0 where
  connected : TransportEvent
  disconnected : Option Text → TransportEvent
  message : Message → TransportEvent

pub record Publish : Type 0 where
  pub topic : Text
  pub payload : Text
  pub qos : ℕ
  pub retain : Bool
