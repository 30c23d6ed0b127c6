-- ===== src/Runtime/Shutdown.antt =====
-- The shutdown: what `close` does on every path.
use smartenit_rescue.Prelude.{true, false, ◌&&◌, ◌≡◌, List, ◌∷◌, arith, if◌then◌else◌}
use smartenit_rescue.Prelude.Result.{ok}
use smartenit_rescue.Prelude.Text.{codes}
use smartenit_rescue.Backends.Base.{Backend}
use smartenit_rescue.Mqtt.Topics.{bridge_availability}
use smartenit_rescue.Runtime.{
  Effect, disconnect, close_backend, publish_and_wait, World, Config, Runtime,
}
use smartenit_rescue.Runtime.Publishing.{call_transport, retained}
use smartenit_rescue.Runtime.Loop.{close}

module _ (b : Backend) (w : World) (c : Config) where
  -- The calls of a shutdown, newest first.
  abbrev pub shutdown_trace : Runtime b.State → List Effect
  shutdown_trace r =
      disconnect
      ∷ close_backend
      ∷ (if r.is_connected && w.has_delivery
          then publish_and_wait (retained (bridge_availability c.topics) (codes "offline"))
            ∷ r.trace
          else r.trace)

  pub record IsShutDown (r r' : Runtime b.State) : Type 0 where
    pub closed : r'.is_closed ≡ true
    pub calls : r'.trace ≡ shutdown_trace r
    pub backend : r'.backend ≡ (b.close r.backend).1

  -- Whatever the transport and the backend answer, the first `close` closes the backend and then
  -- disconnects the transport, after the offline publication of a connected bridge.
  pub close-IsShutDown :
      (r : Runtime b.State) → r.is_closed ≡ false → IsShutDown r (close b w c r).1
  unfolding close call_transport
  close-IsShutDown r h = record {
    closed = ground arith;
    calls = ground arith;
    backend = ground arith;
  }

  -- A second `close` returns and does nothing.
  pub close_again :
      (r : Runtime b.State)
      → r.is_closed ≡ false
      → close b w c (close b w c r).1 ≡ (ok tt, (close b w c r).1)
  unfolding close
  close_again r h = ground (arith, (close-IsShutDown r h).closed)
