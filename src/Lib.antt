-- ===== src/Lib.antt =====
-- Smartenit Rescue: a verification library.
--
-- The program bridges Smartenit devices to Home Assistant over MQTT. One runtime owns a transport
-- and a backend. It subscribes to the command topics of the writable capabilities, publishes a
-- snapshot of all devices on every connection, turns an accepted message into one command of the
-- backend, and publishes what came of it.
--
--   Prelude      shared notation, results, actions that pass a state, texts, dictionaries, numbers.
--                A text is a list of codes. `Result` has a constructor of `Error` for each class
--                of errors that the program raises, with `python` for the exceptions of Python's
--                own, and `Attempt` is the answer of a call that leaves the program. `Exec S A` is
--                an action on a mutable object that returns or raises and keeps the changes it made
--                before it raised; Exec/Keeps, Exec/Returns and Exec/Ends have one rule for each way
--                to build an action.
--   Models       src/smartenit_rescue/models: identities, devices, observations, commands.
--   Profiles     src/smartenit_rescue/profiles/{model,loader}.py: profiles and the matching of them.
--   Config       src/smartenit_rescue/config.py: `load_config` with its checks, from the text of the
--                file, and `load_credentials` (Config/Credentials). The parsers of TOML and of
--                addresses are functions of `Environment`.
--   Backends     src/smartenit_rescue/backends. `Base` has the interface `Backend`, which `Runtime`
--                takes as an argument; `Simulator` and `HarmonyG2.Controller` implement it.
--                In `HarmonyG2` the clock, the gateway and the stored session are the functions of
--                `Gateway`, which see all the calls that were made before.
--   HarmonyG2.Transport  src/smartenit_rescue/backends/harmony_g2/transport.py. The checks of what
--                it is made with and asked stand in Transport, the bounds on JSON in Transport/Json,
--                a request over the pinned connection in Transport/Pinned. The files below prove
--                which routes and JSON values it accepts and when it writes a request.
--   HarmonyG2.Session  src/smartenit_rescue/backends/harmony_g2/session.py: a session and its
--                renewal; Session/Store loads the file and Session/Saving replaces it, both over
--                the calls of the operating system that `Files` answers.
--   Mqtt         src/smartenit_rescue/mqtt/{topics,discovery}.py. `Events` has the events and the
--                publications of mqtt/transport.py, `Transport` the transport over a Paho client.
--                A callback of the client's thread is an operation of its own, so that a list of
--                operations is one interleaving of the two threads.
--   Runtime      src/smartenit_rescue/runtime.py. A `Runtime` is the mutable state of `BridgeRuntime`
--                with the trace of its calls, newest first; `World` is what its calls are answered
--                with, and a run takes the list of the events that its transport delivers.
--                Runtime/Preserved has what its functions preserve, Runtime/Connection the connection.
--   Tests        concrete inputs.
--
-- Bounds and fuel: the only loop that is not over a list or a value is the one over the pages of the
-- G2 inventory. It has 100 steps left at its start, which is the bound that the source gives it.
-- JSON is read to the depth of 32 and to 10000 items, as in the source. Instants are microseconds
-- since the year 1, as natural numbers, with their zone beside them.
--
-- Arguments: the network below `http.client` (`Network`), the Paho client (`Client`), the operating
-- system (`Files`), the clocks, the hash, the arithmetic of floats, TOML, JSON and ISO formatting.
-- What the first three answer may depend on all the calls before. No law is assumed of any of them
-- but where a theorem names it.
--
-- Not modelled: logging; the arguments, the signals and the composition in cli.py; the validation of
-- profile files, which applies a JSON schema by a library and then builds the records; the two types
-- of models that nothing uses, BackendBinding and BridgeAvailability; and scripts/, which check the
-- source tree and releases and are no part of the bridge. Arguments that the source types are typed
-- here, so its tests for values of another type are not there, unless the value comes from a file,
-- the network or a caller of the gateway's transport.
pub mod Prelude
pub mod Models
pub mod Profiles
pub mod Config
pub mod Backends
pub mod Mqtt
pub mod Runtime
mod Tests
