-- ===== src/Tests/RuntimeTests.antt =====
-- The runtime at concrete inputs: a message that turns the simulated device on, a connection and
-- its snapshot, a whole run, and the shutdown.
use smartenit_rescue.Prelude.{
  ℕ, ◌+◌, ◌≤◌, true, false, ◌≡◌, refl, Option, none, some, List, [], ◌∷◌, arith, length,
  if◌then◌else◌,
}
use smartenit_rescue.Prelude.Result.{ok}
use smartenit_rescue.Prelude.Text.{codes, has, text_beq}
use smartenit_rescue.Prelude.Dict.{lookup}
use smartenit_rescue.Models.Identity.{device_eq}
use smartenit_rescue.Models.State.{offline, make_command}
use smartenit_rescue.Backends.Simulator.{availability_of, observation}
use smartenit_rescue.Mqtt.Events.{TransportEvent, connected, message, disconnected}
use smartenit_rescue.Mqtt.Topics.{command_topic, decode_on_off}
use smartenit_rescue.Mqtt.Topics.RoundTrip.{parse_command_topic-command_topic}
use smartenit_rescue.Runtime.Publishing.{snapshot_device, publish_snapshot, prepare_snapshot}
use smartenit_rescue.Runtime.Loop.{handle_message, handle_event, run, close}
use smartenit_rescue.Runtime.Commands.{submitted}
use smartenit_rescue.Runtime.Commands.Gate.{
  IsAllowed, Gated, handle_message_submits, handle_message_gate,
}
use smartenit_rescue.Runtime.Commands.NoReplay.{handle_event_quiet, run_count}
use smartenit_rescue.Runtime.Connection.{Tracks, run-Tracks}
use smartenit_rescue.Runtime.Shutdown.{IsShutDown, close-IsShutDown, close_again}
use smartenit_rescue.Runtime.Snapshot.{OpensLast, opening, publish_snapshot-OpensLast}
use smartenit_rescue.Runtime.Snapshot.Completeness.{all_ready, snapshot_device_availability}
use smartenit_rescue.Tests.Fixtures.{
  device, address, runtime_device, is_up, sim, topics, config, world, backend, bridge, command_on,
  message_on,
}
use smartenit_rescue.Tests.TopicTests.{device-IsCanonical, address-IsAddress, prefix-IsPlain}

message_on-IsAllowed : IsAllowed backend world config message_on bridge address true
unfolding text_beq availability_of lookup decode_on_off command_topic
    smartenit_rescue.Prelude.Decimal.show smartenit_rescue.Models.Capability.capability_text
    smartenit_rescue.Backends.Base.address_beq smartenit_rescue.Models.Capability.capability_beq
message_on-IsAllowed = record {
  not_status = refl;
  not_retained = refl;
  at_least_once = refl;
  address = parse_command_topic-command_topic topics address prefix-IsPlain address-IsAddress;
  writable = refl;
  online = refl;
  payload = refl;
}

handle_message_submits_example :
    submitted (handle_message backend world config message_on bridge).1.trace ≡ command_on ∷ []
unfolding make_command smartenit_rescue.Prelude.Text.is_space
handle_message_submits_example =
    handle_message_submits backend world config message_on bridge address true command_on
      message_on-IsAllowed refl

handle_message_gate_example :
    Gated backend world config message_on bridge
      (handle_message backend world config message_on bridge).1
handle_message_gate_example = handle_message_gate backend world config message_on bridge

handle_event_quiet_example :
    submitted (handle_event backend world config (some connected) bridge).1.trace ≡ []
handle_event_quiet_example = handle_event_quiet backend world config (some connected) bridge refl

abbrev events : List (Option TransportEvent)
events = some connected ∷ none ∷ some (message message_on) ∷ some (disconnected none) ∷ []

run_count_example : length (submitted (run backend world config events none bridge).1.trace) ≤ 0 + 1
run_count_example = run_count backend world config events none bridge

run-Tracks_example : Tracks backend world config bridge events none
run-Tracks_example = run-Tracks backend world config events none bridge

close-IsShutDown_example :
    IsShutDown backend world config bridge (close backend world config bridge).1
close-IsShutDown_example = close-IsShutDown backend world config bridge refl

close_again_example :
    close backend world config (close backend world config bridge).1
    ≡ (ok tt, (close backend world config bridge).1)
close_again_example = close_again backend world config bridge refl

publish_snapshot-OpensLast_example :
    let (y, r') = publish_snapshot backend world config bridge in
    OpensLast backend world config bridge r'
    × (y ≡ ok tt
        → r'.trace
          ≡ opening backend world config ∷ (prepare_snapshot backend world config bridge).1.trace)
publish_snapshot-OpensLast_example =
    publish_snapshot-OpensLast backend world config bridge (device-IsCanonical, tt)

snapshot_device_availability_example :
    lookup device
      (snapshot_device backend world config runtime_device bridge).1.published_availability
    ≡ some (
        if all_ready backend world config device config.capability_modes sim
        then is_up.state
        else offline)
unfolding availability_of lookup text_beq snapshot_device observation
    smartenit_rescue.Backends.Base.address_beq smartenit_rescue.Models.Capability.capability_beq
    smartenit_rescue.Runtime.Publishing.publish_observation
    smartenit_rescue.Runtime.Publishing.call_transport
    smartenit_rescue.Runtime.Publishing.publish_availability
snapshot_device_availability_example =
    snapshot_device_availability backend world config runtime_device bridge is_up sim refl refl
