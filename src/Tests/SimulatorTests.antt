-- ===== src/Tests/SimulatorTests.antt =====
-- The simulator at concrete inputs.
use smartenit_rescue.Prelude.{false, ◌≡◌, refl, ap, subst, true, List, [], ◌∷◌}
use smartenit_rescue.Prelude.Result.{ok}
use smartenit_rescue.Prelude.Text.{codes}
use smartenit_rescue.Models.State.{confirmed}
use smartenit_rescue.Config.Settings.{SimulatorDeviceSettings}
use smartenit_rescue.Backends.Simulator.{Simulator, initialise, empty, set_desired}
use smartenit_rescue.Backends.Simulator.Commands.{Done, set_desired-Done}
use smartenit_rescue.Backends.Simulator.Invariant.{
  IsValid, IsAnswerable, HasStatus, set_desired_status,
}
use smartenit_rescue.Backends.Simulator.Validity.{set_desired-IsValid}
use smartenit_rescue.Backends.Simulator.Construction.{initialise-IsValid}
use smartenit_rescue.Tests.Fixtures.{device, profile, sim, clock, command_on}
use smartenit_rescue.Tests.TopicTests.{device-IsCanonical}

set_desired-Done_example : Done clock command_on sim (set_desired clock command_on sim)
set_desired-Done_example = set_desired-Done clock command_on sim

abbrev settings : List SimulatorDeviceSettings
settings =
    record {
      device_id = device;
      name = codes "Lamp";
      profile_id = codes "example-switch";
      initial_on = false;
    }
    ∷ []

initialise-sim : initialise clock settings (profile ∷ []) empty ≡ (ok tt, sim)
unfolding initialise smartenit_rescue.Backends.Simulator.add_device
    smartenit_rescue.Prelude.Text.text_beq smartenit_rescue.Models.Device.make_device
    smartenit_rescue.Prelude.Text.is_space smartenit_rescue.Backends.Base.make_runtime_device
    smartenit_rescue.Models.Device.require_canonical
    smartenit_rescue.Models.Identity.parse_device_id smartenit_rescue.Models.Identity.ungroup
    smartenit_rescue.Prelude.Text.has smartenit_rescue.Models.Identity.strip_0x
    smartenit_rescue.Prelude.Text.lower_char smartenit_rescue.Prelude.Text.is_hex
    smartenit_rescue.Models.Identity.make_device_id smartenit_rescue.Prelude.Sorting.sorted
    smartenit_rescue.Models.Capability.capability_beq
    smartenit_rescue.Backends.Base.runtime_capability_beq smartenit_rescue.Backends.Base.address_beq
    smartenit_rescue.Backends.Base.make_address smartenit_rescue.Backends.Base.mode_rank
    smartenit_rescue.Backends.Base.runtime_capability_lt
    smartenit_rescue.Backends.Simulator.add_capability
    smartenit_rescue.Backends.Simulator.add_endpoint smartenit_rescue.Backends.Simulator.first_model
    smartenit_rescue.Backends.Simulator.read_clock
    smartenit_rescue.Backends.Simulator.writable_capabilities
    smartenit_rescue.Models.Capability.capability_rank
    smartenit_rescue.Models.Device.make_availability smartenit_rescue.Models.State.make_observation
    smartenit_rescue.Models.State.require_aware smartenit_rescue.Models.State.require_nonblank
    smartenit_rescue.Prelude.Dict.insert smartenit_rescue.Prelude.Dict.lookup
    smartenit_rescue.Prelude.Sorting.sorted_set smartenit_rescue.Prelude.Text.split_first
initialise-sim = refl

initialise-IsValid_example : IsValid (initialise clock settings (profile ∷ []) empty).1
initialise-IsValid_example =
    initialise-IsValid clock settings (profile ∷ []) (ap (λ x. x.0) initialise-sim)

sim-IsValid : IsValid sim
sim-IsValid = subst (λ x. IsValid x.1) initialise-sim initialise-IsValid_example

command_on-IsAnswerable : IsAnswerable clock command_on sim
unfolding smartenit_rescue.Prelude.Text.is_space
command_on-IsAnswerable = record { canonical = device-IsCanonical; aware = refl; request = refl }

set_desired_status_example : HasStatus confirmed (set_desired clock command_on sim).0
unfolding smartenit_rescue.Prelude.Dict.lookup smartenit_rescue.Prelude.Text.text_beq
    smartenit_rescue.Backends.Base.address_beq smartenit_rescue.Models.Capability.capability_beq
set_desired_status_example =
    set_desired_status clock command_on sim sim-IsValid command_on-IsAnswerable

set_desired-IsValid_example : IsValid (set_desired clock command_on sim).1
set_desired-IsValid_example = set_desired-IsValid clock command_on sim sim-IsValid
