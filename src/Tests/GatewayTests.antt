-- ===== src/Tests/GatewayTests.antt =====
-- The G2 backend at concrete inputs: a gateway that acknowledges every command.
use smartenit_rescue.Prelude.{◌≡◌, refl, true, false, none, some, List, [], ◌∷◌}
use smartenit_rescue.Prelude.Result.{ok}
use smartenit_rescue.Prelude.Text.{codes}
use smartenit_rescue.Prelude.Value.{Value, dict_of}
use smartenit_rescue.Prelude.Datetime.{utc}
use smartenit_rescue.Backends.HarmonyG2.Session.{LocalSession}
use smartenit_rescue.Backends.HarmonyG2.Client.{command_request, Gateway, G2Endpoint}
use smartenit_rescue.Backends.HarmonyG2.Controller.{
  HarmonyG2, Setup, set_desired, refresh, availability_of, close,
}
use smartenit_rescue.Backends.HarmonyG2.Controller.Quiet.{commands}
use smartenit_rescue.Backends.HarmonyG2.Controller.Submission.{Outcome}
use smartenit_rescue.Backends.HarmonyG2.Controller.Truthful.{
  set_desired-Outcome, commands_unchanged,
}
use smartenit_rescue.Backends.HarmonyG2.Controller.Opening.{open_backend}
use smartenit_rescue.Backends.HarmonyG2.Controller.OpeningQuiet.{open_backend_quiet}
use smartenit_rescue.Tests.Fixtures.{device, profile, runtime_device, is_up, clock, command_on}

abbrev pub session : LocalSession
session = record {
  access_token = codes "a1";
  refresh_token = codes "r1";
  expires_at = record { instant = 900000000; zone = utc };
}

abbrev pub gateway : Gateway
gateway = record {
  now = λ _. clock 7;
  respond = λ _ _. ok (dict_of ((codes "success", Value.bool true) ∷ []));
  load = λ _. ok session;
  save = λ _ _. ok tt;
}

abbrev pub bound_endpoint : G2Endpoint
bound_endpoint = record {
  local_device_id = codes "dev-1";
  device_id = device;
  component_id = codes "comp-1";
}

abbrev setup : Setup
setup = record {
  settings =
      record {
        device_id = device;
        name = codes "Lamp";
        profile_id = codes "example-switch";
        component_id = codes "comp-1";
      }
      ∷ [];
  profiles = profile ∷ [];
}

abbrev g2 : HarmonyG2
g2 = record {
  session = session;
  devices = runtime_device ∷ [];
  bindings = (device, bound_endpoint) ∷ [];
  inventory_at = 0;
  next_refresh_at = 60000000;
  force_renew = false;
  is_closed = false;
  availability = (device, is_up) ∷ [];
  trace = [];
}

set_desired-Outcome_example :
    Outcome gateway setup command_on g2 (set_desired gateway setup command_on g2)
set_desired-Outcome_example = set_desired-Outcome gateway setup command_on g2

commands_unchanged_example :
    (commands (refresh gateway setup g2).1.trace ≡ [])
    × (commands (availability_of gateway setup device g2).1.trace ≡ [])
    × (commands (close gateway setup g2).1.trace ≡ [])
commands_unchanged_example = commands_unchanged gateway setup device g2

-- the command in the trace
sent_path :
    commands (set_desired gateway setup command_on g2).1.trace
    ≡ command_request bound_endpoint true session.access_token ∷ []
unfolding set_desired smartenit_rescue.Backends.HarmonyG2.Controller.command_problem
    smartenit_rescue.Prelude.Dict.lookup smartenit_rescue.Prelude.Text.text_beq
    smartenit_rescue.Models.Capability.capability_beq
    smartenit_rescue.Backends.HarmonyG2.Controller.maintain
    smartenit_rescue.Backends.HarmonyG2.Controller.aware_now
    smartenit_rescue.Backends.HarmonyG2.Client.set_on_off
    smartenit_rescue.Backends.HarmonyG2.Client.send smartenit_rescue.Prelude.Value.get
    smartenit_rescue.Backends.HarmonyG2.Controller.mark_device
    smartenit_rescue.Models.Device.make_availability
    smartenit_rescue.Models.Identity.parse_device_id smartenit_rescue.Models.Identity.ungroup
    smartenit_rescue.Prelude.Text.has smartenit_rescue.Models.Identity.strip_0x
    smartenit_rescue.Prelude.Text.lower_char smartenit_rescue.Prelude.Text.is_hex
    smartenit_rescue.Models.Identity.make_device_id smartenit_rescue.Models.Device.require_canonical
    smartenit_rescue.Models.State.require_aware smartenit_rescue.Models.State.require_nonblank
    smartenit_rescue.Prelude.Text.is_space smartenit_rescue.Prelude.Text.split_first
    smartenit_rescue.Prelude.Dict.insert smartenit_rescue.Models.State.make_result
    smartenit_rescue.Models.State.check_result
    smartenit_rescue.Backends.HarmonyG2.Controller.conclude
    smartenit_rescue.Backends.HarmonyG2.Controller.submit
    smartenit_rescue.Backends.HarmonyG2.Client.command_path command_request
sent_path = refl

open_backend_quiet_example : commands (open_backend gateway setup []).1 ≡ []
open_backend_quiet_example = open_backend_quiet gateway setup []
