-- ===== src/Tests/InventoryTests.antt =====
-- The G2 client at concrete inputs: an inventory of one device, and a renewal.
use smartenit_rescue.Prelude.{◌≡◌, ◌≤◌, ℕ, ◌+◌, refl, List, [], ◌∷◌, length}
use smartenit_rescue.Prelude.Number.{pos}
use smartenit_rescue.Prelude.Result.{ok}
use smartenit_rescue.Prelude.Text.{codes}
use smartenit_rescue.Prelude.Value.{Value, Fields, dict_of, list_of}
use smartenit_rescue.Prelude.Datetime.{utc}
use smartenit_rescue.Backends.HarmonyG2.Session.{LocalSession, parse_refreshed_session}
use smartenit_rescue.Backends.HarmonyG2.Session.Renewal.{
  IsRenewal, parse_refreshed_session-IsRenewal,
}
use smartenit_rescue.Backends.HarmonyG2.Client.{Gateway}
use smartenit_rescue.Backends.HarmonyG2.Client.Inventory.{read_endpoints}
use smartenit_rescue.Backends.HarmonyG2.Client.Reading.{
  Gives, read_endpoints-Gives, read_endpoints_requests,
}
use smartenit_rescue.Tests.Fixtures.{device, clock}
use smartenit_rescue.Tests.GatewayTests.{gateway, bound_endpoint}

abbrev one_device : Fields
one_device = dict_of (
    (
      codes "data",
      Value.list (
          list_of (
            Value.dict (
              dict_of (
                (codes "_id", Value.str (codes "dev-1"))
                ∷ (codes "hwId", Value.str device.value)
                ∷ (
                  codes "components",
                  Value.list (
                      list_of (
                        Value.dict (
                          dict_of (
                            (codes "id", Value.str (codes "comp-1"))
                            ∷ (
                              codes "processors",
                              Value.list (
                                  list_of (
                                    Value.dict
                                      (dict_of ((codes "name", Value.str (codes "OnOff")) ∷ []))
                                    ∷ [])),
                            )
                            ∷ []))
                        ∷ [])),
                )
                ∷ []))
            ∷ [])),
    )
    ∷ [])

abbrev inventory_gateway : Gateway
inventory_gateway = record gateway { respond = λ _ _. ok one_device }

read_endpoints-Gives_example : Gives (read_endpoints inventory_gateway (codes "a1") []).0
read_endpoints-Gives_example = read_endpoints-Gives inventory_gateway (codes "a1") []

read_endpoints_requests_example :
    length (read_endpoints inventory_gateway (codes "a1") []).1 ≤ 0 + 100
read_endpoints_requests_example = read_endpoints_requests inventory_gateway (codes "a1") []

read_one_device : (read_endpoints inventory_gateway (codes "a1") []).0 ≡ ok (bound_endpoint ∷ [])
unfolding read_endpoints smartenit_rescue.Backends.HarmonyG2.Client.Inventory.read_pages
    smartenit_rescue.Backends.HarmonyG2.Client.send
    smartenit_rescue.Backends.HarmonyG2.Client.Inventory.read_page
    smartenit_rescue.Prelude.Value.get smartenit_rescue.Prelude.Text.text_beq
    smartenit_rescue.Backends.HarmonyG2.Client.Inventory.add_devices
    smartenit_rescue.Prelude.Value.items
    smartenit_rescue.Backends.HarmonyG2.Client.Inventory.add_device
    smartenit_rescue.Backends.HarmonyG2.Client.safe_segment
    smartenit_rescue.Backends.HarmonyG2.Client.is_safe_segment
    smartenit_rescue.Backends.HarmonyG2.Client.is_safe_char
    smartenit_rescue.Backends.HarmonyG2.Client.Inventory.on_off_components
    smartenit_rescue.Backends.HarmonyG2.Client.Inventory.processors
    smartenit_rescue.Backends.HarmonyG2.Client.Inventory.hardware_identity
    smartenit_rescue.Models.Identity.parse_device_id smartenit_rescue.Models.Identity.ungroup
    smartenit_rescue.Backends.HarmonyG2.Client.Inventory.add_components
    smartenit_rescue.Backends.HarmonyG2.Client.endpoint_beq
    smartenit_rescue.Backends.HarmonyG2.Client.make_endpoint
    smartenit_rescue.Models.Device.require_canonical smartenit_rescue.Models.Identity.make_device_id
    smartenit_rescue.Models.Identity.strip_0x smartenit_rescue.Prelude.Text.has
    smartenit_rescue.Prelude.Text.is_hex smartenit_rescue.Prelude.Text.lower_char
read_one_device = refl

abbrev renewal : Fields
renewal = dict_of (
    (codes "access_token", Value.str (codes "a2"))
    ∷ (codes "refresh_token", Value.str (codes "r2"))
    ∷ (codes "expires_in", Value.int (pos 3600))
    ∷ [])

abbrev renewed : LocalSession
renewed = record {
  access_token = codes "a2";
  refresh_token = codes "r2";
  expires_at = record { instant = 3600000007; zone = utc };
}

parse_refreshed_session-renewal : parse_refreshed_session renewal (clock 7) ≡ ok renewed
unfolding parse_refreshed_session smartenit_rescue.Backends.HarmonyG2.Session.has_session_fields
    smartenit_rescue.Prelude.Value.field_names smartenit_rescue.Prelude.Text.text_beq
    smartenit_rescue.Prelude.Value.get smartenit_rescue.Backends.HarmonyG2.Session.aware_utc
    smartenit_rescue.Backends.HarmonyG2.Session.lifetime
    smartenit_rescue.Backends.HarmonyG2.Session.token
    smartenit_rescue.Backends.HarmonyG2.Session.is_token smartenit_rescue.Prelude.Text.is_space
    smartenit_rescue.Backends.HarmonyG2.Session.make_session
parse_refreshed_session-renewal = refl

parse_refreshed_session-IsRenewal_example : IsRenewal renewal (clock 7) renewed
parse_refreshed_session-IsRenewal_example =
    parse_refreshed_session-IsRenewal renewal (clock 7) renewed parse_refreshed_session-renewal
