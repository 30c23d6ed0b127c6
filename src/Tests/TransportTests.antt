-- ===== src/Tests/TransportTests.antt =====
-- The transport of the G2 backend at concrete inputs.
use smartenit_rescue.Prelude.Value.{end, dict, nil, null, str, int, cons, list}
use smartenit_rescue.Prelude.Number.{pos, finite}
use smartenit_rescue.Prelude.Result.{overflow_error, validation, python, ok, err, Text, returned}
use smartenit_rescue.Prelude.Text.{is_space, codes, text_eq}
use smartenit_rescue.Prelude.{
  ◌⊎◌, ◌^◌, arith, ℕ, ◌≡◌, ◌↔◌, refl, true, false, none, some, List, [], ◌∷◌, Option,
}
use smartenit_rescue.Backends.HarmonyG2.Transport.Routes.{validate_route_iff, IsRoute}
use smartenit_rescue.Backends.HarmonyG2.Transport.Sizes.{json_value_iff, Fits}
use smartenit_rescue.Backends.HarmonyG2.Client.Inventory.{read_endpoints}
use smartenit_rescue.Backends.HarmonyG2.Transport.Pages.{inventory_path}
use smartenit_rescue.Backends.HarmonyG2.Transport.Writing.{request-Outcome, Written, Unwritten}
use smartenit_rescue.Backends.HarmonyG2.Transport.Pins.{pin_digest-hex, colon_hex, to_hex}
use smartenit_rescue.Backends.HarmonyG2.Client.{renew, is_safe_char, is_safe_segment, set_on_off}
use smartenit_rescue.Backends.HarmonyG2.Session.{is_token}
use smartenit_rescue.Backends.HarmonyG2.Transport.Json.{json_value}
use smartenit_rescue.Backends.HarmonyG2.Transport.Sendable.{
  client_requests-AllSendable, AllSendable, IsJsonWriter,
}
use smartenit_rescue.Backends.HarmonyG2.Transport.{
  content_type, timeout_seconds, validate_route, pin_digest, is_lan,
}
use smartenit_rescue.Backends.HarmonyG2.Transport.Pinned.{
  checked_request, Submission, request, Transport, Network,
}
use smartenit_rescue.Tests.Fixtures.{clock}
use smartenit_rescue.Tests.GatewayTests.{bound_endpoint, session, gateway}

abbrev digest : Text
digest =
    0 ∷ 17 ∷ 171 ∷ 255 ∷ 4 ∷ 5 ∷ 6 ∷ 7 ∷ 8 ∷ 9 ∷ 10 ∷ 11 ∷ 12 ∷ 13 ∷ 14 ∷ 15 ∷ 16 ∷ 17 ∷ 18 ∷ 19
    ∷ 20 ∷ 21 ∷ 22 ∷ 23 ∷ 24 ∷ 25 ∷ 26 ∷ 27 ∷ 28 ∷ 29 ∷ 30 ∷ 31 ∷ []

-- A network whose gateway shows a certificate and answers with an empty object. Its clock stands.
abbrev network : Network
network = record {
  monotonic = λ _. finite (pos 100) 0;
  float_add = λ _ _. finite (pos 105) 0;
  float_sub = λ _ _. finite (pos 5) 0;
  connected = λ _. returned tt;
  has_socket = λ _. true;
  certificate = λ _. returned (some (codes "certificate"));
  sha256 = λ _. digest;
  timeout_set = λ _ _. returned tt;
  submitted = λ _ _. returned tt;
  response = λ _.
      returned
        (record { status = 200; content_type = some (codes "application/json; charset=utf-8") });
  content = λ _ _. returned (codes "{}");
  closed = λ _. returned tt;
  dumps = λ _. some (codes "{}");
  loads = λ _. returned (dict end);
}

abbrev enrolled : Transport
enrolled = record {
  certificate_digest = digest;
  host = codes "192.168.1.20";
  port = 443;
  timeout_seconds = finite (pos 5) 0;
}

request-Outcome_example :
    let (r, calls') =
      request network enrolled (str (codes "GET")) (str (codes "/v2/ping")) none none [] in
    Unwritten network enrolled [] r calls'
    ⊎ ((sent : Submission) × (checked_request network
            (str (codes "GET"))
            (str (codes "/v2/ping"))
            none
            none
          ≡ ok sent)
        × Written network enrolled [] sent r calls')
request-Outcome_example =
    request-Outcome network enrolled [] (str (codes "GET")) (str (codes "/v2/ping")) none none

validate_route_iff_example :
    (validate_route (str (codes "GET")) (str (inventory_path 7))
      ≡ ok (codes "GET", inventory_path 7))
    ↔ IsRoute (codes "GET") (inventory_path 7)
validate_route_iff_example = validate_route_iff (codes "GET") (inventory_path 7)

json_value_iff_example :
    (json_value 0 (list (cons null nil)) ≡ ok 2) ↔ Fits 0 (list (cons null nil)) 2
json_value_iff_example = json_value_iff (list (cons null nil)) 2

pin_digest-hex_example :
    (pin_digest (str (to_hex true digest)) ≡ ok digest)
    × (pin_digest (str (colon_hex true digest)) ≡ ok digest)
pin_digest-hex_example = pin_digest-hex true digest refl refl

writer : IsJsonWriter network.dumps
writer = record { empty = refl; short = λ token h. (codes "{}", refl, omega arith) }

client_requests-AllSendable_example :
    AllSendable network (read_endpoints gateway (codes "a1") []).1
    × AllSendable network (renew gateway session (clock 7) []).1
    × AllSendable network (set_on_off gateway bound_endpoint true (codes "a1") []).1
unfolding is_token is_space is_safe_segment is_safe_char
client_requests-AllSendable_example =
    client_requests-AllSendable network gateway session (clock 7) bound_endpoint true writer refl
      refl refl refl

-- A run that returns, with what it wrote.
answered :
    (request network enrolled
      (str (codes "GET"))
      (str (inventory_path 7))
      none
      (some (str (codes "t")))
      []).0
    ≡ ok end
unfolding request checked_request validate_route smartenit_rescue.Prelude.Text.text_beq
    smartenit_rescue.Backends.HarmonyG2.Transport.path_route
    smartenit_rescue.Backends.HarmonyG2.Transport.checked_route
    smartenit_rescue.Prelude.Decimal.show
    smartenit_rescue.Backends.HarmonyG2.Transport.is_allowed_route
    smartenit_rescue.Backends.HarmonyG2.Transport.is_inventory_path
    smartenit_rescue.Prelude.Text.after_prefix
    smartenit_rescue.Backends.HarmonyG2.Transport.is_page_number
    smartenit_rescue.Backends.HarmonyG2.Transport.Json.request_body
    smartenit_rescue.Backends.HarmonyG2.Transport.Pinned.optional_credential
    smartenit_rescue.Backends.HarmonyG2.Transport.validate_credential
    smartenit_rescue.Backends.HarmonyG2.Transport.is_credential
    smartenit_rescue.Backends.HarmonyG2.Transport.Pinned.converse
    smartenit_rescue.Backends.HarmonyG2.Transport.Pinned.handled
    smartenit_rescue.Backends.HarmonyG2.Transport.Pinned.call
    smartenit_rescue.Backends.HarmonyG2.Transport.Pinned.secure
    smartenit_rescue.Backends.HarmonyG2.Transport.Pinned.exchange
    smartenit_rescue.Backends.HarmonyG2.Transport.Pinned.parse_response
    smartenit_rescue.Backends.HarmonyG2.Transport.Pinned.remaining_until
    smartenit_rescue.Backends.HarmonyG2.Transport.Pinned.limit_socket
    smartenit_rescue.Backends.HarmonyG2.Transport.Pinned.is_past
    smartenit_rescue.Backends.HarmonyG2.Transport.Pinned.decoded
    smartenit_rescue.Backends.HarmonyG2.Transport.Pinned.as_json
    smartenit_rescue.Backends.HarmonyG2.Transport.Pinned.as_bounded
    smartenit_rescue.Backends.HarmonyG2.Transport.Pinned.as_object
    smartenit_rescue.Backends.HarmonyG2.Transport.Pinned.is_pinned
    smartenit_rescue.Backends.HarmonyG2.Transport.Pinned.submission
    smartenit_rescue.Backends.HarmonyG2.Transport.Pinned.headers_of
    smartenit_rescue.Backends.HarmonyG2.Transport.Pinned.translate json_value
    smartenit_rescue.Backends.HarmonyG2.Transport.Json.too_deep content_type
    smartenit_rescue.Backends.HarmonyG2.Transport.strip_left is_space
    smartenit_rescue.Prelude.Text.lower_char smartenit_rescue.Prelude.Text.split_first
    smartenit_rescue.Backends.HarmonyG2.Transport.partition
answered = refl

path_refused :
    validate_route (str (codes "GET")) (str (codes "/v2/devices?limit=100&page=101"))
    ≡ err (validation (codes "G2 request path is not allowed"))
unfolding validate_route smartenit_rescue.Prelude.Text.text_beq
    smartenit_rescue.Backends.HarmonyG2.Transport.path_route
    smartenit_rescue.Backends.HarmonyG2.Transport.checked_route
    smartenit_rescue.Backends.HarmonyG2.Transport.is_allowed_route
    smartenit_rescue.Backends.HarmonyG2.Transport.is_inventory_path
    smartenit_rescue.Prelude.Text.after_prefix
    smartenit_rescue.Backends.HarmonyG2.Transport.is_page_number
path_refused = refl

timeout_overflow : timeout_seconds (int (pos (2 ^ 1024))) ≡ err (python overflow_error)
unfolding timeout_seconds
timeout_overflow = refl

lan_addresses :
    (is_lan 0x0A010203 ≡ true)
    × (is_lan 0xAC1F0001 ≡ true)
    × (is_lan 0xC0A80114 ≡ true)
    × (is_lan 0x7F000001 ≡ true)
    × (is_lan 0x08080808 ≡ false)
unfolding is_lan
lan_addresses = (refl, refl, refl, refl, refl)

media_types :
    (content_type (some (codes "Application/JSON ; charset=\"UTF-8\"")) ≡ true)
    × (content_type (some (codes "text/html")) ≡ false)
unfolding content_type smartenit_rescue.Prelude.Text.split_first
    smartenit_rescue.Prelude.Text.text_beq smartenit_rescue.Backends.HarmonyG2.Transport.strip_left
    is_space smartenit_rescue.Prelude.Text.lower_char
    smartenit_rescue.Backends.HarmonyG2.Transport.partition
media_types = (refl, refl)
