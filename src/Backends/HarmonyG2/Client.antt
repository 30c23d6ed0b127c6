-- ===== src/Backends/HarmonyG2/Client.antt =====
-- backends/harmony_g2/client.py: the strict client of the local protocol. The transport is an
-- argument of the program too: its answers are a function of all that was asked before.
pub mod Inventory
pub mod Unique
pub mod Reading
use smartenit_rescue.Prelude.{
  ℕ, zero, suc, ◌+◌, Bool, true, false, not, ◌&&◌, ◌||◌, ◌≡◌, ◌↔◌, Option, none, some, List, [],
  ◌∷◌, ◌++◌, arith, Eq, ◌===◌, ◌==◌, leb, ltb, length, all, contains, if◌then◌else◌,
}
use smartenit_rescue.Prelude.Value.{Value, bool, str, list, dict, Fields, get, items, dict_of}
use smartenit_rescue.Prelude.Result as R
use smartenit_rescue.Prelude.Result.{
  Text, Error, Result, ok, err, validation, g2_response, raise_if,
}
use smartenit_rescue.Prelude.Exec.{Exec, pure, raise, lift, ◌>>=◌, ◌>>◌}
use smartenit_rescue.Prelude.Text.{codes, text_beq_iff, text_eq}
use smartenit_rescue.Prelude.Datetime.{Datetime}
use smartenit_rescue.Models.Identity.{DeviceId, parse_device_id, device_eq}
use smartenit_rescue.Models.Device.{require_canonical}
use smartenit_rescue.Backends.HarmonyG2.Session.{LocalSession, parse_refreshed_session}

-- the arguments of `G2Transport.request`
pub record Request : Type 0 where
  pub method : Text
  pub path : Text
  pub body : Option Fields
  pub access_token : Option Text

-- A call that leaves the backend.
pub data Effect : Type 0 where
  read_clock load_session : Effect
  request : Request → Effect
  save_session : LocalSession → Effect

-- What is outside of the backend: the clock, the gateway behind its transport, and the storage of
-- the session, each with an answer that may depend on the trace of calls, newest first.
pub record Gateway : Type 0 where
  pub now : List Effect → Datetime
  pub respond : List Effect → Request → Result Fields
  pub load : List Effect → Result LocalSession
  pub save : List Effect → LocalSession → Result (Unit {0})

unfoldable pub response_error : Text → Error
response_error message = g2_response message none true

-- `_SAFE_SEGMENT.fullmatch(value)`: `[A-Za-z0-9_-]{1,128}`
unfoldable pub is_safe_char : ℕ → Bool
is_safe_char c =
    (leb b'A' c && leb c b'Z')
    || ((leb b'a' c && leb c b'z') || ((leb b'0' c && leb c b'9') || (c == b'_' || c == b'-')))

unfoldable pub is_safe_segment : Text → Bool
is_safe_segment s = leb 1 (length s) && (leb (length s) 128 && all is_safe_char s)

-- `_safe_segment`; a missing key is Python's `None`, which is no string
unfoldable pub safe_segment : Option Value → Result Text
safe_segment (some (str s)) =
    if is_safe_segment s then ok s else err (validation (codes "G2 local identifier is invalid"))
safe_segment _ = err (validation (codes "G2 local identifier is invalid"))

pub record G2Endpoint : Type 0 where
  pub local_device_id : Text
  pub device_id : DeviceId
  pub component_id : Text

-- `G2Endpoint(...)`, with `__post_init__`
unfoldable pub make_endpoint : Text → DeviceId → Text → Result G2Endpoint
make_endpoint local_device_id device_id component_id =
    R.◌>>=◌ (safe_segment (some (str local_device_id))) λ l.
      R.◌>>=◌ (safe_segment (some (str component_id))) λ c.
        R.◌>>=◌ (require_canonical device_id)
          λ _. ok (record { local_device_id = l; device_id = device_id; component_id = c })

unfoldable pub endpoint_beq : G2Endpoint → G2Endpoint → Bool
endpoint_beq a b =
    a.local_device_id === b.local_device_id
    && (a.device_id === b.device_id && a.component_id === b.component_id)

pub endpoint_beq_iff : (a b : G2Endpoint) → (endpoint_beq a b ≡ true) ↔ (a ≡ b)
unfolding endpoint_beq
endpoint_beq_iff a b = ground (
  arith,
  text_beq_iff a.local_device_id b.local_device_id,
  text_beq_iff a.device_id.value b.device_id.value,
  text_beq_iff a.component_id b.component_id,
)

instance abbrev pub g2_endpoint_eq : Eq G2Endpoint
g2_endpoint_eq = record { beq = endpoint_beq; beq_iff = endpoint_beq_iff }

-- `command_path`
unfoldable pub command_path : G2Endpoint → Text
command_path e =
    codes "/v2/devices/"
    ++ (e.local_device_id ++ (codes "/comps/" ++ (e.component_id ++ codes "/procs/OnOff")))

-- One request: it is put into the trace, and answered.
unfoldable pub send : Gateway → Request → Exec (List Effect) Fields
send g r trace = (g.respond trace r, request r ∷ trace)

-- `except ValidationError as error: raise _response_error(message)`
abbrev pub as_response_error {ℓ} : {A : Type ℓ} → Text → Result A → Result A
as_response_error message (ok a) = ok a
as_response_error message (err (validation _)) = err (response_error message)
as_response_error message (err e) = err e

-- `renew`
unfoldable pub renew : Gateway → LocalSession → Datetime → Exec (List Effect) LocalSession
renew g session now = do
  payload ← send g (record {
    method = codes "POST";
    path = codes "/v2/oauth2/token";
    body = some (
        dict_of (
          (codes "grant_type", str (codes "refresh_token"))
          ∷ (codes "refresh_token", str session.refresh_token)
          ∷ []));
    access_token = some session.access_token;
  })
  lift (
      as_response_error (codes "G2 renewal response is invalid")
        (parse_refreshed_session payload now))

-- The request of an On/off command.
unfoldable pub command_request : G2Endpoint → Bool → Text → Request
command_request endpoint desired access_token = record {
  method = codes "POST";
  path =
      command_path endpoint ++ (codes "/methods/" ++ (if desired then codes "On" else codes "Off"));
  body = some (dict_of []);
  access_token = some access_token;
}

-- `payload.get("success") is True`
abbrev pub is_success : Option Value → Bool
is_success (some (Value.bool true)) = true
is_success _ = false

-- `set_on_off`
unfoldable pub set_on_off : Gateway → G2Endpoint → Bool → Text → Exec (List Effect) (Unit {0})
set_on_off g endpoint desired access_token = do
  payload ← send g (command_request endpoint desired access_token)
  lift (
      raise_if (not (is_success (get (codes "success") payload)))
        (response_error (codes "G2 command acknowledgement is invalid")))
