-- ===== src/Backends/HarmonyG2/Transport/Pinned.antt =====
-- backends/harmony_g2/transport.py: a request over a connection whose certificate is pinned. What
-- lies outside is an argument: the monotonic clock, the arithmetic of floats, `http.client` with
-- `ssl`, the hash of a certificate, and the writer and the parser of JSON.
use smartenit_rescue.Prelude.{
  length, suc, ltb, not, true, leb, zero, ◌+◌, ◌&&◌, ◌++◌, ◌===◌, if◌then◌else◌, ◌∷◌, [], false,
  Bool, List, ℕ, Option, none, some,
}
use smartenit_rescue.Prelude.Number.{not_a_number, negsuc, pos, infinite, finite, Float}
use smartenit_rescue.Prelude.Result.{
  attempted, raised, returned, Attempt, http_exception, validation, raise_if, python, value_error,
  os_error, timeout_error, g2_transport, g2_response, err, ok, Error, Text, Exception, Result,
}
use smartenit_rescue.Prelude.Text.{codes, text_eq}
use smartenit_rescue.Prelude.Value.{dict, Fields, Value}
use smartenit_rescue.Prelude.Exec.{pure, finally, modify, lift, gets, Exec, ◌>>=◌, ◌>>◌}
use smartenit_rescue.Backends.HarmonyG2.Transport.Json.{json_value, request_body}
use smartenit_rescue.Backends.HarmonyG2.Transport.{
  content_type, timeout_seconds, port_number, validate_route, pin_digest, validate_credential,
  lan_host,
}
use smartenit_rescue.Prelude.Result as R

-- What is written by `connection.request`, with the headers in the order of their making.
pub record Submission : Type 0 where
  pub method : Text
  pub path : Text
  pub body : Option Text
  pub headers : List (Text × Text)

-- The settings of an `ssl.SSLContext`.
pub data TlsVersion : Type 0 where
  tls_1_2 : TlsVersion

pub record TlsContext : Type 0 where
  pub check_hostname : Bool
  pub verify_certificate : Bool
  pub minimum_version : TlsVersion

-- The context of `request`: the certificate is checked by its pin alone.
abbrev pub pinned_context : TlsContext
pinned_context = record {
  check_hostname = false;
  verify_certificate = false;
  minimum_version = tls_1_2;
}

-- A call that leaves the transport; `stay_closed` is `connection.auto_open = 0`.
pub data Call : Type 0 where
  read_monotonic : Call
  open_connection : TlsContext → Text → ℕ → Float → Call
  connect stay_closed read_certificate get_response close : Call
  set_timeout : Float → Call
  submit : Submission → Call
  read_content : ℕ → Call

-- `http.client.HTTPResponse`, before its content is read
pub record Response : Type 0 where
  pub status : ℕ
  pub content_type : Option Text

-- What is outside, with answers that may depend on the calls before, newest first.
pub record Network : Type 0 where
  pub monotonic : List Call → Float
  pub float_add : Float → Float → Float
  pub float_sub : Float → Float → Float
  pub connected : List Call → Attempt (Unit {0})
  pub has_socket : List Call → Bool
  pub certificate : List Call → Attempt (Option Text)
  pub sha256 : Text → Text
  pub timeout_set : List Call → Float → Attempt (Unit {0})
  pub submitted : List Call → Submission → Attempt (Unit {0})
  pub response : List Call → Attempt Response
  pub content : List Call → ℕ → Attempt Text
  pub closed : List Call → Attempt (Unit {0})
  pub dumps : Fields → Option Text
  pub loads : Text → Attempt Value

-- the attributes of `PinnedG2Transport`
pub record Transport : Type 0 where
  pub certificate_digest : Text
  pub host : Text
  pub port : ℕ
  pub timeout_seconds : Float

-- `PinnedG2Transport.__init__`
unfoldable pub make_transport :
    (Value → Option ℕ) → (ℕ → Text) → Value → Value → Value → Value → Result Transport
make_transport parse_ipv4 show_ipv4 host certificate_pin port timeout =
    R.◌>>=◌ (lan_host parse_ipv4 show_ipv4 host) λ h. R.◌>>=◌ (pin_digest certificate_pin) λ digest.
      R.◌>>=◌ (port_number port) λ p. R.◌>>=◌ (timeout_seconds timeout) λ seconds.
        ok (record { certificate_digest = digest; host = h; port = p; timeout_seconds = seconds })

-- The local variables of `request` that its handlers read, beside the calls.
pub record Exchange : Type 0 where
  pub calls : List Call
  pub request_started : Bool

-- A call with its answer.
unfoldable pub call {ℓ} : {A : Type ℓ} → Call → (List Call → Attempt A) → Exec Exchange A
call c answer s = (attempted (answer s.calls), record s { calls = c ∷ s.calls })

-- `value <= 0` for a difference of two readings of a clock, which is not the negative infinity
unfoldable pub is_past : Float → Bool
is_past (finite (pos zero) k) = true
is_past (finite (pos (suc m)) k) = false
is_past (finite (negsuc m) k) = true
is_past infinite = false
is_past not_a_number = false

abbrev pub max_response_bytes : ℕ
max_response_bytes = 2000000

unfoldable pub invalid_response : Text → ℕ → Error
invalid_response message status = g2_response message (some status) true

-- `except (UnicodeDecodeError, json.JSONDecodeError, ValueError)`
unfoldable pub as_json : ℕ → Attempt Value → Result Value
as_json status (returned v) = ok v
as_json status (raised value_error) =
    err (invalid_response (codes "G2 response JSON is invalid") status)
as_json status (raised e) = err (python e)

-- `except ValidationError`
unfoldable pub as_bounded : ℕ → Result ℕ → Result ℕ
as_bounded status (err (validation m)) =
    err (invalid_response (codes "G2 response JSON is invalid") status)
as_bounded status r = r

unfoldable pub as_object : ℕ → Value → Result Fields
as_object status (dict fs) = ok fs
as_object status _ = err (invalid_response (codes "G2 response must be a JSON object") status)

-- the headers of a request
unfoldable pub headers_of : Option Text → Option Text → List (Text × Text)
headers_of body credential = (codes "Accept", codes "application/json") ∷ with_body body
  where
    with_credential : Option Text → List (Text × Text)
    with_credential none = []
    with_credential (some token) = (codes "Authorization", codes "Bearer " ++ token) ∷ []

    with_body : Option Text → List (Text × Text)
    with_body none = with_credential credential
    with_body (some b) =
        (codes "Content-Type", codes "application/json") ∷ with_credential credential

unfoldable pub submission : Text → Text → Option Text → Option Text → Submission
submission method path body credential = record {
  method = method;
  path = path;
  body = body;
  headers = headers_of body credential;
}

-- the handlers of `request`
unfoldable pub translate : Bool → Error → Error
translate started (python timeout_error) =
    g2_transport
      (codes "G2 request timeout "
        ++ (if started then codes "after submission" else codes "before submission"))
      none started
translate started (python os_error) =
    g2_transport
      (codes "G2 transport failure "
        ++ (if started then codes "after submission" else codes "before submission"))
      none started
translate started (python http_exception) =
    g2_transport
      (codes "G2 transport failure "
        ++ (if started then codes "after submission" else codes "before submission"))
      none started
translate started e = e

unfoldable pub handled {ℓ} : {A : Type ℓ} → Exec Exchange A → Exec Exchange A
handled m s =
    let (r, s') = m s in
    elim r [ ok a ↦ (ok a, s') | err e ↦ (err (translate s'.request_started e), s') ]

unfoldable pub optional_credential : Option Value → Result (Option Text)
optional_credential none = ok none
optional_credential (some v) = R.◌>>=◌ (validate_credential v) λ credential. ok (some credential)

module _ (n : Network) where
  -- `remaining = deadline - time.monotonic()`, or TimeoutError
  unfoldable pub remaining_until : Float → Exec Exchange Float
  remaining_until deadline = do
    now ← call read_monotonic (λ t. returned (n.monotonic t))
    let remaining = n.float_sub deadline now
    lift (if is_past remaining then err (python timeout_error) else ok remaining)

  -- `if connection.sock is not None: connection.sock.settimeout(remaining)`
  unfoldable pub limit_socket : Float → Exec Exchange (Unit {0})
  limit_socket remaining s =
      (if n.has_socket s.calls
          then call (set_timeout remaining) (λ t. n.timeout_set t remaining)
          else pure tt)
        s

  -- the value behind a content that was read: `_parse_response` from `encoded.decode` on
  unfoldable pub decoded : ℕ → Text → Result Fields
  decoded status encoded =
      R.◌>>=◌ (as_json status (n.loads encoded))
        λ payload. R.◌>>=◌ (as_bounded status (json_value 0 payload)) λ _. as_object status payload

  -- `_parse_response`
  unfoldable pub parse_response : Response → Float → Exec Exchange Fields
  parse_response r deadline = do
    lift (
        raise_if (not (leb 200 r.status && ltb r.status 300))
          (invalid_response (codes "G2 returned an unsuccessful HTTP status") r.status))
    lift (
        raise_if (not (content_type r.content_type))
          (invalid_response (codes "G2 response content type is invalid") r.status))
    remaining ← remaining_until deadline
    limit_socket remaining
    encoded ←
        call (read_content (max_response_bytes + 1)) (λ t. n.content t (max_response_bytes + 1))
    lift (
        raise_if (ltb max_response_bytes (length encoded))
          (invalid_response (codes "G2 response is too large") r.status))
    lift (decoded r.status encoded)

  -- the test of the pin
  unfoldable pub is_pinned : Text → Option Text → Bool
  is_pinned digest none = false
  is_pinned digest (some []) = false
  is_pinned digest (some (c ∷ cs)) = n.sha256 (c ∷ cs) === digest

  -- the first part of the `try` block of `request`: nothing is written yet
  unfoldable pub secure : Transport → Float → Exec Exchange (Unit {0})
  secure t deadline = do
    call connect n.connected
    call stay_closed (λ calls. returned tt)
    has ← gets (λ s. n.has_socket s.calls)
    lift (raise_if (not has) (python os_error))
    certificate ← call read_certificate n.certificate
    lift (
        raise_if (not (is_pinned t.certificate_digest certificate))
          (g2_transport (codes "G2 certificate pin mismatch") none false))
    remaining ← remaining_until deadline
    call (set_timeout remaining) (λ calls. n.timeout_set calls remaining)

  -- the second part: the request is written, and its response read
  unfoldable pub exchange : Submission → Float → Exec Exchange Fields
  exchange sent deadline = do
    modify (λ s. record s { request_started = true })
    call (submit sent) (λ calls. n.submitted calls sent)
    remaining ← remaining_until deadline
    limit_socket remaining
    response ← call get_response n.response
    parse_response response deadline

  -- `request` behind its checks: the body of the connection, with its handlers
  unfoldable pub converse : Transport → Submission → Exec (List Call) Fields
  converse t sent calls =
      let start =
        n.monotonic (open_connection pinned_context t.host t.port t.timeout_seconds ∷ calls) in
      let deadline = n.float_add start t.timeout_seconds in
      let (r, s) =
        finally (handled (do secure t deadline; exchange sent deadline)) (call close n.closed)
          (record {
            calls =
                read_monotonic
                ∷ open_connection pinned_context t.host t.port t.timeout_seconds
                ∷ calls;
            request_started = false;
          }) in
      (r, s.calls)

  -- the checks of `request`, before there is a connection
  unfoldable pub checked_request : Value → Value → Option Fields → Option Value → Result Submission
  checked_request method path body access_token = R.◌>>=◌ (validate_route method path) λ route.
      R.◌>>=◌ (request_body n.dumps route.0 body) λ encoded.
        R.◌>>=◌ (optional_credential access_token)
          λ credential. ok (submission route.0 route.1 encoded credential)

  -- `request`
  unfoldable pub request :
      Transport → Value → Value → Option Fields → Option Value → Exec (List Call) Fields
  request t method path body access_token = do
    sent ← lift (checked_request method path body access_token)
    converse t sent
