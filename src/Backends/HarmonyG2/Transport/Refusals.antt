-- ===== src/Backends/HarmonyG2/Transport/Refusals.antt =====
-- The errors of the checks that come before a connection.
use smartenit_rescue.Prelude.Result.{Result, validation, raise_if, err, Error, Text}
use smartenit_rescue.Prelude.Value.{Fields, Value}
use smartenit_rescue.Prelude.{
  if◌then◌else◌, contains, arith, Bool, not, any, ◌||◌, ◌==◌, ◌≡◌, Option, [], ◌∷◌, true, false,
}
use smartenit_rescue.Prelude.Text.{codes, text_eq}
use smartenit_rescue.Backends.HarmonyG2.Transport.Json.{
  raise_if-IsRefusal, request_body-IsRefusal, request_body, >>=-IsRefusal, IsRefusal,
}
use smartenit_rescue.Backends.HarmonyG2.Transport.Pinned.{
  optional_credential, Network, checked_request,
}
use smartenit_rescue.Backends.HarmonyG2.Transport.{
  validate_credential, path_route, str, is_allowed_route, validate_route, checked_route,
}

checked_route-IsRefusal :
    (method path : Text) (e : Error) → checked_route method path ≡ err e → IsRefusal e
unfolding checked_route
checked_route-IsRefusal method path e h =
    >>=-IsRefusal (raise_if _ (validation (codes "G2 request path is not allowed"))) _
      (raise_if-IsRefusal (any (λ c. c == 13 || (c == 10 || c == b'#')) path) _)
      (λ _ x q.
        >>=-IsRefusal (raise_if _ (validation (codes "G2 request path is not allowed"))) _
          (raise_if-IsRefusal (not (is_allowed_route method path)) _) (λ _ y p. cc) x q)
      e h

path_route-IsRefusal :
    (m : Text) (path : Value) (e : Error) → path_route m path ≡ err e → IsRefusal e
unfolding path_route
path_route-IsRefusal m (str p) e h = checked_route-IsRefusal m p e h
path_route-IsRefusal m _ e h = (codes "G2 request path is not allowed", ground (arith, h))

if-IsRefusal :
    {A : Type 0} (c : Bool) (t : Text) (r : Result A) (e : Error)
    → ((x : Error) → r ≡ err x → IsRefusal x)
    → (if c then err (validation t) else r) ≡ err e
    → IsRefusal e
if-IsRefusal true t r e k h = (t, ground (arith, h))
if-IsRefusal false t r e k h = k e h

validate_route-IsRefusal :
    (method path : Value) (e : Error) → validate_route method path ≡ err e → IsRefusal e
unfolding validate_route
validate_route-IsRefusal (str m) path e h =
    if-IsRefusal (not (contains m (codes "GET" ∷ codes "POST" ∷ []))) _ (path_route m path) e
      (path_route-IsRefusal m path) h
validate_route-IsRefusal _ path e h = (codes "G2 request method is not allowed", ground (arith, h))

optional_credential-IsRefusal :
    (v : Option Value) (e : Error) → optional_credential v ≡ err e → IsRefusal e
unfolding optional_credential validate_credential
optional_credential-IsRefusal v e h = (codes "G2 request credential is invalid", ground (arith, h))

pub checked_request-IsRefusal :
    (n : Network) (method path : Value) (body : Option Fields) (access_token : Option Value)
    (e : Error)
    → checked_request n method path body access_token ≡ err e
    → IsRefusal e
unfolding checked_request
checked_request-IsRefusal n method path body access_token e h =
    >>=-IsRefusal (validate_route method path) _ (validate_route-IsRefusal method path)
      (λ route x q.
        >>=-IsRefusal (request_body n.dumps route.0 body) _
          (request_body-IsRefusal n.dumps route.0 body)
          (λ b y p.
            >>=-IsRefusal (optional_credential access_token) _
              (optional_credential-IsRefusal access_token) (λ c z o. cc) y p)
          x q)
      e h
