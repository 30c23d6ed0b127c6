-- ===== src/Backends/HarmonyG2/Transport/Sendable.antt =====
-- The client's requests, as the transport checks them.
use smartenit_rescue.Prelude.Exec.Keeps.{
  Keeps-pure, Keeps-if, Keeps-raise, Keeps-lift, Keeps, Keeps-bind,
}
use smartenit_rescue.Prelude.Datetime.{Datetime}
use smartenit_rescue.Prelude.Result.{ok, Text}
use smartenit_rescue.Prelude.{
  length, inr, inl, ℕ, zero, suc, ◌+◌, ◌≤◌, Option, none, some, List, [], ◌∷◌, ◌++◌, refl, true,
  false, ◌≡◌, arith, Bool, if◌then◌else◌, ltb, ap, ◌∙◌, append_assoc,
}
use smartenit_rescue.Prelude.Value.{Value, dict, dict_of, Fields}
use smartenit_rescue.Prelude.Exec.{lift}
use smartenit_rescue.Prelude.Text.{codes, text_beq, text_eq}
use smartenit_rescue.Backends.HarmonyG2.Transport.OnOff.{on_off_path}
use smartenit_rescue.Backends.HarmonyG2.Transport.Pages.{inventory_path}
use smartenit_rescue.Backends.HarmonyG2.Transport.Routes.{validate_route_iff, IsRoute}
use smartenit_rescue.Backends.HarmonyG2.Transport.{str, validate_credential, is_credential}
use smartenit_rescue.Backends.HarmonyG2.Client.{
  set_on_off, Gateway, renew, send, load_session, read_clock, is_safe_segment, save_session,
  request, G2Endpoint, Effect, command_path, command_request, Request,
}
use smartenit_rescue.Backends.HarmonyG2.Session.{LocalSession, is_token}
use smartenit_rescue.Backends.HarmonyG2.Transport.Json.{
  object_body, add_items, too_deep, request_body, json_value,
}
use smartenit_rescue.Backends.HarmonyG2.Client.Inventory.{
  read_page, Inventory, read_pages, read_endpoints, page_request,
}
use smartenit_rescue.Backends.HarmonyG2.Transport.Pinned.{
  Submission, optional_credential, submission, checked_request, Network,
}

-- The object of a renewal.
abbrev pub renewal : Text → Fields
renewal refresh_token = dict_of (
    (codes "grant_type", str (codes "refresh_token"))
    ∷ (codes "refresh_token", str refresh_token)
    ∷ [])

-- What is relied on of `json.dumps`: an empty object is written as two braces, and an object with a
-- printable ASCII text of 8192 characters at most is written in 65536 bytes at most.
pub record IsJsonWriter (dumps : Fields → Option Text) : Type 0 where
  pub empty : dumps (dict_of []) ≡ some (codes "{}")
  pub short :
      (token : Text)
      → is_credential token ≡ true
      → (encoded : Text) × (dumps (renewal token) ≡ some encoded) × (length encoded ≤ 65536)

abbrev pub as_value : Option Text → Option Value
as_value none = none
as_value (some s) = some (str s)

module _ (n : Network) where
  -- A request that passes the checks, and is then written with its method and its path.
  pub record IsSendable (r : Request) : Type 0 where
    pub sent : Submission
    pub accepted :
        checked_request n (str r.method) (str r.path) r.body (as_value r.access_token) ≡ ok sent
    pub method : sent.method ≡ r.method
    pub path : sent.path ≡ r.path

  abbrev pub AllSendable : List Effect → Type 0
  AllSendable [] = Unit {0}
  AllSendable (request r ∷ trace) = IsSendable r × AllSendable trace
  AllSendable (read_clock ∷ trace) = AllSendable trace
  AllSendable (load_session ∷ trace) = AllSendable trace
  AllSendable (save_session s ∷ trace) = AllSendable trace

  checked_request-passes :
      (m p token : Text) (body : Option Fields) (encoded : Option Text)
      → IsRoute m p
      → request_body n.dumps m body ≡ ok encoded
      → is_credential token ≡ true
      → checked_request n (str m) (str p) body (some (str token))
        ≡ ok (submission m p encoded (some token))
  unfolding checked_request optional_credential validate_credential
  checked_request-passes m p token body encoded r b c = rw ((validate_route_iff m p).1 r, b, c) refl

  route-IsSendable :
      (m p token : Text) (body : Option Fields) (encoded : Option Text)
      → IsRoute m p
      → request_body n.dumps m body ≡ ok encoded
      → is_credential token ≡ true
      → IsSendable (record { method = m; path = p; body = body; access_token = some token })
  unfolding submission
  route-IsSendable m p token body encoded r b c = record {
    sent = submission m p encoded (some token);
    accepted = checked_request-passes m p token body encoded r b c;
    method = refl;
    path = refl;
  }

  token-is_credential : (t : Text) → is_token t ≡ true → is_credential t ≡ true
  unfolding is_token is_credential
  token-is_credential t h = ground arith

  regroup :
      (d c p m : Text)
      → (codes "/v2/devices/" ++ (d ++ (codes "/comps/" ++ (c ++ p)))) ++ m
        ≡ codes "/v2/devices/" ++ (d ++ (codes "/comps/" ++ (c ++ (p ++ m))))
  regroup d c p m =
      ap (λ r. codes "/v2/devices/" ++ r)
        (append_assoc d _ m ∙ ap (λ r. d ++ (codes "/comps/" ++ r)) (append_assoc c p m))

  on_off_path-command :
      (on : Bool) (d c : Text)
      → (codes "/v2/devices/" ++ (d ++ (codes "/comps/" ++ (c ++ codes "/procs/OnOff"))))
          ++ (codes "/methods/" ++ (if on then codes "On" else codes "Off"))
        ≡ on_off_path d c on
  on_off_path-command true d c = regroup d c (codes "/procs/OnOff") (codes "/methods/On")
  on_off_path-command false d c = regroup d c (codes "/procs/OnOff") (codes "/methods/Off")

  object_body-short :
      (fs : Fields) (k : ℕ) (encoded : Text)
      → json_value 0 (dict fs) ≡ ok k
      → n.dumps fs ≡ some encoded
      → length encoded ≤ 65536
      → request_body n.dumps (codes "POST") (some fs) ≡ ok (some encoded)
  unfolding request_body text_beq object_body
  object_body-short fs k encoded j d l =
      let fits : ltb 65536 (length encoded) ≡ false = ground arith in rw (j, d, fits) refl

  page_request-IsSendable :
      (token : Text) (page : ℕ)
      → is_token token ≡ true
      → 1 ≤ page
      → page ≤ 100
      → IsSendable (page_request token page)
  unfolding page_request request_body text_beq
  page_request-IsSendable token page t low high =
      route-IsSendable (codes "GET") (inventory_path page) token none none
        (inl (refl, inr (page, low, high, refl))) refl (token-is_credential token t)

  module _ (writer : IsJsonWriter n.dumps) where
    renewal-IsSendable :
        (session : LocalSession)
        → is_token session.access_token ≡ true
        → is_token session.refresh_token ≡ true
        → IsSendable (record {
          method = codes "POST";
          path = codes "/v2/oauth2/token";
          body = some (renewal session.refresh_token);
          access_token = some session.access_token;
        })
    unfolding json_value too_deep add_items
    renewal-IsSendable session a r =
        let (encoded, d, l) = writer.short session.refresh_token (token-is_credential _ r) in
        route-IsSendable (codes "POST") (codes "/v2/oauth2/token") session.access_token
          (some (renewal session.refresh_token)) (some encoded) (inr (refl, inl refl))
          (object_body-short (renewal session.refresh_token) 3 encoded refl d l)
          (token-is_credential _ a)

    command_request-IsSendable :
        (e : G2Endpoint) (d : Bool) (token : Text)
        → is_safe_segment e.local_device_id ≡ true
        → is_safe_segment e.component_id ≡ true
        → is_token token ≡ true
        → IsSendable (command_request e d token)
    unfolding command_request command_path json_value
    command_request-IsSendable e d token hd hc t =
        let same = on_off_path-command d e.local_device_id e.component_id in
        rw same (
          route-IsSendable (codes "POST") (on_off_path e.local_device_id e.component_id d) token
            (some (dict_of [])) (some (codes "{}"))
            (inr (refl, inr (e.local_device_id, e.component_id, d, hd, hc, refl)))
            (object_body-short (dict_of []) 1 (codes "{}") refl writer.empty (omega arith))
            (token-is_credential token t))

    send-AllSendable : (g : Gateway) (r : Request) → IsSendable r → Keeps AllSendable (send g r)
    unfolding send
    send-AllSendable g r h = record { at = λ s p. (h, p) }

    read_pages-AllSendable :
        (g : Gateway) (token : Text) (left page : ℕ) (inv : Inventory)
        → is_token token ≡ true
        → 1 ≤ page
        → page + left ≤ 101
        → Keeps AllSendable (read_pages g token left page inv)
    unfolding read_pages
    read_pages-AllSendable g token zero page inv t low high = Keeps-raise _
    read_pages-AllSendable g token (suc left) page inv t low high =
        Keeps-bind (send g (page_request token page)) _
          (send-AllSendable g (page_request token page)
            (page_request-IsSendable token page t low (omega arith)))
          λ payload. Keeps-bind (lift (read_page payload inv)) _ (Keeps-lift _) λ r.
            Keeps-if r.0 _ _ (Keeps-pure _)
              (read_pages-AllSendable g token left (page + 1) r.1 t (omega arith) (omega arith))

  -- If `json.dumps` writes an empty object as two braces and a renewal in 65536 bytes at most, then,
  -- with valid tokens and safe identifiers, every request of an inventory, of a renewal and of a
  -- command passes the checks of the transport, and goes out with its method and its path.
  pub client_requests-AllSendable :
      (g : Gateway) (session : LocalSession) (now : Datetime) (e : G2Endpoint) (d : Bool)
      → IsJsonWriter n.dumps
      → is_token session.access_token ≡ true
      → is_token session.refresh_token ≡ true
      → is_safe_segment e.local_device_id ≡ true
      → is_safe_segment e.component_id ≡ true
      → AllSendable (read_endpoints g session.access_token []).1
        × AllSendable (renew g session now []).1
        × AllSendable (set_on_off g e d session.access_token []).1
  unfolding read_endpoints renew set_on_off
  client_requests-AllSendable g session now e d writer a r hd hc = (
    (read_pages-AllSendable writer g session.access_token 100 1 _ a (omega arith) (omega arith)).at
        [] tt,
    (Keeps-bind (send g _) _ (send-AllSendable writer g _ (renewal-IsSendable writer session a r))
          (λ p. Keeps-lift _)).at
        [] tt,
    (Keeps-bind (send g _) _
          (send-AllSendable writer g _
            (command_request-IsSendable writer e d session.access_token hd hc a))
          (λ p. Keeps-lift _)).at
        [] tt,
  )
