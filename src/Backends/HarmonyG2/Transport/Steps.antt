-- ===== src/Backends/HarmonyG2/Transport/Steps.antt =====
-- The phases of the parts of a request.
use smartenit_rescue.Prelude.Exec.Ends.{Ends-bind, Ends, Ended}
use smartenit_rescue.Prelude.Number.{Float}
use smartenit_rescue.Prelude.Result.{
  g2_transport, g2_response, os_error, python, err, Error, Text, raised, attempted, Attempt,
  returned,
}
use smartenit_rescue.Prelude.Exec.{modify, pure}
use smartenit_rescue.Prelude.Text.{codes, text_eq}
use smartenit_rescue.Prelude.{
  length, ltb, leb, not, true, false, ℕ, Bool, ap, ◌+◌, ◌&&◌, if◌then◌else◌, ◌≡◌, none, some, List,
  ◌∷◌, refl,
}
use smartenit_rescue.Backends.HarmonyG2.Transport.Json.{json_value-IsRefusal, json_value}
use smartenit_rescue.Backends.HarmonyG2.Transport.Phases.{
  as_object-tells, as_bounded-tells, Fails, timely, as_json-tells, gets-Stays, lift-Stays, Phase,
  raise-Stays, chain-tells, call-Stays, bind-Stays, Stays, tells, writes, is_submit,
}
use smartenit_rescue.Backends.HarmonyG2.Transport.Pinned.{
  get_response, max_response_bytes, read_content, submit, is_pinned, read_certificate, stay_closed,
  is_past, as_bounded, set_timeout, connect, as_json, read_monotonic, Exchange, Transport, Response,
  invalid_response, parse_response, limit_socket, call, exchange, secure, remaining_until,
  Submission, decoded, Network,
}
use smartenit_rescue.Backends.HarmonyG2.Transport.{content_type}

module _ (n : Network) where
  decoded-tells :
      (status : ℕ) (t : Text) (e : Error) → decoded n status t ≡ err e → tells true e ≡ true
  unfolding decoded
  decoded-tells status t e h =
      chain-tells (as_json status (n.loads t)) _ e (as_json-tells status (n.loads t))
        (λ v x q.
          chain-tells (as_bounded status (json_value 0 v)) _ x
            (λ y p. as_bounded-tells status (json_value 0 v) y (json_value-IsRefusal 0 v) p)
            (λ k y p. as_object-tells status v y p) q)
        h

  module _ (b : Bool) (w : List Submission) where
    remaining_until-Stays : (deadline : Float) → Stays b w (remaining_until n deadline)
    unfolding remaining_until is_submit
    remaining_until-Stays deadline =
        bind-Stays b w (call read_monotonic (λ t. returned (n.monotonic t))) _
          (call-Stays b w read_monotonic (λ t. returned (n.monotonic t)) refl)
          (λ now. lift-Stays b w _ (λ e h. timely b (is_past (n.float_sub deadline now)) _ e h))

    limit_socket-Stays : (remaining : Float) → Stays b w (limit_socket n remaining)
    unfolding limit_socket is_submit
    limit_socket-Stays remaining = record { at = λ s p. go (n.has_socket s.calls) s p }
      where
        go :
            (c : Bool) (s : Exchange)
            → Phase b w s
            → let r =
                (if c
                    then call (set_timeout remaining) (λ t. n.timeout_set t remaining)
                    else pure tt)
                  s in
              Ended (λ _. Phase b w) (Fails b w) r.0 r.1
        go true s p =
            (call-Stays b w (set_timeout remaining) (λ t. n.timeout_set t remaining) refl).at s p
        go false s p = p

  module _ (w : List Submission) where
    parse_response-Stays :
        (r : Response) (deadline : Float) → Stays true w (parse_response n r deadline)
    unfolding parse_response is_submit invalid_response tells
    parse_response-Stays r deadline =
        bind-Stays true w _ _
          (raise-Stays true w (not (leb 200 r.status && ltb r.status 300))
            (g2_response (codes "G2 returned an unsuccessful HTTP status") (some r.status) true)
            refl)
          λ _.
            bind-Stays true w _ _
              (raise-Stays true w (not (content_type r.content_type))
                (g2_response (codes "G2 response content type is invalid") (some r.status) true)
                refl)
              λ _. bind-Stays true w _ _ (remaining_until-Stays true w deadline) λ remaining.
                bind-Stays true w _ _ (limit_socket-Stays true w remaining) λ _.
                  bind-Stays true w _ _
                    (call-Stays true w (read_content (max_response_bytes + 1))
                      (λ t. n.content t (max_response_bytes + 1)) refl)
                    λ encoded.
                      bind-Stays true w _ _
                        (raise-Stays true w (ltb max_response_bytes (length encoded))
                          (g2_response (codes "G2 response is too large") (some r.status) true)
                          refl)
                        λ _. lift-Stays true w _ (decoded-tells r.status encoded)

    pub secure-Stays : (t : Transport) (deadline : Float) → Stays false w (secure n t deadline)
    unfolding secure is_submit tells
    secure-Stays t deadline =
        bind-Stays false w _ _ (call-Stays false w connect n.connected refl) λ _.
          bind-Stays false w _ _ (call-Stays false w stay_closed (λ calls. returned tt) refl) λ _.
            bind-Stays false w _ _ (gets-Stays false w (λ s. n.has_socket s.calls)) λ has.
              bind-Stays false w _ _ (raise-Stays false w (not has) (python os_error) refl) λ _.
                bind-Stays false w _ _ (call-Stays false w read_certificate n.certificate refl)
                  λ cert.
                    bind-Stays false w _ _
                      (raise-Stays false w (not (is_pinned n t.certificate_digest cert))
                        (g2_transport (codes "G2 certificate pin mismatch") none false) refl)
                      λ _.
                        bind-Stays false w _ _ (remaining_until-Stays false w deadline) λ remaining.
                          call-Stays false w (set_timeout remaining)
                            (λ calls. n.timeout_set calls remaining) refl

    -- the writing itself
    submit-Ends :
        (sent : Submission)
        → Ends
            (Phase true w)
            (call (submit sent) (λ calls. n.submitted calls sent))
            (λ _. Phase true (sent ∷ w))
            (Fails true (sent ∷ w))
    unfolding call writes tells
    submit-Ends sent = record { at = λ s p. go (n.submitted s.calls sent) s p }
      where
        go :
            (a : Attempt (Unit {0})) (s : Exchange)
            → Phase true w s
            → Ended
                (λ _. Phase true (sent ∷ w))
                (Fails true (sent ∷ w))
                (attempted a)
                (record s { calls = submit sent ∷ s.calls })
        go (returned u) s p = record { flag = p.flag; written = ap (λ l. sent ∷ l) p.written }
        go (raised e) s p = (record { flag = p.flag; written = ap (λ l. sent ∷ l) p.written }, refl)

  module _ (w : List Submission) where
    pub exchange-Ends :
        (sent : Submission) (deadline : Float)
        → Ends
            (Phase false w)
            (exchange n sent deadline)
            (λ _. Phase true (sent ∷ w))
            (Fails true (sent ∷ w))
    unfolding exchange is_submit
    exchange-Ends sent deadline =
        Ends-bind {Q = λ _. Phase true w}
          (modify (λ (s : Exchange). record s { request_started = true })) _
          (record { at = λ s p. record { flag = refl; written = p.written } })
          λ _. Ends-bind _ _ (submit-Ends w sent) λ _.
            bind-Stays true (sent ∷ w) _ _ (remaining_until-Stays true (sent ∷ w) deadline)
              λ remaining.
                bind-Stays true (sent ∷ w) _ _ (limit_socket-Stays true (sent ∷ w) remaining) λ _.
                  bind-Stays true (sent ∷ w) _ _
                    (call-Stays true (sent ∷ w) get_response n.response refl)
                    λ r. parse_response-Stays (sent ∷ w) r deadline
