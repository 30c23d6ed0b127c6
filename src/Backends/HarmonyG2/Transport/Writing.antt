-- ===== src/Backends/HarmonyG2/Transport/Writing.antt =====
-- When a request is written, and what its outcome tells of that.
use smartenit_rescue.Prelude.Exec.Ends.{Ended}
use smartenit_rescue.Prelude.Number.{Float}
use smartenit_rescue.Prelude.Value.{Value, Fields}
use smartenit_rescue.Prelude.Result.{
  os_error, python, raise_if, g2_response, g2_transport, err, ok, Text, Error, Result, raised,
  attempted, Attempt, returned,
}
use smartenit_rescue.Prelude.Exec.Returns.{Returns, Returns-bind}
use smartenit_rescue.Prelude.Exec.{finally, lift, gets, ◌>>=◌, ◌>>◌}
use smartenit_rescue.Prelude.Text.{codes, text_beq_iff, text_eq}
use smartenit_rescue.Prelude.{
  ◌∙◌, inl, inr, ◌⊎◌, not, arith, ◌≢◌, ◌≡◌, Bool, Option, none, some, List, [], ◌∷◌, refl, true,
  false,
}
use smartenit_rescue.Backends.HarmonyG2.Transport.Refusals.{checked_request-IsRefusal}
use smartenit_rescue.Backends.HarmonyG2.Transport.Json.{IsRefusal}
use smartenit_rescue.Backends.HarmonyG2.Transport.Steps.{exchange-Ends, secure-Stays}
use smartenit_rescue.Backends.HarmonyG2.Transport.Phases.{
  writes-cons, is_submit, Fails, Phase, writes, tells,
}
use smartenit_rescue.Backends.HarmonyG2.Transport.Pinned.{
  set_timeout, remaining_until, checked_request, request, converse, close, exchange, handled,
  Submission, read_certificate, call, connect, stay_closed, pinned_context, open_connection,
  Exchange, read_monotonic, is_pinned, secure, Call, translate, Transport, Network,
}

-- What an outcome says of whether the request has started: a value and a response error say it has.
unfoldable pub started_by : Result Fields → Option Bool
started_by (ok _) = some true
started_by (err (g2_transport m st b)) = some b
started_by (err (g2_response m st b)) = some b
started_by (err _) = none

-- A check that did not raise.
raise_if-passes : (b : Bool) (e : Error) (u : Unit {0}) → raise_if (not b) e ≡ ok u → b ≡ true
raise_if-passes true e u h = refl
raise_if-passes false e u h = cc

early-translate :
    (e : Error) → tells false e ≡ true → started_by (err (translate false e)) ≢ some true
unfolding tells started_by translate
early-translate e h = ground arith

late-translate :
    (e : Error) → tells true e ≡ true → started_by (err (translate true e)) ≢ some false
unfolding tells started_by translate
late-translate e h = ground arith

refused-started : (e : Error) → IsRefusal e → ◌≢◌ {A = Option Bool} (started_by (err e)) (some true)
unfolding started_by
refused-started e (m, same) = rw same (λ q. cc)

module _ (n : Network) (t : Transport) (calls : List Call) where
  -- the calls before the connection is made
  abbrev pub opened : List Call
  opened = read_monotonic ∷ open_connection pinned_context t.host t.port t.timeout_seconds ∷ calls

  -- The gateway has shown a certificate with the pinned digest.
  pub record IsCertified : Type 0 where
    pub certificate : Text
    pub shown : n.certificate (stay_closed ∷ connect ∷ opened) ≡ returned (some certificate)
    pub nonempty : certificate ≢ []
    pub digest : n.sha256 certificate ≡ t.certificate_digest

  pinned-IsCertified :
      (c : Option Text)
      → n.certificate (stay_closed ∷ connect ∷ opened) ≡ returned c
      → is_pinned n t.certificate_digest c ≡ true
      → IsCertified
  unfolding is_pinned
  pinned-IsCertified none e h = cc
  pinned-IsCertified (some []) e h = cc
  pinned-IsCertified (some (c ∷ cs)) e h = record {
    certificate = c ∷ cs;
    shown = e;
    nonempty = λ q. cc;
    digest = (text_beq_iff (n.sha256 (c ∷ cs)) t.certificate_digest).0 h;
  }

  start : Exchange
  start = record { calls = opened; request_started = false }

  call-Returns :
      {A : Type 0} (c : Call) (answer : List Call → Attempt A) (l : List Call)
      → Returns
          (λ (s : Exchange). s.calls ≡ l)
          (call c answer)
          (λ a s. (answer l ≡ returned a) × (s.calls ≡ c ∷ l))
  unfolding call
  call-Returns {A} c answer l = record { at = λ s h a e. go (answer s.calls) s h a e refl }
    where
      go :
          (x : Attempt A) (s : Exchange)
          → s.calls ≡ l
          → (a : A) → attempted x ≡ ok a
          → answer s.calls ≡ x
          → (answer l ≡ returned a) × (c ∷ s.calls ≡ c ∷ l)
      go (returned b) s h a e q = (cc, cc)
      go (raised b) s h a e q = cc

  secure-Returns :
      (deadline : Float)
      → Returns (λ (s : Exchange). s.calls ≡ opened) (secure n t deadline) (λ _ _. IsCertified)
  unfolding secure
  secure-Returns deadline =
      Returns-bind (call connect n.connected) _ (call-Returns connect n.connected opened) λ _.
        Returns-bind {Q = λ _ s. s.calls ≡ stay_closed ∷ connect ∷ opened}
          (call stay_closed (λ l. returned tt)) _
          (record {
            at = λ s p a e.
                ((call-Returns stay_closed (λ l. returned tt) (connect ∷ opened)).at s p.1 a e).1;
          })
          λ _.
            Returns-bind {Q = λ _ s. s.calls ≡ stay_closed ∷ connect ∷ opened}
              (gets (λ (s : Exchange). n.has_socket s.calls)) _ (record { at = λ s p a e. p })
              λ has.
                Returns-bind {Q = λ _ s. s.calls ≡ stay_closed ∷ connect ∷ opened}
                  (lift (raise_if (not has) (python os_error))) _ (record { at = λ s p a e. p })
                  λ _.
                    Returns-bind (call read_certificate n.certificate) _
                      (call-Returns read_certificate n.certificate (stay_closed ∷ connect ∷ opened))
                      λ c.
                        Returns-bind {Q = λ _ _. IsCertified}
                          (lift (
                            raise_if (not (is_pinned n t.certificate_digest c))
                              (g2_transport (codes "G2 certificate pin mismatch") none false)))
                          (λ _. remaining_until n deadline >>= λ r.
                            call (set_timeout r) (λ calls. n.timeout_set calls r))
                          (record {
                            at = λ s p a e. pinned-IsCertified c p.0 (
                                raise_if-passes (is_pinned n t.certificate_digest c)
                                  (g2_transport (codes "G2 certificate pin mismatch") none false) a
                                  e);
                          })
                          λ _. record { at = λ s p a e. p }

  secure-IsCertified :
      (deadline : Float) (u : Unit {0}) → (secure n t deadline start).0 ≡ ok u → IsCertified
  unfolding start
  secure-IsCertified deadline u h = (secure-Returns deadline).at start refl u h

  -- The outcome of a request that was not written, and of one that was.
  abbrev pub Unwritten : Result Fields → List Call → Type 0
  Unwritten r calls' = (writes calls' ≡ writes calls) × (started_by r ≢ some true)

  abbrev pub Written : Submission → Result Fields → List Call → Type 0
  Written sent r calls' =
      (writes calls' ≡ sent ∷ writes calls) × (started_by r ≢ some false) × IsCertified

  -- the same within the `try` block
  Tried : Submission → Result Fields → Exchange → Type 0
  Tried sent r s =
      (Phase false (writes calls) s × Ended (λ _ _. ⊥) (λ e _. tells false e ≡ true) r s)
      ⊎ (Phase true (sent ∷ writes calls) s
          × Ended (λ _ _. Unit {0}) (λ e _. tells true e ≡ true) r s
          × IsCertified)

  late-Tried :
      (sent : Submission) (r : Result Fields) (s : Exchange)
      → Ended (λ _. Phase true (sent ∷ writes calls)) (Fails true (sent ∷ writes calls)) r s
      → IsCertified
      → Tried sent r s
  unfolding Tried
  late-Tried sent (ok a) s h c = inr (h, tt, c)
  late-Tried sent (err e) s h c = inr (h.0, h.1, c)

  secured-Tried :
      (sent : Submission) (deadline : Float) (x : Result (Unit {0})) (s : Exchange)
      → Ended (λ _. Phase false (writes calls)) (Fails false (writes calls)) x s
      → ((u : Unit {0}) → x ≡ ok u → IsCertified)
      → let r = (lift x >>= λ _. exchange n sent deadline) s in Tried sent r.0 r.1
  unfolding Tried
  secured-Tried sent deadline (ok u) s h c =
      late-Tried sent _ _ ((exchange-Ends n (writes calls) sent deadline).at s h) (c u refl)
  secured-Tried sent deadline (err e) s h c = inl (h.0, h.1)

  start-Phase : Phase false (writes calls) start
  unfolding start writes
  start-Phase = record { flag = refl; written = refl }

  tried : Submission → Float → Result Fields × Exchange
  tried sent deadline = (do secure n t deadline; exchange n sent deadline) start

  tried-Tried :
      (sent : Submission) (deadline : Float)
      → Tried sent (tried sent deadline).0 (tried sent deadline).1
  unfolding tried
  tried-Tried sent deadline =
      secured-Tried sent deadline (secure n t deadline start).0 (secure n t deadline start).1
        ((secure-Stays n (writes calls) t deadline).at start start-Phase)
        (secure-IsCertified deadline)

  -- the closing of the connection
  shut : Result Fields → Exchange → Attempt (Unit {0}) → Result Fields × Exchange
  shut r s x =
      finally (λ _. (r, s)) (λ s. (attempted x, record s { calls = close ∷ s.calls })) start

  shut-Unwritten :
      (r : Result Fields) (s : Exchange) (x : Attempt (Unit {0}))
      → writes s.calls ≡ writes calls
      → started_by r ≢ some true
      → Unwritten (shut r s x).0 (shut r s x).1.calls
  unfolding shut started_by is_submit
  shut-Unwritten r s (returned u) w h = (writes-cons close s.calls refl ∙ w, h)
  shut-Unwritten r s (raised e) w h = (writes-cons close s.calls refl ∙ w, λ q. cc)

  shut-Written :
      (sent : Submission) (r : Result Fields) (s : Exchange) (x : Attempt (Unit {0}))
      → writes s.calls ≡ sent ∷ writes calls
      → started_by r ≢ some false
      → IsCertified
      → Written sent (shut r s x).0 (shut r s x).1.calls
  unfolding shut started_by is_submit
  shut-Written sent r s (returned u) w h c = (writes-cons close s.calls refl ∙ w, h, c)
  shut-Written sent r s (raised e) w h c = (writes-cons close s.calls refl ∙ w, λ q. cc, c)

  -- What is left behind the handlers and the closing.
  abbrev Outcome : Submission → Result Fields × Exchange → Type 0
  Outcome sent q = Unwritten q.0 q.1.calls ⊎ Written sent q.0 q.1.calls

  closed-Outcome :
      (sent : Submission) (r : Result Fields) (s : Exchange) (x : Attempt (Unit {0}))
      → Tried sent r s
      → let q = handled (λ _. (r, s)) start in Outcome sent (shut q.0 q.1 x)
  unfolding Tried handled started_by
  closed-Outcome sent (ok a) s x (inl (p, e)) = elim e [ ]
  closed-Outcome sent (ok a) s x (inr (p, e, c)) =
      inr (shut-Written sent (ok a) s x p.written (λ q. cc) c)
  closed-Outcome sent (err e) s x (inl (p, h)) =
      inl (shut-Unwritten _ s x p.written (rw p.flag (early-translate e h)))
  closed-Outcome sent (err e) s x (inr (p, h, c)) =
      inr (shut-Written sent _ s x p.written (rw p.flag (late-translate e h)) c)

  handled-closed :
      (sent : Submission) (q : Result Fields × Exchange)
      → Tried sent q.0 q.1
      → Outcome sent (finally (handled (λ _. q)) (call close n.closed) start)
  unfolding call shut
  handled-closed sent q h =
      closed-Outcome sent q.0 q.1 (n.closed (handled (λ _. q) start).1.calls) h

  converse-Outcome :
      (sent : Submission)
      → let (r, calls') = converse n t sent calls in Unwritten r calls' ⊎ Written sent r calls'
  unfolding converse start tried handled
  converse-Outcome sent =
      let deadline =
        n.float_add
          (n.monotonic (open_connection pinned_context t.host t.port t.timeout_seconds ∷ calls))
          t.timeout_seconds in
      handled-closed sent (tried sent deadline) (tried-Tried sent deadline)

  -- Whatever the network does, a request is either not written, and its outcome does not say that
  -- it has started, or it is written once, as it was checked, and its outcome does not say that it
  -- has not started; then the gateway has shown a nonempty certificate with the pinned digest.
  pub request-Outcome :
      (method path : Value) (body : Option Fields) (access_token : Option Value)
      → let (r, calls') = request n t method path body access_token calls in
        Unwritten r calls'
        ⊎ ((sent : Submission) × (checked_request n method path body access_token ≡ ok sent)
            × Written sent r calls')
  unfolding request
  request-Outcome method path body access_token =
      go (checked_request n method path body access_token) refl
    where
      go :
          (x : Result Submission)
          → checked_request n method path body access_token ≡ x
          → let (r, calls') = (lift x >>= λ sent. converse n t sent) calls in
            Unwritten r calls'
            ⊎ ((sent : Submission) × (checked_request n method path body access_token ≡ ok sent)
                × Written sent r calls')
      go (ok sent) e = elim (converse-Outcome sent) [ inl h ↦ inl h | inr h ↦ inr (sent, e, h) ]
      go (err e) q =
          inl (
            refl,
            refused-started e (checked_request-IsRefusal n method path body access_token e q),
          )
