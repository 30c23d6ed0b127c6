-- ===== src/Backends/HarmonyG2/Controller/Submission.antt =====
-- When a command reaches the gateway, and which request it is.
use smartenit_rescue.Prelude.Value.{get, Fields}
use smartenit_rescue.Prelude.Exec.{◌>>=◌, lift, Exec, modify}
use smartenit_rescue.Prelude.Dict.{lookup}
use smartenit_rescue.Prelude.Result.{
  python, raise_if, Text, assertion_error, stop_iteration, index_error, key_error, transport,
  unsupported, ok, Error, Result, validation, g2_transport, g2_response, err,
}
use smartenit_rescue.Prelude.{
  not, sym, inl, ap, Option, inr, true, ◌||◌, ◌==◌, none, Bool, ◌⊎◌, ◌≡◌, refl, List, ◌∷◌, some,
}
use smartenit_rescue.Prelude.Text.{codes, text_eq, text_beq}
use smartenit_rescue.Prelude.Exec.Keeps.{
  Keeps, Keeps-bind, Keeps-lift, Keeps-raise, Keeps-when, Keeps-if, Keeps-modify,
}
use smartenit_rescue.Models.State.{CommandStatus, bool, offline, rejected, CommandResult, Command}
use smartenit_rescue.Models.Identity.{device_eq}
use smartenit_rescue.Backends.HarmonyG2.Client.{
  response_error, is_success, request, Effect, Request, Gateway, send, command_request,
  command_path, set_on_off, G2Endpoint,
}
use smartenit_rescue.Backends.HarmonyG2.Controller.{
  is_refusal, online, command_problem, HarmonyG2, Setup, maintain, reject, give_up, command_failed,
  conclude, submit,
}
use smartenit_rescue.Backends.HarmonyG2.Controller.Quiet.{
  commands, is_command, HasSent, mark_device-HasSent, mark_all-HasSent, maintain-HasSent,
}
use smartenit_rescue.Backends.HarmonyG2.Controller.Commands.{
  meaning, acknowledged, Concludes, conclude-Concludes, reject-Answers,
}

-- A command that sent nothing is rejected, or raised.
pub record Unsent (s s' : HarmonyG2) (x : Result CommandResult) : Type 0 where
  pub quiet : commands s'.trace ≡ commands s.trace
  pub rejection : (r : CommandResult) → x ≡ ok r → (r.status ≡ rejected) × (r.observation ≡ none)

module _ (g : Gateway) (setup : Setup) where
  -- A command that was sent: it had no problem, the maintenance before it returned, the request is
  -- that of the bound endpoint with the desired value and the maintained session, and the status
  -- says what the gateway answered to it.
  pub record IsSubmitted (k : Command) (s s' : HarmonyG2) (x : Result CommandResult)
      (e : G2Endpoint) (d : Bool) : Type 0 where
    pub no_problem : command_problem g setup k s ≡ none
    pub maintained : (maintain g setup s).0 ≡ ok tt
    pub value : k.desired ≡ bool d
    pub bound : lookup k.device_id (maintain g setup s).1.bindings ≡ some e
    pub sent :
        commands s'.trace
        ≡ command_request e d (maintain g setup s).1.session.access_token ∷ commands s.trace
    pub answer :
        (r : CommandResult)
        → x ≡ ok r
        → (meaning (
              g.respond
                (maintain g setup s).1.trace
                (command_request e d (maintain g setup s).1.session.access_token))
            ≡ some r.status)
          × (r.observation ≡ none)

  abbrev pub Outcome : Command → HarmonyG2 → Result CommandResult × HarmonyG2 → Type 0
  Outcome k s (x, s') = Unsent s s' x ⊎ ((e : G2Endpoint) × (d : Bool) × IsSubmitted k s s' x e d)

  command_failed-HasSent :
      (cs : List Request) (k : Command) (e : Error)
      → Keeps (HasSent cs) (command_failed g setup k e)
  unfolding command_failed reject give_up
  command_failed-HasSent cs k (g2_response m none st) =
      Keeps-bind _ _ (mark_all-HasSent g setup cs offline) (λ _. Keeps-lift _)
  command_failed-HasSent cs k (g2_response m (some n) st) =
      Keeps-if (n == 400 || (n == 401 || n == 403)) _ _
        (Keeps-bind _ _
          (Keeps-when (is_refusal (g2_response m (some n) st)) _ (
            Keeps-bind (modify (λ (s : HarmonyG2). record s { force_renew = true })) _
              (Keeps-modify (λ (s : HarmonyG2). record s { force_renew = true }) (λ s h. h))
              (λ _. mark_all-HasSent g setup cs offline)))
          (λ _. Keeps-lift _))
        (Keeps-bind _ _ (mark_all-HasSent g setup cs offline) (λ _. Keeps-lift _))
  command_failed-HasSent cs k (g2_transport m n started) =
      Keeps-bind _ _ (mark_all-HasSent g setup cs offline)
        (λ _. Keeps-if started _ _ (Keeps-lift _) (Keeps-lift _))
  command_failed-HasSent cs k (validation m) = Keeps-raise _
  command_failed-HasSent cs k (unsupported m) = Keeps-raise _
  command_failed-HasSent cs k (transport m) = Keeps-raise _
  command_failed-HasSent cs k key_error = Keeps-raise _
  command_failed-HasSent cs k index_error = Keeps-raise _
  command_failed-HasSent cs k stop_iteration = Keeps-raise _
  command_failed-HasSent cs k assertion_error = Keeps-raise _
  command_failed-HasSent cs k (python x) = Keeps-raise _

  conclude-HasSent :
      (cs : List Request) (k : Command) (x : Result (Unit {0}))
      → Keeps (HasSent cs) (conclude g setup k x)
  unfolding conclude
  conclude-HasSent cs k (err e) = command_failed-HasSent cs k e
  conclude-HasSent cs k (ok _) =
      Keeps-bind _ _ (mark_device-HasSent g setup cs k.device_id online) (λ _. Keeps-lift _)

  set_on_off_lem :
      (e : G2Endpoint) (d : Bool) (token : Text) (t : List Effect)
      → set_on_off g e d token t ≡ (
        acknowledged g setup (g.respond t (command_request e d token)),
        request (command_request e d token) ∷ t,
      )
  unfolding set_on_off send
  set_on_off_lem e d token t = by_answer (g.respond t (command_request e d token))
    where
      by_answer :
          (x : Result Fields)
          → (lift x >>= λ p. lift (
                raise_if
                  (not (is_success (get (codes "success") p)))
                  (response_error (codes "G2 command acknowledgement is invalid"))))
              (Effect.request (command_request e d token) ∷ t)
            ≡ (acknowledged g setup x, request (command_request e d token) ∷ t)
      by_answer (ok p) = refl
      by_answer (err x) = refl

  command_request-is_command :
      (e : G2Endpoint) (d : Bool) (token : Text) → is_command (command_request e d token) ≡ true
  unfolding command_request command_path text_beq
  command_request-is_command e d token = refl

  meaning_of :
      (o : Option CommandStatus) (m : Exec HarmonyG2 CommandResult) (s : HarmonyG2)
      (r : CommandResult)
      → Concludes g setup o m
      → (m s).0 ≡ ok r
      → (o ≡ some r.status) × (r.observation ≡ none)
  meaning_of none m s r k h = absurd (k s r h)
  meaning_of (some st) m s r k h = let (p, q) = k.at s tt r h in (ap some (sym p), q)

  -- A command that nothing was sent for so far, and that is rejected now.
  pub reject-Unsent :
      (k : Command) (t : Text) (s s' : HarmonyG2)
      → commands s'.trace ≡ commands s.trace
      → Outcome k s (reject g setup k t s')
  unfolding reject
  reject-Unsent k t s s' h =
      inl (record { quiet = h; rejection = λ r e. (reject-Answers g setup k t).at s' tt r e })

  pub submit-Outcome :
      (k : Command) (e : G2Endpoint) (d : Bool) (s : HarmonyG2)
      → command_problem g setup k s ≡ none
      → (maintain g setup s).0 ≡ ok tt
      → k.desired ≡ bool d
      → lookup k.device_id (maintain g setup s).1.bindings ≡ some e
      → Outcome k s (submit g setup k e d (maintain g setup s).1)
  unfolding submit
  submit-Outcome k e d s p q v l =
      rw
        (set_on_off_lem e d (maintain g setup s).1.session.access_token
          (maintain g setup s).1.trace)
        (inr (
          e,
          d,
          record {
            no_problem = p;
            maintained = q;
            value = v;
            bound = l;
            sent = (conclude-HasSent (req ∷ commands s.trace) k answer).at after_request (
                rw (command_request-is_command e d m.session.access_token)
                  (ap (λ l. req ∷ l) ((maintain-HasSent g setup (commands s.trace)).at s refl)));
            answer = λ r.
                meaning_of (meaning (g.respond m.trace req)) (conclude g setup k answer)
                  after_request r (conclude-Concludes g setup k (g.respond m.trace req));
          },
        ))
    where
      m : HarmonyG2
      m = (maintain g setup s).1

      req : Request
      req = command_request e d m.session.access_token

      answer : Result (Unit {0})
      answer = acknowledged g setup (g.respond m.trace req)

      after_request : HarmonyG2
      after_request = record m { trace = Effect.request req ∷ m.trace }
