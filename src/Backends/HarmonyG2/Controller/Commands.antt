-- ===== src/Backends/HarmonyG2/Controller/Commands.antt =====
-- What a command makes the G2 backend send, and what its result says of the gateway's answer.
use smartenit_rescue.Prelude.Value.{get, Fields}
use smartenit_rescue.Prelude.{
  ◌≢◌, false, not, ◌||◌, ◌==◌, true, arith, if◌then◌else◌, ◌≡◌, some, Bool, none, Option,
}
use smartenit_rescue.Prelude.Result.{
  python, assertion_error, stop_iteration, index_error, key_error, transport, unsupported, raise_if,
  Result, Text, ok, g2_transport, g2_response, err, validation,
}
use smartenit_rescue.Prelude.Text.{codes, text_eq}
use smartenit_rescue.Prelude.Exec.Returns.{Returns, Returns-bind}
use smartenit_rescue.Prelude.Exec.{lift, when, ◌>>=◌, Exec}
use smartenit_rescue.Models.Identity.{device_eq}
use smartenit_rescue.Models.State.{
  offline, accepted, CommandStatus, check_result, rejected, indeterminate, Command, make_result,
  CommandResult,
}
use smartenit_rescue.Backends.HarmonyG2.Client.{response_error, is_success, Gateway}
use smartenit_rescue.Backends.HarmonyG2.Controller.{
  online, is_refusal, HarmonyG2, Setup, mark_device, mark_all, reject, give_up, command_failed,
  conclude,
}

-- What an answer of the gateway to a command means: accepted if it acknowledges it, rejected if it
-- refuses it or if the request never started, and else indeterminate. Other errors are raised.
abbrev pub meaning : Result Fields → Option CommandStatus
meaning (ok p) = some (if is_success (get (codes "success") p) then accepted else indeterminate)
meaning (err (g2_response _ none _)) = some indeterminate
meaning (err (g2_response _ (some n) _)) =
    some (if n == 400 || (n == 401 || n == 403) then rejected else indeterminate)
meaning (err (g2_transport _ _ started)) = some (if started then indeterminate else rejected)
meaning (err _) = none

-- An action whose result, if it returns, has a status and observes nothing.
abbrev pub Answers : CommandStatus → Exec HarmonyG2 CommandResult → Type 0
Answers st m =
    Returns (λ _. Unit) m (λ (r : CommandResult) _. (r.status ≡ st) × (r.observation ≡ none))

made :
    (id : Text) (st : CommandStatus) (t : Option Text) (r : CommandResult)
    → make_result id st none t ≡ ok r
    → (r.status ≡ st) × (r.observation ≡ none)
unfolding make_result check_result
made id st t r e = ground arith

after :
    (st : CommandStatus) (m : Exec HarmonyG2 (Unit {0})) (n : Exec HarmonyG2 CommandResult)
    → Answers st n
    → Answers st (m >>= λ _. n)
after st m n k = Returns-bind {Q = λ _ _. Unit} m (λ _. n) (record { at = λ s h a e. tt }) (λ _. k)

module _ (g : Gateway) (setup : Setup) where
  pub reject-Answers : (k : Command) (t : Text) → Answers rejected (reject g setup k t)
  unfolding reject
  reject-Answers k t = record { at = λ s h r e. made k.request_id rejected (some t) r e }

  give_up-Answers : (k : Command) → Answers indeterminate (give_up g setup k)
  unfolding give_up
  give_up-Answers k = record { at = λ s h r e. made k.request_id indeterminate _ r e }

  if-Answers :
      (b : Bool) (x y : CommandStatus) (m n : Exec HarmonyG2 CommandResult)
      → Answers x m
      → Answers y n
      → Answers (if b then x else y) (if b then m else n)
  if-Answers true x y m n hm hn = hm
  if-Answers false x y m n hm hn = hn

  -- What `set_on_off` makes of the answer.
  if-Answers_both :
      (b : Bool) (x : CommandStatus) (m n : Exec HarmonyG2 CommandResult)
      → Answers x m
      → Answers x n
      → Answers x (if b then m else n)
  if-Answers_both true x m n hm hn = hm
  if-Answers_both false x m n hm hn = hn

  refused-Answers :
      (k : Command) (b : Bool) (m : Exec HarmonyG2 (Unit {0}))
      → Answers rejected (when b m >>= λ _. reject g setup k (codes "G2 refused command"))
  refused-Answers k b m = after rejected (when b m) (reject g setup k _) (reject-Answers k _)

  unknown-Answers :
      (k : Command) → Answers indeterminate (mark_all g setup offline >>= λ _. give_up g setup k)
  unknown-Answers k =
      after indeterminate (mark_all g setup offline) (give_up g setup k) (give_up-Answers k)

  -- What `set_on_off` makes of the answer.
  abbrev pub acknowledged : Result Fields → Result (Unit {0})
  acknowledged (ok p) =
      raise_if (not (is_success (get (codes "success") p)))
        (response_error (codes "G2 command acknowledgement is invalid"))
  acknowledged (err e) = err e

  abbrev pub Concludes : Option CommandStatus → Exec HarmonyG2 CommandResult → Type 0
  Concludes (some st) m = Answers st m
  Concludes none m = (s : HarmonyG2) (r : CommandResult) → (m s).0 ≢ ok r

  acknowledgement-Answers :
      (k : Command) (b : Bool)
      → Answers (if b then accepted else indeterminate) (
          conclude g setup k
            (raise_if (not b) (response_error (codes "G2 command acknowledgement is invalid"))))
  unfolding conclude command_failed response_error
  acknowledgement-Answers k true =
      after accepted (mark_device g setup k.device_id online)
        (lift (make_result k.request_id accepted none none))
        (record { at = λ s h r e. made k.request_id accepted none r e })
  acknowledgement-Answers k false = unknown-Answers k

  pub conclude-Concludes :
      (k : Command) (x : Result Fields)
      → Concludes (meaning x) (conclude g setup k (acknowledged x))
  unfolding conclude command_failed
  conclude-Concludes k (ok p) = acknowledgement-Answers k (is_success (get (codes "success") p))
  conclude-Concludes k (err (g2_response m none st)) = unknown-Answers k
  conclude-Concludes k (err (g2_response m (some n) st)) =
      if-Answers (n == 400 || (n == 401 || n == 403)) rejected indeterminate _ _
        (refused-Answers k (is_refusal (g2_response m (some n) st)) _) (unknown-Answers k)
  conclude-Concludes k (err (g2_transport m n started)) =
      after (if started then indeterminate else rejected) (mark_all g setup offline) _
        (if-Answers started indeterminate rejected _ _ (give_up-Answers k) (reject-Answers k _))
  conclude-Concludes k (err (validation m)) = λ s r e. cc
  conclude-Concludes k (err (unsupported m)) = λ s r e. cc
  conclude-Concludes k (err (transport m)) = λ s r e. cc
  conclude-Concludes k (err key_error) = λ s r e. cc
  conclude-Concludes k (err index_error) = λ s r e. cc
  conclude-Concludes k (err stop_iteration) = λ s r e. cc
  conclude-Concludes k (err assertion_error) = λ s r e. cc
  conclude-Concludes k (err (python x)) = λ s r e. cc
