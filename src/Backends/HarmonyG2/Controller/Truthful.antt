-- ===== src/Backends/HarmonyG2/Controller/Truthful.antt =====
-- Whatever a command is, what it sends to a device and what its result says.
use smartenit_rescue.Prelude.Exec.{◌>>=◌, lift}
use smartenit_rescue.Prelude.Dict.{lookup}
use smartenit_rescue.Prelude.Result.{is_rescue_error, Text, ok, Error, Result, err}
use smartenit_rescue.Prelude.{false, if◌then◌else◌, inl, Option, true, none, Bool, ◌≡◌, refl, some}
use smartenit_rescue.Prelude.Text.{codes, text_eq}
use smartenit_rescue.Models.State.{WireValue, offline, Command}
use smartenit_rescue.Models.Identity.{DeviceId, device_eq}
use smartenit_rescue.Backends.HarmonyG2.Client.{Gateway, G2Endpoint}
use smartenit_rescue.Backends.HarmonyG2.Controller.{
  close, availability_of, refresh, submit_value, by_problem, set_desired, submit_bound,
  maintain_and_submit, after_maintenance, command_problem, HarmonyG2, Setup, mark_all, maintain,
  maintenance_failed, reject,
}
use smartenit_rescue.Backends.HarmonyG2.Controller.Quiet.{
  close-HasSent, availability_of-HasSent, refresh-HasSent, commands, mark_all-HasSent,
  maintain-HasSent, maintenance_failed-HasSent,
}
use smartenit_rescue.Backends.HarmonyG2.Controller.Submission.{
  Outcome, reject-Unsent, submit-Outcome,
}

module _ (g : Gateway) (setup : Setup) where
  submit_bound-Outcome :
      (k : Command) (b : Option G2Endpoint) (s : HarmonyG2)
      → command_problem g setup k s ≡ none
      → (maintain g setup s).0 ≡ ok tt
      → lookup k.device_id (maintain g setup s).1.bindings ≡ b
      → Outcome g setup k s (submit_bound g setup k b (maintain g setup s).1)
  unfolding submit_bound submit_value
  submit_bound-Outcome k none s p q l =
      unbound (mark_all g setup offline (maintain g setup s).1).0
        (mark_all g setup offline (maintain g setup s).1).1
        ((mark_all-HasSent g setup (commands s.trace) offline).at (maintain g setup s).1
          ((maintain-HasSent g setup (commands s.trace)).at s refl))
    where
      unbound :
          (x : Result (Unit {0})) (s' : HarmonyG2)
          → commands s'.trace ≡ commands s.trace
          → Outcome g setup k s
              ((lift x >>= λ _. reject g setup k (codes "G2 binding is unavailable")) s')
      unbound (ok _) s' h = reject-Unsent g setup k _ s s' h
      unbound (err e) s' h = inl (record { quiet = h; rejection = λ r f. cc })
  submit_bound-Outcome k (some e) s p q l = by_value k.desired refl
    where
      by_value :
          (w : WireValue)
          → k.desired ≡ w
          → Outcome g setup k s (submit_value g setup k e w (maintain g setup s).1)
      by_value (WireValue.bool d) v = submit-Outcome g setup k e d s p q v l
      by_value (WireValue.int _) v =
          reject-Unsent g setup k _ s _ ((maintain-HasSent g setup (commands s.trace)).at s refl)
      by_value (WireValue.float _) v =
          reject-Unsent g setup k _ s _ ((maintain-HasSent g setup (commands s.trace)).at s refl)
      by_value (WireValue.str _) v =
          reject-Unsent g setup k _ s _ ((maintain-HasSent g setup (commands s.trace)).at s refl)

  failed-Unsent :
      (k : Command) (e : Error) (s s' : HarmonyG2)
      → commands s'.trace ≡ commands s.trace
      → Outcome g setup k s (after_maintenance g setup k (err e) s')
  unfolding after_maintenance
  failed-Unsent k e s s' h = by_class (is_rescue_error e)
    where
      handled_error :
          (x : Result (Unit {0})) (t : HarmonyG2)
          → commands t.trace ≡ commands s.trace
          → Outcome g setup k s
              ((lift x >>= λ _. reject g setup k (codes "G2 maintenance failed before command")) t)
      handled_error (ok _) t f = reject-Unsent g setup k _ s t f
      handled_error (err y) t f = inl (record { quiet = f; rejection = λ r a. cc })

      by_class :
          (b : Bool)
          → Outcome g setup k s (
              if b
              then (maintenance_failed g setup e >>= λ _.
                    reject g setup k (codes "G2 maintenance failed before command"))
                  s'
              else (err e, s'))
      by_class true =
          handled_error (maintenance_failed g setup e s').0 (maintenance_failed g setup e s').1
            ((maintenance_failed-HasSent g setup (commands s.trace) e).at s' h)
      by_class false = inl (record { quiet = h; rejection = λ r a. cc })

  maintain_and_submit-Outcome :
      (k : Command) (s : HarmonyG2)
      → command_problem g setup k s ≡ none
      → Outcome g setup k s (maintain_and_submit g setup k s)
  unfolding maintain_and_submit after_maintenance
  maintain_and_submit-Outcome k s p = by_result (maintain g setup s).0 refl
    where
      by_result :
          (x : Result (Unit {0}))
          → (maintain g setup s).0 ≡ x
          → Outcome g setup k s (after_maintenance g setup k x (maintain g setup s).1)
      by_result (ok _) q = submit_bound-Outcome k _ s p q refl
      by_result (err e) q =
          failed-Unsent k e s _ ((maintain-HasSent g setup (commands s.trace)).at s refl)

  -- Whatever the state of the backend and the answers of the gateway, a command either sends nothing
  -- to a device and is rejected or raises, or sends exactly one request: that of the bound endpoint
  -- with the desired value, after a maintenance that returned, with the maintained session. Its
  -- status is then what the gateway's answer to that request means, and nothing is observed.
  pub set_desired-Outcome :
      (k : Command) (s : HarmonyG2) → Outcome g setup k s (set_desired g setup k s)
  unfolding set_desired by_problem
  set_desired-Outcome k s = by_result (command_problem g setup k s) refl
    where
      by_result :
          (x : Option Text)
          → command_problem g setup k s ≡ x
          → Outcome g setup k s (by_problem g setup k x s)
      by_result none p = maintain_and_submit-Outcome k s p
      by_result (some t) p = reject-Unsent g setup k t s s refl

  -- Only a command commands: a refresh, a question for an availability and the shutdown send no
  -- request to a device, whether they return or raise.
  pub commands_unchanged :
      (d : DeviceId) (s : HarmonyG2)
      → (commands (refresh g setup s).1.trace ≡ commands s.trace)
        × (commands (availability_of g setup d s).1.trace ≡ commands s.trace)
        × (commands (close g setup s).1.trace ≡ commands s.trace)
  commands_unchanged d s = (
    (refresh-HasSent g setup (commands s.trace)).at s refl,
    (availability_of-HasSent g setup (commands s.trace) d).at s refl,
    (close-HasSent g setup (commands s.trace)).at s refl,
  )
