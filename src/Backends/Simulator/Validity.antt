-- ===== src/Backends/Simulator/Validity.antt =====
-- The invariant of the simulator under its commands (simulator.py, `set_desired`).
use smartenit_rescue.Prelude.Exec.Keeps.{Keeps, Keeps-if, Keeps-lift}
use smartenit_rescue.Prelude.{
  ◌∙◌, sym, if◌then◌else◌, ℕ, ◌+◌, ◌≡◌, refl, Option, none, some, Bool, true, false, arith, ◌===◌,
  ◌⊎◌, inl, inr, Bool-cases, contains, not,
}
use smartenit_rescue.Prelude.Dict.{insert, lookup, lookup-insert, has_key, Dict}
use smartenit_rescue.Prelude.Text.{codes}
use smartenit_rescue.Prelude.Result.{Text, key_error, or_raise, err, ok, Result}
use smartenit_rescue.Prelude.Number.{pos}
use smartenit_rescue.Prelude.Exec.{lift}
use smartenit_rescue.Prelude.Datetime.{Datetime}
use smartenit_rescue.Models.Capability.{capability_eq, on_off}
use smartenit_rescue.Models.Identity.{device_eq, endpoint_eq}
use smartenit_rescue.Models.State.{
  CommandResult, WireValue, observed, make_observation, confirmed, make_result, Command,
  Observation,
}
use smartenit_rescue.Profiles.Model.{CapabilityProfile}
use smartenit_rescue.Backends.Base.{RuntimeDevice, make_address, address_eq, CapabilityAddress}
use smartenit_rescue.Backends.Simulator.Commands.{address_of, observed_as, by_value}
use smartenit_rescue.Backends.Simulator.{
  set_desired, reject, write_capability, source_name, bool, ◌>>=◌, read_clock, write_value,
  Simulator, observation,
}
use smartenit_rescue.Backends.Simulator.Invariant.{IsValid}

-- an address of which all three dictionaries are changed
abbrev pub put :
    Simulator
    → CapabilityAddress
    → Dict CapabilityAddress CapabilityProfile
    → ℕ
    → Observation
    → Simulator
put s a cs n o = record s {
  capabilities = cs;
  sequences = insert a n s.sequences;
  observations = insert a o s.observations;
}

put_sequence :
    (s : Simulator) (a x : CapabilityAddress) (n : ℕ)
    → ((a === x) ≡ false → (m : ℕ) × (lookup x s.sequences ≡ some m))
    → (m : ℕ) × (lookup x (insert a n s.sequences) ≡ some m)
put_sequence s a x n h = rw (lookup-insert a x n s.sequences) (by_test (Bool-cases (a === x)))
  where
    by_test :
        ((a === x) ≡ true) ⊎ ((a === x) ≡ false)
        → (m : ℕ) × ((if a === x then some n else lookup x s.sequences) ≡ some m)
    by_test (inl e) = (n, rw e refl)
    by_test (inr e) = let (m, f) = h e in (m, rw e f)

put_in_step :
    (s : Simulator) (a x : CapabilityAddress) (n m : ℕ) (o : Observation)
    → o.sequence ≡ n
    → ((k : ℕ)
        → lookup x s.sequences ≡ some k
        → (p : Observation) × (lookup x s.observations ≡ some p) × (p.sequence ≡ k))
    → lookup x (insert a n s.sequences) ≡ some m
    → (p : Observation) × (lookup x (insert a o s.observations) ≡ some p) × (p.sequence ≡ m)
put_in_step s a x n m o e h f =
    rw (lookup-insert a x o s.observations) (by_test (Bool-cases (a === x)))
  where
    g : (if a === x then some n else lookup x s.sequences) ≡ some m
    g = rw⁻¹ (lookup-insert a x n s.sequences) f

    by_test :
        ((a === x) ≡ true) ⊎ ((a === x) ≡ false)
        → (p : Observation) × ((if a === x then some o else lookup x s.observations) ≡ some p)
          × (p.sequence ≡ m)
    by_test (inl t) = (o, rw t refl, ground (arith, e, g, t))
    by_test (inr t) = let (p, q, r) = h m (ground (arith, g, t)) in (p, rw t q, r)

-- A new number and its observation at an address keep the simulator valid, together with
-- capabilities that are counted where they are new.
pub put-IsValid :
    (s : Simulator) (a : CapabilityAddress) (cs : Dict CapabilityAddress CapabilityProfile) (n : ℕ)
    (o : Observation)
    → IsValid s
    → ((x : CapabilityAddress) → (a === x) ≡ false → lookup x cs ≡ lookup x s.capabilities)
    → o.sequence ≡ n
    → IsValid (put s a cs n o)
unfolding observation
put-IsValid s a cs n o v same e = record {
  counted = λ x p f g. put_sequence s a x n (λ t. v.counted x p (sym (same x t) ∙ f) g);
  known = v.known;
  in_step = λ x m f. put_in_step s a x n m o e (v.in_step x) f;
}

pub ticked-IsValid : (s : Simulator) → IsValid s → IsValid (record s { ticks = s.ticks + 1 })
unfolding observation
ticked-IsValid s v = record { counted = v.counted; known = v.known; in_step = v.in_step }

module _ (clock : ℕ → Datetime) where
  write_value-IsValid :
      (k : Command) (a : CapabilityAddress) (d : Bool) (s : Simulator)
      → IsValid s
      → IsValid (write_value clock k a d s).1
  unfolding write_value read_clock
  write_value-IsValid k a d s v = by_sequence (lookup a s.sequences)
    where
      by_observation :
          (n : ℕ) (r : Result Observation)
          → ((o : Observation) → r ≡ ok o → o.sequence ≡ n + 1)
          → IsValid
              ((lift r >>= λ o. λ t. (
                make_result k.request_id confirmed (some o) none,
                put t a t.capabilities (n + 1) o,
              ))
                (record s { ticks = s.ticks + 1 })).1
      by_observation n (err e) h = ticked-IsValid s v
      by_observation n (ok o) h =
          put-IsValid _ a _ (n + 1) o (ticked-IsValid s v) (λ x t. refl) (h o refl)

      by_sequence :
          (x : Option ℕ)
          → IsValid
              ((lift (or_raise x key_error) >>= λ n. read_clock clock >>= λ at.
                  lift (make_observation (bool d) source_name observed at (pos (n + 1))) >>= λ o.
                  λ t. (
                    make_result k.request_id confirmed (some o) none,
                    put t a t.capabilities (n + 1) o,
                  ))
                s).1
      by_sequence none = v
      by_sequence (some n) =
          by_observation n
            (make_observation (bool d) source_name observed (clock s.ticks) (pos (n + 1)))
            (λ o e. (observed_as clock (bool d) (clock s.ticks) (n + 1) o e).2)

  reject-IsValid : (k : Command) (t : Text) → Keeps IsValid (reject k t)
  unfolding reject
  reject-IsValid k t = Keeps-lift _

  by_value-IsValid : (k : Command) (w : WireValue) → Keeps IsValid (by_value clock k w)
  unfolding by_value
  by_value-IsValid k (WireValue.bool d) = record { at = λ s v. write_value-IsValid k _ d s v }
  by_value-IsValid k (WireValue.int _) = reject-IsValid k _
  by_value-IsValid k (WireValue.float _) = reject-IsValid k _
  by_value-IsValid k (WireValue.str _) = reject-IsValid k _

  write_capability-IsValid :
      (k : Command) (p : Option CapabilityProfile)
      → Keeps IsValid (write_capability clock k (address_of clock k) p)
  unfolding write_capability by_value
  write_capability-IsValid k none = reject-IsValid k _
  write_capability-IsValid k (some p) = Keeps-if (not p.writable) _ _ (reject-IsValid k _) (
      Keeps-if (not (p.capability === on_off)) _ _ (reject-IsValid k _)
        (by_value-IsValid k k.desired))

  by_address-IsValid :
      (k : Command) (r : Result CapabilityAddress) (s : Simulator)
      → IsValid s
      → make_address k.device_id k.endpoint k.capability ≡ r
      → IsValid ((lift r >>= λ a. λ t. write_capability clock k a (lookup a t.capabilities) t) s).1
  unfolding make_address
  by_address-IsValid k (err e) s v h = v
  by_address-IsValid k (ok a) s v h =
      let same : a ≡ address_of clock k = ground arith in
      rw same ((write_capability-IsValid k (lookup (address_of clock k) s.capabilities)).at s v)

  if-IsValid :
      (c : Bool) (x y : Result CommandResult × Simulator)
      → IsValid x.1
      → IsValid y.1
      → IsValid (if c then x else y).1
  if-IsValid true x y hx hy = hx
  if-IsValid false x y hx hy = hy

  by_device-IsValid :
      (k : Command) (r : Result RuntimeDevice) (s : Simulator)
      → IsValid s
      → IsValid
          ((lift r >>= λ x.
              if not (contains k.endpoint x.device.endpoints)
              then reject k (codes "unknown endpoint")
              else (lift (make_address k.device_id k.endpoint k.capability) >>= λ a.
                  λ t. write_capability clock k a (lookup a t.capabilities) t))
            s).1
  by_device-IsValid k (err e) s v = v
  by_device-IsValid k (ok x) s v =
      (Keeps-if (not (contains k.endpoint x.device.endpoints)) _ _ (reject-IsValid k _)
          (record { at = λ t w. by_address-IsValid k _ t w refl })).at
        s v

  -- Every command, whether it returns or raises, leaves a valid simulator valid.
  pub set_desired-IsValid :
      (k : Command) (s : Simulator) → IsValid s → IsValid (set_desired clock k s).1
  unfolding set_desired
  set_desired-IsValid k s v = if-IsValid s.is_closed _ _ ((reject-IsValid k _).at s v) (
      if-IsValid (not (has_key k.device_id s.availability)) _ _ ((reject-IsValid k _).at s v)
        (by_device-IsValid k _ s v))
