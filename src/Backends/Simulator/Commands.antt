-- ===== src/Backends/Simulator/Commands.antt =====
-- What a command does to the simulator.
use smartenit_rescue.Prelude.{
  ℕ, ◌+◌, Bool, true, false, not, ◌≡◌, ◌⊎◌, inl, inr, refl, Option, none, some, arith, ◌===◌,
  contains, find, if◌then◌else◌, eq_refl,
}
use smartenit_rescue.Prelude.Number.{pos}
use smartenit_rescue.Prelude.Result.{Text, Result, ok, err, or_raise, stop_iteration}
use smartenit_rescue.Prelude.Exec.{Exec, lift, ◌>>=◌}
use smartenit_rescue.Prelude.Text.{codes}
use smartenit_rescue.Prelude.Datetime.{Datetime}
use smartenit_rescue.Prelude.Dict.{has_key, lookup, insert, lookup-insert}
use smartenit_rescue.Models.Capability.{on_off, capability_eq}
use smartenit_rescue.Models.Identity.{device_eq, endpoint_eq}
use smartenit_rescue.Models.State.{
  observed, confirmed, rejected, WireValue, bool, Observation, make_observation, Command,
  CommandResult, check_result, make_result,
}
use smartenit_rescue.Profiles.Model.{CapabilityProfile}
use smartenit_rescue.Backends.Base.{CapabilityAddress, make_address, address_eq, RuntimeDevice}
use smartenit_rescue.Backends.Simulator.{
  Simulator, source_name, read_clock, observation, reject, write_value, write_capability,
  set_desired,
}

-- A rejection: the state is as it was.
pub record IsRejection (s s' : Simulator) (r : CommandResult) : Type 0 where
  pub status : r.status ≡ rejected
  pub nothing_observed : r.observation ≡ none
  pub unchanged : s' ≡ s

-- A confirmation of `v` at the address `a`: it is what is now observed there, one later in the
-- sequence, and the rest of the state is as it was.
pub record IsConfirmation (s s' : Simulator) (r : CommandResult) (a : CapabilityAddress) (v : Bool)
    : Type 0 where
  pub status : r.status ≡ confirmed
  pub o : Observation
  pub result : r.observation ≡ some o
  pub value : o.value ≡ bool v
  pub certain : o.confidence ≡ observed
  pub stored : observation a s' ≡ some o
  pub next : (n : ℕ) → lookup a s.sequences ≡ some n → o.sequence ≡ n + 1
  pub counted : lookup a s'.sequences ≡ some o.sequence
  pub others : (x : CapabilityAddress) → (a === x) ≡ false → observation x s' ≡ observation x s
  pub availability : s'.availability ≡ s.availability
  pub capabilities : s'.capabilities ≡ s.capabilities
  pub devices : s'.devices ≡ s.devices
  pub still_open : s'.is_closed ≡ s.is_closed

module _ (clock : ℕ → Datetime) where
  abbrev pub address_of : Command → CapabilityAddress
  address_of k = record {
    device_id = k.device_id;
    endpoint = k.endpoint;
    capability = k.capability;
  }

  -- What a command may do: raise, be rejected, or be confirmed.
  abbrev pub Done : Command → Simulator → Result CommandResult × Simulator → Type 0
  Done k s (err _, s') = Unit
  Done k s (ok r, s') =
      IsRejection s s' r
      ⊎ ((v : Bool) × (k.desired ≡ bool v) × IsConfirmation s s' r (address_of k) v)

  rejection :
      (id : Text) (t : Text) (r : CommandResult)
      → make_result id rejected none (some t) ≡ ok r
      → (r.status ≡ rejected) × (r.observation ≡ none)
  unfolding make_result check_result
  rejection id t r e = ground arith

  confirmation :
      (id : Text) (o : Observation) (r : CommandResult)
      → make_result id confirmed (some o) none ≡ ok r
      → (r.status ≡ confirmed) × (r.observation ≡ some o)
  unfolding make_result check_result
  confirmation id o r e = ground arith

  pub observed_as :
      (v : WireValue) (at : Datetime) (n : ℕ) (o : Observation)
      → make_observation v source_name observed at (pos n) ≡ ok o
      → (o.value ≡ v) × (o.confidence ≡ observed) × (o.sequence ≡ n)
  unfolding make_observation
  observed_as v at n o e = ground arith

  reject-Done : (k : Command) (t : Text) (s : Simulator) → Done k s (reject k t s)
  unfolding reject
  reject-Done k t s =
      go (make_result k.request_id rejected none (some t)) (λ r. rejection k.request_id t r)
    where
      go :
          (x : Result CommandResult)
          → ((r : CommandResult) → x ≡ ok r → (r.status ≡ rejected) × (r.observation ≡ none))
          → Done k s (x, s)
      go (err e) h = tt
      go (ok r) h =
          let (p, q) = h r refl in
          inl (record { status = p; nothing_observed = q; unchanged = refl })

  -- the state behind the confirmation of `o` with the number `m`
  abbrev after : Simulator → CapabilityAddress → ℕ → Observation → Simulator
  after s a m o = record s {
    ticks = s.ticks + 1;
    sequences = insert a m s.sequences;
    observations = insert a o s.observations;
  }

  after-IsConfirmation :
      (s : Simulator) (a : CapabilityAddress) (v : Bool) (n : ℕ) (o : Observation)
      (r : CommandResult)
      → lookup a s.sequences ≡ some n
      → (o.value ≡ bool v) × (o.confidence ≡ observed) × (o.sequence ≡ n + 1)
      → (r.status ≡ confirmed) × (r.observation ≡ some o)
      → IsConfirmation s (after s a (n + 1) o) r a v
  unfolding observation
  after-IsConfirmation s a v n o r e h k = record {
    status = k.0;
    o = o;
    result = k.1;
    value = h.0;
    certain = h.1;
    stored = simp (lookup-insert, eq_refl address_eq);
    next = λ m f. ground arith;
    counted = simp (lookup-insert, eq_refl address_eq) (ground arith);
    others = λ x d. rw (lookup-insert a x o s.observations) (rw d);
    availability = refl;
    capabilities = refl;
    devices = refl;
    still_open = refl;
  }

  write_value-Done :
      (k : Command) (v : Bool) (s : Simulator)
      → k.desired ≡ bool v
      → Done k s (write_value clock k (address_of k) v s)
  unfolding write_value read_clock
  write_value-Done k v s e = with_sequence (lookup a s.sequences) refl
    where
      a : CapabilityAddress
      a = address_of k

      with_result :
          (n : ℕ) (o : Observation) (x : Result CommandResult)
          → lookup a s.sequences ≡ some n
          → make_observation (bool v) source_name observed (clock s.ticks) (pos (n + 1)) ≡ ok o
          → ((r : CommandResult) → x ≡ ok r → (r.status ≡ confirmed) × (r.observation ≡ some o))
          → Done k s (x, after s a (n + 1) o)
      with_result n o (err x) p q h = tt
      with_result n o (ok r) p q h =
          inr (v, e, after-IsConfirmation s a v n o r p (observed_as (bool v) _ _ o q) (h r refl))

      with_observation :
          (n : ℕ) (x : Result Observation)
          → lookup a s.sequences ≡ some n
          → make_observation (bool v) source_name observed (clock s.ticks) (pos (n + 1)) ≡ x
          → Done k s (
              (lift x >>= λ o. λ t. (
                make_result k.request_id confirmed (some o) none,
                record t {
                  sequences = insert a (n + 1) t.sequences;
                  observations = insert a o t.observations;
                },
              ))
                (record s { ticks = s.ticks + 1 }))
      with_observation n (err x) p q = tt
      with_observation n (ok o) p q =
          with_result n o (make_result k.request_id confirmed (some o) none) p q
            (λ r. confirmation k.request_id o r)

      with_sequence :
          (x : Option ℕ) → lookup a s.sequences ≡ x → Done k s (write_value clock k a v s)
      with_sequence none p = rw p tt
      with_sequence (some n) p = rw p (with_observation n _ p refl)

  Done-if :
      (k : Command) (s : Simulator) (c : Bool) (m n : Exec Simulator CommandResult)
      → Done k s (m s)
      → Done k s (n s)
      → Done k s ((if c then m else n) s)
  Done-if k s true m n p q = p
  Done-if k s false m n p q = q

  Done-if_result :
      (k : Command) (s : Simulator) (c : Bool) (x y : Result CommandResult × Simulator)
      → Done k s x
      → Done k s y
      → Done k s (if c then x else y)
  Done-if_result k s true x y p q = p
  Done-if_result k s false x y p q = q

  -- the last branch, by the type of the desired value
  unfoldable pub by_value : (k : Command) (w : WireValue) → Exec Simulator CommandResult
  by_value k w = elim w [
    | WireValue.bool v ↦ write_value clock k (address_of k) v
    | _ ↦ reject k (codes "desired value must be boolean")
  ]

  by_value-Done :
      (k : Command) (w : WireValue) (s : Simulator) → k.desired ≡ w → Done k s (by_value k w s)
  unfolding by_value
  by_value-Done k (WireValue.bool v) s e = write_value-Done k v s e
  by_value-Done k (WireValue.int _) s e = reject-Done k _ s
  by_value-Done k (WireValue.float _) s e = reject-Done k _ s
  by_value-Done k (WireValue.str _) s e = reject-Done k _ s

  write_capability-Done :
      (k : Command) (p : Option CapabilityProfile) (s : Simulator)
      → Done k s (write_capability clock k (address_of k) p s)
  unfolding write_capability by_value
  write_capability-Done k none s = reject-Done k (codes "unsupported capability") s
  write_capability-Done k (some p) s =
      Done-if k s (not p.writable) _ _ (reject-Done k (codes "capability is read-only") s) (
        Done-if k s (not (p.capability === on_off)) _ _
          (reject-Done k (codes "unsupported writable capability") s)
          (by_value-Done k k.desired s refl))

  -- from the address on
  by_address :
      (k : Command) (x : Result CapabilityAddress) (s : Simulator)
      → make_address k.device_id k.endpoint k.capability ≡ x
      → Done k s ((lift x >>= λ a. λ t. write_capability clock k a (lookup a t.capabilities) t) s)
  unfolding make_address
  by_address k (err e) s h = tt
  by_address k (ok a) s h =
      let same : a ≡ address_of k = ground arith in
      rw same (write_capability-Done k (lookup (address_of k) s.capabilities) s)

  by_device :
      (k : Command) (x : Result RuntimeDevice) (s : Simulator)
      → Done k s (
          (lift x >>= λ d.
          if not (contains k.endpoint d.device.endpoints)
          then reject k (codes "unknown endpoint")
          else (lift (make_address k.device_id k.endpoint k.capability) >>= λ a.
              λ t. write_capability clock k a (lookup a t.capabilities) t))
            s)
  by_device k (err e) s = tt
  by_device k (ok d) s =
      Done-if k s (not (contains k.endpoint d.device.endpoints)) _ _
        (reject-Done k (codes "unknown endpoint") s) (by_address k _ s refl)

  pub set_desired-Done : (k : Command) (s : Simulator) → Done k s (set_desired clock k s)
  unfolding set_desired
  set_desired-Done k s =
      Done-if_result k s s.is_closed _ _ (reject-Done k (codes "backend is closed") s) (
        Done-if_result k s (not (has_key k.device_id s.availability)) _ _
          (reject-Done k (codes "unknown device") s)
          (by_device k
            (or_raise (find (λ (d : RuntimeDevice). d.device.device_id === k.device_id) s.devices)
              stop_iteration)
            s))
