-- ===== src/Backends/Simulator/Construction.antt =====
-- The construction of the simulator.
use smartenit_rescue.Prelude.Exec.Returns.{Returns, Returns-lift, Returns-bind, Returns-for_each}
use smartenit_rescue.Prelude.Text.{text_eq, is_some, codes}
use smartenit_rescue.Prelude.{
  eq_refl, ◌++◌, sym, Bool-cases, arith, if◌then◌else◌, ◌⊎◌, ◌∙◌, ◌≡◌, refl, ◌===◌, inl, inr, find,
  List, some, true, false, Bool, ℕ, [], ◌∷◌, none,
}
use smartenit_rescue.Prelude.Dict.{lookup-insert, lookup, insert, keys}
use smartenit_rescue.Prelude.Exec.{pure, modify, lift}
use smartenit_rescue.Prelude.Number.{pos}
use smartenit_rescue.Prelude.Result.{err, ok, Result, Text, validation, or_raise}
use smartenit_rescue.Prelude.Datetime.{Datetime}
use smartenit_rescue.Prelude.Sorting.{sorted}
use smartenit_rescue.Models.Capability.{capability_eq, capability_beq_iff, on_off}
use smartenit_rescue.Models.Identity.{device_beq_iff, device_eq, endpoint_eq, EndpointId, DeviceId}
use smartenit_rescue.Models.Device.{Device, DeviceAvailability, make_device, make_availability}
use smartenit_rescue.Models.State.{observed, make_observation, Observation}
use smartenit_rescue.Profiles.Model.{CapabilityProfile, DeviceProfile, EndpointProfile}
use smartenit_rescue.Config.Settings.{SimulatorDeviceSettings}
use smartenit_rescue.Backends.Base.{
  runtime_capability_eq, runtime_capability_ord, RuntimeCapability, make_runtime_device,
  RuntimeDevice, make_address, CapabilityAddress, address_eq,
}
use smartenit_rescue.Backends.Simulator.{
  online, writable_capabilities, first_model, empty, read_clock, add_endpoint, initialise,
  add_device, source_name, bool, ◌>>=◌, observation, Simulator, add_capability,
}
use smartenit_rescue.Backends.Simulator.Commands.{observed_as}
use smartenit_rescue.Backends.Simulator.Invariant.{IsValid, device_of}
use smartenit_rescue.Backends.Simulator.Validity.{put, put-IsValid, ticked-IsValid}

put_other-IsValid :
    (s : Simulator) (a : CapabilityAddress) (c : CapabilityProfile)
    → IsValid s
    → (c.capability === on_off) ≡ false
    → IsValid (record s { capabilities = insert a c s.capabilities })
unfolding observation
put_other-IsValid s a c v h = record {
  counted = λ x p f g.
      by_test x p (Bool-cases (a === x)) (sym (lookup-insert a x c s.capabilities) ∙ f) g;
  known = v.known;
  in_step = v.in_step;
}
  where
    by_test :
        (x : CapabilityAddress) (p : CapabilityProfile)
        → ((a === x) ≡ true) ⊎ ((a === x) ≡ false)
        → (if a === x then some c else lookup x s.capabilities) ≡ some p
        → p.capability ≡ on_off
        → (n : ℕ) × (lookup x s.sequences ≡ some n)
    by_test x p (inl t) f g =
        let same : c ≡ p = ground (arith, f, t) in
        absurd (ground (arith, h, capability_beq_iff c.capability on_off, same, g))
    by_test x p (inr t) f g = v.counted x p (ground (arith, f, t)) g

put_first-IsValid :
    (s : Simulator) (a : CapabilityAddress) (c : CapabilityProfile) (o : Observation)
    → IsValid s
    → o.sequence ≡ 0
    → IsValid (put s a (insert a c s.capabilities) 0 o)
put_first-IsValid s a c o v e =
    put-IsValid s a (insert a c s.capabilities) 0 o v
      (λ x t. lookup-insert a x c s.capabilities ∙ rw t refl) e

module _ (clock : ℕ → Datetime) where
  add_capability-IsValid :
      (d : DeviceId) (v : Bool) (at : Datetime) (e : EndpointId) (c : CapabilityProfile)
      → Returns IsValid (add_capability clock d v at e c) (λ _. IsValid)
  unfolding add_capability
  add_capability-IsValid d v at e c =
      Returns-bind (lift (make_address d e c.capability)) _ (Returns-lift _)
        λ a. record { at = λ s h u. at_address a s h.1 u (c.capability === on_off) refl }
    where
      with_observation :
          (a : CapabilityAddress) (s : Simulator) (r : Result Observation) (u : Unit {0})
          → IsValid s
          → ((o : Observation) → r ≡ ok o → o.sequence ≡ 0)
          → let m = lift {S = Simulator} r >>= λ o.
              modify (λ (t : Simulator). record t { observations = insert a o t.observations }) in
            let y = m (record s {
              capabilities = insert a c s.capabilities;
              sequences = insert a 0 s.sequences;
            }) in
            y.0 ≡ ok u → IsValid y.1
      with_observation a s (err x) u h k f = cc
      with_observation a s (ok o) u h k f = put_first-IsValid s a c o h (k o refl)

      at_address :
          (a : CapabilityAddress) (s : Simulator)
          → IsValid s
          → (u : Unit {0}) (b : Bool) → (c.capability === on_off) ≡ b
          → let y =
              (if b
                  then (modify (λ (t : Simulator). record t { sequences = insert a 0 t.sequences })
                      >>= λ _.
                          lift (make_observation (bool v) source_name observed at (pos 0)) >>= λ o.
                          modify (λ (t : Simulator). record t {
                            observations = insert a o t.observations;
                          }))
                  else pure tt)
                (record s { capabilities = insert a c s.capabilities }) in
            y.0 ≡ ok u → IsValid y.1
      at_address a s h u true k f =
          with_observation a s _ u h (λ o e. (observed_as clock (bool v) at 0 o e).2) f
      at_address a s h u false k f = put_other-IsValid s a c h k

find-append {ℓ} :
    {A : Type ℓ} (p : A → Bool) (xs ys : List A) (x : A)
    → find p xs ≡ some x
    → find p (xs ++ ys) ≡ some x
find-append p [] ys x h = cc
find-append p (y ∷ xs) ys x h = ground (arith, h, find-append p xs ys x)

find-last {ℓ} :
    {A : Type ℓ} (p : A → Bool) (xs : List A) (x : A)
    → p x ≡ true
    → (y : A) × (find p (xs ++ x ∷ []) ≡ some y)
find-last p [] x h = (x, rw h refl)
find-last p (y ∷ xs) x h = by_test (Bool-cases (p y)) (find-last p xs x h)
  where
    by_test :
        (p y ≡ true) ⊎ (p y ≡ false)
        → (z : _) × (find p (xs ++ x ∷ []) ≡ some z)
        → (z : _) × (find p ((y ∷ xs) ++ x ∷ []) ≡ some z)
    by_test (inl e) _ = (y, rw e refl)
    by_test (inr e) (z, f) = (z, rw e f)

make_runtime_device_device :
    (d : DeviceId) (mf md : Text) (es : List EndpointId) (v : Device) (n : Text) (p : DeviceProfile)
    (cs : List RuntimeCapability) (r : RuntimeDevice)
    → make_device d mf md es ≡ ok v
    → make_runtime_device v n p cs ≡ ok r
    → r.device.device_id ≡ d
unfolding make_device make_runtime_device
make_runtime_device_device d mf md es v n p cs r e f = ground (arith, e, f)

-- valid, and with a device of that identity
abbrev IsReady : DeviceId → Simulator → Type 0
IsReady d s = IsValid s × ((x : RuntimeDevice) × (device_of d s ≡ some x))

append-IsReady :
    (s : Simulator) (d : DeviceId) (r : RuntimeDevice)
    → IsValid s
    → r.device.device_id ≡ d
    → IsReady d (record s { devices = s.devices ++ r ∷ [] })
unfolding observation
append-IsReady s d r v e = (
  record {
    counted = v.counted;
    known = λ i h. let (x, f) = v.known i h in (x, find-append (is_it i) s.devices (r ∷ []) x f);
    in_step = v.in_step;
  },
  find-last (is_it d) s.devices r (rw e (eq_refl device_eq d)),
)
  where
    is_it : DeviceId → RuntimeDevice → Bool
    is_it i x = x.device.device_id === i

available-IsValid :
    (s : Simulator) (d : DeviceId) (a : DeviceAvailability)
    → IsReady d s
    → IsValid (record s { availability = insert d a s.availability })
unfolding observation
available-IsValid s d a (v, found) = record {
  counted = v.counted;
  known = λ i h. by_test i (Bool-cases (d === i)) (rw⁻¹ (lookup-insert d i a s.availability) h);
  in_step = v.in_step;
}
  where
    by_test :
        (i : DeviceId)
        → ((d === i) ≡ true) ⊎ ((d === i) ≡ false)
        → is_some (if d === i then some a else lookup i s.availability) ≡ true
        → (x : RuntimeDevice) × (device_of i s ≡ some x)
    by_test i (inl t) h = rw⁻¹ ((device_beq_iff d i).0 t) found
    by_test i (inr t) h = v.known i (ground (arith, h, t))

module _ (clock : ℕ → Datetime) where
  add_endpoint-IsValid :
      (d : DeviceId) (v : Bool) (at : Datetime) (p : EndpointId × EndpointProfile)
      → Returns IsValid (add_endpoint clock d v at p) (λ _. IsValid)
  unfolding add_endpoint
  add_endpoint-IsValid d v at (e, p) =
      Returns-for_each p.capabilities _ (λ c. add_capability-IsValid clock d v at e c)

  add_device-IsValid :
      (ps : List DeviceProfile) (i : SimulatorDeviceSettings)
      → Returns IsValid (add_device clock ps i) (λ _. IsValid)
  unfolding add_device read_clock
  add_device-IsValid ps i =
      Returns-bind
        (lift (
          or_raise (find (λ (p : DeviceProfile). p.profile_id === i.profile_id) ps)
            (validation (codes "unknown simulator profile"))))
        _ (Returns-lift _)
        λ p. Returns-bind (lift (first_model p.models)) _ (Returns-lift _) λ m.
          Returns-bind (lift (make_device i.device_id p.manufacturer m (keys p.endpoints))) _
            (Returns-lift _)
            λ v.
              Returns-bind
                (lift (make_runtime_device v i.name p (sorted (writable_capabilities p.endpoints))))
                _ (Returns-lift _)
                λ r.
                  Returns-bind {Q = λ _. IsReady i.device_id}
                    (modify (λ s. record s { devices = s.devices ++ r ∷ [] })) _
                    (record {
                      at = λ s h _ _. append-IsReady s i.device_id r h.1.1.1.1 (
                          make_runtime_device_device i.device_id p.manufacturer m (keys p.endpoints)
                            v i.name p (sorted (writable_capabilities p.endpoints)) r h.1.0 h.0);
                    })
                    λ _.
                      Returns-bind {Q = λ _. IsReady i.device_id} (read_clock clock) _
                        (record { at = λ s h _ _. (ticked-IsValid s h.0, h.1) })
                        λ at.
                          Returns-bind
                            (lift (make_availability i.device_id online at source_name none)) _
                            (Returns-lift _)
                            λ a.
                              Returns-bind {Q = λ _. IsValid}
                                (modify (λ s. record s {
                                  availability = insert i.device_id a s.availability;
                                }))
                                _ (record { at = λ s h _ _. available-IsValid s i.device_id a h.1 })
                                λ _.
                                  Returns-for_each p.endpoints _
                                    (add_endpoint-IsValid i.device_id i.initial_on at)

  -- If the construction of the simulator returns, the simulator is valid.
  pub initialise-IsValid :
      (settings : List SimulatorDeviceSettings) (profiles : List DeviceProfile)
      → (initialise clock settings profiles empty).0 ≡ ok tt
      → IsValid (initialise clock settings profiles empty).1
  unfolding initialise observation lookup
  initialise-IsValid settings profiles =
      (Returns-for_each settings _ (add_device-IsValid profiles)).at empty
        (record { counted = λ x p f g. cc; known = λ d h. cc; in_step = λ a n f. cc }) tt
