-- ===== src/Backends/Simulator/Invariant.antt =====
-- The invariant of the simulator, and which commands it confirms.
use smartenit_rescue.Prelude.Exec.{Exec, ◌>>=◌, lift}
use smartenit_rescue.Prelude.Text.{codes, is_blank, is_space}
use smartenit_rescue.Prelude.{
  refl, if◌then◌else◌, ℕ, Bool, true, false, not, ◌&&◌, ◌≡◌, Option, none, some, arith, ◌===◌,
  contains, find,
}
use smartenit_rescue.Prelude.Result.{Text, Result, ok, err, stop_iteration, or_raise}
use smartenit_rescue.Prelude.Datetime.{Datetime, is_aware}
use smartenit_rescue.Prelude.Dict.{has_key, lookup}
use smartenit_rescue.Models.Device.Canonical.{require_canonical_lem}
use smartenit_rescue.Models.Capability.{capability_beq_iff, on_off, capability_eq}
use smartenit_rescue.Models.Identity.{DeviceId, device_eq, endpoint_eq}
use smartenit_rescue.Models.Identity.Canonical.{IsCanonical}
use smartenit_rescue.Models.State.{
  CommandStatus, confirmed, rejected, WireValue, Observation, make_observation, Command,
  CommandResult, check_result, make_result,
}
use smartenit_rescue.Profiles.Model.{CapabilityProfile}
use smartenit_rescue.Backends.Base.{make_address, CapabilityAddress, address_eq, RuntimeDevice}
use smartenit_rescue.Backends.Simulator.{
  set_desired, write_capability, Simulator, read_clock, observation, reject, write_value,
}
use smartenit_rescue.Backends.Simulator.Commands.{by_value, address_of}

abbrev pub device_of : DeviceId → Simulator → Option RuntimeDevice
device_of d s = find (λ (x : RuntimeDevice). x.device.device_id === d) s.devices

-- Every writable On/off capability is counted, every device with an availability is known, and a
-- count is the sequence number of the observation at its address.
pub record IsValid (s : Simulator) : Type 0 where
  pub counted :
      (a : CapabilityAddress) (p : CapabilityProfile)
      → lookup a s.capabilities ≡ some p
      → p.capability ≡ on_off
      → (n : ℕ) × (lookup a s.sequences ≡ some n)
  pub known :
      (d : DeviceId)
      → has_key d s.availability ≡ true
      → (x : RuntimeDevice) × (device_of d s ≡ some x)
  pub in_step :
      (a : CapabilityAddress) (n : ℕ)
      → lookup a s.sequences ≡ some n
      → (o : Observation) × (observation a s ≡ some o) × (o.sequence ≡ n)

abbrev pub HasStatus : CommandStatus → Result CommandResult → Type 0
HasStatus t (ok r) = r.status ≡ t
HasStatus t (err _) = ⊥

-- The specification of what is confirmed.
abbrev pub is_boolean : WireValue → Bool
is_boolean (WireValue.bool _) = true
is_boolean _ = false

abbrev pub takes : Option CapabilityProfile → WireValue → Bool
takes none w = false
takes (some p) w = p.writable && (p.capability === on_off && is_boolean w)

abbrev pub has_endpoint : Command → Option RuntimeDevice → Bool
has_endpoint k none = false
has_endpoint k (some d) = contains k.endpoint d.device.endpoints

abbrev pub verdict : Bool → CommandStatus
verdict true = confirmed
verdict false = rejected

module _ (clock : ℕ → Datetime) where
  -- A command that can be answered at all: the clock and the request are well formed.
  pub record IsAnswerable (k : Command) (s : Simulator) : Type 0 where
    pub canonical : IsCanonical k.device_id
    pub aware : is_aware (clock s.ticks) ≡ true
    pub request : is_blank k.request_id ≡ false

  abbrev pub accepts : Command → Simulator → Bool
  accepts k s =
      not s.is_closed
      && (has_key k.device_id s.availability
          && (has_endpoint k (device_of k.device_id s)
              && takes (lookup (address_of clock k) s.capabilities) k.desired))

  reject_status :
      (k : Command) (t : Text) (s : Simulator)
      → is_blank k.request_id ≡ false
      → is_blank t ≡ false
      → HasStatus rejected (reject k t s).0
  unfolding reject make_result check_result
  reject_status k t s h b = ground arith

  write_value_status :
      (k : Command) (a : CapabilityAddress) (v : Bool) (s : Simulator) (n : ℕ)
      → IsAnswerable k s
      → lookup a s.sequences ≡ some n
      → HasStatus confirmed (write_value clock k a v s).0
  unfolding write_value read_clock make_observation make_result check_result is_space
  write_value_status k a v s n h e = ground (arith, h.aware, h.request)

  -- A guard that rejects, in front of an answer.
  guarded :
      (c q : Bool) (x y : Result CommandResult × Simulator)
      → HasStatus rejected x.0
      → (c ≡ true → HasStatus (verdict q) y.0)
      → HasStatus (verdict (c && q)) (if not c then x else y).0
  guarded true q x y hx hy = hy refl
  guarded false q x y hx hy = hx

  guarded_by :
      (c q : Bool) (m n : Exec Simulator CommandResult) (s : Simulator)
      → HasStatus rejected (m s).0
      → (c ≡ true → HasStatus (verdict q) (n s).0)
      → HasStatus (verdict (c && q)) ((if not c then m else n) s).0
  guarded_by true q m n s hm hn = hn refl
  guarded_by false q m n s hm hn = hm

  by_value_status :
      (k : Command) (w : WireValue) (s : Simulator) (n : ℕ)
      → IsAnswerable k s
      → lookup (address_of clock k) s.sequences ≡ some n
      → HasStatus (verdict (is_boolean w)) (by_value clock k w s).0
  unfolding by_value is_space
  by_value_status k (WireValue.bool v) s n h e = write_value_status k _ v s n h e
  by_value_status k (WireValue.int _) s n h e = reject_status k _ s h.request refl
  by_value_status k (WireValue.float _) s n h e = reject_status k _ s h.request refl
  by_value_status k (WireValue.str _) s n h e = reject_status k _ s h.request refl

  write_capability_status :
      (k : Command) (s : Simulator) (p : Option CapabilityProfile)
      → IsValid s
      → IsAnswerable k s
      → lookup (address_of clock k) s.capabilities ≡ p
      → HasStatus
          (verdict (takes p k.desired))
          (write_capability clock k (address_of clock k) p s).0
  unfolding write_capability by_value is_space
  write_capability_status k s none v h e = reject_status k _ s h.request refl
  write_capability_status k s (some p) v h e =
      guarded_by p.writable (p.capability === on_off && is_boolean k.desired) _ _ s
        (reject_status k _ s h.request refl)
        λ _.
          guarded_by (p.capability === on_off) (is_boolean k.desired) _ _ s
            (reject_status k _ s h.request refl)
            λ y.
              let (n, f) = v.counted _ p e ((capability_beq_iff p.capability on_off).0 y) in
              by_value_status k k.desired s n h f

  by_device_status :
      (k : Command) (s : Simulator) (d : Option RuntimeDevice)
      → IsValid s
      → IsAnswerable k s
      → (x : RuntimeDevice) × (d ≡ some x)
      → HasStatus
          (verdict
            (has_endpoint k d && takes (lookup (address_of clock k) s.capabilities) k.desired))
          ((lift (or_raise d stop_iteration) >>= λ x.
              if not (contains k.endpoint x.device.endpoints)
              then reject k (codes "unknown endpoint")
              else (lift (make_address k.device_id k.endpoint k.capability) >>= λ a.
                  λ t. write_capability clock k a (lookup a t.capabilities) t))
            s).0
  unfolding make_address is_space
  by_device_status k s none v h (_, e) = cc
  by_device_status k s (some x) v h _ =
      guarded_by (contains k.endpoint x.device.endpoints)
        (takes (lookup (address_of clock k) s.capabilities) k.desired) _ _ s
        (reject_status k _ s h.request refl)
        λ _.
          rw (require_canonical_lem k.device_id h.canonical)
            (write_capability_status k s (lookup (address_of clock k) s.capabilities) v h refl)

  -- In a valid simulator an answerable command never raises: it is confirmed if the simulator is
  -- open and knows its device, endpoint and writable On/off capability, and its value is a boolean,
  -- and otherwise it is rejected.
  pub set_desired_status :
      (k : Command) (s : Simulator)
      → IsValid s
      → IsAnswerable k s
      → HasStatus (verdict (accepts k s)) (set_desired clock k s).0
  unfolding set_desired is_space
  set_desired_status k s v h =
      open_or_closed s.is_closed _ _ _ (reject_status k _ s h.request refl) (
        guarded (has_key k.device_id s.availability) _ _ _ (reject_status k _ s h.request refl)
          λ y. by_device_status k s (device_of k.device_id s) v h (v.known k.device_id y))
    where
      open_or_closed :
          (c q : Bool) (x y : Result CommandResult × Simulator)
          → HasStatus rejected x.0
          → HasStatus (verdict q) y.0
          → HasStatus (verdict (not c && q)) (if c then x else y).0
      open_or_closed true q x y hx hy = hx
      open_or_closed false q x y hx hy = hy
