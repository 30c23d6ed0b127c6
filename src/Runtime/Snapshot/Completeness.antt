-- ===== src/Runtime/Snapshot/Completeness.antt =====
-- What a snapshot says of one device (the loop of `_publish_snapshot` in runtime.py).
use smartenit_rescue.Prelude.{
  Bool, true, false, ◌&&◌, ◌≡◌, refl, ap₂, ◌∙◌, Option, none, some, List, [], ◌∷◌, arith, ◌===◌,
  if◌then◌else◌,
}
use smartenit_rescue.Prelude.Result.{Result, ok, err}
use smartenit_rescue.Prelude.Exec.{lift, ◌>>=◌}
use smartenit_rescue.Prelude.Dict.{lookup, lookup-insert_self}
use smartenit_rescue.Models.Identity.{DeviceId, device_eq}
use smartenit_rescue.Models.State.{offline, WireValue, Observation}
use smartenit_rescue.Models.Device.{DeviceAvailability}
use smartenit_rescue.Backends.Base.{CapabilityAddress, CapabilityMode, RuntimeDevice, Backend}
use smartenit_rescue.Runtime.{World, Config, Runtime}
use smartenit_rescue.Runtime.Publishing.{
  call_transport, publish_boolean, publish_observation, publish_known, snapshot_address,
  snapshot_addresses, publish_availability, snapshot_device,
}

-- A backend has a boolean to publish.
abbrev pub is_boolean : Option Observation → Bool
is_boolean none = false
is_boolean (some o) = boolean o.value
  where
    boolean : WireValue → Bool
    boolean (WireValue.bool _) = true
    boolean _ = false

-- Nothing observable of the device at this address is missing.
abbrev pub is_ready : Option Observation → Bool → CapabilityMode → Bool
is_ready o false mode = true
is_ready o true CapabilityMode.command_only = true
is_ready o true CapabilityMode.observable = is_boolean o

module _ (b : Backend) (w : World) (c : Config) where
  -- An action that leaves the backend and the noted availabilities, and returns `x` if it returns.
  abbrev Says : Bool → Runtime b.State → Result Bool × Runtime b.State → Type 0
  Says x r (ok y, r') =
      (y ≡ x) × (r'.backend ≡ r.backend) × (r'.published_availability ≡ r.published_availability)
  Says x r (err _, r') = Unit

  abbrev value_is_boolean : WireValue → Bool
  value_is_boolean (WireValue.bool _) = true
  value_is_boolean _ = false

  publish_boolean-Says :
      (a : CapabilityAddress) (o : Observation) (v : WireValue) (r : Runtime b.State)
      → Says (value_is_boolean v) r (publish_boolean b w c a o v r)
  unfolding publish_boolean call_transport
  publish_boolean-Says a o (WireValue.bool v) r = ground arith
  publish_boolean-Says a o (WireValue.int _) r = (refl, refl, refl)
  publish_boolean-Says a o (WireValue.float _) r = (refl, refl, refl)
  publish_boolean-Says a o (WireValue.str _) r = (refl, refl, refl)

  publish_known-Says :
      (a : CapabilityAddress) (o : Option Observation) (r : Runtime b.State)
      → Says (is_boolean o) r (publish_known b w c a o r)
  unfolding publish_known publish_observation
  publish_known-Says a none r = (refl, refl, refl)
  publish_known-Says a (some o) r = publish_boolean-Says a o o.value r

  snapshot_address-Says :
      (d : DeviceId) (a : CapabilityAddress) (m : CapabilityMode) (r : Runtime b.State)
      → Says
          (is_ready (b.observation a r.backend) (a.device_id === d) m)
          r
          (snapshot_address b w c d a m r)
  unfolding snapshot_address
  snapshot_address-Says d a CapabilityMode.command_only r = ground arith
  snapshot_address-Says d a CapabilityMode.observable r =
      ground (arith, publish_known-Says a (b.observation a r.backend) r)

  -- The specification: every observable address of the device has a boolean observation.
  abbrev pub all_ready : DeviceId → List (CapabilityAddress × CapabilityMode) → b.State → Bool
  all_ready d [] s = true
  all_ready d ((a, m) ∷ l) s = is_ready (b.observation a s) (a.device_id === d) m && all_ready d l s

  Says-trans :
      (x y : Bool) (r s : Runtime b.State) (res : Result Bool × Runtime b.State)
      → Says x s res
      → x ≡ y
      → s.backend ≡ r.backend
      → s.published_availability ≡ r.published_availability
      → Says y r res
  Says-trans x y r s (ok z, r') h e p q = (h.0 ∙ e, h.1 ∙ p, h.2 ∙ q)
  Says-trans x y r s (err _, r') h e p q = tt

  and_assoc : (p q t : Bool) → ((p && q) && t) ≡ (p && (q && t))
  and_assoc p q t = ground arith

  snapshot_addresses-Says :
      (d : DeviceId) (l : List (CapabilityAddress × CapabilityMode)) (complete : Bool)
      (r : Runtime b.State)
      → Says (complete && all_ready d l r.backend) r (snapshot_addresses b w c d l complete r)
  unfolding snapshot_addresses
  snapshot_addresses-Says d [] complete r = ground arith
  snapshot_addresses-Says d ((a, m) ∷ l) complete r =
      let (x, s) = snapshot_address b w c d a m r in
      go x s (snapshot_address-Says d a m r) (snapshot_addresses-Says d l)
    where
      go :
          (x : Result Bool) (s : Runtime b.State)
          → Says (is_ready (b.observation a r.backend) (a.device_id === d) m) r (x, s)
          → ((complete' : Bool) (s' : Runtime b.State)
              → Says
                  (complete' && all_ready d l s'.backend)
                  s'
                  (snapshot_addresses b w c d l complete' s'))
          → Says
              (complete
                && (is_ready (b.observation a r.backend) (a.device_id === d) m
                    && all_ready d l r.backend))
              r
              ((lift x >>= λ published. snapshot_addresses b w c d l (complete && published)) s)
      go (ok y) s h ih =
          Says-trans _ _ r s _ (ih (complete && y) s)
            (and_assoc complete y (all_ready d l s.backend)
              ∙ ap₂ (λ q t. complete && (q && all_ready d l t)) h.0 h.1)
            h.1 h.2
      go (err e) s h ih = tt

  -- If the publication of a device returns, its noted availability is that of the backend where
  -- all is ready, and offline where something observable is missing.
  pub snapshot_device_availability :
      (item : RuntimeDevice) (r : Runtime b.State) (v : DeviceAvailability) (s : b.State)
      → b.availability item.device.device_id r.backend ≡ (ok v, s)
      → (snapshot_device b w c item r).0 ≡ ok tt
      → lookup item.device.device_id (snapshot_device b w c item r).1.published_availability
        ≡ some (
            if all_ready item.device.device_id c.capability_modes r.backend
            then v.state
            else offline)
  unfolding snapshot_device publish_availability call_transport
  snapshot_device_availability item r v s e h =
      let d = item.device.device_id in
      let m = snapshot_addresses-Says d c.capability_modes true r in
      let (x, r') = snapshot_addresses b w c d c.capability_modes true r in
      ground (
        arith,
        m,
        lookup-insert_self d (if all_ready d c.capability_modes r.backend then v.state else offline)
            r'.published_availability,
      )
