-- ===== src/Runtime/Snapshot.antt =====
-- The snapshot (runtime.py, `_publish_snapshot`): which of its calls open the bridge.
pub mod Completeness
use smartenit_rescue.Prelude.{
  ℕ, suc, ◌+◌, Bool, true, false, not, ◌&&◌, ◌||◌, ◌≡◌, ◌⊎◌, inl, inr, refl, ap, Option, none, some,
  List, [], ◌∷◌, ◌++◌, arith, ◌===◌, length, length-append, All, if◌then◌else◌, Bool-cases,
}
use smartenit_rescue.Prelude.Result.{Text, Result, ok, err}
use smartenit_rescue.Prelude.Exec.{Exec, pure, lift, gets, modify, for_each, ◌>>=◌, ◌>>◌}
use smartenit_rescue.Prelude.Exec.Keeps.{
  Keeps, Keeps-bind, Keeps-for_each, Keeps-for-All, keeps_rules,
}
use smartenit_rescue.Prelude.Text.{codes, text_eq, text_beq, text_beq_iff}
use smartenit_rescue.Models.Identity.{DeviceId}
use smartenit_rescue.Models.Identity.Canonical.{IsCanonical}
use smartenit_rescue.Models.State.{
  AvailabilityState, Confidence, confidence_text, WireValue, Observation,
}
use smartenit_rescue.Backends.Base.{CapabilityAddress, CapabilityMode, RuntimeDevice, Backend}
use smartenit_rescue.Mqtt.Events.{Publish}
use smartenit_rescue.Mqtt.Topics.{
  TopicLayout, bridge_availability, device_availability, encode_on_off,
}
use smartenit_rescue.Runtime.{
  Effect, connect, disconnect, read_clock, new_request_id, refresh, close_backend, subscribe,
  publish, publish_and_wait, set_desired, World, Config, Runtime,
}
use smartenit_rescue.Runtime.Publishing.{
  on_backend, note_published, call_transport, retained, unretained, publish_boolean,
  publish_observation, publish_known, snapshot_address, snapshot_addresses, publish_availability,
  snapshot_device, publish_discovery, prepare_snapshot, publish_snapshot,
}

-- Is this the publication that opens the bridge: retained, `online`, on the bridge's own topic?
unfoldable pub opens_bridge : TopicLayout → Publish → Bool
opens_bridge t p = p.retain && (p.payload === codes "online" && p.topic === bridge_availability t)

-- The number of times that a trace opens the bridge.
abbrev pub openings : TopicLayout → List Effect → ℕ
openings t [] = 0
openings t (publish p ∷ l) = if opens_bridge t p then suc (openings t l) else openings t l
openings t (connect ∷ l) = openings t l
openings t (disconnect ∷ l) = openings t l
openings t (read_clock ∷ l) = openings t l
openings t (new_request_id ∷ l) = openings t l
openings t (refresh ∷ l) = openings t l
openings t (close_backend ∷ l) = openings t l
openings t (subscribe _ _ ∷ l) = openings t l
openings t (publish_and_wait _ ∷ l) = openings t l
openings t (set_desired _ ∷ l) = openings t l

cancel : (p s t : Text) → p ++ s ≡ p ++ t → length s ≡ length t
cancel p s t e = omega (arith, ap length e, length-append {0} p s, length-append {0} p t)

-- the topic of a device is not the topic of the bridge
device_topic_differs :
    (t : TopicLayout) (d : DeviceId)
    → IsCanonical d
    → (device_availability t d === bridge_availability t) ≡ false
unfolding device_availability bridge_availability
device_topic_differs t d c = elim (Bool-cases (device_availability t d === bridge_availability t)) [
  | inr differs ↦ differs
  | inl same ↦
      let e = (text_beq_iff (device_availability t d) (bridge_availability t)).0 same in
      let n = cancel t.topic_prefix _ _ e in
      absurd (omega (arith, n, c.digits, length-append {0} d.value (codes "/availability")))
]

module _ (b : Backend) (w : World) (c : Config) (n : ℕ) where
  abbrev Shut : {A : Type 0} → Exec (Runtime b.State) A → Type 0
  Shut m = Keeps (λ r. openings c.topics r.trace ≡ n) m

  Shut-publish :
      (p : Publish) → opens_bridge c.topics p ≡ false → Shut (call_transport w (publish p))
  unfolding call_transport
  Shut-publish p h = record { at = λ r k. ground arith }

  Shut-backend : {A : Type 0} (m : Exec b.State A) → Shut (on_backend m)
  Shut-backend m = record { at = λ r h. h }

  not_state : (t : Text) (v : Bool) → opens_bridge c.topics (retained t (encode_on_off v)) ≡ false
  unfolding opens_bridge encode_on_off text_beq
  not_state t true = refl
  not_state t false = refl

  not_confidence :
      (t : Text) (k : Confidence) → opens_bridge c.topics (retained t (confidence_text k)) ≡ false
  unfolding opens_bridge confidence_text text_beq
  not_confidence t Confidence.observed = refl
  not_confidence t _ = refl

  not_offline : (t : Text) → opens_bridge c.topics (retained t (codes "offline")) ≡ false
  unfolding opens_bridge text_beq
  not_offline t = refl

  not_retained : (t p : Text) → opens_bridge c.topics (unretained t p) ≡ false
  unfolding opens_bridge
  not_retained t p = refl

  not_device :
      (d : DeviceId) (p : Text)
      → IsCanonical d
      → opens_bridge c.topics (retained (device_availability c.topics d) p) ≡ false
  unfolding opens_bridge
  not_device d p h = ground (arith, device_topic_differs c.topics d h)

  ruleset shut_rules = (
    keeps_rules, Shut-publish, Shut-backend, not_state, not_confidence, not_offline, not_retained,
  )

  Shut-boolean :
      (a : CapabilityAddress) (o : Observation) (v : WireValue) → Shut (publish_boolean b w c a o v)
  unfolding publish_boolean
  Shut-boolean a o (WireValue.bool v) = search shut_rules
  Shut-boolean a o _ = search shut_rules

  Shut-known : (a : CapabilityAddress) (o : Option Observation) → Shut (publish_known b w c a o)
  unfolding publish_known publish_observation
  Shut-known a none = search shut_rules
  Shut-known a (some o) = Shut-boolean a o o.value

  Shut-mode :
      (d : DeviceId) (a : CapabilityAddress) (m : CapabilityMode)
      → Shut (snapshot_address b w c d a m)
  unfolding snapshot_address
  Shut-mode d a CapabilityMode.command_only = search shut_rules
  Shut-mode d a CapabilityMode.observable = search (shut_rules, Shut-known)

  Shut-addresses :
      (d : DeviceId) (l : List (CapabilityAddress × CapabilityMode)) (complete : Bool)
      → Shut (snapshot_addresses b w c d l complete)
  unfolding snapshot_addresses
  Shut-addresses d [] complete = search shut_rules
  Shut-addresses d ((a, m) ∷ rest) complete =
      Keeps-bind _ _ (Shut-mode d a m) (λ p. Shut-addresses d rest _)

  Shut-noted : (d : DeviceId) (s : AvailabilityState) → Shut (modify (note_published d s))
  Shut-noted d s = record { at = λ r k. k }

  Shut-availability :
      (d : DeviceId) (s : AvailabilityState) → IsCanonical d → Shut (publish_availability b w c d s)
  unfolding publish_availability
  Shut-availability d s h = search (shut_rules, not_device, Shut-noted)

  Shut-device :
      (item : RuntimeDevice) → IsCanonical item.device.device_id → Shut (snapshot_device b w c item)
  unfolding snapshot_device
  Shut-device item h = search (shut_rules, Shut-addresses, Shut-availability)

  Shut-discovery : (item : RuntimeDevice) → Shut (publish_discovery b w c item)
  unfolding publish_discovery
  Shut-discovery item = search shut_rules

  Shut-snapshot_devices :
      All (λ (item : RuntimeDevice). IsCanonical item.device.device_id) c.devices
      → Shut (for_each c.devices (snapshot_device b w c))
  Shut-snapshot_devices h = Keeps-for-All c.devices (snapshot_device b w c) h Shut-device

  Shut-prepare :
      All (λ (item : RuntimeDevice). IsCanonical item.device.device_id) c.devices
      → Shut (prepare_snapshot b w c)
  unfolding prepare_snapshot
  Shut-prepare h = search (shut_rules, Shut-discovery, Shut-snapshot_devices)

module _ (b : Backend) (w : World) (c : Config) where
  abbrev pub opening : Effect
  opening = publish (retained (bridge_availability c.topics) (codes "online"))

  -- What a snapshot does to the openings of the bridge: none, or one, by its very last call.
  abbrev pub OpensLast : Runtime b.State → Runtime b.State → Type 0
  OpensLast r r' =
      (openings c.topics r'.trace ≡ openings c.topics r.trace)
      ⊎ ((l : List Effect) × (r'.trace ≡ opening ∷ l)
          × (openings c.topics l ≡ openings c.topics r.trace))

  opens_after :
      (r : Runtime b.State) (x : Result (Unit {0})) (s : Runtime b.State)
      → openings c.topics s.trace ≡ openings c.topics r.trace
      → let (y, r') = (lift x >>= λ _. call_transport w opening) s in
        OpensLast r r' × (y ≡ ok tt → r'.trace ≡ opening ∷ s.trace)
  unfolding call_transport
  opens_after r (ok _) s h = (inr (s.trace, refl, h), λ _. refl)
  opens_after r (err e) s h = (inl h, λ bad. cc)

  -- With canonical devices, a snapshot opens the bridge by its last call and by no other, whether it
  -- returns or raises; and if it returns, its last call did open the bridge.
  pub publish_snapshot-OpensLast :
      (r : Runtime b.State)
      → All (λ (item : RuntimeDevice). IsCanonical item.device.device_id) c.devices
      → let (y, r') = publish_snapshot b w c r in
        OpensLast r r' × (y ≡ ok tt → r'.trace ≡ opening ∷ (prepare_snapshot b w c r).1.trace)
  unfolding publish_snapshot
  publish_snapshot-OpensLast r h =
      let (x, s) = prepare_snapshot b w c r in
      opens_after r x s ((Shut-prepare b w c (openings c.topics r.trace) h).at r refl)
