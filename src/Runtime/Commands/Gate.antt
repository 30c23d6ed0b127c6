-- ===== src/Runtime/Commands/Gate.antt =====
-- The gate in front of the backend: which messages become commands.
use smartenit_rescue.Prelude.{
  Bool, true, false, ◌≡◌, ◌⊎◌, inl, inr, refl, ap, ◌∙◌, Option, none, some, ◌∷◌, arith, ◌===◌, ◌==◌,
  contains, Bool-cases,
}
use smartenit_rescue.Prelude.Result.{Result, ok, err, Result-cases}
use smartenit_rescue.Prelude.Exec.Keeps.{Keeps-when}
use smartenit_rescue.Prelude.Text.{codes, text_eq}
use smartenit_rescue.Models.State.{bool, is_online, Command, make_command}
use smartenit_rescue.Models.Device.{DeviceAvailability}
use smartenit_rescue.Backends.Base.{CapabilityAddress, address_eq, Backend}
use smartenit_rescue.Mqtt.Events.{Message}
use smartenit_rescue.Mqtt.Topics.{parse_command_topic, decode_on_off}
use smartenit_rescue.Runtime.Publishing.{publish_snapshot}
use smartenit_rescue.Runtime.{World, Config, Runtime, writable_addresses}
use smartenit_rescue.Runtime.Loop.{decode_and_run, handle_address, handle_message}
use smartenit_rescue.Runtime.Commands.{
  submitted, Quiet-snapshot, run_command_submits, run_command_refuses,
}

abbrev pub says_online : Result DeviceAvailability → Bool
says_online (ok a) = is_online a.state
says_online (err _) = false

module _ (b : Backend) (w : World) (c : Config) where
  -- What a message has to be for the state `d` to be commanded at the address `a`.
  pub record IsAllowed (m : Message) (r : Runtime b.State) (a : CapabilityAddress) (d : Bool)
      : Type 0 where
    pub not_status : (m.topic === c.home_assistant_status_topic) ≡ false
    pub not_retained : m.retain ≡ false
    pub at_least_once : m.qos ≡ 1
    pub address : parse_command_topic c.topics m.topic ≡ ok (some a)
    pub writable : contains a (writable_addresses c) ≡ true
    pub online : says_online (b.availability a.device_id r.backend).0 ≡ true
    pub payload : decode_on_off m.payload ≡ ok d

  abbrev pub command_for : Runtime b.State → CapabilityAddress → Bool → Result Command
  command_for r a d =
      make_command (w.request_id r.trace) a.device_id a.endpoint a.capability (some (bool d))

  -- the handler from the parsed topic on
  handle_address_submits :
      (m : Message) (r : Runtime b.State) (a : CapabilityAddress) (d : Bool) (k : Command)
      → contains a (writable_addresses c) ≡ true
      → says_online (b.availability a.device_id r.backend).0 ≡ true
      → decode_on_off m.payload ≡ ok d
      → command_for r a d ≡ ok k
      → submitted (handle_address b w c m (some a) r).1.trace ≡ k ∷ submitted r.trace
  unfolding handle_address
  handle_address_submits m r a d k h o p e =
      let s = (b.availability a.device_id r.backend).1 in
      ground (arith, run_command_submits b w c a d (record r { backend = s }) k)

  -- An allowed message whose command can be made submits exactly that command.
  pub handle_message_submits :
      (m : Message) (r : Runtime b.State) (a : CapabilityAddress) (d : Bool) (k : Command)
      → IsAllowed m r a d
      → command_for r a d ≡ ok k
      → submitted (handle_message b w c m r).1.trace ≡ k ∷ submitted r.trace
  unfolding handle_message
  handle_message_submits m r a d k h e =
      ground (arith, handle_address_submits m r a d k h.writable h.online h.payload e)

  -- What the handler did to the commands: nothing, or one that was allowed.
  abbrev pub Gated : Message → Runtime b.State → Runtime b.State → Type 0
  Gated m r r' =
      (submitted r'.trace ≡ submitted r.trace)
      ⊎ ((a : CapabilityAddress) × (d : Bool) × (k : Command) × IsAllowed m r a d
          × (command_for r a d ≡ ok k)
          × (submitted r'.trace ≡ k ∷ submitted r.trace))

  gate_decoded :
      (m : Message) (r s : Runtime b.State) (a : CapabilityAddress) (p : Result Bool)
      → s.trace ≡ r.trace
      → ((d : Bool) → p ≡ ok d → IsAllowed m r a d)
      → Gated m r (decode_and_run b w c a p s).1
  unfolding decode_and_run
  gate_decoded m r s a (err x) t h = inl (ap submitted t)
  gate_decoded m r s a (ok d) t h = elim (Result-cases (command_for s a d)) [
    | inl (k, e) ↦ inr (
      a,
      d,
      k,
      h d refl,
      rw t at e,
      run_command_submits b w c a d s k e ∙ ap (λ l. k ∷ submitted l) t,
    )
    | inr (x, e) ↦ inl (run_command_refuses b w c a d s x e ∙ ap submitted t)
  ]

  -- an online device of a writable address: the payload decides
  handle_address_online :
      (m : Message) (r : Runtime b.State) (a : CapabilityAddress) (v : DeviceAvailability)
      (s : b.State)
      → b.availability a.device_id r.backend ≡ (ok v, s)
      → contains a (writable_addresses c) ≡ true
      → is_online v.state ≡ true
      → handle_address b w c m (some a) r
        ≡ decode_and_run b w c a (decode_on_off m.payload) (record r { backend = s })
  unfolding handle_address
  handle_address_online m r a v s e h o = ground arith

  gate_available :
      (m : Message) (r : Runtime b.State) (a : CapabilityAddress) (v : Result DeviceAvailability)
      (s : b.State)
      → b.availability a.device_id r.backend ≡ (v, s)
      → contains a (writable_addresses c) ≡ true
      → ((d : Bool) → says_online v ≡ true → decode_on_off m.payload ≡ ok d → IsAllowed m r a d)
      → Gated m r (handle_address b w c m (some a) r).1
  unfolding handle_address
  gate_available m r a (err x) s e h allowed = inl (ground arith)
  gate_available m r a (ok v) s e h allowed = elim (Bool-cases (is_online v.state)) [
    | inr off ↦ inl (ground arith)
    | inl on ↦ rw (handle_address_online m r a v s e h on) (
        gate_decoded m r (record r { backend = s }) a (decode_on_off m.payload) refl
          (λ d p. allowed d on p))
  ]

  gate_address :
      (m : Message) (r : Runtime b.State) (a : CapabilityAddress)
      → ((d : Bool)
          → contains a (writable_addresses c) ≡ true
          → says_online (b.availability a.device_id r.backend).0 ≡ true
          → decode_on_off m.payload ≡ ok d
          → IsAllowed m r a d)
      → Gated m r (handle_address b w c m (some a) r).1
  unfolding handle_address
  gate_address m r a allowed = elim (Bool-cases (contains a (writable_addresses c))) [
    | inr foreign ↦ inl (ground arith)
    | inl h ↦
        let (v, s) = b.availability a.device_id r.backend in
        gate_available m r a v s refl h (λ d. allowed d h)
  ]

  handle_message_parsed :
      (m : Message) (r : Runtime b.State) (a : CapabilityAddress)
      → (m.topic === c.home_assistant_status_topic) ≡ false
      → m.retain ≡ false
      → m.qos ≡ 1
      → parse_command_topic c.topics m.topic ≡ ok (some a)
      → handle_message b w c m r ≡ handle_address b w c m (some a) r
  unfolding handle_message
  handle_message_parsed m r a n k q p = ground arith

  -- the status topic of Home Assistant, on which its birth asks for a snapshot
  handle_message_status :
      (m : Message) (r : Runtime b.State)
      → (m.topic === c.home_assistant_status_topic) ≡ true
      → submitted (handle_message b w c m r).1.trace ≡ submitted r.trace
  unfolding handle_message
  handle_message_status m r h = rw h (
      (Keeps-when (m.payload === codes "online") (publish_snapshot b w c)
          (Quiet-snapshot b w c (submitted r.trace))).at
        r refl)

  gate_parsed :
      (m : Message) (r : Runtime b.State) (o : Result (Option CapabilityAddress))
      → (m.topic === c.home_assistant_status_topic) ≡ false
      → m.retain ≡ false
      → m.qos ≡ 1
      → parse_command_topic c.topics m.topic ≡ o
      → Gated m r (handle_message b w c m r).1
  unfolding handle_message handle_address
  gate_parsed m r (err x) n k q p = inl (ground arith)
  gate_parsed m r (ok none) n k q p = inl (ground arith)
  gate_parsed m r (ok (some a)) n k q p = rw (handle_message_parsed m r a n k q p) (
      gate_address m r a (λ d h o y. record {
        not_status = n;
        not_retained = k;
        at_least_once = q;
        address = p;
        writable = h;
        online = o;
        payload = y;
      }))

  gate_unretained :
      (m : Message) (r : Runtime b.State)
      → (m.topic === c.home_assistant_status_topic) ≡ false
      → m.retain ≡ false
      → Gated m r (handle_message b w c m r).1
  unfolding handle_message
  gate_unretained m r n k = elim (Bool-cases (m.qos == 1)) [
    | inr other ↦ inl (ground arith)
    | inl q ↦ gate_parsed m r (parse_command_topic c.topics m.topic) n k (ground arith) refl
  ]

  gate_command :
      (m : Message) (r : Runtime b.State)
      → (m.topic === c.home_assistant_status_topic) ≡ false
      → Gated m r (handle_message b w c m r).1
  unfolding handle_message
  gate_command m r n = elim (Bool-cases m.retain) [
    | inl k ↦ inl (ground arith)
    | inr k ↦ gate_unretained m r n k
  ]

  -- Whatever a message is, its handler gives the backend no command, or exactly the one command of
  -- a message that is allowed: not retained, of quality of service 1, on the command topic of a
  -- writable address whose device is online, with the payload of the state that is commanded.
  pub handle_message_gate :
      (m : Message) (r : Runtime b.State) → Gated m r (handle_message b w c m r).1
  handle_message_gate m r = elim (Bool-cases (m.topic === c.home_assistant_status_topic)) [
    | inl h ↦ inl (handle_message_status m r h)
    | inr h ↦ gate_command m r h
  ]
