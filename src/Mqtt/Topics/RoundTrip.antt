-- ===== src/Mqtt/Topics/RoundTrip.antt =====
-- Command topics are read back exactly, and nothing else is read as one.
use smartenit_rescue.Prelude.{
  Option, none, Option-cases, ◌≢◌, ℕ, false, ◌≡◌, refl, sym, ap, ◌∙◌, some, List, [], ◌∷◌, ◌++◌,
  arith, inl, inr, eq_refl,
}
use smartenit_rescue.Prelude.Number.{pos}
use smartenit_rescue.Prelude.Result.{
  on_invalid-eq-ok, on_invalid_refused, Error, Text, Result-cases, ok, err,
}
use smartenit_rescue.Prelude.Text.{
  codes, has, after_prefix, after_prefix-append, after_prefix_sound, split, split_first-append,
  split_first-last, join, join-split, has-append, has-is_hex, is_hex, text_eq, text_beq,
  text_beq_iff,
}
use smartenit_rescue.Prelude.Decimal.{show, read}
use smartenit_rescue.Models.Capability.{on_off, capability_text}
use smartenit_rescue.Models.Identity.{DeviceId, parse_device_id, make_endpoint_id, endpoint_text}
use smartenit_rescue.Models.Identity.Canonical.{
  parse_device_id-IsRefusal, make_endpoint_id-IsRefusal, IsCanonical, IsEndpoint,
  parse_device_id_value, parse_device_id-IsCanonical, make_endpoint_id_value,
  make_endpoint_id-IsEndpoint, endpoint_text-Shown,
}
use smartenit_rescue.Models.Device.Canonical.{require_canonical_lem}
use smartenit_rescue.Backends.Base.{CapabilityAddress, make_address}
use smartenit_rescue.Mqtt.Topics.{
  TopicLayout, command_topic, parse_parts, parse_suffix, parse_command_topic,
}

-- No character of a text is a wildcard or the null character.
pub record IsPlain (s : Text) : Type 0 where
  pub no_plus : has b'+' s ≡ false
  pub no_hash : has b'#' s ≡ false
  pub no_nul : has 0 s ≡ false

-- An address that the bridge serves: canonical, with the one capability of the topics.
pub record IsAddress (a : CapabilityAddress) : Type 0 where
  pub device : IsCanonical a.device_id
  pub endpoint : IsEndpoint a.endpoint
  pub capability : a.capability ≡ on_off

make_address_lem :
    (a : CapabilityAddress) → IsAddress a → make_address a.device_id a.endpoint on_off ≡ ok a
unfolding make_address
make_address_lem a h = rw (require_canonical_lem a.device_id h.device) (cc (h.capability))

parse_parts-IsAddress :
    (a : CapabilityAddress)
    → IsAddress a
    → parse_parts a.device_id.value (endpoint_text a.endpoint) (codes "on_off") (codes "command")
      ≡ ok (some a)
unfolding parse_parts capability_text text_beq
parse_parts-IsAddress a h =
    let s = endpoint_text-Shown a.endpoint h.endpoint in
    let back = ap (λ n. make_endpoint_id (pos n)) s.read_back in
    ground (
      arith,
      s.short,
      s.decimal,
      back,
      parse_device_id_value a.device_id h.device,
      make_endpoint_id_value a.endpoint h.endpoint,
      eq_refl text_eq a.device_id.value,
      eq_refl text_eq (show a.endpoint.value),
      make_address_lem a h,
    )

no_slash_device : (d : DeviceId) → IsCanonical d → has b'/' d.value ≡ false
unfolding is_hex
no_slash_device d c = has-is_hex b'/' d.value refl c.hex

split_parts :
    (p q r k : Text)
    → has b'/' p ≡ false
    → has b'/' q ≡ false
    → has b'/' r ≡ false
    → has b'/' k ≡ false
    → split b'/' (p ++ b'/' ∷ (q ++ b'/' ∷ (r ++ b'/' ∷ k))) ≡ p ∷ q ∷ r ∷ k ∷ []
split_parts p q r k hp hq hr hk = simp (
  split_first-append b'/' p (q ++ b'/' ∷ (r ++ b'/' ∷ k)) hp,
  split_first-append b'/' q (r ++ b'/' ∷ k) hq,
  split_first-append b'/' r k hr,
  split_first-last b'/' k hk,
)

has-command_topic :
    (c : ℕ) (t : TopicLayout) (a : CapabilityAddress)
    → has c t.topic_prefix ≡ false
    → has c a.device_id.value ≡ false
    → has c (endpoint_text a.endpoint) ≡ false
    → a.capability ≡ on_off
    → has c (codes "/on_off/command") ≡ false
    → has c (command_topic t a) ≡ false
unfolding command_topic capability_text has
has-command_topic c t a p d e o k = rw o (simp (has-append, p, d, e) (ground arith))

no_wildcards :
    (t : TopicLayout) (a : CapabilityAddress)
    → IsPlain t.topic_prefix
    → IsAddress a
    → IsPlain (command_topic t a)
unfolding is_hex has
no_wildcards t a p h =
    let s = endpoint_text-Shown a.endpoint h.endpoint in
    let d = λ (c : ℕ) (n : is_hex c ≡ false). has-is_hex c a.device_id.value n h.device.hex in
    record {
      no_plus = has-command_topic b'+' t a p.no_plus (d b'+' refl) s.no_plus h.capability refl;
      no_hash = has-command_topic b'#' t a p.no_hash (d b'#' refl) s.no_hash h.capability refl;
      no_nul = has-command_topic 0 t a p.no_nul (d 0 refl) s.no_nul h.capability refl;
    }

split-command_topic :
    (a : CapabilityAddress)
    → IsAddress a
    → split b'/' (
        a.device_id.value
        ++ b'/'
          ∷ (endpoint_text a.endpoint
              ++ b'/' ∷ (capability_text a.capability ++ b'/' ∷ codes "command")))
      ≡ a.device_id.value ∷ endpoint_text a.endpoint ∷ codes "on_off" ∷ codes "command" ∷ []
unfolding capability_text has
split-command_topic a h = rw h.capability (
    split_parts a.device_id.value (endpoint_text a.endpoint) (codes "on_off") (codes "command")
      (no_slash_device a.device_id h.device) (endpoint_text-Shown a.endpoint h.endpoint).no_slash
      refl refl)

-- the topic behind the prefix
abbrev suffix : CapabilityAddress → Text
suffix a =
    a.device_id.value
    ++ b'/'
      ∷ (endpoint_text a.endpoint
          ++ b'/' ∷ (capability_text a.capability ++ b'/' ∷ codes "command"))

behind :
    (t : TopicLayout) (a : CapabilityAddress)
    → after_prefix (t.topic_prefix ++ codes "/") (command_topic t a) ≡ some (suffix a)
unfolding command_topic
behind t a = after_prefix-append (t.topic_prefix ++ codes "/") (suffix a)

-- With a plain prefix, the command topic of a canonical On/off address is read back as that address.
pub parse_command_topic-command_topic :
    (t : TopicLayout) (a : CapabilityAddress)
    → IsPlain t.topic_prefix
    → IsAddress a
    → parse_command_topic t (command_topic t a) ≡ ok (some a)
unfolding parse_command_topic
parse_command_topic-command_topic t a plain h =
    let w = no_wildcards t a plain h in
    rw (w.no_plus, w.no_hash, w.no_nul, behind t a)
      (rw (split-command_topic a h) (parse_parts-IsAddress a h))

parse_parts_sound :
    (w x y z : Text) (a : CapabilityAddress)
    → parse_parts w x y z ≡ ok (some a)
    → (w ≡ a.device_id.value)
      × (x ≡ endpoint_text a.endpoint)
      × (y ≡ codes "on_off")
      × (z ≡ codes "command")
      × IsAddress a
unfolding parse_parts capability_text make_address
parse_parts_sound w x y z a e = elim (Result-cases (parse_device_id w)) [
  | inr (er, bad) ↦ ground (arith, on_invalid-eq-ok none (some a) er)
  | inl (d, p) ↦ elim (Result-cases (make_endpoint_id (pos (read x)))) [
    | inr (er, bad) ↦ ground (arith, on_invalid-eq-ok none (some a) er)
    | inl (n, q) ↦ ground (
      arith,
      parse_device_id-IsCanonical w d,
      make_endpoint_id-IsEndpoint (read x) n,
      text_beq_iff d.value w,
      text_beq_iff (endpoint_text n) x,
      text_beq_iff y (codes "on_off"),
      text_beq_iff z (codes "command"),
    )
  ]
]

abbrev parts_of : CapabilityAddress → List Text
parts_of a = a.device_id.value ∷ endpoint_text a.endpoint ∷ codes "on_off" ∷ codes "command" ∷ []

parse_suffix_sound :
    (ps : List Text) (a : CapabilityAddress)
    → parse_suffix ps ≡ ok (some a)
    → (ps ≡ parts_of a) × IsAddress a
unfolding parse_suffix
parse_suffix_sound [] a e = cc
parse_suffix_sound (w ∷ []) a e = cc
parse_suffix_sound (w ∷ x ∷ []) a e = cc
parse_suffix_sound (w ∷ x ∷ y ∷ []) a e = cc
parse_suffix_sound (w ∷ x ∷ y ∷ z ∷ []) a e =
    let (p, q, r, k, h) = parse_parts_sound w x y z a e in (cc (p, q, r, k), h)
parse_suffix_sound (w ∷ x ∷ y ∷ z ∷ v ∷ ps) a e = cc

command_topic-parts :
    (t : TopicLayout) (a : CapabilityAddress) (topic s : Text)
    → after_prefix (t.topic_prefix ++ codes "/") topic ≡ some s
    → split b'/' s ≡ parts_of a
    → IsAddress a
    → topic ≡ command_topic t a
unfolding command_topic capability_text
command_topic-parts t a topic s p e h =
    after_prefix_sound (t.topic_prefix ++ codes "/") topic s p
    ∙ ap (λ r. (t.topic_prefix ++ codes "/") ++ r)
        (sym (join-split b'/' s) ∙ ap (join b'/') e ∙ rw h.capability)

-- What is read as a command topic is the command topic of the address that is returned, and that
-- address is canonical.
pub parse_command_topic_sound :
    (t : TopicLayout) (topic : Text) (a : CapabilityAddress)
    → parse_command_topic t topic ≡ ok (some a)
    → (topic ≡ command_topic t a) × IsAddress a
unfolding parse_command_topic
parse_command_topic_sound t topic a e =
    elim (Option-cases (after_prefix (t.topic_prefix ++ codes "/") topic)) [
      | inl p ↦ ground arith
      | inr (s, p) ↦
          let (q, h) = parse_suffix_sound (split b'/' s) a (ground arith) in
          (command_topic-parts t a topic s p q h, h)
    ]

parse_parts-ne-err : (w x y z : Text) (b : Error) → parse_parts w x y z ≢ err b
unfolding parse_parts make_address
parse_parts-ne-err w x y z b e = elim (Result-cases (parse_device_id w)) [
  | inr (er, bad) ↦ ground (
    arith,
    on_invalid_refused {A = Option CapabilityAddress} none (parse_device_id w) er,
    parse_device_id-IsRefusal w,
  )
  | inl (d, p) ↦ elim (Result-cases (make_endpoint_id (pos (read x)))) [
    | inr (er, bad) ↦ ground (
      arith,
      on_invalid_refused {A = Option CapabilityAddress} none (make_endpoint_id (pos (read x))) er,
      make_endpoint_id-IsRefusal (pos (read x)),
    )
    | inl (n, q) ↦ ground (arith, require_canonical_lem d (parse_device_id-IsCanonical w d p))
  ]
]

parse_suffix-ne-err : (ps : List Text) (b : Error) → parse_suffix ps ≢ err b
unfolding parse_suffix
parse_suffix-ne-err [] b e = cc
parse_suffix-ne-err (w ∷ []) b e = cc
parse_suffix-ne-err (w ∷ x ∷ []) b e = cc
parse_suffix-ne-err (w ∷ x ∷ y ∷ []) b e = cc
parse_suffix-ne-err (w ∷ x ∷ y ∷ z ∷ []) b e = parse_parts-ne-err w x y z b e
parse_suffix-ne-err (w ∷ x ∷ y ∷ z ∷ v ∷ ps) b e = cc

-- Reading a topic, whatever its text, never raises.
pub parse_command_topic-ne-err :
    (t : TopicLayout) (topic : Text) (b : Error) → parse_command_topic t topic ≢ err b
unfolding parse_command_topic
parse_command_topic-ne-err t topic b e =
    elim (Option-cases (after_prefix (t.topic_prefix ++ codes "/") topic)) [
      | inl p ↦ ground arith
      | inr (s, p) ↦ parse_suffix-ne-err (split b'/' s) b (ground arith)
    ]
