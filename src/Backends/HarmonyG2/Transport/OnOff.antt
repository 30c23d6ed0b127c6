-- ===== src/Backends/HarmonyG2/Transport/OnOff.antt =====
-- The paths of the On/off commands.
use smartenit_rescue.Prelude.{
  &&-eq_true, any, ap, Bool-cases, ◌∙◌, ◌==◌, ◌||◌, ◌&&◌, all, Bool, ◌===◌, if◌then◌else◌, ℕ, List,
  [], ◌∷◌, ◌++◌, refl, true, false, ◌≡◌, inl, inr, arith,
}
use smartenit_rescue.Prelude.Text.{
  split_first, split_first-append, split, has, text_beq_iff, codes, join, text_beq, text_eq,
}
use smartenit_rescue.Prelude.Result.{Text}
use smartenit_rescue.Backends.HarmonyG2.Transport.Pages.{is_break}
use smartenit_rescue.Backends.HarmonyG2.Client.{is_safe_char, is_safe_segment}
use smartenit_rescue.Backends.HarmonyG2.Transport.{is_command_path, is_command_parts}

abbrev pub on_off_path : Text → Text → Bool → Text
on_off_path d c on =
    codes "/v2/devices/"
    ++ (d
        ++ (codes "/comps/"
            ++ (c
                ++ (if on
                    then codes "/procs/OnOff/methods/On"
                    else codes "/procs/OnOff/methods/Off"))))

switch_path :
    (d c m : Text)
    → (m === codes "On" || m === codes "Off") ≡ true
    → (on : Bool) × (codes "/v2/devices/"
          ++ (d ++ (codes "/comps/" ++ (c ++ (codes "/procs/OnOff/methods/" ++ m))))
        ≡ on_off_path d c on)
switch_path d c m h = elim (Bool-cases (m === codes "On")) [
  | inl e ↦ (true, rw ((text_beq_iff m (codes "On")).0 e) refl)
  | inr e ↦ (false, rw ((text_beq_iff m (codes "Off")).0 (ground arith)) refl)
]

pub is_command_parts-eq :
    (parts : List Text)
    → is_command_parts parts ≡ true
    → (d : Text) × (c : Text) × (on : Bool) × (is_safe_segment d ≡ true)
      × (is_safe_segment c ≡ true)
      × (join b'/' parts ≡ on_off_path d c on)
unfolding is_command_parts
is_command_parts-eq (root ∷ v2 ∷ devices ∷ d ∷ comps ∷ c ∷ procs ∷ on_off ∷ methods ∷ m ∷ []) h =
    let (h0, r0) = &&-eq_true (root === []) _ h in
    let (h1, r1) = &&-eq_true (v2 === codes "v2") _ r0 in
    let (h2, r2) = &&-eq_true (devices === codes "devices") _ r1 in
    let (hd, r3) = &&-eq_true (is_safe_segment d) _ r2 in
    let (h4, r4) = &&-eq_true (comps === codes "comps") _ r3 in
    let (hc, r5) = &&-eq_true (is_safe_segment c) _ r4 in
    let (h6, r6) = &&-eq_true (procs === codes "procs") _ r5 in
    let (h7, r7) = &&-eq_true (on_off === codes "OnOff") _ r6 in
    let (h8, r8) = &&-eq_true (methods === codes "methods") _ r7 in
    let (on, e) = switch_path d c m r8 in
    (
      d,
      c,
      on,
      hd,
      hc,
      rw
          (
            (text_beq_iff root []).0 h0,
            (text_beq_iff v2 (codes "v2")).0 h1,
            (text_beq_iff devices (codes "devices")).0 h2,
            (text_beq_iff comps (codes "comps")).0 h4,
            (text_beq_iff procs (codes "procs")).0 h6,
            (text_beq_iff on_off (codes "OnOff")).0 h7,
            (text_beq_iff methods (codes "methods")).0 h8,
          )
          e,
    )
is_command_parts-eq _ h = cc

split-append :
    (sep : ℕ) (p s : Text) → has sep p ≡ false → split sep (p ++ sep ∷ s) ≡ p ∷ split sep s
split-append sep p s h = ap (λ q. q.0 ∷ q.1) (split_first-append sep p s h)

safe_char-ne :
    (c : ℕ)
    → is_safe_char c ≡ true
    → ((c == b'/') ≡ false) × ((c == 13 || (c == 10 || c == b'#')) ≡ false)
unfolding is_safe_char
safe_char-ne c h = (ground arith, ground arith)

has-all_safe : (s : Text) → all is_safe_char s ≡ true → has b'/' s ≡ false
unfolding has
has-all_safe [] h = refl
has-all_safe (c ∷ s) h = ground (arith, safe_char-ne c, has-all_safe s)

any-all_safe : (s : Text) → all is_safe_char s ≡ true → any is_break s ≡ false
any-all_safe [] h = refl
any-all_safe (c ∷ s) h = ground (arith, safe_char-ne c, any-all_safe s)

pub segment-all_safe : (s : Text) → is_safe_segment s ≡ true → all is_safe_char s ≡ true
unfolding is_safe_segment
segment-all_safe s h = ground arith

-- The parts of a command's path, from the device on.
device_parts :
    (d c r : Text)
    → all is_safe_char d ≡ true
    → all is_safe_char c ≡ true
    → split b'/' (d ++ (codes "/comps/" ++ (c ++ b'/' ∷ r))) ≡ d ∷ codes "comps" ∷ c ∷ split b'/' r
unfolding split_first
device_parts d c r hd hc =
    split-append b'/' d (codes "comps/" ++ (c ++ b'/' ∷ r)) (has-all_safe d hd)
    ∙ ap (λ l. d ∷ codes "comps" ∷ l) (split-append b'/' c r (has-all_safe c hc))

on_off_parts :
    (d c r : Text)
    → all is_safe_char d ≡ true
    → all is_safe_char c ≡ true
    → split b'/' (codes "/v2/devices/" ++ (d ++ (codes "/comps/" ++ (c ++ b'/' ∷ r))))
      ≡ [] ∷ codes "v2" ∷ codes "devices" ∷ d ∷ codes "comps" ∷ c ∷ split b'/' r
unfolding split_first
on_off_parts d c r hd hc =
    ap (λ l. [] ∷ codes "v2" ∷ codes "devices" ∷ l) (device_parts d c r hd hc)

known_parts :
    (d c m : Text)
    → is_command_parts (
        []
        ∷ codes "v2"
        ∷ codes "devices"
        ∷ d
        ∷ codes "comps"
        ∷ c
        ∷ codes "procs"
        ∷ codes "OnOff"
        ∷ codes "methods"
        ∷ m
        ∷ [])
      ≡ (is_safe_segment d && (is_safe_segment c && (m === codes "On" || m === codes "Off")))
unfolding is_command_parts text_beq
known_parts d c m = refl

three : (a b c : Bool) → a ≡ true → b ≡ true → c ≡ true → (a && (b && c)) ≡ true
three a b c ha hb hc = ground arith

pub on_off_path-is_command_path :
    (d c : Text) (on : Bool)
    → is_safe_segment d ≡ true
    → is_safe_segment c ≡ true
    → is_command_path (on_off_path d c on) ≡ true
unfolding is_command_path split_first text_beq
on_off_path-is_command_path d c true hd hc =
    ap is_command_parts (
      on_off_parts d c (codes "procs/OnOff/methods/On") (segment-all_safe d hd)
        (segment-all_safe c hc))
    ∙ known_parts d c (codes "On")
    ∙ three (is_safe_segment d) (is_safe_segment c) _ hd hc refl
on_off_path-is_command_path d c false hd hc =
    ap is_command_parts (
      on_off_parts d c (codes "procs/OnOff/methods/Off") (segment-all_safe d hd)
        (segment-all_safe c hc))
    ∙ known_parts d c (codes "Off")
    ∙ three (is_safe_segment d) (is_safe_segment c) _ hd hc refl

any-append : (p : ℕ → Bool) (s t : Text) → any p (s ++ t) ≡ (any p s || any p t)
any-append p [] t = refl
any-append p (c ∷ s) t = ground (arith, any-append p s t)

pub any-on_off_path :
    (d c : Text) (on : Bool)
    → all is_safe_char d ≡ true
    → all is_safe_char c ≡ true
    → any is_break (on_off_path d c on) ≡ false
any-on_off_path d c on hd hc = go on
  where
    go : (on : Bool) → any is_break (on_off_path d c on) ≡ false
    go true =
        rw
          (
            any-append is_break d (codes "/comps/" ++ (c ++ codes "/procs/OnOff/methods/On")),
            any-all_safe d hd,
            any-append is_break c (codes "/procs/OnOff/methods/On"),
            any-all_safe c hc,
          )
          refl
    go false =
        rw
          (
            any-append is_break d (codes "/comps/" ++ (c ++ codes "/procs/OnOff/methods/Off")),
            any-all_safe d hd,
            any-append is_break c (codes "/procs/OnOff/methods/Off"),
            any-all_safe c hc,
          )
          refl
