-- ===== src/Models/Identity/Spelling.antt =====
-- The spellings of an identity that `DeviceId.parse` reads.
use smartenit_rescue.Prelude.{
  ℕ, ◌↔◌, ◌*◌, length-append, all-append, Bool-cases, true, false, not, ◌≡◌, ◌⊎◌, inl, inr, refl,
  sym, ap, subst, ◌∙◌, List, [], ◌∷◌, ◌++◌, arith, ◌===◌, ◌==◌, All, all, any, length, any-not,
}
use smartenit_rescue.Prelude.Result.{Text, ok, >>=-eq-ok}
use smartenit_rescue.Prelude.Text.{
  codes, has, lower, is_hex, split, join, concat, join-split, text_beq_iff, text_eq, has-is_hex,
  has-append, split_first-last, split_first-append, lower-all_hex, lower_idem,
}
use smartenit_rescue.Models.Identity.Canonical.{
  IsCanonical, make_device_id_value, strip_0x-hex, ungroup-hex, not_x,
}
use smartenit_rescue.Models.Identity.{
  DeviceId, make_device_id, strip_0x, join_groups, ungroup, parse_device_id,
}

-- A group of two hexadecimal digits.
abbrev pub IsPair : Text → Type 0
IsPair g = (length g ≡ 2) × (all is_hex g ≡ true)

-- The digits, in either case, without a prefix: all sixteen in one, or eight pairs with colons or
-- with hyphens between them.
abbrev pub IsBody : Text → Text → Type 0
IsBody body digits =
    ((body ≡ digits) × (length digits ≡ 16) × (all is_hex digits ≡ true))
    ⊎ ((sep : ℕ) × (groups : List Text) × ((sep ≡ b':') ⊎ (sep ≡ b'-'))
        × (length groups ≡ 8)
        × All IsPair groups
        × (body ≡ join sep groups)
        × (digits ≡ concat groups))

-- The prefix may be there, in either case.
abbrev pub Spells : Text → DeviceId → Type 0
Spells raw d =
    (prefix : Text) × (body : Text) × (digits : Text) × (raw ≡ prefix ++ body)
    × ((prefix ≡ []) ⊎ (lower prefix ≡ codes "0x"))
    × IsBody body digits
    × (d.value ≡ lower digits)

strip_0x_lem :
    (raw : Text)
    → (prefix : Text) × (raw ≡ prefix ++ strip_0x raw)
      × ((prefix ≡ []) ⊎ (lower prefix ≡ codes "0x"))
unfolding strip_0x
strip_0x_lem [] = ([], refl, inl refl)
strip_0x_lem (c ∷ []) = ([], refl, inl refl)
strip_0x_lem (c ∷ d ∷ s) = elim (Bool-cases (lower (c ∷ d ∷ []) === codes "0x")) [
  | inl t ↦ (c ∷ d ∷ [], rw t refl, inr ((text_beq_iff (lower (c ∷ d ∷ [])) (codes "0x")).0 t))
  | inr f ↦ ([], rw f refl, inl refl)
]

all_pairs :
    (groups : List Text)
    → any (λ g. not (length g == 2)) groups ≡ false
    → any (any (λ c. not (is_hex c))) groups ≡ false
    → All IsPair groups
all_pairs [] h k = tt
all_pairs (g ∷ gs) h k = (
  (ground (arith, h), ground (arith, k, any-not is_hex g)),
  all_pairs gs (ground (arith, h)) (ground (arith, k)),
)

join_groups_sound :
    (groups : List Text) (v : Text)
    → join_groups groups ≡ ok v
    → (length groups ≡ 8) × All IsPair groups × (v ≡ concat groups)
unfolding join_groups
join_groups_sound groups v h =
    (ground (arith, h), all_pairs groups (ground (arith, h)) (ground (arith, h)), ground (arith, h))

ungroup_sound :
    (body v : Text) → ungroup body ≡ ok v → length v ≡ 16 → all is_hex v ≡ true → IsBody body v
unfolding ungroup
ungroup_sound body v h sixteen hex = elim (Bool-cases (has b':' body)) [
  | inl colon ↦
      let (eight, good, same) = join_groups_sound (split b':' body) v (ground (arith, colon, h)) in
      inr (b':', split b':' body, inl refl, eight, good, sym (join-split b':' body), same)
  | inr none_colon ↦ elim (Bool-cases (has b'-' body)) [
    | inl hyphen ↦
        let (eight, good, same) =
          join_groups_sound (split b'-' body) v (ground (arith, none_colon, hyphen, h)) in
        inr (b'-', split b'-' body, inr refl, eight, good, sym (join-split b'-' body), same)
    | inr none_hyphen ↦
        let same : body ≡ v = ground (arith, none_colon, none_hyphen, h) in inl (same, sixteen, hex)
  ]
]

parse_device_id-Spells : (raw : Text) (d : DeviceId) → parse_device_id raw ≡ ok d → Spells raw d
unfolding parse_device_id make_device_id
parse_device_id-Spells raw d h =
    let (v, u, h') = >>=-eq-ok (ungroup (strip_0x raw)) _ h in
    let (prefix, same, zero_x) = strip_0x_lem raw in
    let sixteen : length v ≡ 16 = ground (arith, h') in
    let hex : all is_hex v ≡ true = ground (arith, h', any-not is_hex v) in
    let value : d.value ≡ lower v = ground (arith, h') in
    (prefix, strip_0x raw, v, same, zero_x, ungroup_sound (strip_0x raw) v u sixteen hex, value)

strip_0x-append :
    (prefix body : Text) → lower prefix ≡ codes "0x" → strip_0x (prefix ++ body) ≡ body
unfolding strip_0x
strip_0x-append [] body h = cc
strip_0x-append (c ∷ []) body h = cc
strip_0x-append (c ∷ d ∷ []) body h = rw ((text_beq_iff (lower (c ∷ d ∷ [])) (codes "0x")).1 h) refl
strip_0x-append (c ∷ d ∷ e ∷ prefix) body h = cc

length-lower : (s : Text) → length (lower s) ≡ length s
length-lower [] = refl
length-lower (c ∷ s) = omega (arith, length-lower s)

-- Neither separator is a digit.
abbrev IsSeparator : ℕ → Type 0
IsSeparator sep = (sep ≡ b':') ⊎ (sep ≡ b'-')

is_hex-IsSeparator : (sep : ℕ) → IsSeparator sep → is_hex sep ≡ false
unfolding is_hex
is_hex-IsSeparator sep (inl e) = rw e refl
is_hex-IsSeparator sep (inr e) = rw e refl

split-join :
    (sep : ℕ) (g : Text) (gs : List Text)
    → is_hex sep ≡ false
    → All IsPair (g ∷ gs)
    → split sep (join sep (g ∷ gs)) ≡ g ∷ gs
split-join sep g [] n (p, _) = rw (split_first-last sep g (has-is_hex sep g n p.1)) refl
split-join sep g (h ∷ gs) n (p, ps) =
    rw (split_first-append sep g (join sep (h ∷ gs)) (has-is_hex sep g n p.1))
      (ap (λ l. g ∷ l) (split-join sep h gs n ps))

-- the pairs, joined by another character
has-join :
    (c sep : ℕ) (gs : List Text)
    → is_hex c ≡ false
    → (sep == c) ≡ false
    → All IsPair gs
    → has c (join sep gs) ≡ false
unfolding has
has-join c sep [] n e h = refl
has-join c sep (g ∷ []) n e (p, _) = has-is_hex c g n p.1
has-join c sep (g ∷ h ∷ gs) n e (p, ps) = ground (
  arith,
  has-append c g (sep ∷ join sep (h ∷ gs)),
  has-is_hex c g n p.1,
  has-join c sep (h ∷ gs) n e ps,
)

has-join_self : (sep : ℕ) (g h : Text) (gs : List Text) → has sep (join sep (g ∷ h ∷ gs)) ≡ true
unfolding has
has-join_self sep g h gs = ground (arith, has-append sep g (sep ∷ join sep (h ∷ gs)))

no_bad_pair :
    (gs : List Text)
    → All IsPair gs
    → (any (λ g. not (length g == 2)) gs ≡ false) × (any (any (λ c. not (is_hex c))) gs ≡ false)
no_bad_pair [] h = (refl, refl)
no_bad_pair (g ∷ gs) ((two, hex), ps) =
    let (a, b) = no_bad_pair gs ps in (ground (arith, a), ground (arith, b, any-not is_hex g))

concat-pairs :
    (gs : List Text)
    → All IsPair gs
    → (length (concat gs) ≡ 2 * length gs) × (all is_hex (concat gs) ≡ true)
concat-pairs [] h = (refl, refl)
concat-pairs (g ∷ gs) ((two, hex), ps) =
    let (a, b) = concat-pairs gs ps in
    (
      omega (arith, length-append g (concat gs), a),
      ground (arith, b, all-append is_hex g (concat gs)),
    )

join_groups-pairs :
    (gs : List Text) → length gs ≡ 8 → All IsPair gs → join_groups gs ≡ ok (concat gs)
unfolding join_groups
join_groups-pairs gs n ps = let (a, b) = no_bad_pair gs ps in ground (arith, a, b, n)

-- the branch of each separator
ungroup-colon :
    (body v : Text) (gs : List Text)
    → has b':' body ≡ true
    → split b':' body ≡ gs
    → join_groups gs ≡ ok v
    → ungroup body ≡ ok v
unfolding ungroup
ungroup-colon body v gs h e j = rw h (ap join_groups e ∙ j)

ungroup-hyphen :
    (body v : Text) (gs : List Text)
    → has b':' body ≡ false
    → has b'-' body ≡ true
    → split b'-' body ≡ gs
    → join_groups gs ≡ ok v
    → ungroup body ≡ ok v
unfolding ungroup
ungroup-hyphen body v gs n h e j = rw (n, h) (ap join_groups e ∙ j)

ungroup-join :
    (sep : ℕ) (gs : List Text)
    → IsSeparator sep
    → length gs ≡ 8
    → All IsPair gs
    → ungroup (join sep gs) ≡ ok (concat gs)
ungroup-join sep [] s n ps = absurd (omega arith)
ungroup-join sep (g ∷ []) s n ps = absurd (omega arith)
ungroup-join sep (g ∷ h ∷ gs) (inl e) n ps =
    subst (λ c. ungroup (join c (g ∷ h ∷ gs)) ≡ ok (concat (g ∷ h ∷ gs))) (sym e)
      (ungroup-colon (join b':' (g ∷ h ∷ gs)) (concat (g ∷ h ∷ gs)) (g ∷ h ∷ gs)
        (has-join_self b':' g h gs)
        (split-join b':' g (h ∷ gs) (is_hex-IsSeparator b':' (inl refl)) ps)
        (join_groups-pairs (g ∷ h ∷ gs) n ps))
ungroup-join sep (g ∷ h ∷ gs) (inr e) n ps =
    subst (λ c. ungroup (join c (g ∷ h ∷ gs)) ≡ ok (concat (g ∷ h ∷ gs))) (sym e)
      (ungroup-hyphen (join b'-' (g ∷ h ∷ gs)) (concat (g ∷ h ∷ gs)) (g ∷ h ∷ gs)
        (has-join b':' b'-' (g ∷ h ∷ gs) (is_hex-IsSeparator b':' (inl refl)) refl ps)
        (has-join_self b'-' g h gs)
        (split-join b'-' g (h ∷ gs) (is_hex-IsSeparator b'-' (inr refl)) ps)
        (join_groups-pairs (g ∷ h ∷ gs) n ps))

ungroup-IsBody :
    (body digits : Text)
    → IsBody body digits
    → (ungroup body ≡ ok digits) × (length digits ≡ 16) × (all is_hex digits ≡ true)
ungroup-IsBody body digits (inl (same, n, hex)) = (rw same (ungroup-hex digits hex), n, hex)
ungroup-IsBody body digits (inr (sep, gs, s, n, ps, at, same)) =
    let (count, hex) = concat-pairs gs ps in
    (rw (at, same) (ungroup-join sep gs s n ps), rw same (omega (arith, count, n)), rw same hex)

-- The digits do not start with a prefix.
strip_0x-join : (sep : ℕ) (gs : List Text) → All IsPair gs → strip_0x (join sep gs) ≡ join sep gs
unfolding strip_0x
strip_0x-join sep [] ps = refl
strip_0x-join sep ([] ∷ gs) ((two, _), ps) = absurd (omega arith)
strip_0x-join sep ((c ∷ []) ∷ gs) ((two, _), ps) = absurd (omega arith)
strip_0x-join sep ((c ∷ d ∷ e ∷ g) ∷ gs) ((two, _), ps) = absurd (omega arith)
strip_0x-join sep ((c ∷ d ∷ []) ∷ []) ((_, hex), ps) = rw (not_x c d [] hex) refl
strip_0x-join sep ((c ∷ d ∷ []) ∷ h ∷ gs) ((_, hex), ps) = rw (not_x c d [] hex) refl

strip_0x-IsBody : (body digits : Text) → IsBody body digits → strip_0x body ≡ body
strip_0x-IsBody body digits (inl (same, n, hex)) = rw same (strip_0x-hex digits hex)
strip_0x-IsBody body digits (inr (sep, gs, s, n, ps, at, same)) = rw at (strip_0x-join sep gs ps)

strip_0x_prefix :
    (prefix body digits : Text)
    → (prefix ≡ []) ⊎ (lower prefix ≡ codes "0x")
    → IsBody body digits
    → strip_0x (prefix ++ body) ≡ body
strip_0x_prefix prefix body digits (inl e) b = rw e (strip_0x-IsBody body digits b)
strip_0x_prefix prefix body digits (inr e) b = strip_0x-append prefix body e

Spells-parse_device_id : (raw : Text) (d : DeviceId) → Spells raw d → parse_device_id raw ≡ ok d
unfolding parse_device_id
Spells-parse_device_id raw d (prefix, body, digits, same, zero_x, b, value) =
    let (ungrouped, n, hex) = ungroup-IsBody body digits b in
    let canonical : IsCanonical d = record {
      digits = rw value (length-lower digits ∙ n);
      hex = rw value (lower-all_hex digits hex);
      lowercase = rw value (lower_idem digits);
    } in
    let made : make_device_id (lower digits) ≡ ok d =
      rw (← value) (make_device_id_value d canonical) in
    rw (same, strip_0x_prefix prefix body digits zero_x b, ungrouped)
      (ground (arith, any-not is_hex digits, made, n, hex))

-- A text is read as an identity exactly if it spells the identity: sixteen hexadecimal digits in
-- either case, in one or in eight pairs with colons or with hyphens between them, behind `0x` or `0X`
-- or not. The value is the digits in lower case.
pub parse_device_id_iff : (raw : Text) (d : DeviceId) → (parse_device_id raw ≡ ok d) ↔ Spells raw d
parse_device_id_iff raw d = (parse_device_id-Spells raw d, Spells-parse_device_id raw d)
