-- ===== src/Prelude/Text.antt =====
-- Python's `str` and `bytes`, as lists of code points, with the methods that the program calls.
use Prim.Native.Char.{code}
use Prim.Native.String.{String}
use Prim.Native.Nat.{ℕ, ◌+◌}
use mathlib.Core.Path.{◌≡◌, refl, ap}
use mathlib.Core.Logic.{◌↔◌}
use mathlib.Core.Bool.{Bool, true, false, ◌&&◌, ◌||◌}
use mathlib.Core.List.{List, [], ◌∷◌, ◌++◌, map}
use mathlib.Core.Option.{Option, none, some}
use native.Mathlib.Omega.{arith}
use smartenit_rescue.Prelude.Tests.{Eq, leb, ◌==◌, if◌then◌else◌}
use smartenit_rescue.Prelude.Lists.{all}
use smartenit_rescue.Prelude.Result.{Text}

-- A literal of the source.
abbrev pub codes : String → Text
codes String.[] = []
codes (String.◌∷◌ c s) = code c ∷ codes s

unfoldable pub text_beq : Text → Text → Bool
text_beq [] [] = true
text_beq [] (d ∷ t) = false
text_beq (c ∷ s) [] = false
text_beq (c ∷ s) (d ∷ t) = c == d && text_beq s t

pub text_beq_iff : (s t : Text) → (text_beq s t ≡ true) ↔ (s ≡ t)
unfolding text_beq
text_beq_iff [] [] = ground arith
text_beq_iff [] (d ∷ t) = ground arith
text_beq_iff (c ∷ s) [] = ground arith
text_beq_iff (c ∷ s) (d ∷ t) = ground (arith, text_beq_iff s t)

instance abbrev pub text_eq : Eq Text
text_eq = record { beq = text_beq; beq_iff = text_beq_iff }

-- `c in s`
unfoldable pub has : ℕ → Text → Bool
has c [] = false
has c (d ∷ s) = d == c || has c s

-- `s.startswith(p)` with `s.removeprefix(p)`: the rest of `s` behind `p`.
unfoldable pub after_prefix : Text → Text → Option Text
after_prefix [] s = some s
after_prefix (c ∷ p) [] = none
after_prefix (c ∷ p) (d ∷ s) = if c == d then after_prefix p s else none

abbrev pub is_some {ℓ} : {A : Type ℓ} → Option A → Bool
is_some none = false
is_some (some _) = true

abbrev pub starts_with : Text → Text → Bool
starts_with p s = is_some (after_prefix p s)

-- `s.lower()` on ASCII. Every caller refuses a text with another letter on the same branch.
unfoldable pub lower_char : ℕ → ℕ
lower_char c = if leb b'A' c && leb c b'Z' then c + 32 else c

abbrev pub lower : Text → Text
lower = map lower_char

-- `char in string.hexdigits`
unfoldable pub is_hex : ℕ → Bool
is_hex c = (leb b'0' c && leb c b'9') || (leb b'a' c && leb c b'f') || (leb b'A' c && leb c b'F')

-- `c.isspace()`, the characters that `str.strip` takes off
unfoldable pub is_space : ℕ → Bool
is_space c =
    (leb 9 c && leb c 13)
    || (leb 28 c && leb c 32)
    || c == 133
    || c == 160
    || c == 5760
    || (leb 8192 c && leb c 8202)
    || c == 8232
    || c == 8233
    || c == 8239
    || c == 8287
    || c == 12288

-- `not s.strip()`
abbrev pub is_blank : Text → Bool
is_blank = all is_space

-- `s.split(sep)` for a separator of one character: the first part and the others.
unfoldable pub split_first : ℕ → Text → Text × List Text
split_first sep [] = ([], [])
split_first sep (c ∷ s) =
    let (part, rest) = split_first sep s in if c == sep then ([], part ∷ rest) else (c ∷ part, rest)

abbrev pub split : ℕ → Text → List Text
split sep s = let (part, rest) = split_first sep s in part ∷ rest

-- `sep.join(parts)`
abbrev pub join : ℕ → List Text → Text
join sep [] = []
join sep (p ∷ []) = p
join sep (p ∷ q ∷ ps) = p ++ sep ∷ join sep (q ∷ ps)

-- `"".join(parts)`
abbrev pub concat : List Text → Text
concat [] = []
concat (p ∷ ps) = p ++ concat ps

pub has-append : (c : ℕ) (s t : Text) → has c (s ++ t) ≡ (has c s || has c t)
unfolding has
has-append c [] t = refl
has-append c (d ∷ s) t = ground (arith, has-append c s t)

pub after_prefix-append : (p s : Text) → after_prefix p (p ++ s) ≡ some s
unfolding after_prefix
after_prefix-append [] s = refl
after_prefix-append (c ∷ p) s = ground (arith, after_prefix-append p s)

-- What is found behind a prefix is what stands behind it.
pub after_prefix_sound : (p s r : Text) → after_prefix p s ≡ some r → s ≡ p ++ r
unfolding after_prefix
after_prefix_sound [] s r h = cc
after_prefix_sound (c ∷ p) [] r h = cc
after_prefix_sound (c ∷ p) (d ∷ s) r h = ground (arith, after_prefix_sound p s r)

-- A part with no separator is split off whole.
pub split_first-append :
    (sep : ℕ) (p s : Text) → has sep p ≡ false → split_first sep (p ++ sep ∷ s) ≡ (p, split sep s)
unfolding has split_first
split_first-append sep [] s h = ground arith
split_first-append sep (c ∷ p) s h = ground (arith, split_first-append sep p s)

pub split_first-last : (sep : ℕ) (p : Text) → has sep p ≡ false → split_first sep p ≡ (p, [])
unfolding has split_first
split_first-last sep [] h = refl
split_first-last sep (c ∷ p) h = ground (arith, split_first-last sep p)

-- Joining the parts of a split gives the text back.
pub join-split : (sep : ℕ) (s : Text) → join sep (split sep s) ≡ s
unfolding split_first
join-split sep [] = refl
join-split sep (c ∷ s) = go (split_first sep s) (join-split sep s)
  where
    cons-join : (p : Text) (ps : List Text) → join sep ((c ∷ p) ∷ ps) ≡ c ∷ join sep (p ∷ ps)
    cons-join p [] = refl
    cons-join p (q ∷ ps) = refl

    go :
        (r : Text × List Text)
        → join sep (r.0 ∷ r.1) ≡ s
        → let q : Text × List Text = if c == sep then ([], r.0 ∷ r.1) else (c ∷ r.0, r.1) in
          join sep (q.0 ∷ q.1) ≡ c ∷ s
    go r h = ground (arith, cons-join r.0 r.1, h)

pub lower-is_hex : (c : ℕ) → is_hex c ≡ true → is_hex (lower_char c) ≡ true
unfolding is_hex lower_char
lower-is_hex c h = ground arith

pub lower_char_idem : (c : ℕ) → lower_char (lower_char c) ≡ lower_char c
unfolding lower_char
lower_char_idem c = ground arith

pub lower_idem : (s : Text) → lower (lower s) ≡ lower s
lower_idem [] = refl
lower_idem (c ∷ s) = cc (lower_char_idem c, lower_idem s)

pub lower-all_hex : (s : Text) → all is_hex s ≡ true → all is_hex (lower s) ≡ true
lower-all_hex [] h = refl
lower-all_hex (c ∷ s) h = ground (arith, lower-is_hex c, lower-all_hex s)

-- A hexadecimal text holds none of the characters that separate or match topics.
pub has-is_hex : (c : ℕ) (s : Text) → is_hex c ≡ false → all is_hex s ≡ true → has c s ≡ false
unfolding has
has-is_hex c [] n h = refl
has-is_hex c (d ∷ s) n h = ground (arith, has-is_hex c s n, ap is_hex {x = d} {y = c})
