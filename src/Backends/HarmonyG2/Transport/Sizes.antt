-- ===== src/Backends/HarmonyG2/Transport/Sizes.antt =====
-- The bounds on JSON, against the height and the size of a value.
use smartenit_rescue.Prelude.Number.{not_a_number, infinite, finite}
use smartenit_rescue.Prelude.Value.{
  null, end, other, nil, field, Fields, cons, float, str, Items, dict, int, bool, list, Value,
}
use smartenit_rescue.Prelude.Result.{>>=-eq-ok, Result, ok, ◌>>◌}
use smartenit_rescue.Prelude.{
  &&-eq_true, sym, ap, ◌∙◌, ℕ, suc, ◌+◌, ◌≤◌, ◌&&◌, refl, true, false, ◌≡◌, ◌↔◌, arith, Bool,
}
use smartenit_rescue.Backends.HarmonyG2.Transport.Json.{
  json_fields, json_items, add_items, too_deep, json_value,
}
use Prim.Native.Nat.{max}

-- How deep the values within a value are nested.
unfoldable mutual
  pub height : Value → ℕ
  height (list vs) = height_items vs
  height (dict fs) = height_fields fs
  height _ = 0

  pub height_items : Items → ℕ
  height_items nil = 0
  height_items (cons v vs) = max (suc (height v)) (height_items vs)

  pub height_fields : Fields → ℕ
  height_fields end = 0
  height_fields (field k v fs) = max (suc (height v)) (height_fields fs)

-- How many values there are, with the value itself.
unfoldable mutual
  pub size : Value → ℕ
  size (list vs) = suc (size_items vs)
  size (dict fs) = suc (size_fields fs)
  size _ = 1

  pub size_items : Items → ℕ
  size_items nil = 0
  size_items (cons v vs) = size v + size_items vs

  pub size_fields : Fields → ℕ
  size_fields end = 0
  size_fields (field k v fs) = size v + size_fields fs

-- Is every number finite, and every value one of JSON?
unfoldable mutual
  pub is_plain : Value → Bool
  is_plain (list vs) = is_plain_items vs
  is_plain (dict fs) = is_plain_fields fs
  is_plain (float infinite) = false
  is_plain (float not_a_number) = false
  is_plain other = false
  is_plain _ = true

  pub is_plain_items : Items → Bool
  is_plain_items nil = true
  is_plain_items (cons v vs) = is_plain v && is_plain_items vs

  pub is_plain_fields : Fields → Bool
  is_plain_fields end = true
  is_plain_fields (field k v fs) = is_plain v && is_plain_fields fs

-- What a walk over a value of a depth returns, if it returns.
pub record Fits (d : ℕ) (v : Value) (n : ℕ) : Type 0 where
  pub shallow : d + height v ≤ 32
  pub plain : is_plain v ≡ true
  pub small : size v ≤ 10000
  pub count : n ≡ size v

record Continues (d t h : ℕ) (plain : Bool) (s n : ℕ) : Type 0 where
  shallow : d + h ≤ 33
  plain_items : plain ≡ true
  small : t + s ≤ 10000
  count : n ≡ t + s

add_items-eq : (t c n : ℕ) → add_items t c ≡ ok n → (n ≡ t + c) × (t + c ≤ 10000)
unfolding add_items
add_items-eq t c n h = ground arith

deep_enough : (d : ℕ) (r : Result ℕ) (n : ℕ) → (too_deep d >> r) ≡ ok n → (d ≤ 32) × (r ≡ ok n)
unfolding too_deep
deep_enough d r n h = ground arith

shallow_check : (d : ℕ) (r : Result ℕ) → d ≤ 32 → (too_deep d >> r) ≡ r
unfolding too_deep
shallow_check d r h = ground arith

add_items_small : (t c : ℕ) → t + c ≤ 10000 → add_items t c ≡ ok (t + c)
unfolding add_items
add_items_small t c h = ground arith

mutual
  unfolding json_value height size is_plain

  walk-Fits : (d : ℕ) (v : Value) (n : ℕ) → json_value d v ≡ ok n → Fits d v n
  walk-Fits d null n h =
      let (a, b) = deep_enough d (ok 1) n h in
      record { shallow = omega arith; plain = refl; small = omega arith; count = ground arith }
  walk-Fits d (bool x) n h =
      let (a, b) = deep_enough d (ok 1) n h in
      record { shallow = omega arith; plain = refl; small = omega arith; count = ground arith }
  walk-Fits d (int x) n h =
      let (a, b) = deep_enough d (ok 1) n h in
      record { shallow = omega arith; plain = refl; small = omega arith; count = ground arith }
  walk-Fits d (str x) n h =
      let (a, b) = deep_enough d (ok 1) n h in
      record { shallow = omega arith; plain = refl; small = omega arith; count = ground arith }
  walk-Fits d (float (finite m k)) n h =
      let (a, b) = deep_enough d (ok 1) n h in
      record { shallow = omega arith; plain = refl; small = omega arith; count = ground arith }
  walk-Fits d (float infinite) n h = let (a, b) = deep_enough d _ n h in cc
  walk-Fits d (float not_a_number) n h = let (a, b) = deep_enough d _ n h in cc
  walk-Fits d other n h = let (a, b) = deep_enough d _ n h in cc
  walk-Fits d (list vs) n h =
      let (a, b) = deep_enough d (json_items (suc d) 1 vs) n h in
      let w = items-Continue (suc d) 1 vs n (omega arith) (omega arith) b in
      record {
        shallow = omega (arith, w.shallow);
        plain = w.plain_items;
        small = omega (arith, w.small);
        count = omega (arith, w.count);
      }
  walk-Fits d (dict fs) n h =
      let (a, b) = deep_enough d (json_fields (suc d) 1 fs) n h in
      let w = fields-Continue (suc d) 1 fs n (omega arith) (omega arith) b in
      record {
        shallow = omega (arith, w.shallow);
        plain = w.plain_items;
        small = omega (arith, w.small);
        count = omega (arith, w.count);
      }

  items-Continue :
      (d t : ℕ) (vs : Items) (n : ℕ)
      → d ≤ 33
      → t ≤ 10000
      → json_items d t vs ≡ ok n
      → Continues d t (height_items vs) (is_plain_items vs) (size_items vs) n
  items-Continue d t nil n low small h = record {
    shallow = omega arith;
    plain_items = refl;
    small = omega arith;
    count = ground arith;
  }
  items-Continue d t (cons v vs) n low small h =
      let (c, e, h1) = >>=-eq-ok (json_value d v) _ h in
      let (t', e', h2) = >>=-eq-ok (add_items t c) _ h1 in
      let f = walk-Fits d v c e in
      let (q, le) = add_items-eq t c t' e' in
      let w = items-Continue d t' vs n low (omega arith) h2 in
      record {
        shallow = omega (arith, f.shallow, w.shallow);
        plain_items = ground (arith, f.plain, w.plain_items);
        small = omega (arith, f.count, w.small);
        count = omega (arith, f.count, w.count);
      }

  fields-Continue :
      (d t : ℕ) (fs : Fields) (n : ℕ)
      → d ≤ 33
      → t ≤ 10000
      → json_fields d t fs ≡ ok n
      → Continues d t (height_fields fs) (is_plain_fields fs) (size_fields fs) n
  fields-Continue d t end n low small h = record {
    shallow = omega arith;
    plain_items = refl;
    small = omega arith;
    count = ground arith;
  }
  fields-Continue d t (field k v fs) n low small h =
      let (c, e, h1) = >>=-eq-ok (json_value d v) _ h in
      let (t', e', h2) = >>=-eq-ok (add_items t c) _ h1 in
      let f = walk-Fits d v c e in
      let (q, le) = add_items-eq t c t' e' in
      let w = fields-Continue d t' fs n low (omega arith) h2 in
      record {
        shallow = omega (arith, f.shallow, w.shallow);
        plain_items = ground (arith, f.plain, w.plain_items);
        small = omega (arith, f.count, w.small);
        count = omega (arith, f.count, w.count);
      }

  -- The way back.
  fits-walk :
      (d : ℕ) (v : Value)
      → d + height v ≤ 32
      → is_plain v ≡ true
      → size v ≤ 10000
      → json_value d v ≡ ok (size v)
  fits-walk d null h p s = shallow_check d _ (omega arith)
  fits-walk d (bool x) h p s = shallow_check d _ (omega arith)
  fits-walk d (int x) h p s = shallow_check d _ (omega arith)
  fits-walk d (str x) h p s = shallow_check d _ (omega arith)
  fits-walk d (float (finite m k)) h p s = shallow_check d _ (omega arith)
  fits-walk d (float infinite) h p s = cc
  fits-walk d (float not_a_number) h p s = cc
  fits-walk d other h p s = cc
  fits-walk d (list vs) h p s =
      shallow_check d (json_items (suc d) 1 vs) (omega arith)
      ∙ continue-items (suc d) 1 vs (omega arith) p (omega arith)
      ∙ ap ok (omega arith)
  fits-walk d (dict fs) h p s =
      shallow_check d (json_fields (suc d) 1 fs) (omega arith)
      ∙ continue-fields (suc d) 1 fs (omega arith) p (omega arith)
      ∙ ap ok (omega arith)

  continue-items :
      (d t : ℕ) (vs : Items)
      → d + height_items vs ≤ 33
      → is_plain_items vs ≡ true
      → t + size_items vs ≤ 10000
      → json_items d t vs ≡ ok (t + size_items vs)
  continue-items d t nil h p s = ap ok (omega arith)
  continue-items d t (cons v vs) h p s =
      let (pv, pvs) = &&-eq_true (is_plain v) (is_plain_items vs) p in
      rw
        (
          fits-walk d v (omega arith) pv (omega arith),
          add_items_small t (size v) (omega arith),
          continue-items d (t + size v) vs (omega arith) pvs (omega arith),
        )
        (ap ok (omega arith))

  continue-fields :
      (d t : ℕ) (fs : Fields)
      → d + height_fields fs ≤ 33
      → is_plain_fields fs ≡ true
      → t + size_fields fs ≤ 10000
      → json_fields d t fs ≡ ok (t + size_fields fs)
  continue-fields d t end h p s = ap ok (omega arith)
  continue-fields d t (field k v fs) h p s =
      let (pv, pvs) = &&-eq_true (is_plain v) (is_plain_fields fs) p in
      rw
        (
          fits-walk d v (omega arith) pv (omega arith),
          add_items_small t (size v) (omega arith),
          continue-fields d (t + size v) fs (omega arith) pvs (omega arith),
        )
        (ap ok (omega arith))

-- The walk over a JSON value returns exactly if the value is nested 32 deep at most, has finite
-- numbers and values of JSON only, and holds 10000 values at most; then it returns their number.
pub json_value_iff : (v : Value) (n : ℕ) → (json_value 0 v ≡ ok n) ↔ Fits 0 v n
json_value_iff v n =
    (λ h. walk-Fits 0 v n h, λ f. fits-walk 0 v f.shallow f.plain f.small ∙ ap ok (sym f.count))
