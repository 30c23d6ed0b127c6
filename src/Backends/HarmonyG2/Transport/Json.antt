-- ===== src/Backends/HarmonyG2/Transport/Json.antt =====
-- backends/harmony_g2/transport.py: the bounds on the JSON that is sent and received, and the body
-- of a request. `json.dumps` is an argument.
use smartenit_rescue.Prelude.Number.{not_a_number, infinite, finite}
use smartenit_rescue.Prelude.Text.{text_eq, codes}
use smartenit_rescue.Prelude.Value.{
  nil, end, other, bool, null, field, cons, Items, dict, list, str, float, int, Value, Fields,
}
use smartenit_rescue.Prelude.Result.{
  >>=-eq-err, Error, or_raise, ◌>>=◌, ◌>>◌, err, validation, Text, ok, raise_if, Result,
}
use smartenit_rescue.Prelude.{
  inr, inl, false, true, Bool, arith, ◌≡◌, length, suc, some, none, ◌===◌, ◌+◌, ltb, Option,
  if◌then◌else◌, ℕ,
}

abbrev pub max_json_depth : ℕ
max_json_depth = 32

abbrev pub max_json_items : ℕ
max_json_items = 10000

abbrev pub max_request_bytes : ℕ
max_request_bytes = 65536

unfoldable pub too_deep : ℕ → Result (Unit {0})
too_deep depth =
    raise_if (ltb max_json_depth depth) (validation (codes "G2 JSON exceeds the nesting limit"))

-- one round of a loop of `_json_value`, with the item's count
unfoldable pub add_items : ℕ → ℕ → Result ℕ
add_items total count =
    if ltb max_json_items (total + count)
    then err (validation (codes "G2 JSON exceeds the item limit"))
    else ok (total + count)

-- `_json_value`, with the loops over a list and over an object from their `total` on. Every key is
-- a string here.
unfoldable mutual
  unfolding too_deep add_items

  pub json_value : ℕ → Value → Result ℕ
  json_value depth null = do too_deep depth; ok 1
  json_value depth (bool b) = do too_deep depth; ok 1
  json_value depth (int n) = do too_deep depth; ok 1
  json_value depth (float (finite m k)) = do too_deep depth; ok 1
  json_value depth (float infinite) = do
    too_deep depth
    err (validation (codes "G2 JSON contains a non-finite number"))
  json_value depth (float not_a_number) = do
    too_deep depth
    err (validation (codes "G2 JSON contains a non-finite number"))
  json_value depth (str s) = do too_deep depth; ok 1
  json_value depth (list vs) = do too_deep depth; json_items (suc depth) 1 vs
  json_value depth (dict fs) = do too_deep depth; json_fields (suc depth) 1 fs
  json_value depth other = do
    too_deep depth
    err (validation (codes "G2 JSON contains an unsupported value"))

  pub json_items : ℕ → ℕ → Items → Result ℕ
  json_items depth total nil = ok total
  json_items depth total (cons v vs) = do
    count ← json_value depth v
    total' ← add_items total count
    json_items depth total' vs

  pub json_fields : ℕ → ℕ → Fields → Result ℕ
  json_fields depth total end = ok total
  json_fields depth total (field k v fs) = do
    count ← json_value depth v
    total' ← add_items total count
    json_fields depth total' fs

-- Every error of the walk is a ValidationError.
abbrev pub IsRefusal : Error → Type 0
IsRefusal e = (m : Text) × (e ≡ validation m)

-- A chain of parts that raise refusals only.
pub >>=-IsRefusal :
    {A B : Type 0} (r : Result A) (f : A → Result B)
    → ((x : Error) → r ≡ err x → IsRefusal x)
    → ((a : A) (x : Error) → f a ≡ err x → IsRefusal x)
    → (e : Error) → r >>= f ≡ err e
    → IsRefusal e
>>=-IsRefusal r f k kf e h = elim (>>=-eq-err r f h) [ inl q ↦ k e q | inr (a, _, q) ↦ kf a e q ]

pub raise_if-IsRefusal :
    (c : Bool) (t : Text) (e : Error) → raise_if c (validation t) ≡ err e → IsRefusal e
raise_if-IsRefusal true t e h = (t, ground arith)
raise_if-IsRefusal false t e h = cc

after_depth :
    (c : Bool) (t : Text) (r : Result ℕ) (e : Error)
    → ((x : Error) → r ≡ err x → IsRefusal x)
    → (raise_if c (validation t) >> r) ≡ err e
    → IsRefusal e
after_depth c t r e k h =
    >>=-IsRefusal (raise_if c (validation t)) (λ _. r) (raise_if-IsRefusal c t) (λ _. k) e h

after_item :
    (r : Result ℕ) (f : ℕ → Result ℕ) (e : Error)
    → ((x : Error) → r ≡ err x → IsRefusal x)
    → ((n : ℕ) (x : Error) → f n ≡ err x → IsRefusal x)
    → r >>= f ≡ err e
    → IsRefusal e
after_item r f e k kf h = >>=-IsRefusal r f k kf e h

refusal : (t : Text) (x : Error) → ◌≡◌ {A = Result ℕ} (err (validation t)) (err x) → IsRefusal x
refusal t x q = (t, ground arith)

add_items-refused : (t n : ℕ) (e : Error) → add_items t n ≡ err e → IsRefusal e
unfolding add_items
add_items-refused t n e h = (codes "G2 JSON exceeds the item limit", ground arith)

mutual
  unfolding json_value too_deep

  json_value-refused : (d : ℕ) (v : Value) (e : Error) → json_value d v ≡ err e → IsRefusal e
  json_value-refused d null e h = after_depth _ _ (ok 1) e (λ x q. cc) h
  json_value-refused d (bool b) e h = after_depth _ _ (ok 1) e (λ x q. cc) h
  json_value-refused d (int n) e h = after_depth _ _ (ok 1) e (λ x q. cc) h
  json_value-refused d (float (finite m k)) e h = after_depth _ _ (ok 1) e (λ x q. cc) h
  json_value-refused d (float infinite) e h =
      after_depth _ _ _ e (λ x q. refusal (codes "G2 JSON contains a non-finite number") x q) h
  json_value-refused d (float not_a_number) e h =
      after_depth _ _ _ e (λ x q. refusal (codes "G2 JSON contains a non-finite number") x q) h
  json_value-refused d (str s) e h = after_depth _ _ (ok 1) e (λ x q. cc) h
  json_value-refused d (list vs) e h =
      after_depth _ _ _ e (λ x q. json_items-refused (suc d) 1 vs x q) h
  json_value-refused d (dict fs) e h =
      after_depth _ _ _ e (λ x q. json_fields-refused (suc d) 1 fs x q) h
  json_value-refused d other e h =
      after_depth _ _ _ e (λ x q. refusal (codes "G2 JSON contains an unsupported value") x q) h

  json_items-refused :
      (d total : ℕ) (vs : Items) (e : Error) → json_items d total vs ≡ err e → IsRefusal e
  json_items-refused d total nil e h = cc
  json_items-refused d total (cons v vs) e h =
      after_item (json_value d v) _ e (λ x q. json_value-refused d v x q)
        (λ n x q.
          after_item (add_items total n) _ x (λ y p. add_items-refused total n y p)
            (λ m y p. json_items-refused d m vs y p) q)
        h

  json_fields-refused :
      (d total : ℕ) (fs : Fields) (e : Error) → json_fields d total fs ≡ err e → IsRefusal e
  json_fields-refused d total end e h = cc
  json_fields-refused d total (field k v fs) e h =
      after_item (json_value d v) _ e (λ x q. json_value-refused d v x q)
        (λ n x q.
          after_item (add_items total n) _ x (λ y p. add_items-refused total n y p)
            (λ m y p. json_fields-refused d m fs y p) q)
        h

pub json_value-IsRefusal : (d : ℕ) (v : Value) (e : Error) → json_value d v ≡ err e → IsRefusal e
json_value-IsRefusal d v e h = json_value-refused d v e h

-- the body of a POST request
unfoldable pub object_body : (Fields → Option Text) → Fields → Result (Option Text)
object_body dumps fs = do
  total ← json_value 0 (dict fs)
  encoded ← or_raise (dumps fs) (validation (codes "G2 request body is invalid"))
  raise_if (ltb max_request_bytes (length encoded))
      (validation (codes "G2 request body is too large"))
  ok (some encoded)

abbrev no_body : Option Fields → Result (Option Text)
no_body none = ok none
no_body (some fs) = err (validation (codes "G2 GET requests cannot contain a body"))

abbrev required_body : (Fields → Option Text) → Option Fields → Result (Option Text)
required_body dumps none = err (validation (codes "G2 POST requests require a JSON object body"))
required_body dumps (some fs) = object_body dumps fs

-- `_request_body`, for a method that passed the route check
unfoldable pub request_body : (Fields → Option Text) → Text → Option Fields → Result (Option Text)
unfolding object_body
request_body dumps method body =
    if method === codes "GET" then no_body body else required_body dumps body

or_raise-IsRefusal :
    (o : Option Text) (t : Text) (e : Error) → or_raise o (validation t) ≡ err e → IsRefusal e
or_raise-IsRefusal none t e h = (t, ground arith)
or_raise-IsRefusal (some a) t e h = cc

object_body-IsRefusal :
    (dumps : Fields → Option Text) (fs : Fields) (e : Error)
    → object_body dumps fs ≡ err e
    → IsRefusal e
unfolding object_body
object_body-IsRefusal dumps fs e h =
    >>=-IsRefusal (json_value 0 (dict fs)) _ (json_value-IsRefusal 0 (dict fs))
      (λ n x q.
        >>=-IsRefusal (or_raise (dumps fs) (validation (codes "G2 request body is invalid"))) _
          (or_raise-IsRefusal (dumps fs) _)
          (λ t y p.
            >>=-IsRefusal
              (raise_if (ltb max_request_bytes (length t))
                (validation (codes "G2 request body is too large")))
              _ (raise_if-IsRefusal _ _) (λ _ z o. cc) y p)
          x q)
      e h

pub request_body-IsRefusal :
    (dumps : Fields → Option Text) (method : Text) (body : Option Fields) (e : Error)
    → request_body dumps method body ≡ err e
    → IsRefusal e
unfolding request_body
request_body-IsRefusal dumps method body e h = go (method === codes "GET") body h
  where
    go :
        (get : Bool) (body : Option Fields)
        → (if get then no_body body else required_body dumps body) ≡ err e
        → IsRefusal e
    go true none h = cc
    go true (some fs) h = (codes "G2 GET requests cannot contain a body", ground (arith, h))
    go false none h = (codes "G2 POST requests require a JSON object body", ground (arith, h))
    go false (some fs) h = object_body-IsRefusal dumps fs e h
