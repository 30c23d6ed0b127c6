-- ===== src/Backends/HarmonyG2/Client/Unique.antt =====
-- Uniqueness and form of the endpoints of the inventory in client.py.
use smartenit_rescue.Prelude.Value.{get, Fields, Value}
use smartenit_rescue.Models.Device.{require_canonical}
use smartenit_rescue.Prelude.{
  Option, subst, ◌≡◌, refl, arith, true, false, Bool, List, [], ◌∷◌, All, All-append, contains,
  ◌===◌, ◌||◌, ◌++◌, ◌⊎◌, inl, inr, Bool-cases,
}
use smartenit_rescue.Prelude.Result.{Text, ok, >>=-eq-ok, raise_if}
use smartenit_rescue.Prelude.Text.{codes, text_eq}
use smartenit_rescue.Models.Identity.{DeviceId, device_eq}
use smartenit_rescue.Backends.HarmonyG2.Client.{
  as_response_error, get, Option, Fields, Value, require_canonical, G2Endpoint, g2_endpoint_eq,
  endpoint_beq_iff, make_endpoint, is_safe_segment, safe_segment, response_error,
}
use smartenit_rescue.Backends.HarmonyG2.Client.Inventory.{
  on_off_components, hardware_identity, as_list, as_mapping, add_identified, Inventory,
  add_components, add_device, add_devices, read_page,
}

-- No endpoint is there twice.
abbrev pub Unique : List G2Endpoint → Type 0
Unique [] = Unit
Unique (e ∷ es) = (contains e es ≡ false) × Unique es

-- What the constructor of an endpoint checks.
pub record IsEndpoint (e : G2Endpoint) : Type 0 where
  pub local_id : is_safe_segment e.local_device_id ≡ true
  pub component : is_safe_segment e.component_id ≡ true
  pub device : require_canonical e.device_id ≡ ok tt

contains-append_last :
    (x e : G2Endpoint) (es : List G2Endpoint)
    → contains x (es ++ e ∷ []) ≡ (contains x es || e === x)
contains-append_last x e [] = ground arith
contains-append_last x e (y ∷ es) = ground (arith, contains-append_last x e es)

Unique-append :
    (e : G2Endpoint) (es : List G2Endpoint)
    → Unique es
    → contains e es ≡ false
    → Unique (es ++ e ∷ [])
Unique-append e [] u h = (refl, tt)
Unique-append e (x ∷ es) u h = (
  rw (contains-append_last x e es)
      (ground (arith, u.0, h, endpoint_beq_iff e x, endpoint_beq_iff x e)),
  Unique-append e es u.1 (ground (arith, h)),
)

-- The loop keeps: all endpoints were seen, none is there twice, and each is well formed.
pub record IsWellFormed (inv : Inventory) : Type 0 where
  pub seen : All (λ e. contains e inv.seen_endpoints ≡ true) inv.endpoints
  pub unique : Unique inv.endpoints
  pub good : All IsEndpoint inv.endpoints

contains-unseen :
    (e : G2Endpoint) (seen es : List G2Endpoint)
    → All (λ x. contains x seen ≡ true) es
    → contains e seen ≡ false
    → contains e es ≡ false
contains-unseen e seen [] h k = refl
contains-unseen e seen (x ∷ es) h k =
    by_test (Bool-cases (x === e)) (contains-unseen e seen es h.1 k)
  where
    by_test :
        ((x === e) ≡ true) ⊎ ((x === e) ≡ false)
        → contains e es ≡ false
        → contains e (x ∷ es) ≡ false
    by_test (inl t) f =
        let same : x ≡ e = (endpoint_beq_iff x e).0 t in
        absurd (ground (arith, k, subst (λ y. contains y seen ≡ true) same h.0))
    by_test (inr t) f = ground (arith, t, f)

seen_more :
    (e : G2Endpoint) (seen es : List G2Endpoint)
    → All (λ x. contains x seen ≡ true) es
    → All (λ x. contains x (e ∷ seen) ≡ true) es
seen_more e seen [] h = tt
seen_more e seen (x ∷ es) h = (ground (arith, h.0), seen_more e seen es h.1)

make_endpoint-IsEndpoint :
    (l : Text) (d : DeviceId) (c : Text) (e : G2Endpoint)
    → make_endpoint l d c ≡ ok e
    → IsEndpoint e
unfolding make_endpoint safe_segment
make_endpoint-IsEndpoint l d c e h = record {
  local_id = ground (arith, h);
  component = ground (arith, h);
  device = ground (arith, h);
}

add_components-IsWellFormed :
    (l : Text) (d : DeviceId) (cs : List Text) (inv inv' : Inventory)
    → IsWellFormed inv
    → add_components l d cs inv ≡ ok inv'
    → IsWellFormed inv'
unfolding add_components
add_components-IsWellFormed l d [] inv inv' w h =
    let same : inv ≡ inv' = ground (arith, h) in rw⁻¹ same w
add_components-IsWellFormed l d (c ∷ cs) inv inv' w h =
    let (e, m, h1) = >>=-eq-ok (make_endpoint l d c) _ h in
    let (_, f, h2) =
      >>=-eq-ok
        (raise_if (contains e inv.seen_endpoints)
          (response_error (codes "G2 inventory contains a duplicate endpoint")))
        _ h1 in
    let unseen : contains e inv.seen_endpoints ≡ false = ground (arith, f) in
    add_components-IsWellFormed l d cs _ inv'
      (record {
        seen =
            All-append _ inv.endpoints (e ∷ [])
              (seen_more e inv.seen_endpoints inv.endpoints w.seen)
              (ground (arith, endpoint_beq_iff e e), tt);
        unique =
            Unique-append e inv.endpoints w.unique
              (contains-unseen e inv.seen_endpoints inv.endpoints w.seen unseen);
        good = All-append _ inv.endpoints (e ∷ []) w.good (make_endpoint-IsEndpoint l d c e m, tt);
      })
      h2

add_identified-IsWellFormed :
    (l : Text) (v : Option Value) (cs : List Text) (inv inv' : Inventory)
    → IsWellFormed inv
    → add_identified l v cs inv ≡ ok inv'
    → IsWellFormed inv'
unfolding add_identified
add_identified-IsWellFormed l v [] inv inv' w h =
    let same : inv ≡ inv' = ground (arith, h) in rw⁻¹ same w
add_identified-IsWellFormed l v (c ∷ cs) inv inv' w h =
    let (d, _, h1) = >>=-eq-ok (hardware_identity v) _ h in
    let (_, _, h2) =
      >>=-eq-ok
        (raise_if (contains d inv.seen_hardware_ids)
          (response_error (codes "G2 inventory contains a duplicate hardware identity")))
        _ h1 in
    add_components-IsWellFormed l d (c ∷ cs)
      (record inv { seen_hardware_ids = d ∷ inv.seen_hardware_ids }) inv'
      (record { seen = w.seen; unique = w.unique; good = w.good }) h2

add_device-IsWellFormed :
    (v : Value) (inv inv' : Inventory)
    → IsWellFormed inv
    → add_device v inv ≡ ok inv'
    → IsWellFormed inv'
unfolding add_device
add_device-IsWellFormed v inv inv' w h =
    let (fs, _, h1) = >>=-eq-ok (as_mapping v (codes "G2 inventory device is invalid")) _ h in
    let (l, _, h2) =
      >>=-eq-ok
        (as_response_error (codes "G2 inventory local device identifier is invalid")
          (safe_segment (get (codes "_id") fs)))
        _ h1 in
    let (_, _, h3) =
      >>=-eq-ok
        (raise_if (contains l inv.seen_local_ids)
          (response_error (codes "G2 inventory contains a duplicate device")))
        _ h2 in
    let (cs, _, h4) = >>=-eq-ok (on_off_components (get (codes "components") fs)) _ h3 in
    add_identified-IsWellFormed l (get (codes "hwId") fs) cs
      (record inv { seen_local_ids = l ∷ inv.seen_local_ids }) inv'
      (record { seen = w.seen; unique = w.unique; good = w.good }) h4

add_devices-IsWellFormed :
    (vs : List Value) (inv inv' : Inventory)
    → IsWellFormed inv
    → add_devices vs inv ≡ ok inv'
    → IsWellFormed inv'
unfolding add_devices
add_devices-IsWellFormed [] inv inv' w h = let same : inv ≡ inv' = ground (arith, h) in rw⁻¹ same w
add_devices-IsWellFormed (v ∷ vs) inv inv' w h =
    let (i, a, h1) = >>=-eq-ok (add_device v inv) _ h in
    add_devices-IsWellFormed vs i inv' (add_device-IsWellFormed v inv i w a) h1

pub read_page-IsWellFormed :
    (p : Fields) (inv : Inventory) (r : Bool × Inventory)
    → IsWellFormed inv
    → read_page p inv ≡ ok r
    → IsWellFormed r.1
unfolding read_page
read_page-IsWellFormed p inv r w h =
    let (vs, _, h1) =
      >>=-eq-ok (as_list (get (codes "data") p) (codes "G2 inventory data array is invalid")) _ h in
    let (i, a, h2) = >>=-eq-ok (add_devices vs inv) _ h1 in
    let same : i ≡ r.1 = ground (arith, h2) in rw⁻¹ same (add_devices-IsWellFormed vs inv i w a)
