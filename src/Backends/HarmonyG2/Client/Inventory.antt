-- ===== src/Backends/HarmonyG2/Client/Inventory.antt =====
-- backends/harmony_g2/client.py: the reading of the inventory, page by page.
use smartenit_rescue.Prelude.{
  ℕ, zero, suc, ◌+◌, Bool, not, Option, none, some, List, [], ◌∷◌, ◌++◌, ltb, length, contains,
  if◌then◌else◌,
}
use smartenit_rescue.Prelude.Value.{Value, str, list, dict, Fields, get, items}
use smartenit_rescue.Prelude.Result.{Text, Result, ok, err, raise_if, ◌>>=◌, ◌>>◌}
use smartenit_rescue.Prelude.Exec as E
use smartenit_rescue.Prelude.Exec.{Exec, pure, raise, lift}
use smartenit_rescue.Prelude.Text.{codes, text_eq}
use smartenit_rescue.Prelude.Decimal.{show}
use smartenit_rescue.Models.Identity.{DeviceId, parse_device_id, device_eq}
use smartenit_rescue.Backends.HarmonyG2.Client.{
  Request, Effect, Gateway, response_error, safe_segment, G2Endpoint, make_endpoint, g2_endpoint_eq,
  send, as_response_error,
}

-- `isinstance(value, list)` and `isinstance(value, Mapping)`, or the error
unfoldable pub as_list : Option Value → Text → Result (List Value)
as_list (some (list vs)) message = ok (items vs)
as_list _ message = err (response_error message)

unfoldable pub as_mapping : Value → Text → Result Fields
as_mapping (dict fs) message = ok fs
as_mapping _ message = err (response_error message)

-- a name that is a nonempty string
processor_name : Option Value → Result Text
processor_name (some (str (c ∷ s))) = ok (c ∷ s)
processor_name _ = err (response_error (codes "G2 inventory processor is invalid"))

-- the loop of `_processors`
processor_names : List Value → Result (List Text)
unfolding processor_name as_mapping
processor_names [] = ok []
processor_names (p ∷ ps) = do
  fields ← as_mapping p (codes "G2 inventory processor is invalid")
  name ← processor_name (get (codes "name") fields)
  names ← processor_names ps
  ok (name ∷ names)

unfoldable pub processors : Option Value → Result (List Text)
unfolding processor_names as_list
processors value = do
  ps ← as_list value (codes "G2 inventory processor list is invalid")
  processor_names ps

-- the loop of `_on_off_components`
on_off_ids : List Value → Result (List Text)
unfolding as_mapping
on_off_ids [] = ok []
on_off_ids (c ∷ cs) = do
  fields ← as_mapping c (codes "G2 inventory component is invalid")
  names ← processors (get (codes "processors") fields)
  let rest = on_off_ids cs
  if not (contains (codes "OnOff") names) then rest else (do
    id ←
        as_response_error (codes "G2 inventory component identifier is invalid")
          (safe_segment (get (codes "id") fields))
    ids ← rest
    ok (id ∷ ids))

unfoldable pub on_off_components : Option Value → Result (List Text)
unfolding on_off_ids as_list
on_off_components value = do
  cs ← as_list value (codes "G2 inventory components are invalid")
  on_off_ids cs

-- `_device_id`
unfoldable pub hardware_identity : Option Value → Result DeviceId
hardware_identity (some (str s)) =
    as_response_error (codes "G2 inventory hardware identity is invalid") (parse_device_id s)
hardware_identity _ = err (response_error (codes "G2 inventory hardware identity is invalid"))

-- the local variables of `endpoints`
pub record Inventory : Type 0 where
  pub endpoints : List G2Endpoint
  pub seen_local_ids : List Text
  pub seen_hardware_ids : List DeviceId
  pub seen_endpoints : List G2Endpoint

-- the loop over the components of one device
unfoldable pub add_components : Text → DeviceId → List Text → Inventory → Result Inventory
add_components local_id hardware_id [] inv = ok inv
add_components local_id hardware_id (component_id ∷ ids) inv = do
  endpoint ← make_endpoint local_id hardware_id component_id
  raise_if (contains endpoint inv.seen_endpoints)
      (response_error (codes "G2 inventory contains a duplicate endpoint"))
  add_components local_id hardware_id ids (record inv {
    seen_endpoints = endpoint ∷ inv.seen_endpoints;
    endpoints = inv.endpoints ++ endpoint ∷ [];
  })

-- the part of the body of the loop over devices behind `if not component_ids: continue`
unfoldable pub add_identified : Text → Option Value → List Text → Inventory → Result Inventory
add_identified local_id raw_identity [] inv = ok inv
add_identified local_id raw_identity (id ∷ ids) inv = do
  hardware_id ← hardware_identity raw_identity
  raise_if (contains hardware_id inv.seen_hardware_ids)
      (response_error (codes "G2 inventory contains a duplicate hardware identity"))
  add_components local_id hardware_id (id ∷ ids)
      (record inv { seen_hardware_ids = hardware_id ∷ inv.seen_hardware_ids })

-- the body of the loop over devices
unfoldable pub add_device : Value → Inventory → Result Inventory
unfolding add_identified as_mapping
add_device raw_device inv = do
  fields ← as_mapping raw_device (codes "G2 inventory device is invalid")
  local_id ←
      as_response_error (codes "G2 inventory local device identifier is invalid")
        (safe_segment (get (codes "_id") fields))
  raise_if (contains local_id inv.seen_local_ids)
      (response_error (codes "G2 inventory contains a duplicate device"))
  component_ids ← on_off_components (get (codes "components") fields)
  add_identified local_id (get (codes "hwId") fields) component_ids
      (record inv { seen_local_ids = local_id ∷ inv.seen_local_ids })

unfoldable pub add_devices : List Value → Inventory → Result Inventory
add_devices [] inv = ok inv
add_devices (d ∷ ds) inv = do inv' ← add_device d inv; add_devices ds inv'

-- The request of a page.
unfoldable pub page_request : Text → ℕ → Request
page_request access_token page = record {
  method = codes "GET";
  path = codes "/v2/devices?limit=100&page=" ++ show page;
  body = none;
  access_token = some access_token;
}

-- what a page's payload adds: whether it is the last page, and the inventory with its devices
unfoldable pub read_page : Fields → Inventory → Result (Bool × Inventory)
unfolding as_list
read_page payload inv = do
  raw_devices ← as_list (get (codes "data") payload) (codes "G2 inventory data array is invalid")
  inv' ← add_devices raw_devices inv
  ok (ltb (length raw_devices) 100, inv')

-- The loop over the pages, with the number of pages that are left.
unfoldable pub read_pages :
    Gateway → Text → ℕ → ℕ → Inventory → Exec (List Effect) (List G2Endpoint)
read_pages g access_token zero page inv =
    raise (response_error (codes "G2 inventory exceeded 100 pages"))
read_pages g access_token (suc left) page inv =
    E.◌>>=◌ (send g (page_request access_token page)) λ payload.
      E.◌>>=◌ (lift (read_page payload inv)) λ r.
        let rest = read_pages g access_token left (page + 1) r.1 in
        if r.0 then pure r.1.endpoints else rest

abbrev pub no_devices : Inventory
no_devices = record {
  endpoints = [];
  seen_local_ids = [];
  seen_hardware_ids = [];
  seen_endpoints = [];
}

-- `endpoints`
unfoldable pub read_endpoints : Gateway → Text → Exec (List Effect) (List G2Endpoint)
read_endpoints g access_token = read_pages g access_token 100 1 no_devices
