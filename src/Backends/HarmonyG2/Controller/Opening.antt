-- ===== src/Backends/HarmonyG2/Controller/Opening.antt =====
-- backends/harmony_g2/backend.py: `HarmonyG2Backend.open` and `__init__`, before there is a backend.
use smartenit_rescue.Prelude.{◌+◌, leb, List, [], ◌∷◌, false, none, if◌then◌else◌}
use smartenit_rescue.Prelude.Result as R
use smartenit_rescue.Prelude.Result.{Result, ok, err}
use smartenit_rescue.Prelude.Exec.{Exec, lift, pure, ◌>>=◌, ◌>>◌}
use smartenit_rescue.Prelude.Datetime.{Datetime}
use smartenit_rescue.Prelude.Dict.{Dict, insert}
use smartenit_rescue.Models.Identity.{DeviceId, device_eq}
use smartenit_rescue.Models.State.{online}
use smartenit_rescue.Models.Device.{DeviceAvailability, make_availability}
use smartenit_rescue.Backends.Base.{RuntimeDevice}
use smartenit_rescue.Backends.HarmonyG2.Session.{LocalSession}
use smartenit_rescue.Backends.HarmonyG2.Client.{
  Effect, load_session, save_session, Gateway, G2Endpoint, renew,
}
use smartenit_rescue.Backends.HarmonyG2.Client.Inventory.{read_endpoints}
use smartenit_rescue.Backends.HarmonyG2.Snapshot.{snapshot}
use smartenit_rescue.Backends.HarmonyG2.Controller.{
  HarmonyG2, Setup, source_name, refresh_margin, inventory_freshness, aware_now,
}

-- the dictionary comprehension of `__init__`
unfoldable pub initial_availability :
    Datetime
    → Dict DeviceId DeviceAvailability
    → List RuntimeDevice
    → Result (Dict DeviceId DeviceAvailability)
initial_availability at known [] = ok known
initial_availability at known (d ∷ ds) =
    R.◌>>=◌ (make_availability d.device.device_id online at source_name none)
      λ a. initial_availability at (insert d.device.device_id a known) ds

module _ (g : Gateway) (setup : Setup) where
  -- the session that is stored, renewed if it is about to expire
  unfoldable pub renewed_session : Datetime → LocalSession → Exec (List Effect) LocalSession
  renewed_session now session = do
    renewed ← renew g session now
    (λ trace. (g.save trace renewed, save_session renewed ∷ trace))
    pure renewed

  unfoldable pub open_session : Datetime → LocalSession → Exec (List Effect) LocalSession
  unfolding renewed_session
  open_session now session =
      if leb session.expires_at.instant (now.instant + refresh_margin)
      then renewed_session now session
      else pure session

  -- `__init__`; the trace goes on in the backend
  unfoldable pub initialise :
      LocalSession
      → List RuntimeDevice × Dict DeviceId G2Endpoint
      → Datetime
      → Exec (List Effect) HarmonyG2
  initialise session (devices, bindings) discovered_at = do
    availability ← lift (initial_availability discovered_at [] devices)
    (λ trace. (
      ok (record {
        session = session;
        devices = devices;
        bindings = bindings;
        inventory_at = discovered_at.instant;
        next_refresh_at = discovered_at.instant + inventory_freshness;
        force_renew = false;
        is_closed = false;
        availability = availability;
        trace = trace;
      }),
      trace,
    ))

  -- `open`
  unfoldable pub open_backend : Exec (List Effect) HarmonyG2
  unfolding open_session initialise
  open_backend = do
    now ← aware_now g setup
    stored ← (λ trace. (g.load trace, load_session ∷ trace))
    session ← open_session now stored
    endpoints ← read_endpoints g session.access_token
    found ← lift (snapshot setup.settings setup.profiles endpoints)
    initialise session found now
