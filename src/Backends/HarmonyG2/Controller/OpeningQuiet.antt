-- ===== src/Backends/HarmonyG2/Controller/OpeningQuiet.antt =====
-- The opening of the G2 backend (backend.py, `open`) and the requests that it makes.
use smartenit_rescue.Prelude.{◌∷◌, [], ◌≡◌, refl, List, leb, ◌+◌}
use smartenit_rescue.Prelude.Exec.{lift}
use smartenit_rescue.Prelude.Exec.Keeps.{Keeps, Keeps-bind, Keeps-lift, Keeps-pure, Keeps-if}
use smartenit_rescue.Prelude.Datetime.{Datetime}
use smartenit_rescue.Prelude.Dict.{Dict}
use smartenit_rescue.Models.Identity.{DeviceId}
use smartenit_rescue.Backends.Base.{RuntimeDevice}
use smartenit_rescue.Backends.HarmonyG2.Session.{LocalSession}
use smartenit_rescue.Backends.HarmonyG2.Client.{Effect, Gateway, G2Endpoint, Request, renew}
use smartenit_rescue.Backends.HarmonyG2.Client.Inventory.{read_endpoints}
use smartenit_rescue.Backends.HarmonyG2.Snapshot.{snapshot}
use smartenit_rescue.Backends.HarmonyG2.Controller.{Setup, refresh_margin, aware_now}
use smartenit_rescue.Backends.HarmonyG2.Controller.Quiet.{
  commands, Sent, renew-Sent, read_endpoints-Sent,
}
use smartenit_rescue.Backends.HarmonyG2.Controller.Opening.{
  initial_availability, renewed_session, open_session, initialise, open_backend,
}

module _ (g : Gateway) (setup : Setup) (cs : List Request) where
  renewed_session-Sent :
      (n : Datetime) (x : LocalSession) → Keeps (Sent cs) (renewed_session g setup n x)
  unfolding renewed_session
  renewed_session-Sent n x = Keeps-bind (renew g x n) _ (renew-Sent g cs x n) λ y.
      Keeps-bind (λ t. (g.save t y, Effect.save_session y ∷ t)) _ (record { at = λ t e. e })
        λ _. Keeps-pure y

  open_session-Sent : (n : Datetime) (x : LocalSession) → Keeps (Sent cs) (open_session g setup n x)
  unfolding open_session
  open_session-Sent n x =
      Keeps-if (leb x.expires_at.instant (n.instant + refresh_margin)) _ _
        (renewed_session-Sent n x) (Keeps-pure x)

  initialise-Sent :
      (x : LocalSession) (found : List RuntimeDevice × Dict DeviceId G2Endpoint) (n : Datetime)
      → Keeps (Sent cs) (initialise g setup x found n)
  unfolding initialise
  initialise-Sent x (ds, bs) n =
      Keeps-bind (lift (initial_availability n [] ds)) _ (Keeps-lift _)
        λ a. record { at = λ t e. e }

  aware_now-Sent : Keeps (Sent cs) (aware_now g setup)
  unfolding aware_now
  aware_now-Sent = record { at = λ t e. e }

  open_backend-Sent : Keeps (Sent cs) (open_backend g setup)
  unfolding open_backend
  open_backend-Sent = Keeps-bind (aware_now g setup) _ aware_now-Sent λ n.
      Keeps-bind (λ t. (g.load t, Effect.load_session ∷ t)) _ (record { at = λ t e. e })
        λ stored. Keeps-bind (open_session g setup n stored) _ (open_session-Sent n stored) λ x.
          Keeps-bind (read_endpoints g x.access_token) _ (read_endpoints-Sent g cs x.access_token)
            λ es.
              Keeps-bind (lift (snapshot setup.settings setup.profiles es)) _ (Keeps-lift _)
                λ found. initialise-Sent x found n

-- The opening of the backend, whether it returns or raises, sends no request to a device.
pub open_backend_quiet :
    (g : Gateway) (setup : Setup) (t : List Effect)
    → commands (open_backend g setup t).1 ≡ commands t
open_backend_quiet g setup t = (open_backend-Sent g setup (commands t)).at t refl
