-- ===== src/Backends/HarmonyG2/Controller/Quiet.antt =====
-- What the G2 backend does without a command for the gateway.
use smartenit_rescue.Prelude.Exec.{◌>>=◌, ◌>>◌, Exec, gets, lift, modify, when}
use smartenit_rescue.Prelude.Exec.Keeps.{
  Keeps-modify, Keeps-gets, Keeps, Keeps-bind, Keeps-lift, Keeps-pure, Keeps-raise, Keeps-when,
  Keeps-if, Keeps-for_each,
}
use smartenit_rescue.Prelude.{
  zero, ◌&&◌, ◌+◌, ◌===◌, suc, if◌then◌else◌, ◌≡◌, refl, List, [], ◌∷◌, ℕ, Bool, false, not, none,
  some, Option, true, ltb,
}
use smartenit_rescue.Prelude.Result.{Result, Text, is_rescue_error, err, ok, Error}
use smartenit_rescue.Prelude.Text.{codes, text_eq, text_beq}
use smartenit_rescue.Prelude.Datetime.{Datetime}
use smartenit_rescue.Prelude.Dict.{keys, lookup, insert}
use smartenit_rescue.Models.Identity.{device_eq, DeviceId}
use smartenit_rescue.Models.Device.{make_availability, DeviceAvailability}
use smartenit_rescue.Models.State.{offline, AvailabilityState}
use smartenit_rescue.Backends.HarmonyG2.Client.{Effect, Request, Gateway, send, renew, save_session}
use smartenit_rescue.Backends.HarmonyG2.Client.Inventory.{
  read_page, Inventory, no_devices, read_pages, read_endpoints, page_request,
}
use smartenit_rescue.Backends.HarmonyG2.Session.{LocalSession}
use smartenit_rescue.Backends.HarmonyG2.Controller.{
  must_read, must_renew, inventory_freshness, known_or_unknown, refresh, close, availability_of,
  handled, online, source_name, catch, is_refusal, maintenance_failed, read_inventory,
  renew_session, on_trace, HarmonyG2, Setup, aware_now, mark_device, mark_all, maintain,
}
use smartenit_rescue.Backends.HarmonyG2.Snapshot.{snapshot}

-- Every request with the method POST commands a device, but the one that renews the session.
abbrev pub is_command : Request → Bool
is_command r = r.method === codes "POST" && not (r.path === codes "/v2/oauth2/token")

-- The commands in a trace, newest first.
abbrev pub commands : List Effect → List Request
commands [] = []
commands (Effect.request r ∷ l) = if is_command r then r ∷ commands l else commands l
commands (Effect.read_clock ∷ l) = commands l
commands (Effect.load_session ∷ l) = commands l
commands (Effect.save_session x ∷ l) = commands l

abbrev pub Sent : List Request → List Effect → Type 0
Sent cs t = commands t ≡ cs

abbrev pub HasSent : List Request → HarmonyG2 → Type 0
HasSent cs s = Sent cs s.trace

module _ (g : Gateway) (cs : List Request) where
  send-Sent : (r : Request) → is_command r ≡ false → Keeps (Sent cs) (send g r)
  unfolding send
  send-Sent r h = record { at = λ t e. rw h e }

  pub renew-Sent : (x : LocalSession) (n : Datetime) → Keeps (Sent cs) (renew g x n)
  unfolding renew text_beq
  renew-Sent x n = Keeps-bind _ _ (send-Sent _ refl) (λ p. Keeps-lift _)

  read_pages-Sent :
      (token : Text) (left page : ℕ) (inv : Inventory)
      → Keeps (Sent cs) (read_pages g token left page inv)
  unfolding read_pages page_request text_beq
  read_pages-Sent token zero page inv = Keeps-raise _
  read_pages-Sent token (suc left) page inv =
      Keeps-bind _ _ (send-Sent (page_request token page) refl) λ p.
        Keeps-bind _ _ (Keeps-lift (read_page p inv)) λ r.
          Keeps-if r.0 _ _ (Keeps-pure r.1.endpoints) (read_pages-Sent token left (page + 1) r.1)

  pub read_endpoints-Sent : (token : Text) → Keeps (Sent cs) (read_endpoints g token)
  unfolding read_endpoints
  read_endpoints-Sent token = read_pages-Sent token 100 1 no_devices

  on_trace-HasSent {κ} :
      {A : Type κ} (m : Exec (List Effect) A) → Keeps (Sent cs) m → Keeps (HasSent cs) (on_trace m)
  on_trace-HasSent m k = record { at = λ s h. k.at s.trace h }

module _ (g : Gateway) (setup : Setup) (cs : List Request) where
  aware_now-HasSent : Keeps (HasSent cs) (on_trace (aware_now g setup))
  unfolding aware_now
  aware_now-HasSent = record { at = λ s h. h }

  pub mark_device-HasSent :
      (d : DeviceId) (a : AvailabilityState) → Keeps (HasSent cs) (mark_device g setup d a)
  unfolding mark_device
  mark_device-HasSent d a = Keeps-bind _ _ aware_now-HasSent λ at.
      Keeps-bind (lift (make_availability d a at source_name none)) _ (Keeps-lift _) λ v.
        Keeps-modify (λ (s : HarmonyG2). record s { availability = insert d v s.availability })
          (λ s e. e)

  pub mark_all-HasSent : (a : AvailabilityState) → Keeps (HasSent cs) (mark_all g setup a)
  unfolding mark_all
  mark_all-HasSent a =
      Keeps-bind (gets (λ (s : HarmonyG2). keys s.availability)) _ (Keeps-gets _)
        λ ids. Keeps-for_each ids _ (λ d. mark_device-HasSent d a)

  renew_session-HasSent : (n : Datetime) → Keeps (HasSent cs) (renew_session g setup n)
  unfolding renew_session
  renew_session-HasSent n = Keeps-bind (gets (λ (s : HarmonyG2). s.session)) _ (Keeps-gets _) λ x.
      Keeps-bind _ _ (on_trace-HasSent g cs (renew g x n) (renew-Sent g cs x n)) λ y.
        Keeps-bind _ _
          (on_trace-HasSent g cs (λ t. (g.save t y, save_session y ∷ t)) (record { at = λ t e. e }))
          λ _.
            Keeps-modify (λ (s : HarmonyG2). record s { session = y; force_renew = false })
              (λ s e. e)

  read_inventory-HasSent : (n : Datetime) → Keeps (HasSent cs) (read_inventory g setup n)
  unfolding read_inventory
  read_inventory-HasSent n = Keeps-bind (gets (λ (s : HarmonyG2). s.session)) _ (Keeps-gets _) λ x.
      Keeps-bind _ _
        (on_trace-HasSent g cs (read_endpoints g x.access_token)
          (read_endpoints-Sent g cs x.access_token))
        λ es.
          Keeps-bind (lift (snapshot setup.settings setup.profiles es)) _ (Keeps-lift _) λ found.
            Keeps-bind _ _
              (Keeps-modify
                (λ (s : HarmonyG2). record s {
                  devices = found.0;
                  bindings = found.1;
                  inventory_at = n.instant;
                })
                (λ s e. e))
              λ _. mark_all-HasSent online

  pub maintain-HasSent : Keeps (HasSent cs) (maintain g setup)
  unfolding maintain
  maintain-HasSent = Keeps-bind _ _ aware_now-HasSent λ now.
      Keeps-bind (gets (must_renew now)) _ (Keeps-gets _) λ renewal.
        Keeps-bind _ _ (Keeps-when renewal _ (renew_session-HasSent now)) λ _.
          Keeps-bind (gets (must_read now)) _ (Keeps-gets _)
            λ reading. Keeps-when reading _ (read_inventory-HasSent now)

  pub maintenance_failed-HasSent : (e : Error) → Keeps (HasSent cs) (maintenance_failed g setup e)
  unfolding maintenance_failed
  maintenance_failed-HasSent e =
      Keeps-bind _ _
        (Keeps-when (is_refusal e) _
          (Keeps-modify (λ (s : HarmonyG2). record s { force_renew = true }) (λ s e. e)))
        λ _. mark_all-HasSent offline

  catch-HasSent :
      (m : Exec HarmonyG2 (Unit {0})) (h : Error → Exec HarmonyG2 (Unit {0}))
      → Keeps (HasSent cs) m
      → ((e : Error) → Keeps (HasSent cs) (h e))
      → Keeps (HasSent cs) (catch m h)
  catch-HasSent m h km kh = record { at = λ s e. caught (m s).0 (m s).1 (km.at s e) }
    where
      caught : (r : Result (Unit {0})) (s : HarmonyG2) → HasSent cs s → HasSent cs (handled h r s).1
      caught (ok a) s e = e
      caught (err x) s e = by_class (is_rescue_error x) (h x s) ((kh x).at s e)
        where
          by_class :
              (b : Bool) (y : Result (Unit {0}) × HarmonyG2)
              → HasSent cs y.1
              → HasSent cs (if b then y else (err x, s)).1
          by_class true y k = k
          by_class false y k = e

  pub refresh-HasSent : Keeps (HasSent cs) (refresh g setup)
  unfolding refresh
  refresh-HasSent = record { at = λ s e. by_closed s s.is_closed e }
    where
      due : Datetime → Exec HarmonyG2 (Unit {0})
      due now = do
        modify (λ s. record s { next_refresh_at = now.instant + inventory_freshness })
        catch (maintain g setup) (maintenance_failed g setup)

      by_closed :
          (s : HarmonyG2) (b : Bool)
          → HasSent cs s
          → HasSent cs
              (if b
                then (ok tt, s)
                else (do
                  now ← on_trace (aware_now g setup)
                  is_due ← gets (λ (s' : HarmonyG2). not (ltb now.instant s'.next_refresh_at))
                  when is_due (due now))
                    s).1
      by_closed s true e = e
      by_closed s false e =
          (Keeps-bind _ _ aware_now-HasSent λ now.
              Keeps-bind (gets (λ (s' : HarmonyG2). not (ltb now.instant s'.next_refresh_at))) _
                (Keeps-gets _)
                λ b. Keeps-when b (due now) (
                  Keeps-bind
                    (modify (λ s. record s { next_refresh_at = now.instant + inventory_freshness }))
                    _ (record { at = λ s e. e })
                    λ _. catch-HasSent _ _ maintain-HasSent maintenance_failed-HasSent)).at
            s e

  pub availability_of-HasSent : (d : DeviceId) → Keeps (HasSent cs) (availability_of g setup d)
  unfolding availability_of known_or_unknown
  availability_of-HasSent d = record { at = λ s e. by_known (lookup d s.availability) s e }
    where
      by_known :
          (o : Option DeviceAvailability) (s : HarmonyG2)
          → HasSent cs s
          → HasSent cs (known_or_unknown g setup d o s).1
      by_known none s e = (Keeps-bind _ _ aware_now-HasSent λ at. Keeps-lift _).at s e
      by_known (some x) s e = e

  pub close-HasSent : Keeps (HasSent cs) (close g setup)
  unfolding close
  close-HasSent = record { at = λ s e. by_closed s.is_closed s e }
    where
      by_closed :
          (b : Bool) (s : HarmonyG2)
          → HasSent cs s
          → HasSent cs
              (if b then (ok tt, s) else mark_all g setup offline (record s { is_closed = true })).1
      by_closed true s e = e
      by_closed false s e = (mark_all-HasSent offline).at (record s { is_closed = true }) e
