-- ===== src/Backends/HarmonyG2/Client/Reading.antt =====
-- The reading of all pages in client.py: its endpoints and the number of its requests.
use smartenit_rescue.Prelude.Value.{Fields}
use smartenit_rescue.Prelude.{
  length, ◌≤◌, arith, ◌≡◌, refl, ℕ, zero, suc, ◌+◌, Bool, true, false, List, ◌∷◌, All,
  if◌then◌else◌,
}
use smartenit_rescue.Prelude.Result.{Text, Result, ok, err}
use smartenit_rescue.Prelude.Exec.{lift, pure, ◌>>=◌}
use smartenit_rescue.Backends.HarmonyG2.Client.{Fields, Gateway, G2Endpoint, Effect, send}
use smartenit_rescue.Backends.HarmonyG2.Client.Inventory.{
  Inventory, page_request, read_page, read_pages, read_endpoints, no_devices,
}
use smartenit_rescue.Backends.HarmonyG2.Client.Unique.{
  Unique, IsEndpoint, IsWellFormed, read_page-IsWellFormed,
}

-- What a reading gives if it returns: no endpoint twice, and each well formed.
abbrev pub Gives : Result (List G2Endpoint) → Type 0
Gives (ok es) = Unique es × All IsEndpoint es
Gives (err e) = Unit

module _ (g : Gateway) (access_token : Text) where
  read_pages-Gives :
      (left page : ℕ) (inv : Inventory) (t : List Effect)
      → IsWellFormed inv
      → Gives (read_pages g access_token left page inv t).0
  unfolding read_pages send
  read_pages-Gives zero page inv t w = tt
  read_pages-Gives (suc left) page inv t w =
      by_answer (λ i v. read_pages-Gives left (page + 1) i _ v)
        (g.respond t (page_request access_token page))
    where
      t' : List Effect
      t' = Effect.request (page_request access_token page) ∷ t

      Again : Type 0
      Again =
          (i : Inventory)
          → IsWellFormed i
          → Gives (read_pages g access_token left (page + 1) i t').0

      by_last :
          Again
          → (i : Inventory) (b : Bool) → IsWellFormed i
          → Gives
              ((if b then pure i.endpoints else read_pages g access_token left (page + 1) i) t').0
      by_last again i true v = (v.unique, v.good)
      by_last again i false v = again i v

      by_page :
          Again
          → (p : Fields) (x : Result (Bool × Inventory)) → read_page p inv ≡ x
          → Gives
              ((lift x >>= λ r.
                  let rest = read_pages g access_token left (page + 1) r.1 in
                  if r.0 then pure r.1.endpoints else rest)
                t').0
      by_page again p (err e) h = tt
      by_page again p (ok r) h = by_last again r.1 r.0 (read_page-IsWellFormed p inv r w h)

      by_answer :
          Again
          → (x : Result Fields)
          → Gives
              ((lift x >>= λ payload. lift (read_page payload inv) >>= λ r.
                  let rest = read_pages g access_token left (page + 1) r.1 in
                  if r.0 then pure r.1.endpoints else rest)
                t').0
      by_answer again (err e) = tt
      by_answer again (ok p) = by_page again p (read_page p inv) refl

  -- Whatever the gateway answers, an inventory that is returned has no endpoint twice, and the
  -- identifiers of each of its endpoints are safe and canonical.
  pub read_endpoints-Gives : (t : List Effect) → Gives (read_endpoints g access_token t).0
  unfolding read_endpoints
  read_endpoints-Gives t =
      read_pages-Gives 100 1 no_devices t (record { seen = tt; unique = tt; good = tt })

  -- the requests of one page, and of those that are left
  read_pages_requests :
      (left page : ℕ) (inv : Inventory) (t : List Effect)
      → length (read_pages g access_token left page inv t).1 ≤ length t + left
  unfolding read_pages send
  read_pages_requests zero page inv t = omega arith
  read_pages_requests (suc left) page inv t =
      by_answer (λ i. read_pages_requests left (page + 1) i _)
        (g.respond t (page_request access_token page))
    where
      t' : List Effect
      t' = Effect.request (page_request access_token page) ∷ t

      Again : Type 0
      Again =
          (i : Inventory)
          → length (read_pages g access_token left (page + 1) i t').1 ≤ length t' + left

      by_last :
          Again
          → (i : Inventory) (b : Bool)
          → length
              ((if b then pure i.endpoints else read_pages g access_token left (page + 1) i) t').1
            ≤ length t + suc left
      by_last again i true = omega arith
      by_last again i false = omega (arith, again i)

      by_page :
          Again
          → (x : Result (Bool × Inventory))
          → length
              ((lift x >>= λ r.
                  let rest = read_pages g access_token left (page + 1) r.1 in
                  if r.0 then pure r.1.endpoints else rest)
                t').1
            ≤ length t + suc left
      by_page again (err e) = omega arith
      by_page again (ok r) = by_last again r.1 r.0

      by_answer :
          Again
          → (x : Result Fields)
          → length
              ((lift x >>= λ payload. lift (read_page payload inv) >>= λ r.
                  let rest = read_pages g access_token left (page + 1) r.1 in
                  if r.0 then pure r.1.endpoints else rest)
                t').1
            ≤ length t + suc left
      by_answer again (err e) = omega arith
      by_answer again (ok p) = by_page again (read_page p inv)

  -- Whatever the gateway answers, the reading of the inventory makes at most 100 requests.
  pub read_endpoints_requests :
      (t : List Effect) → length (read_endpoints g access_token t).1 ≤ length t + 100
  unfolding read_endpoints
  read_endpoints_requests t = read_pages_requests 100 1 no_devices t
