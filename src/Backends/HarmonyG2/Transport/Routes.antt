-- ===== src/Backends/HarmonyG2/Transport/Routes.antt =====
-- The routes that a transport allows, as the list of what a client may ask.
use smartenit_rescue.Prelude.Decimal.{show}
use smartenit_rescue.Prelude.{
  &&-eq_true, not, contains, any, Bool-cases, ◌∙◌, ◌||◌, sym, ◌&&◌, Bool, ◌===◌, if◌then◌else◌, ℕ,
  ◌≤◌, [], ◌∷◌, refl, true, false, ◌≡◌, ◌↔◌, ◌⊎◌, inl, inr, arith,
}
use smartenit_rescue.Prelude.Text.{join-split, split, text_beq_iff, codes, text_eq}
use smartenit_rescue.Prelude.Result.{err, Result, Error, ok, Text}
use smartenit_rescue.Backends.HarmonyG2.Transport.Pages.{
  show-is_page_number, any-page, is_break, inventory_path, inventory_path-is_inventory_path,
  after_page,
}
use smartenit_rescue.Backends.HarmonyG2.Transport.OnOff.{
  segment-all_safe, any-on_off_path, on_off_path-is_command_path, is_command_parts-eq, on_off_path,
}
use smartenit_rescue.Backends.HarmonyG2.Client.{is_safe_segment}
use smartenit_rescue.Backends.HarmonyG2.Transport.{
  is_inventory_path, is_allowed_route, str, path_route, validate_route, checked_route,
  is_command_path,
}

-- What may be asked: a ping, one of a hundred pages of the inventory, a renewal, and an On or Off
-- command of a device and a component with safe identifiers.
abbrev pub IsGet : Text → Type 0
IsGet path =
    (path ≡ codes "/v2/ping")
    ⊎ ((page : ℕ) × (1 ≤ page) × (page ≤ 100) × (path ≡ inventory_path page))

abbrev pub IsPost : Text → Type 0
IsPost path =
    (path ≡ codes "/v2/oauth2/token")
    ⊎ ((d : Text) × (c : Text) × (on : Bool) × (is_safe_segment d ≡ true)
        × (is_safe_segment c ≡ true)
        × (path ≡ on_off_path d c on))

abbrev pub IsRoute : Text → Text → Type 0
IsRoute method path =
    ((method ≡ codes "GET") × IsGet path) ⊎ ((method ≡ codes "POST") × IsPost path)

any-IsGet : (p : Text) → IsGet p → any is_break p ≡ false
any-IsGet p (inl e) = rw e refl
any-IsGet p (inr (n, low, high, e)) = rw e (any-page (show n) (show-is_page_number n low high))

any-IsPost : (p : Text) → IsPost p → any is_break p ≡ false
any-IsPost p (inl e) = rw e refl
any-IsPost p (inr (d, c, on, hd, hc, e)) =
    rw e (any-on_off_path d c on (segment-all_safe d hd) (segment-all_safe c hc))

allowed_get : (p : Text) → IsGet p → (p === codes "/v2/ping" || is_inventory_path p) ≡ true
allowed_get p (inl e) = let h = (text_beq_iff p (codes "/v2/ping")).1 e in ground arith
allowed_get p (inr (n, low, high, e)) =
    let h : is_inventory_path p ≡ true = rw e (inventory_path-is_inventory_path n low high) in
    ground arith

allowed_post : (p : Text) → IsPost p → (p === codes "/v2/oauth2/token" || is_command_path p) ≡ true
allowed_post p (inl e) = let h = (text_beq_iff p (codes "/v2/oauth2/token")).1 e in ground arith
allowed_post p (inr (d, c, on, hd, hc, e)) =
    let h : is_command_path p ≡ true = rw e (on_off_path-is_command_path d c on hd hc) in
    ground arith

IsRoute-checked : (m p : Text) → IsRoute m p → checked_route m p ≡ ok (m, p)
unfolding checked_route is_allowed_route
IsRoute-checked m p (inl (e, h)) =
    let a = (text_beq_iff m (codes "GET")).1 e in ground (arith, any-IsGet p h, allowed_get p h)
IsRoute-checked m p (inr (e, h)) =
    let a = (text_beq_iff m (codes "POST")).1 e in ground (arith, any-IsPost p h, allowed_post p h)

admitted-IsGet : (p : Text) → (p === codes "/v2/ping" || is_inventory_path p) ≡ true → IsGet p
unfolding is_inventory_path
admitted-IsGet p h = elim (Bool-cases (p === codes "/v2/ping")) [
  | inl e ↦ inl ((text_beq_iff p (codes "/v2/ping")).0 e)
  | inr e ↦ inr (after_page _ p refl (ground arith))
]

admitted-IsPost :
    (p : Text) → (p === codes "/v2/oauth2/token" || is_command_path p) ≡ true → IsPost p
unfolding is_command_path
admitted-IsPost p h = elim (Bool-cases (p === codes "/v2/oauth2/token")) [
  | inl e ↦ inl ((text_beq_iff p (codes "/v2/oauth2/token")).0 e)
  | inr e ↦
      let (d, c, on, hd, hc, same) = is_command_parts-eq (split b'/' p) (ground arith) in
      inr (d, c, on, hd, hc, sym (join-split b'/' p) ∙ same)
]

checked-IsRoute : (m p : Text) → checked_route m p ≡ ok (m, p) → IsRoute m p
unfolding checked_route is_allowed_route
checked-IsRoute m p h =
    elim (Bool-cases (m === codes "GET" && (p === codes "/v2/ping" || is_inventory_path p))) [
      | inl e ↦
          let (a, b) = &&-eq_true _ _ e in
          inl ((text_beq_iff m (codes "GET")).0 a, admitted-IsGet p b)
      | inr e ↦
          let (a, b) =
            &&-eq_true (m === codes "POST") (p === codes "/v2/oauth2/token" || is_command_path p)
              (ground arith) in
          inr ((text_beq_iff m (codes "POST")).0 a, admitted-IsPost p b)
    ]

known_method : (m p : Text) → IsRoute m p → contains m (codes "GET" ∷ codes "POST" ∷ []) ≡ true
known_method m p (inl (e, h)) = let a = (text_beq_iff (codes "GET") m).1 (sym e) in ground arith
known_method m p (inr (e, h)) = let a = (text_beq_iff (codes "POST") m).1 (sym e) in ground arith

past_method :
    (c : Bool) (e : Error) (r : Result (Text × Text)) (v : Text × Text)
    → (if not c then err e else r) ≡ ok v
    → r ≡ ok v
past_method true e r v h = h
past_method false e r v h = cc

-- A method and a path are accepted exactly if they are one of the routes.
pub validate_route_iff : (m p : Text) → (validate_route (str m) (str p) ≡ ok (m, p)) ↔ IsRoute m p
unfolding validate_route path_route
validate_route_iff m p = (
  λ h. checked-IsRoute m p (past_method (contains m (codes "GET" ∷ codes "POST" ∷ [])) _ _ _ h),
  λ r. rw (known_method m p r) (IsRoute-checked m p r),
)
