-- ===== src/Config/Devices.antt =====
-- The devices of an accepted configuration.
use smartenit_rescue.Prelude.Value.{items, Value, Fields}
use smartenit_rescue.Prelude.{
  ◌≡◌, ◌≢◌, ℕ, ◌+◌, refl, arith, true, false, List, [], ◌∷◌, All, map, contains, ◌++◌,
}
use smartenit_rescue.Prelude.Result.{
  python, assertion_error, stop_iteration, index_error, key_error, g2_response, g2_transport,
  transport, unsupported, validation, raise_if, Text, Result, ok, err, >>=-eq-ok,
}
use smartenit_rescue.Prelude.Text.{codes, text_eq, starts_with}
use smartenit_rescue.Models.Identity.{DeviceId, device_eq, device_beq_iff, parse_device_id}
use smartenit_rescue.Models.Identity.Canonical.{IsCanonical, parse_device_id-IsCanonical}
use smartenit_rescue.Config.Settings.{SimulatorDeviceSettings, simulator}
use smartenit_rescue.Config.Fields.{
  device_items, device_list, as_invalid_id, configured_id, known_profile_id, nonblank_string,
  boolean, closed_mapping, required_value, invalid, raw_devices,
}
use smartenit_rescue.Config.Loading.{
  Environment, named, device_location, simulator_device_keys, simulator_devices, simulator_settings,
}

-- No identity is there twice.
abbrev pub Distinct : List DeviceId → Type 0
Distinct [] = Unit
Distinct (d ∷ ds) = (contains d ds ≡ false) × Distinct ds

-- None of the identities was seen.
abbrev Fresh : List DeviceId → List DeviceId → Type 0
Fresh seen = All (λ d. contains d seen ≡ false)

Fresh-cons :
    (d : DeviceId) (seen ds : List DeviceId)
    → Fresh (d ∷ seen) ds
    → (contains d ds ≡ false) × Fresh seen ds
Fresh-cons d seen [] h = (refl, tt)
Fresh-cons d seen (x ∷ ds) h =
    let (p, q) = Fresh-cons d seen ds h.1 in
    (ground (arith, p, h.0, device_beq_iff d x, device_beq_iff x d), (ground (arith, h.0), q))

configured_id-IsSynthetic :
    (source : Text) (v : Value) (location : Text) (d : DeviceId)
    → configured_id source v true location ≡ ok d
    → IsCanonical d × (starts_with (codes "02000000000000") d.value ≡ true)
unfolding configured_id
configured_id-IsSynthetic source v location d h =
    let (raw, _, h1) = >>=-eq-ok (nonblank_string source v location) _ h in
    let (i, e, h2) = >>=-eq-ok (as_invalid_id source location (parse_device_id raw)) _ h1 in
    let same : i ≡ d = ground (arith, h2) in
    (
      rw⁻¹ same (parse_device_id-IsCanonical raw i (parsed (parse_device_id raw) i e)),
      ground (arith, h2, same),
    )
  where
    parsed :
        (r : Result DeviceId) (i : DeviceId) → as_invalid_id source location r ≡ ok i → r ≡ ok i
    parsed (ok x) i e = e
    parsed (err (validation m)) i e = cc
    parsed (err (unsupported m)) i e = cc
    parsed (err (transport m)) i e = cc
    parsed (err (g2_transport m n s)) i e = cc
    parsed (err (g2_response m n s)) i e = cc
    parsed (err key_error) i e = cc
    parsed (err index_error) i e = cc
    parsed (err stop_iteration) i e = cc
    parsed (err assertion_error) i e = cc
    parsed (err (python x)) i e = cc

known_profile_id-contains :
    (source : Text) (known : List Text) (item : Fields) (location p : Text)
    → known_profile_id source known item location ≡ ok p
    → contains p known ≡ true
unfolding known_profile_id
known_profile_id-contains source known item location p h =
    let (w, _, h1) = >>=-eq-ok (required_value source item (codes "profile_id") location) _ h in
    let (q, _, h2) = >>=-eq-ok (nonblank_string source w (location ++ codes ".profile_id")) _ h1 in
    let same : q ≡ p = ground (arith, h2) in ground (arith, h2, same)

module _ (env : Environment) where
  -- What is accepted of one simulated device.
  pub record IsAccepted (d : SimulatorDeviceSettings) : Type 0 where
    pub canonical : IsCanonical d.device_id
    pub synthetic : starts_with (codes "02000000000000") d.device_id.value ≡ true
    pub known : contains d.profile_id env.known_profiles ≡ true

  abbrev pub ids : List SimulatorDeviceSettings → List DeviceId
  ids = map (λ d. d.device_id)

  simulator_devices-IsAccepted :
      (index : ℕ) (seen : List DeviceId) (raw : List Value) (ds : List SimulatorDeviceSettings)
      → simulator_devices env index seen raw ≡ ok ds
      → All IsAccepted ds × Distinct (ids ds) × Fresh seen (ids ds)
  unfolding simulator_devices
  simulator_devices-IsAccepted index seen [] ds h =
      let same : [] ≡ ds = ground (arith, h) in rw⁻¹ same (tt, tt, tt)
  simulator_devices-IsAccepted index seen (raw ∷ rest) ds h =
      let l = device_location index in
      let (item, _, h1) =
        >>=-eq-ok (closed_mapping env.source raw simulator_device_keys simulator_device_keys l) _
          h in
      let (d, e, h2) =
        >>=-eq-ok (named env (λ v. configured_id env.source v true) item (codes "device_id") l) _
          h1 in
      let (_, f, h3) =
        >>=-eq-ok
          (raise_if (contains d seen)
            (invalid env.source (l ++ codes ".device_id") (codes "must not be duplicate")))
          _ h2 in
      let (name, _, h4) =
        >>=-eq-ok (named env (nonblank_string env.source) item (codes "name") l) _ h3 in
      let (p, k, h5) = >>=-eq-ok (known_profile_id env.source env.known_profiles item l) _ h4 in
      let (on, _, h6) =
        >>=-eq-ok (named env (boolean env.source) item (codes "initial_on") l) _ h5 in
      let (others, o, h7) = >>=-eq-ok (simulator_devices env (index + 1) (d ∷ seen) rest) _ h6 in
      let (w, _, g) = >>=-eq-ok (required_value env.source item (codes "device_id") l) _ e in
      let (c, s) = configured_id-IsSynthetic env.source w (l ++ codes ".device_id") d g in
      let (good, distinct, fresh) =
        simulator_devices-IsAccepted (index + 1) (d ∷ seen) rest others o in
      let (not_again, still_fresh) = Fresh-cons d seen (ids others) fresh in
      let first : SimulatorDeviceSettings = record {
        device_id = d;
        name = name;
        profile_id = p;
        initial_on = on;
      } in
      let same : first ∷ others ≡ ds = ground (arith, h7) in
      rw⁻¹ same (
        (
          record {
            canonical = c;
            synthetic = s;
            known = known_profile_id-contains env.source env.known_profiles item l p k;
          },
          good,
        ),
        (not_again, distinct),
        (ground (arith, f), still_fresh),
      )

  simulator_devices-nonempty :
      (v : Value) (raw : List Value) (xs : List SimulatorDeviceSettings)
      → simulator_devices env 0 [] (v ∷ raw) ≡ ok xs
      → xs ≢ []
  unfolding simulator_devices
  simulator_devices-nonempty v raw [] h =
      let l = device_location 0 in
      let (item, _, h1) =
        >>=-eq-ok (closed_mapping env.source v simulator_device_keys simulator_device_keys l) _ h in
      let (d, e, h2) =
        >>=-eq-ok (named env (λ v. configured_id env.source v true) item (codes "device_id") l) _
          h1 in
      let (name, _, h4) =
        >>=-eq-ok (named env (nonblank_string env.source) item (codes "name") l) _ h2 in
      let (p, k, h5) = >>=-eq-ok (known_profile_id env.source env.known_profiles item l) _ h4 in
      let (on, _, h6) =
        >>=-eq-ok (named env (boolean env.source) item (codes "initial_on") l) _ h5 in
      let (others, o, h7) = >>=-eq-ok (simulator_devices env 1 (d ∷ []) raw) _ h6 in
      absurd (ground (arith, h7))
  simulator_devices-nonempty v raw (x ∷ xs) h = λ e. cc

  device_list-nonempty :
      (w : Value) (raw : List Value)
      → device_list env.source w ≡ ok raw
      → (v : Value) × (vs : List Value) × (raw ≡ v ∷ vs)
  unfolding device_list device_items
  device_list-nonempty (Value.list vs) raw h = of_items (items vs) h
    where
      of_items :
          (l : List Value)
          → device_items env.source l ≡ ok raw
          → (v : Value) × (vs : List Value) × (raw ≡ v ∷ vs)
      of_items [] e = cc
      of_items (v ∷ vs) e = (v, vs, ground (arith, e))
  device_list-nonempty Value.null raw h = cc
  device_list-nonempty (Value.bool _) raw h = cc
  device_list-nonempty (Value.int _) raw h = cc
  device_list-nonempty (Value.float _) raw h = cc
  device_list-nonempty (Value.str _) raw h = cc
  device_list-nonempty (Value.dict _) raw h = cc
  device_list-nonempty Value.other raw h = cc

  -- The devices of an accepted simulator are at least one, each canonical, in the synthetic range and
  -- with a built-in profile, and no two have the same identity.
  pub simulator_settings_devices :
      (v : Value) (ds : List SimulatorDeviceSettings)
      → simulator_settings env v ≡ ok (simulator ds)
      → (ds ≢ []) × All IsAccepted ds × Distinct (ids ds)
  unfolding simulator_settings raw_devices
  simulator_settings_devices v ds h =
      let (backend, _, h1) =
        >>=-eq-ok
          (closed_mapping env.source v (codes "type" ∷ codes "devices" ∷ [])
            (codes "type" ∷ codes "devices" ∷ []) (codes "backend"))
          _ h in
      let (raw, r, h2) = >>=-eq-ok (raw_devices env.source backend) _ h1 in
      let (xs, e, h3) = >>=-eq-ok (simulator_devices env 0 [] raw) _ h2 in
      let same : xs ≡ ds = ground (arith, h3) in
      let (w, _, r1) =
        >>=-eq-ok (required_value env.source backend (codes "devices") (codes "backend")) _ r in
      let (x, l, is) = device_list-nonempty w raw r1 in
      let (good, distinct, _) = simulator_devices-IsAccepted 0 [] raw xs e in
      rw⁻¹ same (simulator_devices-nonempty x l xs (rw⁻¹ is e), good, distinct)
