-- ===== src/Profiles/Matching/Rules.antt =====
-- The rules of a profile, as what a device must show to match them.
use mathlib.Core.List.{Memᴰ}
use mathlib.Core.List.Memᴰ
use mathlib.Core.Option.{some-injective}
use smartenit_rescue.Prelude.Number.{ℤ, int_eq}
use smartenit_rescue.Prelude.Dict.{Dict, lookup}
use smartenit_rescue.Prelude.Result.{Text}
use smartenit_rescue.Prelude.Text.{text_eq, text_beq_iff}
use smartenit_rescue.Models.Identity.{EndpointId, endpoint_eq}
use smartenit_rescue.Prelude.{
  inl, inr, ◌∙◌, ◌===◌, Eq, ◌≡◌, ◌↔◌, refl, sym, subst, Bool-cases, arith, List, [], ◌∷◌, Option,
  none, some, All, all, contains, true, false, not, ◌&&◌, &&-eq_true,
}
use smartenit_rescue.Profiles.Matching.{
  match_profile, match_clusters, has_manufacturer, observed_subset, is_nonempty, text_subset,
}
use smartenit_rescue.Profiles.Model.{DeviceProfile, DeviceEvidence}

-- Every item of the first list is one of the second.
abbrev pub Within {ℓ} : {A : Type ℓ} → List A → List A → Type ℓ
Within xs ys = All (λ x. Memᴰ x ys) xs

contains_iff {ℓ} :
    {A : Type ℓ} ⦃e : Eq A⦄ (a : A) (xs : List A) → (contains a xs ≡ true) ↔ Memᴰ a xs
contains_iff {A} ⦃e⦄ a xs = (there xs, back xs)
  where
    there : (xs : List A) → contains a xs ≡ true → Memᴰ a xs
    there [] h = cc
    there (x ∷ xs) h = elim (Bool-cases (e.beq x a)) [
      | inl t ↦ Memᴰ.head (sym ((e.beq_iff x a).0 t))
      | inr f ↦ Memᴰ.tail (there xs (ground (arith, f, h)))
    ]

    back : (xs : List A) → Memᴰ a xs → contains a xs ≡ true
    back [] m = absurd (Memᴰ.not-nil m)
    back (x ∷ xs) (Memᴰ.head t) = let h = (e.beq_iff x a).1 (sym t) in ground arith
    back (x ∷ xs) (Memᴰ.tail t) = let h = back xs t in ground arith

all-contains_iff {ℓ} :
    {A : Type ℓ} ⦃e : Eq A⦄ (xs ys : List A) → (all (λ x. contains x ys) xs ≡ true) ↔ Within xs ys
all-contains_iff {A} ⦃e⦄ xs ys = (there xs, back xs)
  where
    there : (xs : List A) → all (λ x. contains x ys) xs ≡ true → Within xs ys
    there [] h = tt
    there (x ∷ xs) h =
        let (hx, hxs) = &&-eq_true (contains x ys) (all (λ x. contains x ys) xs) h in
        ((contains_iff x ys).0 hx, there xs hxs)

    back : (xs : List A) → Within xs ys → all (λ x. contains x ys) xs ≡ true
    back [] h = refl
    back (x ∷ xs) (hx, hxs) =
        let a = (contains_iff x ys).1 hx in let b = back xs hxs in ground arith

-- The clusters that are required at an endpoint were seen there.
abbrev pub Observed : Dict EndpointId (List ℤ) → EndpointId × List ℤ → Type 0
Observed observed (endpoint, required) =
    (seen : List ℤ) × (lookup endpoint observed ≡ some seen) × Within required seen

-- A rule on a value that is absent if it names no value.
abbrev pub Named {ℓ} : {A : Type ℓ} → Option A → List A → Type ℓ
Named {A} o [] = Unit
Named {A} o (x ∷ xs) = (a : A) × (o ≡ some a) × Memᴰ a (x ∷ xs)

abbrev pub Matches : DeviceProfile → DeviceEvidence → Type 0
Matches p e =
    (e.manufacturer ≡ p.manufacturer)
    × Memᴰ e.model p.models
    × Named (some e.model) p.match_rules.zigbee_model_ids
    × Named e.zigbee_manufacturer_id p.match_rules.zigbee_manufacturer_ids
    × All (Observed e.endpoint_clusters) p.match_rules.required_endpoint_clusters
    × Within p.match_rules.harmony_required_processors e.harmony_processors
    × Within p.match_rules.harmony_required_components e.harmony_components

observed_subset-Within :
    (required : List ℤ) (seen : Option (List ℤ))
    → observed_subset required seen ≡ true
    → (s : List ℤ) × (seen ≡ some s) × Within required s
unfolding observed_subset
observed_subset-Within required none h = cc
observed_subset-Within required (some s) h = (s, refl, (all-contains_iff required s).0 h)

Within-observed_subset :
    (required : List ℤ) (seen : Option (List ℤ))
    → ((s : List ℤ) × (seen ≡ some s) × Within required s)
    → observed_subset required seen ≡ true
unfolding observed_subset
Within-observed_subset required seen (s, e, h) = rw e ((all-contains_iff required s).1 h)

match_clusters-Observed :
    (rules observed : Dict EndpointId (List ℤ))
    → match_clusters rules observed ≡ true
    → All (Observed observed) rules
unfolding match_clusters
match_clusters-Observed [] observed h = tt
match_clusters-Observed ((endpoint, required) ∷ rules) observed h =
    let one : observed_subset required (lookup endpoint observed) ≡ true = ground arith in
    let rest : match_clusters rules observed ≡ true = ground arith in
    (
      observed_subset-Within required (lookup endpoint observed) one,
      match_clusters-Observed rules observed rest,
    )

Observed-match_clusters :
    (rules observed : Dict EndpointId (List ℤ))
    → All (Observed observed) rules
    → match_clusters rules observed ≡ true
unfolding match_clusters
Observed-match_clusters [] observed h = refl
Observed-match_clusters ((endpoint, required) ∷ rules) observed (one, rest) =
    let a = Within-observed_subset required (lookup endpoint observed) one in
    let b = Observed-match_clusters rules observed rest in ground arith

-- `rule and value not in rule`, for a value that may be absent
has_model-Named :
    (model : Text) (ids : List Text)
    → ((is_nonempty ids && not (contains model ids)) ≡ false) ↔ Named (some model) ids
has_model-Named model [] = ((λ _. tt), λ _. refl)
has_model-Named model (x ∷ xs) = (
  λ h. (model, refl, (contains_iff model (x ∷ xs)).0 (ground (arith, h))),
  λ (a, e, h).
      let k : contains model (x ∷ xs) ≡ true =
        (contains_iff model (x ∷ xs)).1
          (subst (λ t. Memᴰ t (x ∷ xs)) (sym (some-injective model a e)) h) in
      ground (arith, k),
)

has_manufacturer-Named :
    (i : Option ℤ) (ids : List ℤ)
    → (is_nonempty ids && not (has_manufacturer i ids)) ≡ false
    → Named i ids
unfolding has_manufacturer
has_manufacturer-Named i [] h = tt
has_manufacturer-Named none (x ∷ xs) h = cc
has_manufacturer-Named (some i) (x ∷ xs) h =
    (i, refl, (contains_iff i (x ∷ xs)).0 (ground (arith, h)))

Named-has_manufacturer :
    (i : Option ℤ) (ids : List ℤ)
    → Named i ids
    → (is_nonempty ids && not (has_manufacturer i ids)) ≡ false
unfolding has_manufacturer
Named-has_manufacturer i [] h = refl
Named-has_manufacturer i (x ∷ xs) (a, e, h) =
    let k : contains a (x ∷ xs) ≡ true = (contains_iff a (x ∷ xs)).1 h in rw e (ground (arith, k))

match_profile-Matches :
    (p : DeviceProfile) (e : DeviceEvidence) → match_profile p e ≡ true → Matches p e
unfolding match_profile
match_profile-Matches p e h =
    let rules = p.match_rules in
    let maker : (e.manufacturer === p.manufacturer) ≡ true = ground (arith, h) in
    let model : contains e.model p.models ≡ true = ground (arith, h) in
    let models : (is_nonempty rules.zigbee_model_ids
          && not (contains e.model rules.zigbee_model_ids))
        ≡ false =
      ground (arith, h) in
    let ids : (is_nonempty rules.zigbee_manufacturer_ids
          && not (has_manufacturer e.zigbee_manufacturer_id rules.zigbee_manufacturer_ids))
        ≡ false =
      ground (arith, h) in
    let clusters : match_clusters rules.required_endpoint_clusters e.endpoint_clusters ≡ true =
      ground (arith, h) in
    let processors : text_subset rules.harmony_required_processors e.harmony_processors ≡ true =
      ground (arith, h) in
    let components : text_subset rules.harmony_required_components e.harmony_components ≡ true =
      ground (arith, h) in
    (
      (text_beq_iff e.manufacturer p.manufacturer).0 maker,
      (contains_iff e.model p.models).0 model,
      (has_model-Named e.model rules.zigbee_model_ids).0 models,
      has_manufacturer-Named e.zigbee_manufacturer_id rules.zigbee_manufacturer_ids ids,
      match_clusters-Observed rules.required_endpoint_clusters e.endpoint_clusters clusters,
      (all-contains_iff rules.harmony_required_processors e.harmony_processors).0 processors,
      (all-contains_iff rules.harmony_required_components e.harmony_components).0 components,
    )

Matches-match_profile :
    (p : DeviceProfile) (e : DeviceEvidence) → Matches p e → match_profile p e ≡ true
unfolding match_profile
Matches-match_profile p e (maker, model, models, ids, clusters, processors, components) =
    let rules = p.match_rules in
    let a = (text_beq_iff e.manufacturer p.manufacturer).1 maker in
    let b = (contains_iff e.model p.models).1 model in
    let c = (has_model-Named e.model rules.zigbee_model_ids).1 models in
    let d = Named-has_manufacturer e.zigbee_manufacturer_id rules.zigbee_manufacturer_ids ids in
    let f = Observed-match_clusters rules.required_endpoint_clusters e.endpoint_clusters clusters in
    let g =
      (all-contains_iff rules.harmony_required_processors e.harmony_processors).1 processors in
    let k =
      (all-contains_iff rules.harmony_required_components e.harmony_components).1 components in
    ground (arith, a, b, c, d, f, g, k)

-- A profile matches the evidence exactly if the evidence names its manufacturer and one of its
-- models, meets each rule that names models or manufacturers of Zigbee, and shows every endpoint
-- cluster, processor and component that the profile requires.
pub match_profile_iff :
    (p : DeviceProfile) (e : DeviceEvidence) → (match_profile p e ≡ true) ↔ Matches p e
match_profile_iff p e = (match_profile-Matches p e, Matches-match_profile p e)

-- The second evidence is of the same device, and shows at least what the first shows.
pub record ShowsMore (e f : DeviceEvidence) : Type 0 where
  pub manufacturer : f.manufacturer ≡ e.manufacturer
  pub model : f.model ≡ e.model
  pub ids : (i : ℤ) → e.zigbee_manufacturer_id ≡ some i → f.zigbee_manufacturer_id ≡ some i
  pub clusters :
      (k : EndpointId) (seen : List ℤ)
      → lookup k e.endpoint_clusters ≡ some seen
      → (more : List ℤ) × (lookup k f.endpoint_clusters ≡ some more)
        × ((c : ℤ) → Memᴰ c seen → Memᴰ c more)
  pub processors : (t : Text) → Memᴰ t e.harmony_processors → Memᴰ t f.harmony_processors
  pub components : (t : Text) → Memᴰ t e.harmony_components → Memᴰ t f.harmony_components

All-map {ℓ κ μ} :
    {A : Type ℓ} {P : A → Type κ} {Q : A → Type μ} (xs : List A)
    → ((a : A) → P a → Q a)
    → All P xs
    → All Q xs
All-map [] imp h = tt
All-map (x ∷ xs) imp (h, hs) = (imp x h, All-map xs imp hs)

Named-more :
    (i j : Option ℤ) (ids : List ℤ)
    → ((k : ℤ) → i ≡ some k → j ≡ some k)
    → Named i ids
    → Named j ids
Named-more i j [] more h = tt
Named-more i j (x ∷ xs) more (a, e, h) = (a, more a e, h)

-- More evidence about a device never loses a match.
pub match_profile_monotone :
    (p : DeviceProfile) (e f : DeviceEvidence)
    → ShowsMore e f
    → match_profile p e ≡ true
    → match_profile p f ≡ true
match_profile_monotone p e f more h =
    let (maker, model, models, ids, clusters, processors, components) =
      match_profile-Matches p e h in
    let rules = p.match_rules in
    Matches-match_profile p f (
      more.manufacturer ∙ maker,
      subst (λ m. Memᴰ m p.models) (sym more.model) model,
      subst (λ m. Named (some m) rules.zigbee_model_ids) (sym more.model) models,
      Named-more e.zigbee_manufacturer_id f.zigbee_manufacturer_id rules.zigbee_manufacturer_ids
          more.ids ids,
      All-map rules.required_endpoint_clusters
          (λ rule (seen, found, within).
            let (all_seen, at, kept) = more.clusters rule.0 seen found in
            (all_seen, at, All-map rule.1 kept within))
          clusters,
      All-map rules.harmony_required_processors more.processors processors,
      All-map rules.harmony_required_components more.components components,
    )
