-- ===== src/Profiles/Matching.antt =====
-- profiles/loader.py: which profiles the evidence about a device matches.
pub mod Rules
use smartenit_rescue.Prelude.{
  Bool, true, false, not, ◌&&◌, Option, none, some, List, [], ◌∷◌, all, contains, ◌===◌, select,
  if◌then◌else◌,
}
use smartenit_rescue.Prelude.Number.{ℤ, int_eq}
use smartenit_rescue.Prelude.Result.{Text}
use smartenit_rescue.Prelude.Text.{text_eq}
use smartenit_rescue.Prelude.Dict.{Dict, lookup}
use smartenit_rescue.Models.Identity.{EndpointId, endpoint_eq}
use smartenit_rescue.Profiles.Model.{DeviceEvidence, DeviceProfile}

-- truth of a frozenset
abbrev pub is_nonempty {ℓ} : {A : Type ℓ} → List A → Bool
is_nonempty [] = false
is_nonempty (_ ∷ _) = true

-- `xs.issubset(ys)`
abbrev int_subset : List ℤ → List ℤ → Bool
int_subset xs ys = all (λ x. contains x ys) xs

abbrev pub text_subset : List Text → List Text → Bool
text_subset xs ys = all (λ x. contains x ys) xs

-- `evidence.zigbee_manufacturer_id in rules.zigbee_manufacturer_ids`
unfoldable pub has_manufacturer : Option ℤ → List ℤ → Bool
has_manufacturer none ids = false
has_manufacturer (some i) ids = contains i ids

unfoldable pub observed_subset : List ℤ → Option (List ℤ) → Bool
observed_subset required none = false
observed_subset required (some observed) = int_subset required observed

-- the loop over the required clusters
unfoldable pub match_clusters : Dict EndpointId (List ℤ) → Dict EndpointId (List ℤ) → Bool
unfolding observed_subset
match_clusters [] observed = true
match_clusters ((endpoint, required) ∷ rules) observed =
    let rest = match_clusters rules observed in
    if not (observed_subset required (lookup endpoint observed)) then false else rest

unfoldable pub match_profile : DeviceProfile → DeviceEvidence → Bool
unfolding has_manufacturer match_clusters
match_profile profile evidence =
    let rules = profile.match_rules in
    if not (evidence.manufacturer === profile.manufacturer)
    then false
    else if not (contains evidence.model profile.models)
    then false
    else if is_nonempty rules.zigbee_model_ids
        && not (contains evidence.model rules.zigbee_model_ids)
    then false
    else if is_nonempty rules.zigbee_manufacturer_ids
        && not (has_manufacturer evidence.zigbee_manufacturer_id rules.zigbee_manufacturer_ids)
    then false
    else if not (match_clusters rules.required_endpoint_clusters evidence.endpoint_clusters)
    then false
    else if not (text_subset rules.harmony_required_processors evidence.harmony_processors)
    then false
    else text_subset rules.harmony_required_components evidence.harmony_components

-- `find_matching_profiles`, over the packaged profiles.
unfoldable pub find_matching_profiles : List DeviceProfile → DeviceEvidence → List DeviceProfile
find_matching_profiles profiles evidence = select (λ p. match_profile p evidence) profiles
