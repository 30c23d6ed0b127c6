-- ===== src/Tests/ProfileTests.antt =====
-- The matching of one profile with evidence about a device.
use smartenit_rescue.Prelude.{true, none, some, [], ◌∷◌, ◌≡◌, ◌↔◌, refl}
use smartenit_rescue.Prelude.Number.{pos}
use smartenit_rescue.Prelude.Text.{codes}
use smartenit_rescue.Profiles.Model.{DeviceEvidence}
use smartenit_rescue.Profiles.Matching.{match_profile}
use smartenit_rescue.Profiles.Matching.Rules.{
  Matches, ShowsMore, match_profile_iff, match_profile_monotone,
}
use smartenit_rescue.Tests.Fixtures.{profile, endpoint}
use mathlib.Core.List.Memᴰ

abbrev seen : DeviceEvidence
seen = record {
  manufacturer = codes "Example";
  model = codes "Switch";
  zigbee_manufacturer_id = none;
  endpoint_clusters = (endpoint, pos 6 ∷ []) ∷ [];
  harmony_processors = [];
  harmony_components = [];
}

-- with one more component
abbrev more_seen : DeviceEvidence
more_seen = record seen { harmony_components = codes "OnOff" ∷ [] }

match_profile_iff_example : (match_profile profile seen ≡ true) ↔ Matches profile seen
match_profile_iff_example = match_profile_iff profile seen

more : ShowsMore seen more_seen
more = record {
  manufacturer = refl;
  model = refl;
  ids = λ i h. h;
  clusters = λ k xs h. (xs, h, λ c m. m);
  processors = λ t m. m;
  components = λ t m. Memᴰ.tail m;
}

match_seen : match_profile profile seen ≡ true
unfolding match_profile smartenit_rescue.Prelude.Text.text_beq smartenit_rescue.Prelude.Dict.lookup
    smartenit_rescue.Prelude.Number.int_beq
match_seen = refl

match_profile_monotone_example : match_profile profile more_seen ≡ true
match_profile_monotone_example = match_profile_monotone profile seen more_seen more match_seen
