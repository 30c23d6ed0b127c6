-- ===== src/Profiles/Model.antt =====
-- profiles/model.py: the typed form of a validated profile. A frozenset is a list of which only
-- membership is read, and a mapping is a dict.
use smartenit_rescue.Prelude.{Bool, Option, List}
use smartenit_rescue.Prelude.Number.{ℤ, Float}
use smartenit_rescue.Prelude.Result.{Text}
use smartenit_rescue.Prelude.Dict.{Dict}
use smartenit_rescue.Models.Capability.{CapabilityId, SupportLevel}
use smartenit_rescue.Models.Identity.{EndpointId}

pub data EvidenceKind : Type 0 where
  public_documentation : EvidenceKind

pub data Readback : Type 0 where
  available unavailable report_only : Readback

pub data AvailabilityDeviceClass : Type 0 where
  active passive : AvailabilityDeviceClass

pub record Evidence : Type 0 where
  pub kind : EvidenceKind
  pub url : Text
  pub description : Text

pub record Normalization : Type 0 where
  pub multiplier : Float
  pub divisor : Float

pub record CapabilityProfile : Type 0 where
  pub capability : CapabilityId
  pub driver : Text
  pub cluster_id : ℤ
  pub readback : Readback
  pub writable : Bool
  pub support_level : SupportLevel
  pub unit : Option Text
  pub normalization : Option Normalization

pub record EndpointProfile : Type 0 where
  pub endpoint : EndpointId
  pub capabilities : List CapabilityProfile

pub record AvailabilityPolicy : Type 0 where
  pub device_class : AvailabilityDeviceClass
  pub stale_after_seconds : ℤ

pub record Limitation : Type 0 where
  pub backend : Text
  pub capability : CapabilityId
  pub description : Text

pub record MatchRules : Type 0 where
  pub zigbee_manufacturer_ids : List ℤ
  pub zigbee_model_ids : List Text
  pub required_endpoint_clusters : Dict EndpointId (List ℤ)
  pub harmony_required_processors : List Text
  pub harmony_required_components : List Text

pub record DeviceEvidence : Type 0 where
  pub manufacturer : Text
  pub model : Text
  pub zigbee_manufacturer_id : Option ℤ
  pub endpoint_clusters : Dict EndpointId (List ℤ)
  pub harmony_processors : List Text
  pub harmony_components : List Text

pub record DeviceProfile : Type 0 where
  pub schema_version : ℤ
  pub profile_id : Text
  pub manufacturer : Text
  pub models : List Text
  pub match_rules : MatchRules
  pub endpoints : Dict EndpointId EndpointProfile
  pub availability : AvailabilityPolicy
  pub limitations : List Limitation
  pub evidence : List Evidence
