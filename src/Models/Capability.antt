-- ===== src/Models/Capability.antt =====
-- models/capability.py: closed capability and support vocabularies.
use smartenit_rescue.Prelude.{Bool, true, ℕ, ◌==◌, ◌↔◌, ◌≡◌, arith, Eq}
use smartenit_rescue.Prelude.Text.{codes}
use smartenit_rescue.Prelude.Result.{Text}

pub data CapabilityId : Type 0 where
  on_off electrical_power electrical_energy voltage current : CapabilityId
  temperature battery level thermostat : CapabilityId

-- The string that the `StrEnum` member is.
unfoldable pub capability_text : CapabilityId → Text
capability_text on_off = codes "on_off"
capability_text electrical_power = codes "electrical_power"
capability_text electrical_energy = codes "electrical_energy"
capability_text voltage = codes "voltage"
capability_text current = codes "current"
capability_text temperature = codes "temperature"
capability_text battery = codes "battery"
capability_text level = codes "level"
capability_text thermostat = codes "thermostat"

pub data SupportLevel : Type 0 where
  synthetic experimental hardware_verified : SupportLevel

-- The place of a capability in the order of the strings, by which `sorted` compares members.
unfoldable pub capability_rank : CapabilityId → ℕ
capability_rank battery = 0
capability_rank current = 1
capability_rank electrical_energy = 2
capability_rank electrical_power = 3
capability_rank level = 4
capability_rank on_off = 5
capability_rank temperature = 6
capability_rank thermostat = 7
capability_rank voltage = 8

unfoldable pub capability_beq : CapabilityId → CapabilityId → Bool
unfolding capability_rank
capability_beq a b = capability_rank a == capability_rank b

pub capability_beq_iff : (a b : CapabilityId) → (capability_beq a b ≡ true) ↔ (a ≡ b)
unfolding capability_beq
capability_beq_iff a b = ground arith

instance abbrev pub capability_eq : Eq CapabilityId
capability_eq = record { beq = capability_beq; beq_iff = capability_beq_iff }
