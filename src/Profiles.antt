-- ===== src/Profiles.antt =====
-- src/smartenit_rescue/profiles: typed device profiles and their matching.
pub mod Model
pub mod Matching
