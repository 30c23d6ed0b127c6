-- ===== src/Models.antt =====
-- src/smartenit_rescue/models: the canonical public model types.
pub mod Identity
pub mod Capability
pub mod State
pub mod Device
