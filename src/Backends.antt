-- ===== src/Backends.antt =====
-- src/smartenit_rescue/backends: the boundary shared by the backends, and its implementations.
pub mod Base
pub mod Simulator
pub mod HarmonyG2
