-- ===== src/Backends/HarmonyG2.antt =====
-- src/smartenit_rescue/backends/harmony_g2: the command-only backend of Harmony G2 controllers.
pub mod Session
pub mod Client
pub mod Snapshot
pub mod Controller
pub mod Transport
