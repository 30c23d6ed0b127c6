-- ===== src/Tests.antt =====
-- Tests by evaluation, and the theorems at concrete inputs.
mod SessionTests
mod BrokerTests
mod TransportTests
mod Fixtures
mod TopicTests
mod RuntimeTests
mod SimulatorTests
mod GatewayTests
mod ConfigTests
mod InventoryTests
mod ProfileTests
