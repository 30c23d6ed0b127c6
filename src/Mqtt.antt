-- ===== src/Mqtt.antt =====
-- src/smartenit_rescue/mqtt: topics, payloads, discovery, and the events of a transport.
pub mod Events
pub mod Topics
pub mod Discovery
pub mod Transport
