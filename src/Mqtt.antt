-- ===== src/Mqtt.antt =====
-- pkg/mqtt: the command topics and the entities announced to Home Assistant.
pub mod Topics
pub mod Discovery
pub mod Publisher
