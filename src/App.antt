-- ===== src/App.antt =====
-- pkg/app: what the application does with messages of the camera and commands of MQTT.
pub mod Sensors
pub mod Commander
pub mod Messages
pub mod Streaming
