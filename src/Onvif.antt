-- ===== src/Onvif.antt =====
-- pkg/onvif: the event service, the texts of its messages, and the authentication of requests.
pub mod Events
pub mod Soap
pub mod Security
pub mod Durations
pub mod Subscriptions
pub mod Handler
