-- ===== src/Rtmp.antt =====
-- pkg/rtmpserver: the camera's stream, passed on to subscribers and to the RTSP server.
pub mod Broadcaster
pub mod Bridge
