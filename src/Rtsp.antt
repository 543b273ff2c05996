-- ===== src/Rtsp.antt =====
-- pkg/rtspserver: the streams that the RTSP server offers.
pub mod Streams
pub mod Paths
