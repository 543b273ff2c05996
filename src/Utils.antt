-- ===== src/Utils.antt =====
-- pkg/utils: the line tailer, the retry loop and the helpers on texts and numbers.
pub mod Tailer
pub mod Perseverance
pub mod Graceful
