-- ===== src/Client.antt =====
-- pkg/client and pkg/session: the session that is kept on disk, and the requests to Nanit's API.
pub mod Session
pub mod Rest
pub mod Connection
pub mod Manager
