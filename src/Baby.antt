-- ===== src/Baby.antt =====
-- pkg/baby: the state of a baby and the manager that holds the states and notifies subscribers.
pub mod State
pub mod Manager
pub mod Uids
