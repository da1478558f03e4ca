-- ===== src/Worker.antt =====
-- crates/worker: the process that owns a model and serves requests for it.
pub mod State
pub mod Leases
pub mod Api
pub mod Stream
pub mod Heartbeat
