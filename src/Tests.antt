-- ===== src/Tests.antt =====
-- Runs of the theorems at concrete inputs.
pub mod Fleet
pub mod Messages
pub mod Streams
pub mod Catalogs
pub mod Desktop
pub mod Leases
pub mod Inference
pub mod Tools
pub mod Replies
pub mod Beats
