-- ===== src/Core.antt =====
-- crates/decompute-core: the types that the other crates share.
pub mod Json
pub mod Models
pub mod Chat
pub mod History
pub mod Cache
