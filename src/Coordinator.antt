-- ===== src/Coordinator.antt =====
-- crates/coordinator: the registry of workers, the choice of a worker and the proxy.
pub mod Record
pub mod Scheduler
pub mod Registry
pub mod OpenAi
pub mod Sse
pub mod Forward
pub mod Api
