-- ===== src/Llama.antt =====
-- crates/decompute-llama: the inference runtime.
pub mod ToolCalls
pub mod Engine
pub mod Session
pub mod Decode
pub mod Generate
pub mod Templates
pub mod Chat
