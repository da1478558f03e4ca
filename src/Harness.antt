-- ===== src/Harness.antt =====
-- crates/harness: the desktop application, less its drawing.
pub mod Model
pub mod App
