-- ===== src/Models.antt =====
-- crates/decompute-models: the curated models and how one becomes a verified local file.
pub mod Paths
pub mod Catalog
pub mod Resolve
