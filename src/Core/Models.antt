-- ===== src/Core/Models.antt =====
-- crates/decompute-core/src/models.rs: model manifests and hardware.
use decompute.Prelude.{ℕ, Text, List, Option}

pub record ModelFile : Type 0 where
  pub path : Text
  pub sha256 : Text

pub record ModelManifest : Type 0 where
  pub id : Text
  pub architecture : Text
  pub revision : Text
  pub quantization : Option Text
  pub files : List ModelFile

pub data Acceleration : Type 0 where
  cpu metal cuda : Acceleration

pub record HardwareInfo : Type 0 where
  pub architecture : Text
  pub total_memory_bytes : ℕ
  pub available_memory_bytes : ℕ
  pub acceleration : Acceleration
