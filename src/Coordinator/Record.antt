-- ===== src/Coordinator/Record.antt =====
-- crates/coordinator/src/registry.rs: the records that the registry keeps.
use decompute.Prelude.{ℕ, Text, List}
use decompute.Core.Models.{HardwareInfo}
use decompute.Protocol.Workers.{ModelCapability, WorkerState}

-- `last_heartbeat` is an `Instant`: nanoseconds on the monotonic clock.
pub record WorkerRecord : Type 0 where
  pub id : Text
  pub address : Text
  pub models : List ModelCapability
  pub active_requests : ℕ
  pub max_requests : ℕ
  pub last_heartbeat : ℕ
  pub state : WorkerState
  pub hardware : HardwareInfo

pub record SelectedWorker : Type 0 where
  pub id : Text
  pub address : Text

pub record AffinityBinding : Type 0 where
  pub worker_id : Text
  pub last_used : ℕ
