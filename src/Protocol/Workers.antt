-- ===== src/Protocol/Workers.antt =====
-- crates/protocol/src/models.rs and workers.rs: what a worker tells the coordinator about itself.
use decompute.Prelude.{ℕ, Text, List, Option, Eq}
use decompute.Core.Models.{HardwareInfo}

pub data ModelStatus : Type 0 where
  loaded loading unavailable : ModelStatus

unfoldable pub ModelStatus-discrete : Discrete ModelStatus
ModelStatus-discrete = hlevel

instance abbrev pub model_status_eq : Eq ModelStatus
model_status_eq = record { decide = ModelStatus-discrete }

pub record ModelCapability : Type 0 where
  pub id : Text
  pub status : ModelStatus
  pub manifest_sha256 : Option Text

pub data WorkerState : Type 0 where
  available busy draining offline : WorkerState

unfoldable pub WorkerState-discrete : Discrete WorkerState
WorkerState-discrete = hlevel

instance abbrev pub worker_state_eq : Eq WorkerState
worker_state_eq = record { decide = WorkerState-discrete }

pub record WorkerCapabilities : Type 0 where
  pub node_id : Text
  pub models : List ModelCapability
  pub active_requests : ℕ
  pub max_requests : ℕ
  pub state : WorkerState
  pub hardware : HardwareInfo

pub record RegisterWorkerRequest : Type 0 where
  pub address : Text
  pub capabilities : WorkerCapabilities

pub record HeartbeatRequest : Type 0 where
  pub capabilities : WorkerCapabilities
