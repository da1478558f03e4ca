-- ===== src/Coordinator/Scheduler.antt =====
-- crates/coordinator/src/scheduler.rs: which worker serves a request.
pub mod Order
pub mod Choice
use decompute.Prelude.{
  ℕ, Bool, true, false, ◌&&◌, Text, text_lt, text_eq, List, Option, ltb, ◌==◌, if◌then◌else◌, any,
  filter,
}
use decompute.Prelude.MinBy.{min_by}
use decompute.Core.Models.{Acceleration, cpu, metal, cuda}
use decompute.Protocol.Workers.{
  ModelCapability, loaded, model_status_eq, available, worker_state_eq,
}
use decompute.Coordinator.Record.{WorkerRecord}

unfoldable pub acceleration_rank : Acceleration → ℕ
acceleration_rank metal = 0
acceleration_rank cuda = 0
acceleration_rank cpu = 1

abbrev pub Key : Type 0
Key = ℕ × ℕ × Text

-- The key of `min_by_key`.
unfoldable pub key : WorkerRecord → Key
key worker = (acceleration_rank worker.hardware.acceleration, worker.active_requests, worker.id)

-- Tuples compare lexicographically.
unfoldable pub key_lt : Key → Key → Bool
key_lt (rank, active, id) (rank', active', id') =
    if ltb rank rank'
    then true
    else if ltb rank' rank
    then false
    else if ltb active active'
    then true
    else if ltb active' active
    then false
    else text_lt id id'

-- The closure of `any`, which `eligible` of registry.rs has too.
unfoldable pub serves : Text → ModelCapability → Bool
serves requested_model model = model.id == requested_model && model.status == loaded

unfoldable pub worker_lt : WorkerRecord → WorkerRecord → Bool
worker_lt a b = key_lt (key a) (key b)

unfoldable pub select_worker : List WorkerRecord → Text → Option WorkerRecord
select_worker workers requested_model = min_by worker_lt (
    filter (λ worker. ltb worker.active_requests worker.max_requests)
      (filter (λ worker. any (serves requested_model) worker.models)
        (filter (λ worker. worker.state == available) workers)))
