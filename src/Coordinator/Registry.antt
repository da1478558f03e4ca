-- ===== src/Coordinator/Registry.antt =====
-- crates/coordinator/src/registry.rs: the workers and the sessions bound to them. A method that takes
-- the lock on the workers holds it to its end, so it is one step, but for `mark_offline`, which is
-- two. `now` is its `Instant::now()`.
pub mod Invariant
pub mod Selection
pub mod Reservation
pub mod History
pub mod Expiry
pub mod Order
pub mod Models
use decompute.Prelude.{
  ℕ, suc, ◌-◌, ◌*◌, Bool, true, false, not, ◌&&◌, Text, text_eq, List, [], ◌∷◌, map, Option, none,
  some, ltb, leb, ◌==◌, Eq, if◌then◌else◌, is_yes, any, filter, flat_map, ℕ_discrete, text_discrete,
}
use decompute.Prelude.Map.{get, insert, modify, values, retain, map_values}
use mathlib.Core.Option
use decompute.Prelude.Sort.{sort, dedup}
use decompute.Protocol.Workers.{
  ModelCapability, WorkerCapabilities, RegisterWorkerRequest, HeartbeatRequest, loaded,
  model_status_eq, available, busy, offline, worker_state_eq,
}
use decompute.Coordinator.Record.{WorkerRecord, SelectedWorker, AffinityBinding}
use decompute.Coordinator.Scheduler.{serves, select_worker}

-- 15 minutes, in nanoseconds.
abbrev pub affinity_ttl : ℕ
affinity_ttl = 15 * 60 * 1_000_000_000

-- A session is a `Uuid`, a number of 128 bits.
abbrev pub AffinityKey : Type 0
AffinityKey = ℕ × Text

unfoldable pub AffinityKey-discrete : Discrete AffinityKey
AffinityKey-discrete = hlevel (ℕ_discrete, text_discrete)

instance abbrev pub affinity_key_eq : Eq AffinityKey
affinity_key_eq = record { decide = AffinityKey-discrete }

pub record Registry : Type 0 where
  pub workers : List (Text × WorkerRecord)
  pub affinity : List (AffinityKey × AffinityBinding)

abbrev pub default : Registry
default = record { workers = []; affinity = [] }

unfoldable pub registered : RegisterWorkerRequest → ℕ → WorkerRecord
registered request now = record {
  id = request.capabilities.node_id;
  address = request.address;
  models = request.capabilities.models;
  active_requests = request.capabilities.active_requests;
  max_requests = request.capabilities.max_requests;
  last_heartbeat = now;
  state = request.capabilities.state;
  hardware = request.capabilities.hardware;
}

unfoldable pub register : Registry → RegisterWorkerRequest → ℕ → Registry
unfolding registered
register r request now = record r {
  workers = insert request.capabilities.node_id (registered request now) r.workers;
}

unfoldable pub refresh : WorkerCapabilities → ℕ → WorkerRecord → WorkerRecord
refresh c now worker = record worker {
  models = c.models;
  max_requests = c.max_requests;
  active_requests = c.active_requests;
  state = c.state;
  hardware = c.hardware;
  last_heartbeat = now;
}

unfoldable pub heartbeat : Registry → Text → HeartbeatRequest → ℕ → Registry × Bool
unfolding refresh
heartbeat r id request now = elim (get id r.workers) [
  | none ↦ (r, false)
  | some _ ↦ (record r { workers = modify id (refresh request.capabilities now) r.workers }, true)
]

unfoldable pub list : Registry → List WorkerRecord
list r = values r.workers

-- The models before `sort` and `dedup`.
unfoldable pub loaded_models : Registry → List Text
loaded_models r =
    map (λ (model : ModelCapability). model.id)
      (filter (λ model. model.status == loaded)
        (flat_map (λ (worker : WorkerRecord). worker.models)
          (filter (λ worker. not (worker.state == offline)) (values r.workers))))

unfoldable pub available_models : Registry → List Text
unfolding loaded_models
available_models r = dedup (sort (loaded_models r))

unfoldable pub eligible : WorkerRecord → Text → Bool
eligible worker model =
    worker.state == available
    && ltb worker.active_requests worker.max_requests
    && any (serves model) worker.models

-- The worker that the session is bound to, unless the binding has run out. On an `Instant`,
-- `duration_since` stops at zero, as `-` does.
unfoldable pub preferred : Registry → Text → Option ℕ → ℕ → Option Text
preferred r model none now = none
preferred r model (some session) now = elim (get (session, model) r.affinity) [
  | none ↦ none
  | some binding ↦
      if leb (now - binding.last_used) affinity_ttl then some binding.worker_id else none
]

-- `preferred.filter(..)`.
unfoldable pub eligible_preferred : Registry → Text → Option Text → Option Text
unfolding eligible
eligible_preferred r model none = none
eligible_preferred r model (some id) = elim (get id r.workers) [
  | none ↦ none
  | some worker ↦ if eligible worker model then some id else none
]

-- `.or_else(..)`.
unfoldable pub or_scheduled : Registry → Text → Option Text → Option Text
or_scheduled r model (some id) = some id
or_scheduled r model none =
    Option.map (λ (worker : WorkerRecord). worker.id) (select_worker (values r.workers) model)

unfoldable pub chosen : Registry → Text → Option ℕ → ℕ → Option Text
unfolding preferred eligible_preferred or_scheduled
chosen r model session_id now =
    or_scheduled r model (eligible_preferred r model (preferred r model session_id now))

unfoldable pub bind_session : Registry → Text → Option ℕ → ℕ → Text → Registry
bind_session r model none now id = r
bind_session r model (some session) now id = record r {
  affinity = insert (session, model) (record { worker_id = id; last_used = now }) r.affinity;
}

unfoldable pub reserve : WorkerRecord → WorkerRecord
reserve worker = record worker {
  active_requests = suc worker.active_requests;
  state = if leb worker.max_requests (suc worker.active_requests) then busy else worker.state;
}

unfoldable pub select_and_reserve :
    Registry → Text → Option ℕ → ℕ → Registry × Option SelectedWorker
select_and_reserve r model session_id now = elim (chosen r model session_id now) [
  | none ↦ (r, none)
  | some id ↦
      let bound = bind_session r model session_id now id in
      elim (get id bound.workers) [
        | none ↦ (bound, none)
        | some worker ↦ (
          record bound { workers = modify id reserve bound.workers },
          some (record { id = worker.id; address = worker.address }),
        )
      ]
]

unfoldable pub free : WorkerRecord → WorkerRecord
free worker = record worker {
  active_requests = worker.active_requests - 1;
  state =
      if worker.state == busy && ltb (worker.active_requests - 1) worker.max_requests
      then available
      else worker.state;
}

unfoldable pub release : Registry → Text → Registry
unfolding free
release r id = record r { workers = modify id free r.workers }

unfoldable pub set_offline : WorkerRecord → WorkerRecord
set_offline worker = record worker { state = offline }

-- The two statements of `mark_offline`, of which each takes a lock of its own.
unfoldable pub take_offline : Registry → Text → Registry
unfolding set_offline
take_offline r id = record r { workers = modify id set_offline r.workers }

unfoldable pub drop_bindings : Registry → Text → Registry
drop_bindings r id = record r {
  affinity = retain (λ _ binding. not (binding.worker_id == id)) r.affinity;
}

unfoldable pub mark_offline : Registry → Text → Registry
unfolding take_offline drop_bindings
mark_offline r id = drop_bindings (take_offline r id) id

unfoldable pub expire_worker : ℕ → ℕ → WorkerRecord → WorkerRecord
unfolding set_offline
expire_worker now timeout worker =
    if ltb timeout (now - worker.last_heartbeat) then set_offline worker else worker

-- `is_some_and(|worker| worker.state != WorkerState::Offline)`.
unfoldable pub is_online : Option WorkerRecord → Bool
is_online none = false
is_online (some worker) = not (worker.state == offline)

unfoldable pub expire_at : Registry → ℕ → ℕ → Registry
unfolding expire_worker is_online
expire_at r now timeout =
    let workers' = map_values (expire_worker now timeout) r.workers in
    record {
      workers = workers';
      affinity =
          retain
            (λ _ binding.
              leb (now - binding.last_used) affinity_ttl
              && is_online (get binding.worker_id workers'))
            r.affinity;
    }
