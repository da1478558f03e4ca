-- ===== src/Tests/Fleet.antt =====
-- A registry of two workers and a worker of one slot.
use mathlib.Core.Path.{subst}
use decompute.Prelude.{
  ◌⊎◌, ◌↔◌, any, filter, text_lt, ℕ, ◌+◌, ◌≤◌, Text, text, text_eq, text_discrete, ℕ_discrete, List,
  [], ◌∷◌, none, some, ◌≡◌, ◌≢◌, refl, arith, inl, In,
}
use decompute.Prelude.Map.{get, values, insert, modify, retain, map_values}
use decompute.Prelude.MinBy.{min_by, min_from}
use decompute.Prelude.Sort.{IsAscending}
use decompute.Core.Models.{metal}
use decompute.Protocol.Workers.{
  ModelCapability, RegisterWorkerRequest, loaded, available, WorkerState-discrete,
  ModelStatus-discrete,
}
use decompute.Coordinator.Record.{WorkerRecord, SelectedWorker, AffinityBinding}
use decompute.Coordinator.Scheduler.{
  select_worker, worker_lt, key, key_lt, acceleration_rank, serves,
}
use decompute.Coordinator.Scheduler.Choice.{Choice, CanServe, select_worker-Choice}
use decompute.Coordinator.Registry.{
  Registry, default, registered, register, select_and_reserve, release, mark_offline, expire_at,
  available_models, affinity_key_eq, chosen, preferred, eligible_preferred, or_scheduled, eligible,
  bind_session, reserve, free, set_offline, expire_worker, is_online, AffinityKey-discrete,
}
use decompute.Coordinator.Registry.Invariant.{IsConsistent}
use decompute.Coordinator.Registry.Reservation.{
  Outcome, select_and_reserve-Outcome, release-select_and_reserve, select_and_reserve-bound,
}
use decompute.Coordinator.Registry.History.{
  Call, registers, selects, releases, expires, step, run, run-IsConsistent,
  mark_offline_until_heard,
}
use decompute.Coordinator.Registry.Expiry.{IsLive, affinity-expire_at, select_and_reserve-fresh}
use decompute.Coordinator.Registry.Order.{SameMaps, select_and_reserve-order}
use decompute.Coordinator.Registry.Models.{IsOffered, available_models-IsOffered}

abbrev tiny : ModelCapability
tiny = record { id = text "tiny"; status = loaded; manifest_sha256 = none }

abbrev pub request_of : Text → RegisterWorkerRequest
request_of id = record {
  address = text "http://w";
  capabilities = record {
    node_id = id;
    models = tiny ∷ [];
    active_requests = 0;
    max_requests = 1;
    state = available;
    hardware = record {
      architecture = text "arm64";
      total_memory_bytes = 1;
      available_memory_bytes = 1;
      acceleration = metal;
    };
  };
}

abbrev calls : List (ℕ × Call)
calls =
    (5, registers (request_of (text "a")))
    ∷ (6, registers (request_of (text "b")))
    ∷ (7, selects (text "tiny") (some 9))
    ∷ (8, releases (text "a"))
    ∷ []

abbrev worker_of : Text → ℕ → WorkerRecord
worker_of id now = record {
  id = id;
  address = text "http://w";
  models = tiny ∷ [];
  active_requests = 0;
  max_requests = 1;
  last_heartbeat = now;
  state = available;
  hardware = record {
    architecture = text "arm64";
    total_memory_bytes = 1;
    available_memory_bytes = 1;
    acceleration = metal;
  };
}

abbrev binding_a : AffinityBinding
binding_a = record { worker_id = text "a"; last_used = 7 }

-- What the calls leave.
abbrev fleet : Registry
fleet = record {
  workers = (text "a", worker_of (text "a") 5) ∷ (text "b", worker_of (text "b") 6) ∷ [];
  affinity = ((9, text "tiny"), binding_a) ∷ [];
}

abbrev reversed : Registry
reversed = record fleet {
  workers = (text "b", worker_of (text "b") 6) ∷ (text "a", worker_of (text "a") 5) ∷ [];
}

abbrev selected_a : SelectedWorker
selected_a = record { id = text "a"; address = text "http://w" }

abbrev selected_b : SelectedWorker
selected_b = record { id = text "b"; address = text "http://w" }

calls_runs : run default calls ≡ fleet
unfolding run step select_and_reserve chosen preferred eligible_preferred or_scheduled eligible
    bind_session reserve register registered release free mark_offline set_offline expire_at
    expire_worker is_online select_worker min_by min_from worker_lt key key_lt acceleration_rank
    serves any filter values get insert modify retain map_values text_lt text_discrete ℕ_discrete
    WorkerState-discrete ModelStatus-discrete AffinityKey-discrete
calls_runs = refl

fleet-IsConsistent : IsConsistent fleet
fleet-IsConsistent = subst IsConsistent calls_runs (run-IsConsistent calls)

reversed_runs :
    run default (
      (6, registers (request_of (text "b")))
      ∷ (5, registers (request_of (text "a")))
      ∷ (7, selects (text "tiny") (some 9))
      ∷ (8, releases (text "a"))
      ∷ [])
    ≡ reversed
unfolding run step select_and_reserve chosen preferred eligible_preferred or_scheduled eligible
    bind_session reserve register registered release free mark_offline set_offline expire_at
    expire_worker is_online select_worker min_by min_from worker_lt key key_lt acceleration_rank
    serves any filter values get insert modify retain map_values text_lt text_discrete ℕ_discrete
    WorkerState-discrete ModelStatus-discrete AffinityKey-discrete
reversed_runs = refl

reversed-IsConsistent : IsConsistent reversed
reversed-IsConsistent = subst IsConsistent reversed_runs (run-IsConsistent _)

worker_a-CanServe : CanServe (text "tiny") (worker_of (text "a") 5)
worker_a-CanServe = record {
  is_available = refl;
  has_room = omega arith;
  has_model = (tiny, inl refl, refl, refl);
}

selects_a_runs : (select_and_reserve fleet (text "tiny") none 10).1 ≡ some selected_a
unfolding run step select_and_reserve chosen preferred eligible_preferred or_scheduled eligible
    bind_session reserve register registered release free mark_offline set_offline expire_at
    expire_worker is_online select_worker min_by min_from worker_lt key key_lt acceleration_rank
    serves any filter values get insert modify retain map_values text_lt text_discrete ℕ_discrete
    WorkerState-discrete ModelStatus-discrete AffinityKey-discrete
selects_a_runs = refl

selects_b_runs :
    (select_and_reserve
      (run (mark_offline fleet (text "a")) ((10, expires 60) ∷ []))
      (text "tiny")
      (some 9)
      11).1
    ≡ some selected_b
unfolding run step select_and_reserve chosen preferred eligible_preferred or_scheduled eligible
    bind_session reserve register registered release free mark_offline set_offline expire_at
    expire_worker is_online select_worker min_by min_from worker_lt key key_lt acceleration_rank
    serves any filter values get insert modify retain map_values text_lt text_discrete ℕ_discrete
    WorkerState-discrete ModelStatus-discrete AffinityKey-discrete
selects_b_runs = refl

selects_b_expired_runs :
    (select_and_reserve (expire_at fleet 65 59) (text "tiny") (some 9) 66).1 ≡ some selected_b
unfolding run step select_and_reserve chosen preferred eligible_preferred or_scheduled eligible
    bind_session reserve register registered release free mark_offline set_offline expire_at
    expire_worker is_online select_worker min_by min_from worker_lt key key_lt acceleration_rank
    serves any filter values get insert modify retain map_values text_lt text_discrete ℕ_discrete
    WorkerState-discrete ModelStatus-discrete AffinityKey-discrete
selects_b_expired_runs = refl

run-IsConsistent_example : IsConsistent (run default calls)
run-IsConsistent_example = run-IsConsistent calls

select_worker-Choice_example :
    Choice (text "tiny") (values fleet.workers) (select_worker (values fleet.workers) (text "tiny"))
select_worker-Choice_example = select_worker-Choice (text "tiny") (values fleet.workers)

select_and_reserve-Outcome_example :
    Outcome fleet (text "tiny") (some 9) 10 (select_and_reserve fleet (text "tiny") (some 9) 10)
select_and_reserve-Outcome_example =
    select_and_reserve-Outcome fleet (text "tiny") (some 9) 10 fleet-IsConsistent

release-select_and_reserve_example :
    get (text "a") (release (select_and_reserve fleet (text "tiny") none 10).0 (text "a")).workers
    ≡ get (text "a") fleet.workers
release-select_and_reserve_example =
    release-select_and_reserve fleet (text "tiny") none 10 selected_a fleet-IsConsistent
      selects_a_runs (text "a")

bound_to_a : get (9, text "tiny") fleet.affinity ≡ some binding_a
unfolding get AffinityKey-discrete text_discrete ℕ_discrete
bound_to_a = refl

found_a : get (text "a") fleet.workers ≡ some (worker_of (text "a") 5)
unfolding get text_discrete ℕ_discrete
found_a = refl

select_and_reserve-bound_example :
    (select_and_reserve fleet (text "tiny") (some 9) 10).1 ≡ some selected_a
select_and_reserve-bound_example =
    select_and_reserve-bound fleet (text "tiny") 9 10 binding_a (worker_of (text "a") 5)
      fleet-IsConsistent bound_to_a (omega arith) found_a worker_a-CanServe

mark_offline_until_heard_example : text "b" ≢ text "a"
mark_offline_until_heard_example =
    mark_offline_until_heard fleet (text "a") ((10, expires 60) ∷ []) (text "tiny") (some 9) 11
      selected_b fleet-IsConsistent (tt, tt) selects_b_runs

affinity-expire_at_example :
    ((get (9, text "tiny") (expire_at fleet 65 59).affinity ≡ some binding_a)
      × IsLive (expire_at fleet 65 59) 65 binding_a)
    ⊎ ((get (9, text "tiny") (expire_at fleet 65 59).affinity ≡ none)
        × ¬ IsLive (expire_at fleet 65 59) 65 binding_a)
affinity-expire_at_example =
    affinity-expire_at fleet 65 59 (9, text "tiny") binding_a fleet-IsConsistent bound_to_a

select_and_reserve-fresh_example :
    (w : WorkerRecord) × (get (text "b") fleet.workers ≡ some w) × (65 ≤ w.last_heartbeat + 59)
select_and_reserve-fresh_example =
    select_and_reserve-fresh fleet 65 59 (text "tiny") (some 9) 66 selected_b fleet-IsConsistent
      selects_b_expired_runs

available_models-IsOffered_example :
    ((model : Text) → In model (available_models fleet) ↔ IsOffered fleet model)
    × IsAscending (available_models fleet)
available_models-IsOffered_example = available_models-IsOffered fleet fleet-IsConsistent

fleet-SameMaps : SameMaps fleet reversed
unfolding get text_discrete ℕ_discrete
fleet-SameMaps = record { workers = λ id. ground arith; affinity = λ k. refl }

select_and_reserve-order_example :
    (select_and_reserve fleet (text "tiny") (some 9) 10).1
    ≡ (select_and_reserve reversed (text "tiny") (some 9) 10).1
select_and_reserve-order_example =
    select_and_reserve-order fleet reversed (text "tiny") fleet-IsConsistent reversed-IsConsistent
      fleet-SameMaps (some 9) 10
