-- ===== src/Coordinator/Registry/Reservation.antt =====
-- What `select_and_reserve` does to the registry, and that `release` takes it back.
use decompute.Prelude.{
  ℕ, ◌+◌, ◌≤◌, Text, text_eq, Option, none, some, ◌≡◌, refl, ap, arith, ◌==◌, Option-cases, inl,
  inr, if◌then◌else◌, ltb,
}
use decompute.Prelude.Map.{get, modify, get-modify, get-insert}
use decompute.Protocol.Workers.{available, busy, worker_state_eq, WorkerState-discrete}
use decompute.Coordinator.Record.{WorkerRecord, SelectedWorker, AffinityBinding}
use decompute.Coordinator.Scheduler.Choice.{CanServe}
use decompute.Coordinator.Registry.{
  Registry, AffinityKey, affinity_key_eq, affinity_ttl, chosen, bind_session, reserve,
  select_and_reserve, free, release,
}
use decompute.Coordinator.Registry.Invariant.{IsConsistent}
use decompute.Coordinator.Registry.Selection.{
  Servant, CanServe-eligible, chosen-Servant, chosen-none,
}

-- The session, if there is one, is bound to the worker, and no other binding changes.
abbrev pub Binds : Registry → Registry → Text → Option ℕ → ℕ → Text → Type 0
Binds r r' model none now id = r'.affinity ≡ r.affinity
Binds r r' model (some session) now id =
    (k : AffinityKey)
    → get k r'.affinity ≡ (
        if (session, model) == k
        then some (record { worker_id = id; last_used = now })
        else get k r.affinity)

-- A worker with one more request: it is busy once it has as many as it takes.
abbrev pub filled : WorkerRecord → WorkerRecord
filled w = record w {
  active_requests = w.active_requests + 1;
  state = if ltb (w.active_requests + 1) w.max_requests then available else busy;
}

reserve-filled : (model : Text) (w : WorkerRecord) → CanServe model w → reserve w ≡ filled w
unfolding reserve
reserve-filled model w can = ground (arith, can.is_available)

-- The two outcomes of a request for a worker.
pub data Outcome (r : Registry) (model : Text) (session_id : Option ℕ) (now : ℕ)
    : Registry × Option SelectedWorker → Type 0 where
  refused : ((id : Text) → ¬ Servant r model id) → Outcome r model session_id now (r, none)
  reserved :
      (r' : Registry) (id : Text) (w : WorkerRecord)
      → get id r.workers ≡ some w
      → CanServe model w
      → ((j : Text) → get j r'.workers ≡ (if id == j then some (filled w) else get j r.workers))
      → Binds r r' model session_id now id
      → Outcome r model session_id now (r', some (record { id = id; address = w.address }))

pub workers-bind_session :
    (r : Registry) (model : Text) (session_id : Option ℕ) (now : ℕ) (id : Text)
    → (bind_session r model session_id now id).workers ≡ r.workers
unfolding bind_session
workers-bind_session r model none now id = refl
workers-bind_session r model (some session) now id = refl

bind_session-Binds :
    (r : Registry) (model : Text) (session_id : Option ℕ) (now : ℕ) (id : Text)
    → (f : WorkerRecord → WorkerRecord)
    → let bound = bind_session r model session_id now id in
      Binds r (record bound { workers = modify id f bound.workers }) model session_id now id
unfolding bind_session
bind_session-Binds r model none now id f = refl
bind_session-Binds r model (some session) now id f =
    λ k. get-insert (session, model) k (record { worker_id = id; last_used = now }) r.affinity

-- The registry after the reservation of a worker that is there.
pub select_and_reserve-eq :
    (r : Registry) (model : Text) (session_id : Option ℕ) (now : ℕ) (id : Text) (w : WorkerRecord)
    → chosen r model session_id now ≡ some id
    → get id r.workers ≡ some w
    → w.id ≡ id
    → select_and_reserve r model session_id now ≡ (
      record (bind_session r model session_id now id) { workers = modify id reserve r.workers },
      some (record { id = id; address = w.address }),
    )
unfolding select_and_reserve
select_and_reserve-eq r model session_id now id w picked found named =
    ground (arith, workers-bind_session r model session_id now id)

pub select_and_reserve_nobody :
    (r : Registry) (model : Text) (session_id : Option ℕ) (now : ℕ)
    → chosen r model session_id now ≡ none
    → select_and_reserve r model session_id now ≡ (r, none)
unfolding select_and_reserve
select_and_reserve_nobody r model session_id now e = rw (e, select_and_reserve)

-- `select_and_reserve` answers `None` and changes nothing if no registered worker can serve the
-- model. Otherwise it answers with a worker that can, counts one more request there, marks it busy
-- when it is full, binds the session to it, and changes no other worker and no other binding.
pub select_and_reserve-Outcome :
    (r : Registry) (model : Text) (session_id : Option ℕ) (now : ℕ)
    → IsConsistent r
    → Outcome r model session_id now (select_and_reserve r model session_id now)
select_and_reserve-Outcome r model session_id now c =
    elim (Option-cases (chosen r model session_id now)) [
      | inl e ↦
          rw (select_and_reserve_nobody r model session_id now e)
            (refused (chosen-none r model session_id now e))
      | inr (id, e) ↦
          let (w, found, can) = chosen-Servant r model session_id now id c e in
          rw (select_and_reserve-eq r model session_id now id w e found (c.keyed id w found)) (
            reserved _ id w found can
              (λ j. ground (arith, get-modify id j reserve r.workers, reserve-filled model w can))
              (bind_session-Binds r model session_id now id reserve))
    ]

-- A worker that could serve is the same after a reservation and its release.
pub free-filled : (model : Text) (w : WorkerRecord) → CanServe model w → free (filled w) ≡ w
unfolding free WorkerState-discrete
free-filled model w can = ground (arith, can.is_available, can.has_room)

release-Outcome :
    (r : Registry) (model : Text) (session_id : Option ℕ) (now : ℕ)
    (o : Registry × Option SelectedWorker) (sel : SelectedWorker)
    → Outcome r model session_id now o
    → o.1 ≡ some sel
    → (j : Text) → get j (release o.0 sel.id).workers ≡ get j r.workers
unfolding release
release-Outcome r model session_id now _ sel (refused none_can) e j = cc
release-Outcome r model session_id now _ sel (reserved r' id w found can at binds) e j =
    ground (arith, get-modify id j free r'.workers, at j, free-filled model w can)

-- Releasing the worker that was just reserved gives back every worker as it was before.
pub release-select_and_reserve :
    (r : Registry) (model : Text) (session_id : Option ℕ) (now : ℕ) (sel : SelectedWorker)
    → IsConsistent r
    → (select_and_reserve r model session_id now).1 ≡ some sel
    → (j : Text)
    → get j (release (select_and_reserve r model session_id now).0 sel.id).workers ≡ get j r.workers
release-select_and_reserve r model session_id now sel c e =
    release-Outcome r model session_id now _ sel
      (select_and_reserve-Outcome r model session_id now c) e

-- A session whose binding has not run out gets the worker that it is bound to, while that worker
-- can serve the model, whatever the scheduler would prefer.
pub select_and_reserve-bound :
    (r : Registry) (model : Text) (session now : ℕ) (b : AffinityBinding) (w : WorkerRecord)
    → IsConsistent r
    → get (session, model) r.affinity ≡ some b
    → now ≤ b.last_used + affinity_ttl
    → get b.worker_id r.workers ≡ some w
    → CanServe model w
    → (select_and_reserve r model (some session) now).1
      ≡ some (record { id = b.worker_id; address = w.address })
select_and_reserve-bound r model session now b w c is_bound fresh found can =
    ap (λ o. o.1)
      (select_and_reserve-eq r model (some session) now b.worker_id w picked found
        (c.keyed b.worker_id w found))
  where
    picked : chosen r model (some session) now ≡ some b.worker_id
    picked = unfold chosen in ground (arith, CanServe-eligible w model can)
