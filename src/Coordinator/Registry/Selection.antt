-- ===== src/Coordinator/Registry/Selection.antt =====
-- Which worker `select_and_reserve` takes.
use decompute.Prelude.{
  ℕ, true, Text, text_eq, Option, none, some, ◌≡◌, inl, inr, arith, Option-cases,
}
use decompute.Prelude.Map.{get, values, In-values_of_get, get_of_In-values}
use decompute.Protocol.Workers.{model_status_eq, worker_state_eq}
use decompute.Coordinator.Record.{WorkerRecord}
use decompute.Coordinator.Scheduler.{select_worker}
use decompute.Coordinator.Scheduler.Choice.{
  CanServe, any-serves, serves-any, select_worker-some, select_worker-none,
}
use decompute.Coordinator.Registry.{
  Registry, affinity_key_eq, eligible, preferred, eligible_preferred, or_scheduled, chosen,
}
use decompute.Coordinator.Registry.Invariant.{IsConsistent}

eligible-CanServe : (w : WorkerRecord) (model : Text) → eligible w model ≡ true → CanServe model w
unfolding eligible
eligible-CanServe w model h = record {
  is_available = ground arith;
  has_room = ground arith;
  has_model = any-serves model w.models (ground arith);
}

pub CanServe-eligible :
    (w : WorkerRecord) (model : Text) → CanServe model w → eligible w model ≡ true
unfolding eligible
CanServe-eligible w model c =
    let (m, at, i, s) = c.has_model in
    ground (arith, serves-any model w.models m at i s, c.is_available, c.has_room)

-- A worker of the registry that can serve the model.
abbrev pub Servant : Registry → Text → Text → Type 0
Servant r model id = (w : WorkerRecord) × (get id r.workers ≡ some w) × CanServe model w

eligible_preferred-Servant :
    (r : Registry) (model : Text) (o : Option Text) (id : Text)
    → eligible_preferred r model o ≡ some id
    → Servant r model id
unfolding eligible_preferred
eligible_preferred-Servant r model none id h = cc
eligible_preferred-Servant r model (some p) id h = elim (Option-cases (get p r.workers)) [
  | inl e ↦ absurd (ground arith)
  | inr (w, e) ↦ (w, ground arith, eligible-CanServe w model (ground arith))
]

-- The worker that the scheduler names stands in the registry under that name.
scheduled-Servant :
    (r : Registry) (model : Text) (id : Text)
    → IsConsistent r
    → or_scheduled r model none ≡ some id
    → Servant r model id
unfolding or_scheduled
scheduled-Servant r model id c h = elim (Option-cases (select_worker (values r.workers) model)) [
  | inl e ↦ absurd (ground arith)
  | inr (w, e) ↦
      let (at, can) = select_worker-some model (values r.workers) w e in
      let (k, found) = get_of_In-values w r.workers c.distinct_workers at in
      (w, ground (arith, c.keyed k w found), can)
]

or_scheduled-Servant :
    (r : Registry) (model : Text) (o : Option Text) (id : Text)
    → IsConsistent r
    → ((p : Text) → o ≡ some p → Servant r model p)
    → or_scheduled r model o ≡ some id
    → Servant r model id
or_scheduled-Servant r model none id c own h = scheduled-Servant r model id c h
or_scheduled-Servant r model (some p) id c own h = own id (unfold or_scheduled in h)

-- The chosen worker can serve the model, whether the session or the scheduler named it.
pub chosen-Servant :
    (r : Registry) (model : Text) (session_id : Option ℕ) (now : ℕ) (id : Text)
    → IsConsistent r
    → chosen r model session_id now ≡ some id
    → Servant r model id
unfolding chosen
chosen-Servant r model session_id now id c h =
    let o = preferred r model session_id now in
    or_scheduled-Servant r model (eligible_preferred r model o) id c
      (λ p. eligible_preferred-Servant r model o p) h

or_scheduled-none :
    (r : Registry) (model : Text) (o : Option Text)
    → or_scheduled r model o ≡ none
    → select_worker (values r.workers) model ≡ none
unfolding or_scheduled
or_scheduled-none r model none h = ground arith
or_scheduled-none r model (some p) h = cc

-- Nobody is chosen only if no worker of the registry can serve the model.
pub chosen-none :
    (r : Registry) (model : Text) (session_id : Option ℕ) (now : ℕ)
    → chosen r model session_id now ≡ none
    → (id : Text) → ¬ Servant r model id
unfolding chosen
chosen-none r model session_id now h id (w, found, can) =
    select_worker-none model (values r.workers) w (or_scheduled-none r model _ h)
      (In-values_of_get id w r.workers found) can
