-- ===== src/Coordinator/Registry/Models.antt =====
-- Which models the registry offers.
use decompute.Prelude.{
  not, Text, text_eq, ◌≡◌, some, sym, ◌≢◌, ◌↔◌, arith, ◌==◌, In, In-filter, filter-In, In-flat_map,
  flat_map-In, In-map, map-In,
}
use decompute.Prelude.Map.{get, values, In-values_of_get, get_of_In-values}
use decompute.Prelude.Sort.{IsAscending, dedup-sort-IsAscending, In-dedup-sort}
use decompute.Protocol.Workers.{ModelCapability, loaded, model_status_eq, offline, worker_state_eq}
use decompute.Coordinator.Record.{WorkerRecord}
use decompute.Coordinator.Registry.{Registry, loaded_models, available_models}
use decompute.Coordinator.Registry.Invariant.{IsConsistent}

-- Some registered worker that is not offline has loaded the model.
pub record IsOffered (r : Registry) (model : Text) : Type 0 where
  pub id : Text
  pub worker : WorkerRecord
  pub registered : get id r.workers ≡ some worker
  pub online : worker.state ≢ offline
  pub capability : ModelCapability
  pub listed : In capability worker.models
  pub named : capability.id ≡ model
  pub is_loaded : capability.status ≡ loaded

loaded_models-IsOffered :
    (r : Registry) (model : Text) → IsConsistent r → In model (loaded_models r) → IsOffered r model
unfolding loaded_models
loaded_models-IsOffered r model c h =
    let (m, at, e) = In-map (λ (m : ModelCapability). m.id) model _ h in
    let (at', is_loaded) = In-filter (λ m. m.status == loaded) m _ at in
    let (w, w_at, listed) = In-flat_map (λ (w : WorkerRecord). w.models) m _ at' in
    let (v_at, online) = In-filter (λ w. not (w.state == offline)) w (values r.workers) w_at in
    let (k, found) = get_of_In-values w r.workers c.distinct_workers v_at in
    record {
      id = k;
      worker = w;
      registered = found;
      online = λ off. absurd (ground arith);
      capability = m;
      listed = listed;
      named = sym e;
      is_loaded = ground arith;
    }

IsOffered-loaded_models :
    (r : Registry) (model : Text) → IsOffered r model → In model (loaded_models r)
unfolding loaded_models
IsOffered-loaded_models r model o = rw (← o.named) (
    map-In (λ (m : ModelCapability). m.id) o.capability _
      (filter-In (λ m. m.status == loaded) o.capability _
        (flat_map-In (λ (w : WorkerRecord). w.models) o.capability _ o.worker
          (filter-In (λ w. not (w.state == offline)) o.worker (values r.workers)
            (In-values_of_get o.id o.worker r.workers o.registered) (ground (arith, o.online)))
          o.listed)
        (ground (arith, o.is_loaded))))

-- The models that `/v1/models` lists are exactly those that a registered worker which is not
-- offline has loaded, each once, in ascending order.
pub available_models-IsOffered :
    (r : Registry)
    → IsConsistent r
    → ((model : Text) → In model (available_models r) ↔ IsOffered r model)
      × IsAscending (available_models r)
unfolding available_models
available_models-IsOffered r c = (
  λ model. (
    λ h. loaded_models-IsOffered r model c ((In-dedup-sort model (loaded_models r)).0 h),
    λ o. (In-dedup-sort model (loaded_models r)).1 (IsOffered-loaded_models r model o),
  ),
  dedup-sort-IsAscending (loaded_models r),
)
