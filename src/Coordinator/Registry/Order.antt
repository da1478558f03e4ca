-- ===== src/Coordinator/Registry/Order.antt =====
-- A `HashMap` iterates in no fixed order. The registry's answers do not depend on it.
use decompute.Prelude.{
  ℕ, Text, text_eq, Option, none, some, ◌≡◌, refl, sym, ◌∙◌, arith, Option-cases, inl, inr, In,
}
use decompute.Prelude.Map.{get, values, In-values_of_get, get_of_In-values}
use decompute.Coordinator.Record.{WorkerRecord}
use decompute.Coordinator.Scheduler.Choice.{SameWorkers, select_worker-order}
use decompute.Coordinator.Registry.{
  Registry, AffinityKey, affinity_key_eq, preferred, eligible_preferred, or_scheduled, chosen,
  select_and_reserve,
}
use decompute.Coordinator.Registry.Invariant.{IsConsistent}
use decompute.Coordinator.Registry.Selection.{chosen-Servant}
use decompute.Coordinator.Registry.Reservation.{select_and_reserve-eq, select_and_reserve_nobody}

-- The same maps, iterated in any order.
pub record SameMaps (r s : Registry) : Type 0 where
  pub workers : (id : Text) → get id r.workers ≡ get id s.workers
  pub affinity : (k : AffinityKey) → get k r.affinity ≡ get k s.affinity

values_mono :
    (r s : Registry) (w : WorkerRecord)
    → IsConsistent r
    → ((id : Text) → get id r.workers ≡ get id s.workers)
    → In w (values r.workers)
    → In w (values s.workers)
values_mono r s w c same at =
    let (k, found) = get_of_In-values w r.workers c.distinct_workers at in
    In-values_of_get k w s.workers (sym (same k) ∙ found)

values-SameWorkers :
    (r s : Registry)
    → IsConsistent r
    → IsConsistent s
    → SameMaps r s
    → SameWorkers (values r.workers) (values s.workers)
values-SameWorkers r s c d m = record {
  same = λ w. (values_mono r s w c m.workers, values_mono s r w d (λ id. sym (m.workers id)));
  named = λ v w v_at w_at e.
      let (k, v_found) = get_of_In-values v r.workers c.distinct_workers v_at in
      let (l, w_found) = get_of_In-values w r.workers c.distinct_workers w_at in
      ground (arith, c.keyed k v v_found, c.keyed l w w_found);
}

module _ (r s : Registry) (model : Text) (c : IsConsistent r) (d : IsConsistent s)
    (m : SameMaps r s) where
  preferred-order :
      (session_id : Option ℕ) (now : ℕ)
      → preferred r model session_id now ≡ preferred s model session_id now
  unfolding preferred
  preferred-order none now = refl
  preferred-order (some session) now = ground (arith, m.affinity (session, model))

  eligible_preferred-order :
      (o : Option Text) → eligible_preferred r model o ≡ eligible_preferred s model o
  unfolding eligible_preferred
  eligible_preferred-order none = refl
  eligible_preferred-order (some id) = ground (arith, m.workers id)

  or_scheduled-order : (o : Option Text) → or_scheduled r model o ≡ or_scheduled s model o
  unfolding or_scheduled
  or_scheduled-order (some id) = refl
  or_scheduled-order none = rw (select_worker-order model _ _ (values-SameWorkers r s c d m))

  chosen-order :
      (session_id : Option ℕ) (now : ℕ)
      → chosen r model session_id now ≡ chosen s model session_id now
  chosen-order session_id now =
      unfold chosen in
      rw (preferred-order session_id now)
        (rw (eligible_preferred-order (preferred s model session_id now)) (or_scheduled-order _))

  -- Two registries that hold the same maps, each in an order of its own, answer a request for a
  -- worker alike.
  pub select_and_reserve-order :
      (session_id : Option ℕ) (now : ℕ)
      → (select_and_reserve r model session_id now).1
        ≡ (select_and_reserve s model session_id now).1
  select_and_reserve-order session_id now = elim (Option-cases (chosen r model session_id now)) [
    | inl e ↦ cc (
      select_and_reserve_nobody r model session_id now e,
      select_and_reserve_nobody s model session_id now (sym (chosen-order session_id now) ∙ e),
    )
    | inr (id, e) ↦
        let (w, found, can) = chosen-Servant r model session_id now id c e in
        let named = c.keyed id w found in
        cc (
          select_and_reserve-eq r model session_id now id w e found named,
          select_and_reserve-eq s model session_id now id w (sym (chosen-order session_id now) ∙ e)
              (sym (m.workers id) ∙ found) named,
        )
  ]
