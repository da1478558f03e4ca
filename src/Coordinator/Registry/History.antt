-- ===== src/Coordinator/Registry/History.antt =====
-- Any history of calls on the registry, in the order in which they take its lock.
use decompute.Prelude.{
  ℕ, Text, text_eq, List, [], ◌∷◌, Option, some, ◌≡◌, refl, ◌≢◌, inl, inr, arith, Option-cases, All,
}
use decompute.Prelude.Map.{get, modify, get-modify, get-insert, get-modify_inv, get-map_values_inv}
use decompute.Protocol.Workers.{
  RegisterWorkerRequest, HeartbeatRequest, offline, worker_state_eq, WorkerState-discrete,
}
use decompute.Coordinator.Record.{WorkerRecord, SelectedWorker}
use decompute.Coordinator.Registry.{
  Registry, default, registered, register, refresh, heartbeat, chosen, bind_session, reserve,
  select_and_reserve, free, release, set_offline, take_offline, drop_bindings, mark_offline,
  expire_worker, expire_at,
}
use decompute.Coordinator.Registry.Invariant.{
  IsConsistent, default-IsConsistent, register-IsConsistent, heartbeat-IsConsistent,
  modify-IsConsistent, bind_session-IsConsistent, release-IsConsistent, mark_offline-IsConsistent,
  take_offline-IsConsistent, drop_bindings-IsConsistent, expire_at-IsConsistent,
}
use decompute.Coordinator.Registry.Selection.{chosen-Servant}
use decompute.Coordinator.Registry.Reservation.{
  Outcome, refused, reserved, workers-bind_session, select_and_reserve-eq,
  select_and_reserve_nobody, select_and_reserve-Outcome,
}

-- `marks_offline` is `mark_offline` as a whole; the two calls after it are its halves, between which
-- calls of other tasks may come.
pub data Call : Type 0 where
  registers : RegisterWorkerRequest → Call
  beats : Text → HeartbeatRequest → Call
  selects : Text → Option ℕ → Call
  releases marks_offline takes_offline drops_bindings : Text → Call
  expires : ℕ → Call

unfoldable pub step : Registry → ℕ × Call → Registry
step r (now, registers request) = register r request now
step r (now, beats id request) = (heartbeat r id request now).0
step r (now, selects model session_id) = (select_and_reserve r model session_id now).0
step r (now, releases id) = release r id
step r (now, marks_offline id) = mark_offline r id
step r (now, takes_offline id) = take_offline r id
step r (now, drops_bindings id) = drop_bindings r id
step r (now, expires timeout) = expire_at r now timeout

unfoldable pub run : Registry → List (ℕ × Call) → Registry
run r [] = r
run r (c ∷ cs) = run (step r c) cs

select_and_reserve-IsConsistent :
    (r : Registry) (model : Text) (session_id : Option ℕ) (now : ℕ)
    → IsConsistent r
    → IsConsistent (select_and_reserve r model session_id now).0
select_and_reserve-IsConsistent r model session_id now c =
    elim (Option-cases (chosen r model session_id now)) [
      | inl e ↦ rw (select_and_reserve_nobody r model session_id now e) c
      | inr (id, e) ↦
          let (w, found, can) = chosen-Servant r model session_id now id c e in
          let bound = bind_session r model session_id now id in
          rw (select_and_reserve-eq r model session_id now id w e found (c.keyed id w found)) (
            rw (workers-bind_session r model session_id now id) at (
              modify-IsConsistent bound id reserve (λ v. unfold reserve in refl)
                (bind_session-IsConsistent r model session_id now id w found c)))
    ]

pub step-IsConsistent : (r : Registry) (c : ℕ × Call) → IsConsistent r → IsConsistent (step r c)
unfolding step
step-IsConsistent r (now, registers request) = register-IsConsistent r request now
step-IsConsistent r (now, beats id request) = heartbeat-IsConsistent r id request now
step-IsConsistent r (now, selects model session_id) =
    select_and_reserve-IsConsistent r model session_id now
step-IsConsistent r (now, releases id) = release-IsConsistent r id
step-IsConsistent r (now, marks_offline id) = mark_offline-IsConsistent r id
step-IsConsistent r (now, takes_offline id) = take_offline-IsConsistent r id
step-IsConsistent r (now, drops_bindings id) = drop_bindings-IsConsistent r id
step-IsConsistent r (now, expires timeout) = expire_at-IsConsistent r now timeout

run-IsConsistent_from :
    (r : Registry) (cs : List (ℕ × Call)) → IsConsistent r → IsConsistent (run r cs)
unfolding run
run-IsConsistent_from r [] h = h
run-IsConsistent_from r (c ∷ cs) h = run-IsConsistent_from (step r c) cs (step-IsConsistent r c h)

-- After any history of calls on an empty registry, the halves of `mark_offline` apart or together, no worker and no session has two records, every
-- worker stands under its own name, and every session is bound to a worker that is registered.
pub run-IsConsistent : (cs : List (ℕ × Call)) → IsConsistent (run default cs)
run-IsConsistent cs = run-IsConsistent_from default cs default-IsConsistent

-- The worker is not registered, or is offline.
abbrev pub IsDown : Text → Registry → Type 0
IsDown id r = (w : WorkerRecord) → get id r.workers ≡ some w → w.state ≡ offline

-- The call does not come from the worker itself.
abbrev pub IsSilent : Text → ℕ × Call → Type 0
IsSilent id (now, registers request) = request.capabilities.node_id ≢ id
IsSilent id (now, beats j request) = j ≢ id
IsSilent id (now, _) = Unit

modify-IsDown :
    (r : Registry) (id j : Text) (f : WorkerRecord → WorkerRecord)
    → ((w : WorkerRecord) → w.state ≡ offline → (f w).state ≡ offline)
    → IsDown id r
    → IsDown id (record r { workers = modify j f r.workers })
modify-IsDown r id j f keeps down w h =
    let (v, e, eq) = get-modify_inv j id f r.workers w h in
    ground (arith, down v e, keeps v (down v e))

Outcome-IsDown :
    (r : Registry) (id model : Text) (session_id : Option ℕ) (now : ℕ)
    (o : Registry × Option SelectedWorker)
    → Outcome r model session_id now o
    → IsDown id r
    → IsDown id o.0
Outcome-IsDown r id model session_id now _ (refused none_can) down v h = down v h
Outcome-IsDown r id model session_id now _ (reserved r' j w found can at binds) down v h =
    ground (arith, at id, down w, down v, can.is_available)

heartbeat-IsDown :
    (r : Registry) (id j : Text) (request : HeartbeatRequest) (now : ℕ)
    → j ≢ id
    → IsDown id r
    → IsDown id (heartbeat r j request now).0
heartbeat-IsDown r id j request now other down w =
    unfold heartbeat in
    ground (arith, get-modify j id (refresh request.capabilities now) r.workers, down w)

expire_at-IsDown :
    (r : Registry) (id : Text) (now timeout : ℕ) → IsDown id r → IsDown id (expire_at r now timeout)
unfolding expire_at
expire_at-IsDown r id now timeout down w h =
    let (v, e, eq) = get-map_values_inv id (expire_worker now timeout) r.workers w h in
    ground (arith, down v e)

step-IsDown :
    (r : Registry) (id : Text) (c : ℕ × Call)
    → IsConsistent r
    → IsSilent id c
    → IsDown id r
    → IsDown id (step r c)
unfolding step
step-IsDown r id (now, registers request) c silent down = λ w h.
    unfold register in
    ground
      (arith, get-insert request.capabilities.node_id id (registered request now) r.workers, down w)
step-IsDown r id (now, beats j request) c silent down =
    heartbeat-IsDown r id j request now silent down
step-IsDown r id (now, selects model session_id) c silent down =
    Outcome-IsDown r id model session_id now _ (select_and_reserve-Outcome r model session_id now c)
      down
step-IsDown r id (now, releases j) c silent down =
    unfold release in
    modify-IsDown r id j free (λ w off. unfold free WorkerState-discrete in ground (arith, off))
      down
step-IsDown r id (now, marks_offline j) c silent down =
    unfold mark_offline take_offline drop_bindings in
    modify-IsDown r id j set_offline (λ w off. unfold set_offline in refl) down
step-IsDown r id (now, takes_offline j) c silent down =
    unfold take_offline in
    modify-IsDown r id j set_offline (λ w off. unfold set_offline in refl) down
step-IsDown r id (now, drops_bindings j) c silent down = unfold drop_bindings in down
step-IsDown r id (now, expires timeout) c silent down = expire_at-IsDown r id now timeout down

run-IsDown :
    (r : Registry) (id : Text) (cs : List (ℕ × Call))
    → IsConsistent r
    → All (IsSilent id) cs
    → IsDown id r
    → IsDown id (run r cs)
unfolding run
run-IsDown r id [] c silent down = down
run-IsDown r id (call ∷ cs) c silent down =
    run-IsDown (step r call) id cs (step-IsConsistent r call c) silent.1
      (step-IsDown r id call c silent.0 down)

Outcome-ne :
    (r : Registry) (id model : Text) (session_id : Option ℕ) (now : ℕ)
    (o : Registry × Option SelectedWorker) (sel : SelectedWorker)
    → Outcome r model session_id now o
    → IsDown id r
    → o.1 ≡ some sel
    → sel.id ≢ id
Outcome-ne r id model session_id now _ sel (refused none_can) down e same = cc
Outcome-ne r id model session_id now _ sel (reserved r' j w found can at binds) down e same =
    absurd (ground (arith, down w, can.is_available))

mark_offline-IsDown : (r : Registry) (id : Text) → IsDown id (mark_offline r id)
unfolding mark_offline take_offline drop_bindings set_offline
mark_offline-IsDown r id w h =
    let (v, e, eq) = get-modify_inv id id set_offline r.workers w h in ground arith

-- A worker that was marked offline is not selected for any model or session, whatever calls come
-- between, until it registers again or sends a heartbeat.
pub mark_offline_until_heard :
    (r : Registry) (id : Text) (cs : List (ℕ × Call)) (model : Text) (session_id : Option ℕ)
    (now : ℕ) (sel : SelectedWorker)
    → IsConsistent r
    → All (IsSilent id) cs
    → (select_and_reserve (run (mark_offline r id) cs) model session_id now).1 ≡ some sel
    → sel.id ≢ id
mark_offline_until_heard r id cs model session_id now sel c silent =
    let c' = mark_offline-IsConsistent r id c in
    Outcome-ne (run (mark_offline r id) cs) id model session_id now _ sel
      (select_and_reserve-Outcome _ model session_id now
        (run-IsConsistent_from (mark_offline r id) cs c'))
      (run-IsDown (mark_offline r id) id cs c' silent (mark_offline-IsDown r id))
