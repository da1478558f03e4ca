-- ===== src/Coordinator/Registry/Expiry.antt =====
-- What `expire_at` leaves: workers that were heard of lately, and bindings to such workers.
use decompute.Prelude.{
  ℕ, ◌+◌, ◌-◌, ◌≤◌, Bool, true, Text, text_eq, Option, none, some, ◌≡◌, ◌⊎◌, ◌&&◌, Bool-cases,
  arith, leb, ltb, Option-cases, inl, inr, if◌then◌else◌,
}
use decompute.Prelude.Map.{get, kept, get-map_values, get-retain, get-map_values_inv}
use decompute.Protocol.Workers.{offline, available, worker_state_eq, WorkerState-discrete}
use decompute.Coordinator.Record.{WorkerRecord, SelectedWorker, AffinityBinding}
use decompute.Coordinator.Registry.{
  Registry, AffinityKey, affinity_key_eq, affinity_ttl, select_and_reserve, set_offline,
  expire_worker, is_online, expire_at,
}
use decompute.Coordinator.Registry.Invariant.{IsConsistent, expire_at-IsConsistent}
use decompute.Coordinator.Registry.Reservation.{
  Outcome, refused, reserved, select_and_reserve-Outcome,
}

-- The binding is in use: young enough, and to a worker that is not offline.
pub record IsLive (r : Registry) (now : ℕ) (b : AffinityBinding) : Type 0 where
  pub young : now ≤ b.last_used + affinity_ttl
  pub online : (w : WorkerRecord) × (get b.worker_id r.workers ≡ some w) × (w.state ≡ offline → ⊥)

-- `expire_at` sets offline exactly the workers whose last heartbeat is more than the timeout ago,
-- and changes nothing else of any worker.
pub workers-expire_at :
    (r : Registry) (now timeout : ℕ) (id : Text) (w : WorkerRecord)
    → get id r.workers ≡ some w
    → get id (expire_at r now timeout).workers
      ≡ some (if ltb (w.last_heartbeat + timeout) now then record w { state = offline } else w)
unfolding expire_at set_offline
workers-expire_at r now timeout id w found =
    ground (arith, get-map_values id (expire_worker now timeout) r.workers)

-- The test of `retain`, in the registry after the workers have been marked.
abbrev stays : Registry → ℕ → AffinityBinding → Bool
stays r now b = leb (now - b.last_used) affinity_ttl && is_online (get b.worker_id r.workers)

stays-IsLive :
    (r : Registry) (now : ℕ) (b : AffinityBinding) → stays r now b ≡ true → IsLive r now b
unfolding is_online WorkerState-discrete
stays-IsLive r now b h = record {
  young = ground arith;
  online = elim (Option-cases (get b.worker_id r.workers)) [
    | inl e ↦ absurd (ground arith)
    | inr (w, e) ↦ (w, e, λ off. ground arith)
  ];
}

IsLive-stays :
    (r : Registry) (now : ℕ) (b : AffinityBinding) → IsLive r now b → stays r now b ≡ true
unfolding is_online
IsLive-stays r now b live =
    let (w, found, up) = live.online in ground (arith, found, live.young, up)

affinity-expire_at-kept :
    (r : Registry) (now timeout : ℕ) (k : AffinityKey)
    → IsConsistent r
    → let after = expire_at r now timeout in
      get k after.affinity ≡ kept (λ _. stays after now) k (get k r.affinity)
unfolding expire_at
affinity-expire_at-kept r now timeout k c = get-retain _ k r.affinity c.distinct_affinity

-- A session keeps its binding exactly if the binding is young and its worker is not offline.
pub affinity-expire_at :
    (r : Registry) (now timeout : ℕ) (k : AffinityKey) (b : AffinityBinding)
    → IsConsistent r
    → get k r.affinity ≡ some b
    → ((get k (expire_at r now timeout).affinity ≡ some b) × IsLive (expire_at r now timeout) now b)
      ⊎ ((get k (expire_at r now timeout).affinity ≡ none)
          × ¬ IsLive (expire_at r now timeout) now b)
affinity-expire_at r now timeout k b c found =
    let after = expire_at r now timeout in
    let left = affinity-expire_at-kept r now timeout k c in
    elim (Bool-cases (stays after now b)) [
      | inl yes_stays ↦ inl (ground (arith, left), stays-IsLive after now b yes_stays)
      | inr goes ↦ inr (ground (arith, left), λ live. cc (IsLive-stays after now b live))
    ]

expire_at_inv :
    (r : Registry) (now timeout : ℕ) (id : Text) (w : WorkerRecord)
    → get id (expire_at r now timeout).workers ≡ some w
    → (v : WorkerRecord) × (get id r.workers ≡ some v) × (w ≡ expire_worker now timeout v)
unfolding expire_at
expire_at_inv r now timeout id = get-map_values_inv id (expire_worker now timeout) r.workers

available_fresh :
    (now timeout : ℕ) (v w : WorkerRecord)
    → w ≡ expire_worker now timeout v
    → w.state ≡ available
    → now ≤ v.last_heartbeat + timeout
unfolding expire_worker
available_fresh now timeout v w e up = ground arith

Outcome-fresh :
    (r : Registry) (model : Text) (session_id : Option ℕ) (now : ℕ)
    (o : Registry × Option SelectedWorker) (sel : SelectedWorker)
    → Outcome r model session_id now o
    → o.1 ≡ some sel
    → (w : WorkerRecord) × (get sel.id r.workers ≡ some w) × (w.state ≡ available)
Outcome-fresh r model session_id now _ sel (refused none_can) e = cc
Outcome-fresh r model session_id now _ sel (reserved r' id w found can at binds) e =
    (w, ground arith, can.is_available)

-- A worker that is selected after an expiry sent its last heartbeat within the timeout before it.
pub select_and_reserve-fresh :
    (r : Registry) (expiry timeout : ℕ) (model : Text) (session_id : Option ℕ) (now : ℕ)
    (sel : SelectedWorker)
    → IsConsistent r
    → (select_and_reserve (expire_at r expiry timeout) model session_id now).1 ≡ some sel
    → (w : WorkerRecord) × (get sel.id r.workers ≡ some w) × (expiry ≤ w.last_heartbeat + timeout)
select_and_reserve-fresh r expiry timeout model session_id now sel c e =
    let s = expire_at r expiry timeout in
    let (w, found, up) =
      Outcome-fresh s model session_id now _ sel
        (select_and_reserve-Outcome s model session_id now
          (expire_at-IsConsistent r expiry timeout c))
        e in
    let (v, v_found, eq) = expire_at_inv r expiry timeout sel.id w found in
    (v, v_found, available_fresh expiry timeout v w eq up)
