-- ===== src/Coordinator/Registry/Invariant.antt =====
-- What holds of the registry after any history of calls.
use decompute.Prelude.{
  ℕ, Bool, true, Text, text_eq, Option, none, some, ◌≡◌, refl, inl, inr, arith, is_some,
  Option-cases,
}
use decompute.Prelude.Map.{
  get, modify, retain, Distinct, get-insert, get-modify, get-map_values, get-modify_inv,
  get-map_values_inv, get-retain_inv, insert-Distinct, modify-Distinct, map_values-Distinct,
  retain-Distinct,
}
use decompute.Protocol.Workers.{RegisterWorkerRequest, HeartbeatRequest}
use decompute.Coordinator.Record.{WorkerRecord, AffinityBinding}
use decompute.Coordinator.Registry.{
  Registry, AffinityKey, affinity_key_eq, default, registered, register, refresh, heartbeat,
  bind_session, free, release, set_offline, take_offline, drop_bindings, mark_offline,
  expire_worker, expire_at,
}

-- Both maps are maps, a worker stands under its own name, and a session is bound to a known worker.
pub record IsConsistent (r : Registry) : Type 0 where
  pub distinct_workers : Distinct r.workers
  pub distinct_affinity : Distinct r.affinity
  pub keyed : (id : Text) (w : WorkerRecord) → get id r.workers ≡ some w → w.id ≡ id
  pub bound :
      (k : AffinityKey) (b : AffinityBinding)
      → get k r.affinity ≡ some b
      → is_some (get b.worker_id r.workers) ≡ true

pub default-IsConsistent : IsConsistent default
unfolding get
default-IsConsistent = record {
  distinct_workers = tt;
  distinct_affinity = tt;
  keyed = λ id w h. cc;
  bound = λ k b h. cc;
}

pub register-IsConsistent :
    (r : Registry) (request : RegisterWorkerRequest) (now : ℕ)
    → IsConsistent r
    → IsConsistent (register r request now)
unfolding register
register-IsConsistent r request now c =
    let at =
      λ (j : Text). get-insert request.capabilities.node_id j (registered request now) r.workers in
    record {
      distinct_workers = insert-Distinct _ _ r.workers c.distinct_workers;
      distinct_affinity = c.distinct_affinity;
      keyed = λ id w h. ground (arith, at id, c.keyed id w);
      bound = λ k b h. ground (arith, at b.worker_id, c.bound k b h);
    }

-- A write to one worker that keeps its name.
pub modify-IsConsistent :
    (r : Registry) (id : Text) (f : WorkerRecord → WorkerRecord)
    → ((w : WorkerRecord) → (f w).id ≡ w.id)
    → IsConsistent r
    → IsConsistent (record r { workers = modify id f r.workers })
modify-IsConsistent r id f same c = record {
  distinct_workers = modify-Distinct id f r.workers c.distinct_workers;
  distinct_affinity = c.distinct_affinity;
  keyed = λ j w h.
      let (v, e, eq) = get-modify_inv id j f r.workers w h in ground (arith, c.keyed j v e, same v);
  bound = λ k b h. ground (arith, get-modify id b.worker_id f r.workers, c.bound k b h);
}

pub retain-IsConsistent :
    (r : Registry) (p : AffinityKey → AffinityBinding → Bool)
    → IsConsistent r
    → IsConsistent (record r { affinity = retain p r.affinity })
retain-IsConsistent r p c = record {
  distinct_workers = c.distinct_workers;
  distinct_affinity = retain-Distinct p r.affinity c.distinct_affinity;
  keyed = c.keyed;
  bound = λ k b h. c.bound k b (get-retain_inv p k r.affinity b c.distinct_affinity h).0;
}

pub heartbeat-IsConsistent :
    (r : Registry) (id : Text) (request : HeartbeatRequest) (now : ℕ)
    → IsConsistent r
    → IsConsistent (heartbeat r id request now).0
unfolding heartbeat
heartbeat-IsConsistent r id request now c = elim (Option-cases (get id r.workers)) [
  | inl e ↦ rw (e, heartbeat) c
  | inr (w, e) ↦
      rw (e, heartbeat) (modify-IsConsistent r id (refresh request.capabilities now) (λ v. refl) c)
]

pub release-IsConsistent : (r : Registry) (id : Text) → IsConsistent r → IsConsistent (release r id)
unfolding release
release-IsConsistent r id = modify-IsConsistent r id free (λ v. refl)

pub take_offline-IsConsistent :
    (r : Registry) (id : Text) → IsConsistent r → IsConsistent (take_offline r id)
unfolding take_offline
take_offline-IsConsistent r id c = modify-IsConsistent r id set_offline (λ v. refl) c

pub drop_bindings-IsConsistent :
    (r : Registry) (id : Text) → IsConsistent r → IsConsistent (drop_bindings r id)
unfolding drop_bindings
drop_bindings-IsConsistent r id c = retain-IsConsistent _ _ c

pub mark_offline-IsConsistent :
    (r : Registry) (id : Text) → IsConsistent r → IsConsistent (mark_offline r id)
unfolding mark_offline
mark_offline-IsConsistent r id c =
    drop_bindings-IsConsistent (take_offline r id) id (take_offline-IsConsistent r id c)

pub expire_at-IsConsistent :
    (r : Registry) (now timeout : ℕ) → IsConsistent r → IsConsistent (expire_at r now timeout)
unfolding expire_at
expire_at-IsConsistent r now timeout c = retain-IsConsistent _ _ (record {
  distinct_workers = map_values-Distinct _ r.workers c.distinct_workers;
  distinct_affinity = c.distinct_affinity;
  keyed = λ j w h.
      let (v, e, eq) = get-map_values_inv j (expire_worker now timeout) r.workers w h in
      ground (arith, c.keyed j v e);
  bound = λ k b h.
      ground
        (arith, get-map_values b.worker_id (expire_worker now timeout) r.workers, c.bound k b h);
})

pub bind_session-IsConsistent :
    (r : Registry) (model : Text) (session_id : Option ℕ) (now : ℕ) (id : Text) (w : WorkerRecord)
    → get id r.workers ≡ some w
    → IsConsistent r
    → IsConsistent (bind_session r model session_id now id)
unfolding bind_session
bind_session-IsConsistent r model none now id w e c = c
bind_session-IsConsistent r model (some session) now id w e c = record {
  distinct_workers = c.distinct_workers;
  distinct_affinity = insert-Distinct _ _ r.affinity c.distinct_affinity;
  keyed = c.keyed;
  bound = λ k b h. ground (
    arith,
    get-insert (session, model) k (record { worker_id = id; last_used = now }) r.affinity,
    c.bound k b,
  );
}
