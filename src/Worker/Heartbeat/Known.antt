-- ===== src/Worker/Heartbeat/Known.antt =====
-- What the coordinator knows of a worker whose posts arrive.
use decompute.Prelude.{
  ℕ, ◌≤◌, ◌<◌, true, false, [], ◌∷◌, ℕ_discrete, Text, text_eq, Option, none, some, Result, ok, ◌≡◌,
  ◌≢◌, refl, sym, ◌∙◌, arith, In, Option-cases, inl, inr,
}
use decompute.Prelude.Map.{get, get-insert, get-modify, modify}
use decompute.Core.Models.{Acceleration, HardwareInfo}
use decompute.Protocol.Workers.{loaded, offline, available, busy, draining}
use decompute.Coordinator.Record.{WorkerRecord}
use decompute.Coordinator.Registry.{Registry, registered, refresh, available_models}
use decompute.Coordinator.Registry
use decompute.Coordinator.Registry.Invariant.{
  IsConsistent, register-IsConsistent, modify-IsConsistent,
}
use decompute.Coordinator.Registry.Models.{IsOffered, available_models-IsOffered}
use decompute.Coordinator.Api
use decompute.Worker.State.{WorkerRuntime, capabilities, reported_state}
use decompute.Worker.Heartbeat.{Post, register_post, heartbeat_post, register, round}

-- A network on which every post arrives at its route.
unfoldable pub serve : ℕ → Registry → Post → Registry × ℕ
serve now r (register_post request) = Api.register r request now
serve now r (heartbeat_post id request) = Api.heartbeat r id request now

abbrev pub deliver : ℕ → Registry → Post → Registry × Result ℕ Text
deliver now r post = let (r', status) = serve now r post in (r', ok status)

module _ (detect : Acceleration → HardwareInfo) where
  -- The record of a worker that has just been heard.
  abbrev heard : WorkerRuntime → ℕ → Option WorkerRecord → WorkerRecord
  heard w now none = registered (register detect w) now
  heard w now (some old) = refresh (capabilities detect w) now old

  after : Registry → WorkerRuntime → ℕ → Registry
  after r w now = elim (get w.node_id r.workers) [
    | none ↦ Registry.register r (register detect w) now
    | some old ↦ record r {
      workers = modify w.node_id (refresh (capabilities detect w) now) r.workers;
    }
  ]

  round-after :
      (r : Registry) (w : WorkerRuntime) (now : ℕ) → round detect (deliver now) r w ≡ after r w now
  unfolding round after serve Api.register Api.heartbeat Registry.heartbeat ℕ_discrete
  round-after r w now = elim (Option-cases (get w.node_id r.workers)) [
    | inl e ↦ rw (round, Registry.heartbeat, after, e) refl
    | inr (old, e) ↦ rw (round, Registry.heartbeat, after, e) refl
  ]

  get-after :
      (r : Registry) (w : WorkerRuntime) (now : ℕ)
      → get w.node_id (after r w now).workers ≡ some (heard w now (get w.node_id r.workers))
  unfolding after Registry.register register capabilities
  get-after r w now = elim (Option-cases (get w.node_id r.workers)) [
    | inl e ↦
        rw (after, e, get-insert w.node_id w.node_id (registered (register detect w) now) r.workers)
          (ground arith)
    | inr (old, e) ↦
        rw
          (after, e, get-modify w.node_id w.node_id (refresh (capabilities detect w) now) r.workers)
          (ground (arith, e))
  ]

  others-after :
      (r : Registry) (w : WorkerRuntime) (now : ℕ) (id : Text)
      → id ≢ w.node_id
      → get id (after r w now).workers ≡ get id r.workers
  unfolding after Registry.register register capabilities
  others-after r w now id ne = elim (Option-cases (get w.node_id r.workers)) [
    | inl e ↦
        rw (after, e)
          (get-insert w.node_id id (registered (register detect w) now) r.workers
            ∙ ground (arith, ne))
    | inr (old, e) ↦
        rw (after, e)
          (get-modify w.node_id id (refresh (capabilities detect w) now) r.workers
            ∙ ground (arith, ne))
  ]

  after-IsConsistent :
      (r : Registry) (w : WorkerRuntime) (now : ℕ) → IsConsistent r → IsConsistent (after r w now)
  unfolding after refresh
  after-IsConsistent r w now c = elim (Option-cases (get w.node_id r.workers)) [
    | inl e ↦ rw (after, e) (register-IsConsistent r (register detect w) now c)
    | inr (old, e) ↦
        rw (after, e)
          (modify-IsConsistent r w.node_id (refresh (capabilities detect w) now) (λ v. refl) c)
  ]

  reported-online : (w : WorkerRuntime) → reported_state w ≢ offline
  unfolding reported_state
  reported-online w = ground arith

  heard-state :
      (w : WorkerRuntime) (now : ℕ) (old : Option WorkerRecord)
      → (heard w now old).state ≡ reported_state w
  unfolding registered register refresh capabilities
  heard-state w now none = refl
  heard-state w now (some old) = refl

  heard-models :
      (w : WorkerRuntime) (now : ℕ) (old : Option WorkerRecord)
      → (heard w now old).models ≡ (capabilities detect w).models
  unfolding registered register refresh capabilities
  heard-models w now none = refl
  heard-models w now (some old) = refl

  after-IsOffered :
      (r : Registry) (w : WorkerRuntime) (now : ℕ) → IsOffered (after r w now) w.model_id
  unfolding capabilities
  after-IsOffered r w now =
      let old = get w.node_id r.workers in
      record {
        id = w.node_id;
        worker = heard w now old;
        registered = get-after r w now;
        online = λ off. reported-online w (sym (heard-state w now old) ∙ off);
        capability = record {
          id = w.model_id;
          status = loaded;
          manifest_sha256 = some w.manifest.id;
        };
        listed = rw (heard-models w now old) (inl refl);
        named = refl;
        is_loaded = refl;
      }

  -- The coordinator's record of a worker that it has heard at `now`, field by field; `old` is the
  -- record that it had.
  pub record IsHeard (w : WorkerRuntime) (now : ℕ) (old : Option WorkerRecord) (r : WorkerRecord)
      : Type 0 where
    pub id : r.id ≡ w.node_id
    pub first_address : old ≡ none → r.address ≡ w.address
    pub kept_address : (v : WorkerRecord) → old ≡ some v → r.address ≡ v.address
    pub models :
        r.models
        ≡ record { id = w.model_id; status = loaded; manifest_sha256 = some w.manifest.id } ∷ []
    pub active_requests : r.active_requests ≡ w.active
    pub max_requests : r.max_requests ≡ w.max_requests
    pub last_heartbeat : r.last_heartbeat ≡ now
    pub hardware : r.hardware ≡ detect w.acceleration
    pub when_draining : w.is_draining ≡ true → r.state ≡ draining
    pub when_full : w.is_draining ≡ false → w.max_requests ≤ w.active → r.state ≡ busy
    pub when_open : w.is_draining ≡ false → w.active < w.max_requests → r.state ≡ available

  heard-IsHeard :
      (w : WorkerRuntime) (now : ℕ) (old : Option WorkerRecord)
      → ((v : WorkerRecord) → old ≡ some v → v.id ≡ w.node_id)
      → IsHeard w now old (heard w now old)
  unfolding registered register refresh capabilities reported_state
  heard-IsHeard w now none named = record {
    id = refl;
    first_address = λ e. refl;
    kept_address = λ v e. cc;
    models = refl;
    active_requests = refl;
    max_requests = refl;
    last_heartbeat = refl;
    hardware = refl;
    when_draining = λ d. ground arith;
    when_full = λ d full. ground arith;
    when_open = λ d room. ground arith;
  }
  heard-IsHeard w now (some old) named = record {
    id = named old refl;
    first_address = λ e. cc;
    kept_address = λ v e. ground arith;
    models = refl;
    active_requests = refl;
    max_requests = refl;
    last_heartbeat = refl;
    hardware = refl;
    when_draining = λ d. ground arith;
    when_full = λ d full. ground arith;
    when_open = λ d room. ground arith;
  }

  -- On a consistent registry, where every post arrives: after one round the coordinator has a record
  -- of the worker under its name, whether it had one before or had forgotten it. The record has the
  -- worker's model, counts, hardware and state and the time of the round, and the address that the
  -- worker registered with, its present one if it was forgotten. The records of other workers are as
  -- they were, and `/v1/models` lists the worker's model.
  pub round-IsHeard :
      (r : Registry) (w : WorkerRuntime) (now : ℕ)
      → IsConsistent r
      → ((worker : WorkerRecord) × (get w.node_id (round detect (deliver now) r w).workers
            ≡ some worker)
          × IsHeard w now (get w.node_id r.workers) worker)
        × ((id : Text)
            → id ≢ w.node_id
            → get id (round detect (deliver now) r w).workers ≡ get id r.workers)
        × In w.model_id (available_models (round detect (deliver now) r w))
  round-IsHeard r w now c = rw (round-after r w now) (
    (
      heard w now (get w.node_id r.workers),
      get-after r w now,
      heard-IsHeard w now (get w.node_id r.workers) (c.keyed w.node_id),
    ),
    others-after r w now,
    ((available_models-IsOffered (after r w now) (after-IsConsistent r w now c)).0 w.model_id).1
        (after-IsOffered r w now),
  )
