-- ===== src/Coordinator/Scheduler/Choice.antt =====
-- What `select_worker` chooses: a worker that can serve the model, and the best of those.
use decompute.Prelude.{
  ◌<◌, true, false, Text, text_lt, text_eq, List, [], ◌∷◌, Option, none, some, ◌≡◌, refl, ap, ◌↔◌,
  ◌⊎◌, ◌≢◌, inl, inr, arith, ltb, ◌==◌, any, filter, In, In-filter, filter-In, Bool-cases,
  Option-cases,
}
use decompute.Prelude.MinBy.{min_by, min_by-In, min_by-eq-none, min_by-least}
use decompute.Core.Models.{Acceleration, cpu, metal, cuda}
use decompute.Protocol.Workers.{
  ModelCapability, loaded, model_status_eq, available, worker_state_eq,
}
use decompute.Coordinator.Record.{WorkerRecord}
use decompute.Coordinator.Scheduler.{
  acceleration_rank, key, key_lt, serves, worker_lt, select_worker,
}
use decompute.Coordinator.Scheduler.Order.{worker_lt-IsStrict, worker_lt-total}

-- The worker is available, has room, and has loaded the model.
pub record CanServe (model : Text) (w : WorkerRecord) : Type 0 where
  pub is_available : w.state ≡ available
  pub has_room : w.active_requests < w.max_requests
  pub has_model : (m : ModelCapability) × In m w.models × (m.id ≡ model) × (m.status ≡ loaded)

-- `a` infers on Metal or CUDA, and `b` on its CPU.
abbrev pub HasFasterDevice : WorkerRecord → WorkerRecord → Type 0
HasFasterDevice a b = (a.hardware.acceleration ≢ cpu) × (b.hardware.acceleration ≡ cpu)

-- Both on their CPUs, or neither: Metal and CUDA are worth the same.
abbrev pub HaveLikeDevices : WorkerRecord → WorkerRecord → Type 0
HaveLikeDevices a b = (a.hardware.acceleration ≡ cpu) ↔ (b.hardware.acceleration ≡ cpu)

-- `a` is preferred to `b`: a faster device, then less work, then the earlier name.
abbrev pub IsPreferred : WorkerRecord → WorkerRecord → Type 0
IsPreferred a b =
    HasFasterDevice a b
    ⊎ (HaveLikeDevices a b × (a.active_requests < b.active_requests))
    ⊎ (HaveLikeDevices a b × (a.active_requests ≡ b.active_requests) × (text_lt a.id b.id ≡ true))

-- The two ranks of a device.
rank-cpu : (a : Acceleration) → a ≡ cpu → acceleration_rank a ≡ 1
unfolding acceleration_rank
rank-cpu cpu e = refl
rank-cpu metal e = cc
rank-cpu cuda e = cc

rank-fast : (a : Acceleration) → a ≢ cpu → acceleration_rank a ≡ 0
unfolding acceleration_rank
rank-fast cpu e = absurd (e refl)
rank-fast metal e = refl
rank-fast cuda e = refl

is_cpu : (a : Acceleration) → (a ≡ cpu) ⊎ (a ≢ cpu)
is_cpu cpu = inl refl
is_cpu metal = inr (λ e. cc)
is_cpu cuda = inr (λ e. cc)

worker_lt_of_preferred : (a b : WorkerRecord) → IsPreferred a b → worker_lt a b ≡ true
unfolding worker_lt key key_lt
worker_lt_of_preferred a b p = ground (
  arith,
  is_cpu a.hardware.acceleration,
  is_cpu b.hardware.acceleration,
  rank-cpu a.hardware.acceleration,
  rank-cpu b.hardware.acceleration,
  rank-fast a.hardware.acceleration,
  rank-fast b.hardware.acceleration,
)

IsPreferred-of_worker_lt : (a b : WorkerRecord) → worker_lt a b ≡ true → IsPreferred a b
unfolding worker_lt key key_lt
IsPreferred-of_worker_lt a b h = ground (
  arith,
  is_cpu a.hardware.acceleration,
  is_cpu b.hardware.acceleration,
  rank-cpu a.hardware.acceleration,
  rank-cpu b.hardware.acceleration,
  rank-fast a.hardware.acceleration,
  rank-fast b.hardware.acceleration,
)

pub any-serves :
    (model : Text) (ms : List ModelCapability)
    → any (serves model) ms ≡ true
    → (m : ModelCapability) × In m ms × (m.id ≡ model) × (m.status ≡ loaded)
unfolding any serves
any-serves model [] h = cc
any-serves model (m ∷ ms) h = elim (Bool-cases (serves model m)) [
  | inl hit ↦ (m, inl refl, ground arith, ground arith)
  | inr miss ↦ let (n, at, i, s) = any-serves model ms (ground arith) in (n, inr at, i, s)
]

pub serves-any :
    (model : Text) (ms : List ModelCapability) (m : ModelCapability)
    → In m ms
    → m.id ≡ model
    → m.status ≡ loaded
    → any (serves model) ms ≡ true
unfolding any serves
serves-any model [] m at i s = absurd at.0
serves-any model (n ∷ ms) m (inl e) i s = ground arith
serves-any model (n ∷ ms) m (inr at) i s = ground (arith, serves-any model ms m at i s)

abbrev candidates : Text → List WorkerRecord → List WorkerRecord
candidates model workers =
    filter (λ worker. ltb worker.active_requests worker.max_requests)
      (filter (λ worker. any (serves model) worker.models)
        (filter (λ worker. worker.state == available) workers))

candidates-In :
    (model : Text) (workers : List WorkerRecord) (w : WorkerRecord)
    → In w (candidates model workers)
    → In w workers × CanServe model w
candidates-In model workers w h =
    let (h', room) = In-filter (λ v. ltb v.active_requests v.max_requests) w _ h in
    let (h'', model_at) = In-filter (λ v. any (serves model) v.models) w _ h' in
    let (at, state) = In-filter (λ v. v.state == available) w workers h'' in
    (
      at,
      record {
        is_available = ground arith;
        has_room = ground arith;
        has_model = any-serves model w.models model_at;
      },
    )

In-candidates :
    (model : Text) (workers : List WorkerRecord) (w : WorkerRecord)
    → In w workers
    → CanServe model w
    → In w (candidates model workers)
In-candidates model workers w at c =
    let (m, m_at, i, s) = c.has_model in
    filter-In (λ v. ltb v.active_requests v.max_requests) w _
      (filter-In (λ v. any (serves model) v.models) w _
        (filter-In (λ v. v.state == available) w workers at (ground (arith, c.is_available)))
        (serves-any model w.models m m_at i s))
      (ground (arith, c.has_room))

-- The promise of the scheduler on a list of workers, for its two answers.
pub data Choice (model : Text) (workers : List WorkerRecord) : Option WorkerRecord → Type 0 where
  nobody : ((w : WorkerRecord) → In w workers → ¬ CanServe model w) → Choice model workers none
  best :
      (w : WorkerRecord)
      → In w workers
      → CanServe model w
      → ((v : WorkerRecord) → In v workers → CanServe model v → ¬ IsPreferred v w)
      → Choice model workers (some w)

-- `select_worker` chooses a worker of the list that can serve the model and to which no other such
-- worker is preferred, and answers `None` only if no worker of the list can serve the model.
pub select_worker-Choice :
    (model : Text) (workers : List WorkerRecord)
    → Choice model workers (select_worker workers model)
unfolding select_worker
select_worker-Choice model workers =
    elim (Option-cases (min_by worker_lt (candidates model workers))) [
      | inl e ↦ rw e (
          nobody λ w at c.
            let none_left : In w [] =
              rw (min_by-eq-none worker_lt _ e) at (In-candidates model workers w at c) in
            none_left.0)
      | inr (w, e) ↦
          let (at, c) = candidates-In model workers w (min_by-In worker_lt _ w e) in
          rw e (
            best w at c λ v v_at d p. cc (
              worker_lt_of_preferred v w p,
              min_by-least worker_lt worker_lt-IsStrict _ w v e
                  (In-candidates model workers v v_at d),
            ))
    ]

-- Two lists with the same workers, each name once, give the same choice.
pub record SameWorkers (xs ys : List WorkerRecord) : Type 0 where
  pub same : (w : WorkerRecord) → In w xs ↔ In w ys
  pub named : (v w : WorkerRecord) → In v xs → In w xs → v.id ≡ w.id → v ≡ w

preferred-total : (a b : WorkerRecord) → ¬ IsPreferred a b → ¬ IsPreferred b a → a.id ≡ b.id
preferred-total a b p q = worker_lt-total a b (not_lt a b p) (not_lt b a q)
  where
    not_lt : (x y : WorkerRecord) → ¬ IsPreferred x y → worker_lt x y ≡ false
    not_lt x y no_pref = elim (Bool-cases (worker_lt x y)) [
      | inl less ↦ absurd (no_pref (IsPreferred-of_worker_lt x y less))
      | inr done ↦ done
    ]

Choice-eq :
    (model : Text) (xs ys : List WorkerRecord) (a b : Option WorkerRecord)
    → SameWorkers xs ys
    → Choice model xs a
    → Choice model ys b
    → a ≡ b
Choice-eq model xs ys a b s (nobody f) (nobody g) = refl
Choice-eq model xs ys a b s (nobody f) (best w at c least) = absurd (f w ((s.same w).1 at) c)
Choice-eq model xs ys a b s (best v at c least) (nobody g) = absurd (g v ((s.same v).0 at) c)
Choice-eq model xs ys a b s (best v v_at c least) (best w w_at d least') =
    let w_in = (s.same w).1 w_at in
    ap some (
      s.named v w v_at w_in
        (preferred-total v w (λ p. least' v ((s.same v).0 v_at) c p) (λ p. least w w_in d p)))

-- The order in which the workers are listed has no influence on the choice.
pub select_worker-order :
    (model : Text) (xs ys : List WorkerRecord)
    → SameWorkers xs ys
    → select_worker xs model ≡ select_worker ys model
select_worker-order model xs ys s =
    Choice-eq model xs ys _ _ s (select_worker-Choice model xs) (select_worker-Choice model ys)

Choice-some :
    (model : Text) (xs : List WorkerRecord) (o : Option WorkerRecord) (w : WorkerRecord)
    → Choice model xs o
    → o ≡ some w
    → In w xs × CanServe model w
Choice-some model xs none w (nobody f) e = cc
Choice-some model xs (some v) w (best u at c least) e = ground (arith, at, c)

pub select_worker-some :
    (model : Text) (xs : List WorkerRecord) (w : WorkerRecord)
    → select_worker xs model ≡ some w
    → In w xs × CanServe model w
select_worker-some model xs w = Choice-some model xs _ w (select_worker-Choice model xs)

Choice-none :
    (model : Text) (xs : List WorkerRecord) (o : Option WorkerRecord) (w : WorkerRecord)
    → Choice model xs o
    → o ≡ none
    → In w xs
    → ¬ CanServe model w
Choice-none model xs none w (nobody f) e at = f w at
Choice-none model xs (some v) w (best u _ c least) e at = cc

pub select_worker-none :
    (model : Text) (xs : List WorkerRecord) (w : WorkerRecord)
    → select_worker xs model ≡ none
    → In w xs
    → ¬ CanServe model w
select_worker-none model xs w = Choice-none model xs _ w (select_worker-Choice model xs)
