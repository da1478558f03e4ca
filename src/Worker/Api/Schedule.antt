-- ===== src/Worker/Api/Schedule.antt =====
-- Handlers that run at the same time, as the order of their atomic actions.
use decompute.Prelude.{
  ℕ, ◌+◌, ◌≤◌, ◌<◌, true, false, Text, text_eq, List, [], ◌∷◌, none, some, ◌≡◌, arith, nat_eq,
  if◌then◌else◌, ok, err, Option-cases, inl, inr, is_some, contains, erase, length-erase, length,
}
use decompute.Prelude.Map.{
  get, Distinct, insert-Distinct, remove-Distinct, modify-Distinct, length-insert_new,
  length-remove, length-modify,
}
use decompute.Worker.State.{
  WorkerRuntime, begin, cancel, set_cancelled, finish, check_open, take_room, usize, release,
  begin_request, finish_control, drain,
}

-- The requests between two actions of their handlers: `admitted` have passed `check_open`, `starting`
-- have room and are not active yet, `releasing` are not active and have not given their room back.
pub record System : Type 0 where
  pub worker : WorkerRuntime
  pub admitted : List ℕ
  pub starting : List ℕ
  pub releasing : List ℕ

pub data Action : Type 0 where
  checks : Text → ℕ → Action
  reserves begins finishes releases cancels : ℕ → Action
  drains : Action

-- `checks` and `reserves` are `try_reserve`, `finishes` and `releases` are `finish_request`; a request
-- that cannot begin goes on to `releases` too. An action of a handler that is not at that point does
-- not happen.
unfoldable pub step : System → Action → System
step s (checks model id) = elim (check_open s.worker model) [
  | some e ↦ s
  | none ↦ record s { admitted = id ∷ s.admitted }
]
step s (reserves id) =
    if contains id s.admitted
    then elim (take_room s.worker) [
      | err e ↦ record s { admitted = erase id s.admitted }
      | ok w ↦ record s { worker = w; admitted = erase id s.admitted; starting = id ∷ s.starting }
    ]
    else s
step s (begins id) =
    if contains id s.starting
    then elim (begin_request s.worker id) [
      | none ↦ record s { starting = erase id s.starting; releasing = id ∷ s.releasing }
      | some w ↦ record s { worker = w; starting = erase id s.starting }
    ]
    else s
step s (finishes id) =
    if is_some (get id s.worker.requests.active)
    then record s { worker = finish_control s.worker id; releasing = id ∷ s.releasing }
    else s
step s (releases id) =
    if contains id s.releasing
    then record s { worker = release s.worker; releasing = erase id s.releasing }
    else s
step s (cancels id) = record s {
  worker = record s.worker { requests = (cancel s.worker.requests id).0 };
}
step s drains = record s { worker = drain s.worker }

unfoldable pub run : System → List Action → System
run s [] = s
run s (a ∷ actions) = run (step s a) actions

-- The counter is exactly the number of requests that have room, and within the limit.
pub record IsBalanced (max_requests : ℕ) (s : System) : Type 0 where
  pub limit : s.worker.max_requests ≡ max_requests
  pub counted :
      s.worker.active ≡ length s.starting + length s.worker.requests.active + length s.releasing
  pub within : s.worker.active ≤ s.worker.max_requests
  pub distinct : Distinct s.worker.requests.active

module _ (n : ℕ) (word : n < usize) where
  checks-IsBalanced :
      (s : System) (model : Text) (id : ℕ)
      → IsBalanced n s
      → IsBalanced n (step s (checks model id))
  unfolding step check_open
  checks-IsBalanced s model id b = ground (arith, b.limit, b.counted, b.within, b.distinct)

  reserves-IsBalanced : (s : System) (id : ℕ) → IsBalanced n s → IsBalanced n (step s (reserves id))
  unfolding step take_room
  reserves-IsBalanced s id b = ground (arith, b.limit, b.counted, b.within, b.distinct)

  begins-IsBalanced : (s : System) (id : ℕ) → IsBalanced n s → IsBalanced n (step s (begins id))
  unfolding step begin_request begin
  begins-IsBalanced s id b = ground (
    arith,
    b.limit,
    b.counted,
    b.within,
    b.distinct,
    length-erase id s.starting,
    length-insert_new id (record { cancelled = false; channel = s.worker.requests.next_channel })
        s.worker.requests.active,
    insert-Distinct id (record { cancelled = false; channel = s.worker.requests.next_channel })
        s.worker.requests.active,
  )

  finishes-IsBalanced : (s : System) (id : ℕ) → IsBalanced n s → IsBalanced n (step s (finishes id))
  unfolding step finish_control finish
  finishes-IsBalanced s id b = elim (Option-cases (get id s.worker.requests.active)) [
    | inl e ↦ ground (arith, b.limit, b.counted, b.within, b.distinct)
    | inr (control, e) ↦ ground (
      arith,
      b.limit,
      b.counted,
      b.within,
      b.distinct,
      length-remove id s.worker.requests.active control e,
      remove-Distinct id s.worker.requests.active b.distinct,
    )
  ]

  releases-IsBalanced : (s : System) (id : ℕ) → IsBalanced n s → IsBalanced n (step s (releases id))
  unfolding step release
  releases-IsBalanced s id b =
      ground (arith, b.limit, b.counted, b.within, b.distinct, length-erase id s.releasing)

  cancels-IsBalanced : (s : System) (id : ℕ) → IsBalanced n s → IsBalanced n (step s (cancels id))
  unfolding step cancel
  cancels-IsBalanced s id b = ground (
    arith,
    b.limit,
    b.counted,
    b.within,
    b.distinct,
    length-modify id set_cancelled s.worker.requests.active,
    modify-Distinct id set_cancelled s.worker.requests.active b.distinct,
  )

  step-IsBalanced : (s : System) (a : Action) → IsBalanced n s → IsBalanced n (step s a)
  step-IsBalanced s (checks model id) b = checks-IsBalanced s model id b
  step-IsBalanced s (reserves id) b = reserves-IsBalanced s id b
  step-IsBalanced s (begins id) b = begins-IsBalanced s id b
  step-IsBalanced s (finishes id) b = finishes-IsBalanced s id b
  step-IsBalanced s (releases id) b = releases-IsBalanced s id b
  step-IsBalanced s (cancels id) b = cancels-IsBalanced s id b
  step-IsBalanced s drains b =
      unfold step drain in
      record { limit = b.limit; counted = b.counted; within = b.within; distinct = b.distinct }

  -- Whatever the order in which the actions of all handlers come, the counter is the number of
  -- requests that have reserved room and not given it back, it never passes the limit, and no request
  -- id is active twice.
  pub run-IsBalanced :
      (s : System) (actions : List Action) → IsBalanced n s → IsBalanced n (run s actions)
  unfolding run
  run-IsBalanced s [] b = b
  run-IsBalanced s (a ∷ actions) b = run-IsBalanced (step s a) actions (step-IsBalanced s a b)

  step_draining :
      (s : System) (a : Action)
      → IsBalanced n s
      → s.worker.is_draining ≡ true
      → ((step s a).worker.is_draining ≡ true)
        × ((step s a).worker.active + length (step s a).admitted
            ≤ s.worker.active + length s.admitted)
  unfolding step check_open take_room begin_request begin release finish_control finish cancel drain
  step_draining s (checks model id) b d = ground arith
  step_draining s (reserves id) b d = ground (arith, length-erase id s.admitted)
  step_draining s (begins id) b d = ground arith
  step_draining s (finishes id) b d = ground arith
  step_draining s (releases id) b d =
      ground (arith, b.limit, b.counted, b.within, length-erase id s.releasing)
  step_draining s (cancels id) b d = ground arith
  step_draining s drains b d = ground arith

  -- From a balanced state, a worker that drains goes on draining, and its count rises by no more than
  -- the requests that had passed the test of the flag before it drained and had no room yet.
  pub run_draining :
      (s : System) (actions : List Action)
      → IsBalanced n s
      → s.worker.is_draining ≡ true
      → ((run s actions).worker.is_draining ≡ true)
        × ((run s actions).worker.active + length (run s actions).admitted
            ≤ s.worker.active + length s.admitted)
  unfolding run
  run_draining s [] b d = (d, omega arith)
  run_draining s (a ∷ actions) b d =
      let (d', le) = step_draining s a b d in
      let (d'', le') = run_draining (step s a) actions (step-IsBalanced s a b) d' in
      (d'', omega arith)
