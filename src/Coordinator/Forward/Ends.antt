-- ===== src/Coordinator/Forward/Ends.antt =====
-- crates/coordinator/src/api.rs: tasks that end in calls on the registry, and the effects that do.
use decompute.Prelude.{
  ℕ, zero, suc, ◌≤◌, Bool, true, false, Text, text_eq, List, [], ◌∷◌, ◌++◌, if◌then◌else◌, ◌≡◌,
  refl, ap, ◌∙◌, arith, ◌⊎◌, inl, inr,
}
use decompute.Coordinator.Record.{SelectedWorker}
use decompute.Coordinator.Registry.History.{Call, releases, marks_offline}
use decompute.Coordinator.Forward.{
  Event, Task, call, send_event, send_error, cancel_worker_request, cancel_and_release, Flow,
  continues, returns,
}

unfoldable pub marks : ℕ → Text → List Call
marks zero id = []
marks (suc n) id = marks_offline id ∷ marks n id

-- The calls that end a task: at most `n` times the worker goes offline, and then it is released,
-- once.
unfoldable pub IsEnd : Text → ℕ → List Call → Type 0
unfolding marks
IsEnd id n calls = (k : ℕ) × (k ≤ n) × (calls ≡ marks k id ++ releases id ∷ [])

-- `after` has made calls that end a task, on top of those of `before`.
unfoldable pub Ends : Text → ℕ → Task → Task → Type 0
unfolding IsEnd
Ends id n before after =
    (calls : List Call) × IsEnd id n calls × (after.calls ≡ before.calls ++ calls)

-- A step that goes on has made no call.
unfoldable pub EndsFlow : Text → Task → Flow → Type 0
unfolding Ends
EndsFlow id before (continues next) = next.calls ≡ before.calls
EndsFlow id before (returns last) = Ends id 1 before last

pub append_assoc : (xs ys zs : List Call) → (xs ++ ys) ++ zs ≡ xs ++ (ys ++ zs)
append_assoc [] ys zs = refl
append_assoc (x ∷ xs) ys zs = ap (◌∷◌ x) (append_assoc xs ys zs)

pub Flow-cases :
    (flow : Flow) → ((t : Task) × (flow ≡ continues t)) ⊎ ((t : Task) × (flow ≡ returns t))
Flow-cases (continues t) = inl (t, refl)
Flow-cases (returns t) = inr (t, refl)

pub Ends-after :
    (id : Text) (n : ℕ) (before between after : Task)
    → between.calls ≡ before.calls
    → Ends id n between after
    → Ends id n before after
unfolding Ends
Ends-after id n before between after e (calls, is_end, h) =
    (calls, is_end, h ∙ ap (λ cs. cs ++ calls) e)

pub Ends-weaken :
    (id : Text) (n : ℕ) (before after : Task)
    → Ends id n before after
    → Ends id (suc n) before after
unfolding Ends IsEnd
Ends-weaken id n before after (calls, (k, le, e), h) = (calls, (k, omega arith, e), h)

pub Ends-marked :
    (id : Text) (n : ℕ) (before after : Task)
    → Ends id n (call (marks_offline id) before) after
    → Ends id (suc n) before after
unfolding Ends IsEnd marks call
Ends-marked id n before after (calls, (k, le, e), h) = (
  marks_offline id ∷ calls,
  (suc k, omega arith, ap (◌∷◌ (marks_offline id)) e),
  h ∙ append_assoc before.calls (marks_offline id ∷ []) calls,
)

pub if-Ends :
    (id : Text) (n : ℕ) (before x y : Task) (b : Bool)
    → Ends id n before x
    → Ends id n before y
    → Ends id n before (if b then x else y)
if-Ends id n before x y true h k = h
if-Ends id n before x y false h k = k

pub release-Ends : (id : Text) (task : Task) → Ends id 0 task (call (releases id) task)
unfolding Ends IsEnd marks call
release-Ends id task = (releases id ∷ [], (0, omega arith, refl), refl)

pub cancel_worker_request-Ends :
    (reachable : Bool) (worker : SelectedWorker) (task : Task)
    → Ends worker.id 1 task
        (call (releases worker.id) (cancel_worker_request reachable worker task))
unfolding cancel_worker_request Ends IsEnd marks call
cancel_worker_request-Ends true worker task =
    (releases worker.id ∷ [], (0, omega arith, refl), refl)
cancel_worker_request-Ends false worker task = (
  marks_offline worker.id ∷ releases worker.id ∷ [],
  (1, omega arith, refl),
  append_assoc task.calls (marks_offline worker.id ∷ []) (releases worker.id ∷ []),
)

pub cancel_and_release-Ends :
    (reachable : Bool) (worker : SelectedWorker) (task : Task)
    → Ends worker.id 1 task (cancel_and_release reachable worker task)
unfolding cancel_and_release Ends
cancel_and_release-Ends reachable worker task =
    cancel_worker_request-Ends reachable worker (record task { cancelled = true })

pub send_event-calls_at :
    (event : Event) (task : Task) (n : ℕ)
    → task.room ≡ n
    → (send_event event task).0.calls ≡ task.calls
unfolding send_event
send_event-calls_at event task zero e = rw e refl
send_event-calls_at event task (suc n) e = rw e refl

pub send_event-calls : (event : Event) (task : Task) → (send_event event task).0.calls ≡ task.calls
send_event-calls event task = send_event-calls_at event task task.room refl

pub send_error-calls : (message : Text) (task : Task) → (send_error message task).calls ≡ task.calls
unfolding send_error
send_error-calls message task = send_event-calls (Event.error_event message) task
