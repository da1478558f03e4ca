-- ===== src/Worker/Api/Accepts.antt =====
-- What a worker accepts, and that a request which is over leaves the worker as it was.
use mathlib.Core.Path.{subst}
use decompute.Prelude.{
  ℕ, ◌+◌, ◌≤◌, ◌<◌, Bool, false, Text, text_eq, Option, none, some, ◌≡◌, sym, ◌∙◌, arith, nat_eq,
  ok, err, Result-cases, inl, inr, ◌==◌, if◌then◌else◌,
}
use decompute.Prelude.Map.{get, insert, Distinct, insert-Distinct, get-insert, get-remove}
use decompute.Protocol.Requests.{GenerateRequest}
use decompute.Worker.State.{
  WorkerRuntime, RequestControl, begin, finish, try_reserve, usize, release, begin_request,
  finish_request,
}
use decompute.Worker.Api.{Refusal, normalize_request, accept, complete}

-- The counter is a machine word within its limit, and no request id is active twice.
pub record IsSound (w : WorkerRuntime) : Type 0 where
  pub within : w.active ≤ w.max_requests
  pub word : w.max_requests < usize
  pub distinct : Distinct w.requests.active

-- What an accepted request finds, and what it changes.
pub record Accepted (w w' : WorkerRuntime) (model : Text) (request_id : ℕ) : Type 0 where
  pub is_model : model ≡ w.model_id
  pub is_open : w.is_draining ≡ false
  pub room : w'.active ≤ w.max_requests
  pub counted : w'.active ≡ w.active + 1
  pub unused : get request_id w.requests.active ≡ none
  pub controls :
      (j : ℕ)
      → get j w'.requests.active ≡ (
          if request_id == j
          then some (record { cancelled = false; channel = w.requests.next_channel })
          else get j w.requests.active)

module _ {V : Type 0} (is_object : V → Bool) where
  -- A request that is refused, for whichever reason, leaves the worker as it was.
  pub accept-err :
      (w : WorkerRuntime) (request : GenerateRequest V) (r : Refusal)
      → IsSound w
      → (accept is_object w request).1 ≡ err r
      → (accept is_object w request).0 ≡ w
  unfolding accept try_reserve release
  accept-err w request r s h = ground arith

  -- A request that is accepted is the normalized one, for the worker's own model, while the worker
  -- is not draining and has room; it is counted, within the limit, and becomes active under an id
  -- that was not active, with a cancellation token that is not cancelled.
  pub accept-Accepted :
      (w : WorkerRuntime) (request q : GenerateRequest V)
      → (accept is_object w request).1 ≡ ok q
      → (normalize_request is_object request ≡ ok q)
        × Accepted w (accept is_object w request).0 q.model q.request_id
  unfolding accept try_reserve begin_request begin
  accept-Accepted w request q h =
      let at = λ (j : ℕ).
        get-insert q.request_id j (record { cancelled = false; channel = w.requests.next_channel })
          w.requests.active in
      (
        ground arith,
        record {
          is_model = ground arith;
          is_open = ground arith;
          room = ground arith;
          counted = ground arith;
          unused = ground arith;
          controls = λ j. ground (arith, at j);
        },
      )

  active-accept :
      (w : WorkerRuntime) (request q : GenerateRequest V)
      → (accept is_object w request).1 ≡ ok q
      → (accept is_object w request).0.requests.active
        ≡ insert q.request_id
            (record { cancelled = false; channel = w.requests.next_channel })
            w.requests.active
  unfolding accept try_reserve begin_request begin
  active-accept w request q h = ground arith

  max_requests-accept :
      (w : WorkerRuntime) (request : GenerateRequest V)
      → (accept is_object w request).0.max_requests ≡ w.max_requests
  unfolding accept try_reserve release begin_request
  max_requests-accept w request = ground arith

  -- Every request, accepted or refused, leaves the counter within its limit.
  pub accept-IsSound :
      (w : WorkerRuntime) (request : GenerateRequest V)
      → IsSound w
      → IsSound (accept is_object w request).0
  accept-IsSound w request s = elim (Result-cases (accept is_object w request).1) [
    | inr (r, e) ↦ subst IsSound (sym (accept-err w request r s e)) s
    | inl (q, e) ↦
        let a = (accept-Accepted w request q e).1 in
        record {
          within = omega (arith, a.room, max_requests-accept w request);
          word = omega (arith, s.word, max_requests-accept w request);
          distinct = rw (active-accept w request q e) (insert-Distinct _ _ _ s.distinct);
        }
  ]

complete_lem :
    (w : WorkerRuntime) (request_id : ℕ) (control : RequestControl)
    → IsSound w
    → 0 < w.active
    → get request_id w.requests.active ≡ some control
    → ((complete w request_id).active + 1 ≡ w.active)
      × ((j : ℕ)
          → get j (complete w request_id).requests.active
            ≡ (if request_id == j then none else get j w.requests.active))
unfolding complete finish_request finish
complete_lem w request_id control s h found = (
  omega (arith, s.within, s.word),
  λ j. ground (arith, get-remove request_id j w.requests.active s.distinct),
)

undone :
    (a b : Option RequestControl) (id j : ℕ) (new : RequestControl)
    → a ≡ (if id == j then some new else b)
    → (id ≡ j → b ≡ none)
    → (if id == j then none else a) ≡ b
undone a b id j new e unused = ground (arith, unused)

module _ {V : Type 0} (is_object : V → Bool) where
  -- Once an accepted request is over, the worker counts as many requests as before, and the same
  -- requests are active.
  pub complete-accept :
      (w : WorkerRuntime) (request q : GenerateRequest V)
      → IsSound w
      → (accept is_object w request).1 ≡ ok q
      → let after = complete (accept is_object w request).0 q.request_id in
        (after.active ≡ w.active)
        × ((j : ℕ) → get j after.requests.active ≡ get j w.requests.active)
  complete-accept w request q s h =
      let a = (accept-Accepted is_object w request q h).1 in
      let new : RequestControl = record { cancelled = false; channel = w.requests.next_channel } in
      let (active, controls) =
        complete_lem (accept is_object w request).0 q.request_id new
          (accept-IsSound is_object w request s) (omega (arith, a.counted))
          (ground (arith, a.controls q.request_id)) in
      (
        omega (arith, a.counted, active),
        λ j. controls j ∙ undone _ _ q.request_id j new (a.controls j) (λ e. rw (← e) a.unused),
      )
