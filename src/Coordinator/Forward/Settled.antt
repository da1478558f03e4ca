-- ===== src/Coordinator/Forward/Settled.antt =====
-- crates/coordinator/src/api.rs: what a forwarding task leaves behind in the registry, on each of
-- its paths.
use mathlib.Core.Path.{subst}
use decompute.Prelude.{
  ℕ, zero, suc, Bool, Text, text, text_eq, List, [], ◌∷◌, ◌++◌, Option, none, some, ◌==◌, Result,
  ok, err, length, ◌≡◌, refl, ◌∙◌, Bool-cases, inl, inr, Result-cases, Option-cases,
}
use decompute.Prelude.Bytes.{take, drop}
use decompute.Core.Json.{Json}
use decompute.Protocol.Requests.{GenerationStreamEvent, text_delta, completed, error}
use decompute.Coordinator.Record.{SelectedWorker}
use decompute.Coordinator.Registry.History.{releases, marks_offline}
use decompute.Coordinator.OpenAi.Response.{
  ChatCompletionChunk, StreamContext, role_chunk, text_chunk, completed_chunks,
}
use decompute.Coordinator.Sse.{sse_frame_end, sse_data}
use decompute.Coordinator.Forward.{
  Task, call, send_event, send_error, cancel_and_release, Flow, continues, returns, send_chunks,
  handle_event, fail, handle_payload, handle_frame, drain_frames, finish_stream, read_chunks,
  forward_worker_stream, Reply, replied, unreadable, status, unreachable, request_future,
  forward_worker_request, json_event, done_event,
}
use decompute.Coordinator.Forward.Ends.{
  Ends, EndsFlow, Flow-cases, Ends-after, Ends-weaken, Ends-marked, if-Ends, release-Ends,
  cancel_worker_request-Ends, cancel_and_release-Ends, send_event-calls, send_error-calls,
}

send_chunks-EndsFlow :
    (worker : SelectedWorker) (chunks : List ChatCompletionChunk) (before task : Task)
    → task.calls ≡ before.calls
    → EndsFlow worker.id before (send_chunks worker chunks task)
unfolding send_chunks EndsFlow
send_chunks-EndsFlow worker [] before task h = h
send_chunks-EndsFlow worker (c ∷ chunks) before task h =
    let sent = (send_event (json_event c) task).0 in
    let same = send_event-calls (json_event c) task ∙ h in
    elim (Bool-cases (send_event (json_event c) task).1) [
      | inl e ↦ rw (EndsFlow, e) (send_chunks-EndsFlow worker chunks before sent same)
      | inr e ↦
          rw (EndsFlow, e)
            (Ends-after worker.id 1 before sent (call (releases worker.id) sent) same (
              Ends-weaken worker.id 0 sent (call (releases worker.id) sent)
                (release-Ends worker.id sent)))
    ]

module _ {V : Type 0} (json : Json V) (parse : Text → Result (GenerationStreamEvent V) Text)
    (utf8_error : List ℕ → Text) (reachable : Bool) (worker : SelectedWorker)
    (context : StreamContext) where
  cancel-Ends :
      (before task : Task)
      → task.calls ≡ before.calls
      → Ends worker.id 1 before (cancel_and_release reachable worker task)
  cancel-Ends before task h =
      Ends-after worker.id 1 before task (cancel_and_release reachable worker task) h
        (cancel_and_release-Ends reachable worker task)

  fail-EndsFlow :
      (message : Text) (task : Task)
      → EndsFlow worker.id task (fail json parse utf8_error reachable worker context message task)
  unfolding fail EndsFlow
  fail-EndsFlow message task =
      cancel-Ends task (send_error message task) (send_error-calls message task)

  handle_event-EndsFlow :
      (event : GenerationStreamEvent V) (task : Task)
      → EndsFlow worker.id task
          (handle_event json parse utf8_error reachable worker context event task)
  unfolding handle_event EndsFlow
  handle_event-EndsFlow (text_delta t) task =
      let event = json_event (text_chunk context t) in
      elim (Bool-cases (send_event event task).1) [
        | inl e ↦ rw (EndsFlow, e) (send_event-calls event task)
        | inr e ↦
            rw (EndsFlow, e)
              (cancel-Ends task (send_event event task).0 (send_event-calls event task))
      ]
  handle_event-EndsFlow (completed i o calls reason) task =
      send_chunks-EndsFlow worker (completed_chunks json context i o calls reason) task task refl
  handle_event-EndsFlow (error message) task =
      let sent = send_error message task in
      let after = call (releases worker.id) sent in
      Ends-after worker.id 1 task sent after (send_error-calls message task)
        (Ends-weaken worker.id 0 sent after (release-Ends worker.id sent))

  handle_payload-EndsFlow :
      (payload : Text) (task : Task)
      → EndsFlow worker.id task
          (handle_payload json parse utf8_error reachable worker context payload task)
  unfolding handle_payload EndsFlow
  handle_payload-EndsFlow payload task = elim (Result-cases (parse payload)) [
    | inl (event, e) ↦ rw (EndsFlow, handle_payload, e) (handle_event-EndsFlow event task)
    | inr (e', e) ↦
        rw (EndsFlow, handle_payload, e)
          (fail-EndsFlow (text "invalid worker stream event: " ++ e') task)
  ]

  handle_frame-EndsFlow :
      (frame : List ℕ) (task : Task)
      → EndsFlow worker.id task
          (handle_frame json parse utf8_error reachable worker context frame task)
  unfolding handle_frame EndsFlow
  handle_frame-EndsFlow frame task = elim (Result-cases (sse_data utf8_error frame)) [
    | inl (none, e) ↦ rw (EndsFlow, handle_frame, e) refl
    | inl (some payload, e) ↦
        rw (EndsFlow, handle_frame, e)
          (elim (Bool-cases (payload == text "[DONE]")) [
            | inl d ↦ rw (EndsFlow, d) refl
            | inr d ↦ rw (EndsFlow, d) (handle_payload-EndsFlow payload task)
          ])
    | inr (message, e) ↦ rw (EndsFlow, handle_frame, e) (fail-EndsFlow message task)
  ]

  EndsFlow-after :
      (before between : Task) (flow : Flow)
      → between.calls ≡ before.calls
      → EndsFlow worker.id between flow
      → EndsFlow worker.id before flow
  unfolding EndsFlow
  EndsFlow-after before between (continues next) h k = k ∙ h
  EndsFlow-after before between (returns last) h k = Ends-after worker.id 1 before between last h k

  drain_frames-EndsFlow :
      (fuel : ℕ) (pending : List ℕ) (task : Task)
      → EndsFlow worker.id task
          (drain_frames json parse utf8_error reachable worker context fuel pending task).0
  unfolding drain_frames EndsFlow
  drain_frames-EndsFlow zero pending task = refl
  drain_frames-EndsFlow (suc fuel) pending task = elim (Option-cases (sse_frame_end pending)) [
    | inl e ↦ rw (EndsFlow, drain_frames, e) refl
    | inr (n, e) ↦
        rw (EndsFlow, drain_frames, e)
          (let frame =
              handle_frame json parse utf8_error reachable worker context (take n pending) task in
            let ends = handle_frame-EndsFlow (take n pending) task in
            elim (Flow-cases frame) [
              | inl (next, f) ↦
                  rw (EndsFlow, f)
                    (EndsFlow-after task next
                      (drain_frames json parse utf8_error reachable worker context fuel
                        (drop n pending) next).0
                      (subst (EndsFlow worker.id task) f ends)
                      (drain_frames-EndsFlow fuel (drop n pending) next))
              | inr (last, f) ↦ rw (EndsFlow, f) (subst (EndsFlow worker.id task) f ends)
            ])
  ]

  finish_stream-Ends :
      (task : Task)
      → Ends worker.id 1 task (finish_stream json parse utf8_error reachable worker context task)
  unfolding finish_stream
  finish_stream-Ends task =
      let sent = (send_event done_event task).0 in
      let message = text "worker stream ended before completion" in
      if-Ends worker.id 1 task (call (releases worker.id) sent)
        (cancel_and_release reachable worker (send_error message task)) task.is_complete
        (Ends-weaken worker.id 0 task (call (releases worker.id) sent) (
          Ends-after worker.id 0 task sent (call (releases worker.id) sent)
            (send_event-calls done_event task) (release-Ends worker.id sent)))
        (cancel-Ends task (send_error message task) (send_error-calls message task))

  read_chunks-Ends :
      (chunks : List (Result (List ℕ) Text)) (pending : List ℕ) (task : Task)
      → Ends worker.id 2 task
          (read_chunks json parse utf8_error reachable worker context chunks pending task)
  unfolding read_chunks
  read_chunks-Ends [] pending task =
      Ends-weaken worker.id 1 task
        (finish_stream json parse utf8_error reachable worker context task)
        (finish_stream-Ends task)
  read_chunks-Ends (err e ∷ chunks) pending task =
      let marked = call (marks_offline worker.id) task in
      let sent = send_error (text "worker stream failed: " ++ e) marked in
      let after = finish_stream json parse utf8_error reachable worker context sent in
      Ends-marked worker.id 1 task after (
        Ends-after worker.id 1 marked sent after
          (send_error-calls (text "worker stream failed: " ++ e) marked) (finish_stream-Ends sent))
  read_chunks-Ends (ok chunk ∷ chunks) pending task =
      let bytes = pending ++ chunk in
      let drained =
        drain_frames json parse utf8_error reachable worker context (length bytes) bytes task in
      let ends = drain_frames-EndsFlow (length bytes) bytes task in
      elim (Flow-cases drained.0) [
        | inl (next, e) ↦
            rw (read_chunks, e)
              (Ends-after worker.id 2 task next
                (read_chunks json parse utf8_error reachable worker context chunks drained.1 next)
                (unfold EndsFlow in subst (EndsFlow worker.id task) e ends)
                (read_chunks-Ends chunks drained.1 next))
        | inr (last, e) ↦
            rw (read_chunks, e)
              (Ends-weaken worker.id 1 task last
                (unfold EndsFlow in subst (EndsFlow worker.id task) e ends))
      ]

  -- Whatever the body of the worker's response holds or fails with, whether or not the client stays
  -- and the worker can be reached, the task makes no other calls on the registry than to mark its
  -- worker offline, at most twice, and then to release it, once.
  pub forward_worker_stream-Ends :
      (chunks : List (Result (List ℕ) Text)) (task : Task)
      → Ends worker.id 2 task
          (forward_worker_stream json parse utf8_error reachable worker context chunks task)
  unfolding forward_worker_stream
  forward_worker_stream-Ends chunks task =
      let event = json_event (role_chunk context) in
      let sent = (send_event event task).0 in
      let same = send_event-calls event task in
      elim (Bool-cases (send_event event task).1) [
        | inl e ↦
            rw (forward_worker_stream, e)
              (Ends-after worker.id 2 task sent
                (read_chunks json parse utf8_error reachable worker context chunks [] sent) same
                (read_chunks-Ends chunks [] sent))
        | inr e ↦
            rw (forward_worker_stream, e)
              (Ends-weaken worker.id 1 task (cancel_and_release reachable worker sent)
                (cancel-Ends task sent same))
      ]

-- However a request without a stream ends, by a reply of any kind or by a cancellation before it,
-- the task marks its worker offline at most once and then releases it, once.
pub forward_worker_request-Ends :
    {V : Type 0} (worker : SelectedWorker) (reachable : Bool) (reply : Option (Reply V))
    (task : Task)
    → Ends worker.id 1 task (forward_worker_request worker reachable reply task).0
unfolding forward_worker_request request_future
forward_worker_request-Ends worker reachable none task =
    cancel_worker_request-Ends reachable worker task
forward_worker_request-Ends worker reachable (some (replied r)) task =
    Ends-weaken worker.id 0 task (call (releases worker.id) task) (release-Ends worker.id task)
forward_worker_request-Ends worker reachable (some (unreadable e)) task =
    Ends-weaken worker.id 0 task (call (releases worker.id) task) (release-Ends worker.id task)
forward_worker_request-Ends worker reachable (some (status s)) task =
    Ends-weaken worker.id 0 task (call (releases worker.id) task) (release-Ends worker.id task)
forward_worker_request-Ends worker reachable (some (unreachable e)) task =
    let marked = call (marks_offline worker.id) task in
    Ends-marked worker.id 0 task (call (releases worker.id) marked) (release-Ends worker.id marked)
