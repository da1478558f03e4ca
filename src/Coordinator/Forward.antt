-- ===== src/Coordinator/Forward.antt =====
-- crates/coordinator/src/api.rs: the tasks that pass a request on to a worker. A task's effects
-- are values: the calls it makes on the registry in their order, the events it sends and the posts
-- it makes to the worker's cancel route. What the network answers is an argument.
pub mod Ends
pub mod Settled
pub mod Drained
use decompute.Prelude.{
  ℕ, zero, suc, Bool, true, false, Text, text, text_eq, List, [], ◌∷◌, ◌++◌, Option, none, some,
  ◌==◌, if◌then◌else◌, Result, ok, err, length,
}
use decompute.Prelude.Bytes.{take, drop}
use decompute.Core.Json.{Json}
use decompute.Protocol.Requests.{
  GenerateResponse, GenerationStreamEvent, text_delta, completed, error,
}
use decompute.Coordinator.Record.{SelectedWorker}
use decompute.Coordinator.Registry.History.{Call, releases, marks_offline}
use decompute.Coordinator.OpenAi.Response.{
  ChatCompletionChunk, StreamContext, role_chunk, text_chunk, completed_chunks,
}
use decompute.Coordinator.Sse.{sse_frame_end, sse_data}

pub data Event : Type 0 where
  json_event : ChatCompletionChunk → Event
  error_event : Text → Event
  done_event : Event

-- What a forwarding task has done. `room` is how many more events the client takes before it drops
-- its end of the channel; `cancelled` is the task's `CancellationToken`; `is_complete` is the local
-- `completed`.
pub record Task : Type 0 where
  pub calls : List Call
  pub cancel_posts : ℕ
  pub cancelled : Bool
  pub events : List Event
  pub room : ℕ
  pub is_complete : Bool

unfoldable pub call : Call → Task → Task
call c task = record task { calls = task.calls ++ c ∷ [] }

-- `send`: fails once the receiver is gone.
unfoldable pub send_event : Event → Task → Task × Bool
send_event event task = elim task.room [
  | zero ↦ (task, false)
  | suc n ↦ (record task { events = task.events ++ event ∷ []; room = n }, true)
]

unfoldable pub send_error : Text → Task → Task
unfolding send_event
send_error message task = (send_event (error_event message) task).0

-- `reachable`: whether the post to the worker gets a response, of any status.
unfoldable pub cancel_worker_request : Bool → SelectedWorker → Task → Task
unfolding call
cancel_worker_request reachable worker task =
    let posted = record task { cancel_posts = suc task.cancel_posts } in
    if reachable then posted else call (marks_offline worker.id) posted

unfoldable pub cancel_and_release : Bool → SelectedWorker → Task → Task
unfolding cancel_worker_request call
cancel_and_release reachable worker task =
    call (releases worker.id)
      (cancel_worker_request reachable worker (record task { cancelled = true }))

-- A step either goes on with the loop or returns from the task.
pub data Flow : Type 0 where
  continues : Task → Flow
  returns : Task → Flow

unfoldable pub send_chunks : SelectedWorker → List ChatCompletionChunk → Task → Flow
unfolding send_event call
send_chunks worker [] task = continues (record task { is_complete = true })
send_chunks worker (c ∷ chunks) task =
    let (sent, is_sent) = send_event (json_event c) task in
    elim is_sent [
      | true ↦ send_chunks worker chunks sent
      | false ↦ returns (call (releases worker.id) sent)
    ]

module _ {V : Type 0} (json : Json V) (parse : Text → Result (GenerationStreamEvent V) Text)
    (utf8_error : List ℕ → Text) (reachable : Bool) (worker : SelectedWorker)
    (context : StreamContext) where
  -- `match event`.
  unfoldable pub handle_event : GenerationStreamEvent V → Task → Flow
  unfolding send_event send_chunks send_error cancel_and_release call
  handle_event (text_delta t) task =
      let (sent, is_sent) = send_event (json_event (text_chunk context t)) task in
      elim is_sent [
        | true ↦ continues sent
        | false ↦ returns (cancel_and_release reachable worker sent)
      ]
  handle_event (completed input_tokens output_tokens tool_calls finish_reason) task =
      send_chunks worker
        (completed_chunks json context input_tokens output_tokens tool_calls finish_reason) task
  handle_event (error message) task = returns (call (releases worker.id) (send_error message task))

  unfoldable pub fail : Text → Task → Flow
  unfolding send_error cancel_and_release
  fail message task = returns (cancel_and_release reachable worker (send_error message task))

  -- `serde_json::from_str` of the payload; `parse` reports its error as a text.
  unfoldable pub handle_payload : Text → Task → Flow
  unfolding handle_event fail
  handle_payload payload task = elim (parse payload) [
    | ok event ↦ handle_event event task
    | err e ↦ fail (text "invalid worker stream event: " ++ e) task
  ]

  unfoldable pub handle_frame : List ℕ → Task → Flow
  unfolding handle_payload fail
  handle_frame frame task = elim (sse_data utf8_error frame) [
    | ok none ↦ continues task
    | ok (some payload) ↦
        if payload == text "[DONE]" then continues task else handle_payload payload task
    | err message ↦ fail message task
  ]

  -- `while let Some(end) = sse_frame_end(&pending)`; the second result is what stays in `pending`.
  unfoldable pub drain_frames : ℕ → List ℕ → Task → Flow × List ℕ
  unfolding handle_frame
  drain_frames zero pending task = (continues task, pending)
  drain_frames (suc fuel) pending task = elim (sse_frame_end pending) [
    | none ↦ (continues task, pending)
    | some n ↦ elim (handle_frame (take n pending) task) [
      | continues next ↦ drain_frames fuel (drop n pending) next
      | returns last ↦ (returns last, drop n pending)
    ]
  ]

  -- The end of the body, or of what could be read of it.
  unfoldable pub finish_stream : Task → Task
  unfolding send_event send_error cancel_and_release call
  finish_stream task =
      if task.is_complete
      then call (releases worker.id) (send_event done_event task).0
      else cancel_and_release reachable worker
          (send_error (text "worker stream ended before completion") task)

  -- `while let Some(chunk) = bytes.next().await` and what follows it. The chunks of the body come
  -- with the texts of their errors.
  unfoldable pub read_chunks : List (Result (List ℕ) Text) → List ℕ → Task → Task
  unfolding drain_frames finish_stream send_error call
  read_chunks [] pending task = finish_stream task
  read_chunks (err e ∷ chunks) pending task =
      finish_stream
        (send_error (text "worker stream failed: " ++ e) (call (marks_offline worker.id) task))
  read_chunks (ok chunk ∷ chunks) pending task =
      let (flow, left) = drain_frames (length (pending ++ chunk)) (pending ++ chunk) task in
      elim flow [ continues next ↦ read_chunks chunks left next | returns last ↦ last ]

  unfoldable pub forward_worker_stream : List (Result (List ℕ) Text) → Task → Task
  unfolding read_chunks send_event cancel_and_release
  forward_worker_stream chunks task =
      let (sent, is_sent) = send_event (json_event (role_chunk context)) task in
      elim is_sent [
        | true ↦ read_chunks chunks [] sent
        | false ↦ cancel_and_release reachable worker sent
      ]

-- What the post to "/generate" comes to: no connection, a status that is not a success with its
-- text, a body that is not a response, or a response.
pub data Reply (V : Type 0) : Type 0 where
  unreachable : Text → Reply V
  status : Text → Reply V
  unreadable : Text → Reply V
  replied : GenerateResponse V → Reply V

module _ {V : Type 0} (worker : SelectedWorker) where
  unfoldable pub request_future : Reply V → Task → Task × Result (GenerateResponse V) Text
  unfolding call
  request_future (replied response) task = (task, ok response)
  request_future (unreadable e) task = (task, err (text "invalid worker response: " ++ e))
  request_future (status s) task = (task, err (text "worker returned " ++ s))
  request_future (unreachable e) task =
      (call (marks_offline worker.id) task, err (text "worker request failed: " ++ e))

  -- `None` for the reply is the cancellation that comes before it. A cancellation that interrupts
  -- `mark_offline` after a failed connection is not modelled.
  unfoldable pub forward_worker_request :
      Bool → Option (Reply V) → Task → Task × Option (Result (GenerateResponse V) Text)
  unfolding request_future cancel_worker_request call
  forward_worker_request reachable none task =
      (call (releases worker.id) (cancel_worker_request reachable worker task), none)
  forward_worker_request reachable (some reply) task =
      let (after, result) = request_future reply task in
      (call (releases worker.id) after, some result)
