-- ===== src/Tests/Streams.antt =====
-- Streams of a worker's events.
use decompute.Prelude.{
  ℕ, Bool, true, false, Text, text, List, [], ◌∷◌, ◌++◌, none, some, ◌≡◌, refl, arith, ok, err,
  Result, all, is_whitespace, ℕ_discrete,
}
use decompute.Core.Json.{Json, other}
use decompute.Protocol.Requests.{GenerationStreamEvent, text_delta}
use decompute.Prelude.Bytes.{position, starts_with}
use decompute.Coordinator.Record.{SelectedWorker}
use decompute.Coordinator.OpenAi.Response.{StreamContext}
use decompute.Coordinator.Sse.{sse_frame_end, sse_data}
use decompute.Coordinator.Sse.Framing.{
  is_plain, event, sse_frame_end-event, sse_frame_end-prefix, sse_data-event,
}
use decompute.Coordinator.Forward.{
  Task, continues, forward_worker_stream, forward_worker_request, drain_frames, unreachable,
}
use decompute.Coordinator.Forward.Ends.{Ends}
use decompute.Coordinator.Forward.Settled.{forward_worker_stream-Ends, forward_worker_request-Ends}
use decompute.Coordinator.Forward.Drained.{drain_frames_enough}

payload-IsPlain : all is_plain (text "{hi}") ≡ true
unfolding all is_plain ℕ_discrete
payload-IsPlain = refl

sse_frame_end-event_example : sse_frame_end (event (text "{hi}") ++ text "data: {") ≡ some 12
unfolding event
sse_frame_end-event_example = sse_frame_end-event (text "{hi}") (text "data: {") payload-IsPlain

part-event : text "data: {h" ++ b'i' ∷ text "}\n\n" ≡ event (text "{hi}")
unfolding event
part-event = refl

sse_frame_end-prefix_example : sse_frame_end (text "data: {h") ≡ none
sse_frame_end-prefix_example =
    sse_frame_end-prefix (text "{hi}") (text "data: {h") (text "}\n\n") b'i' payload-IsPlain
      part-event

brace-is_no_space : is_whitespace b'{' ≡ false
unfolding is_whitespace ℕ_discrete
brace-is_no_space = refl

sse_data-event_example : sse_data (λ _. []) (event (text "{hi}")) ≡ ok (some (text "{hi}"))
sse_data-event_example =
    sse_data-event (λ _. []) b'{' (text "hi}") payload-IsPlain brace-is_no_space

abbrev json : Json Bool
json = record {
  view = λ b. other;
  is_object = λ b. b;
  get = λ b t. none;
  as_str = λ b. none;
  from_str = λ t. ok true;
  to_string = λ b. text "{}";
}

abbrev parse : Text → Result (GenerationStreamEvent Bool) Text
parse t = ok (text_delta t)

abbrev worker : SelectedWorker
worker = record { id = text "a"; address = text "http://w" }

abbrev context : StreamContext
context = record { id = text "chatcmpl-3"; created = 0; model = text "tiny" }

abbrev fresh : Task
fresh = record {
  calls = [];
  cancel_posts = 0;
  cancelled = false;
  events = [];
  room = 3;
  is_complete = false;
}

abbrev chunks : List (Result (List ℕ) Text)
chunks = ok (text "data: {h") ∷ ok (text "i}\n\ndata:") ∷ err (text "reset") ∷ []

forward_worker_stream-Ends_example :
    Ends
      (text "a")
      2
      fresh
      (forward_worker_stream json parse (λ _. []) false worker context chunks fresh)
forward_worker_stream-Ends_example =
    forward_worker_stream-Ends json parse (λ _. []) false worker context chunks fresh

forward_worker_request-Ends_example :
    Ends
      (text "a")
      1
      fresh
      (forward_worker_request {V = Bool} worker true (some (unreachable (text "refused"))) fresh).0
forward_worker_request-Ends_example =
    forward_worker_request-Ends worker true (some (unreachable (text "refused"))) fresh

drained_runs :
    (drain_frames json parse (λ _. []) true worker context 8 (text "data: {h") fresh).0
    ≡ continues fresh
unfolding drain_frames sse_frame_end position starts_with ℕ_discrete
drained_runs = refl

drain_frames_enough_example :
    sse_frame_end
      (drain_frames json parse (λ _. []) true worker context 8 (text "data: {h") fresh).1
    ≡ none
drain_frames_enough_example =
    drain_frames_enough json parse (λ _. []) true worker context 8 (text "data: {h") fresh fresh
      (omega arith) drained_runs
