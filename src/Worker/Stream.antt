-- ===== src/Worker/Stream.antt =====
-- crates/worker/src/state.rs: `generate` and `stream`, from a request to the model's handle and from
-- its events to those of the response. The texts of errors are arguments.
pub mod Shape
pub mod Loaded
use decompute.Prelude.{
  ℕ, zero, suc, Bool, true, false, not, ◌&&◌, Text, List, [], ◌∷◌, Option, none, some,
  if◌then◌else◌, Result, ok, err, ◌>>=◌, map_err, is_some,
}
use decompute.Protocol.Requests.{
  GenerateRequest, GenerateResponse, GenerationStreamEvent, RequestValidationError, text_delta,
  completed, error, normalized_messages,
}
use decompute.Llama.Chat.{ChatError}
use decompute.Sdk.{ChatRequest, GenerationResult, GenerationEvent}
use decompute.Sdk

-- `GgufModelHandle`. A job is refused when the model's thread has stopped.
pub record ModelHandle (V G : Type 0) : Type 0 where
  pub generate : ChatRequest V G → Result (GenerationResult V) Text
  pub stream : ChatRequest V G → Result (List (GenerationEvent V)) Text

-- Without its lease a request runs apart from the session cache.
unfoldable pub cache_session_id : Bool → Bool → Option ℕ → Option ℕ
cache_session_id session_cache_enabled has_lease session_id =
    if session_cache_enabled && is_some session_id && not has_lease then none else session_id

module _ {V G : Type 0} (describe : RequestValidationError → Text) where
  unfoldable pub chat_request : GenerateRequest V → Option ℕ → Result (ChatRequest V G) Text
  unfolding normalized_messages
  chat_request request session_id = do
    messages ← map_err describe (normalized_messages request)
    ok (record {
      request_id = request.request_id;
      session_id = session_id;
      messages = messages;
      template = request.template;
      tools = request.tools;
      generation = record { max_tokens = request.max_tokens; temperature = none };
    })

  -- `WorkerRuntime::generate`.
  unfoldable pub generate :
      ModelHandle V G → Text → Bool → Bool → GenerateRequest V → Result (GenerateResponse V) Text
  unfolding cache_session_id
  generate model node_id session_cache_enabled has_lease request = do
    chat ←
        chat_request request (cache_session_id session_cache_enabled has_lease request.session_id)
    generated ← model.generate chat
    ok (record {
      request_id = request.request_id;
      worker_id = node_id;
      model = request.model;
      reply = generated.text;
      input_tokens = generated.input_tokens;
      output_tokens = generated.output_tokens;
      tool_calls = generated.tool_calls;
      finish_reason = generated.finish_reason;
    })

module _ {V : Type 0} (explain : ChatError → Text) where
  unfoldable pub convert : GenerationEvent V → GenerationStreamEvent V
  convert (Sdk.text_delta t) = text_delta t
  convert (Sdk.completed r) = completed r.input_tokens r.output_tokens r.tool_calls r.finish_reason
  convert (Sdk.error e) = error (explain e)

  -- The loop over the model's events: what is sent while the client takes `room` more events, and
  -- whether the request is cancelled since the client has gone.
  unfoldable pub forward : ℕ → List (GenerationEvent V) → List (GenerationStreamEvent V) × Bool
  unfolding convert
  forward room [] = ([], false)
  forward zero (event ∷ events) = ([], true)
  forward (suc room) (event ∷ events) =
      let (sent, cancelled) = forward room events in (convert event ∷ sent, cancelled)

  -- `let _ = events.send(..)`.
  unfoldable pub send_error : ℕ → Text → List (GenerationStreamEvent V) × Bool
  send_error zero message = ([], false)
  send_error (suc room) message = (error message ∷ [], false)

module _ {V G : Type 0} (describe : RequestValidationError → Text)
    (explain : ChatError → Text) where
  unfoldable pub stream :
      ModelHandle V G → Bool → Bool → ℕ → GenerateRequest V → List (GenerationStreamEvent V) × Bool
  unfolding cache_session_id chat_request forward send_error
  stream model session_cache_enabled has_lease room request =
      elim (chat_request describe request
        (cache_session_id session_cache_enabled has_lease request.session_id)) [
          | err message ↦ send_error explain room message
          | ok chat ↦ elim (model.stream chat) [
            | err message ↦ send_error explain room message
            | ok events ↦ forward explain room events
          ]
        ]
