-- ===== src/Worker/Api.antt =====
-- crates/worker/src/api.rs: the handlers of `/generate` and `/generate/stream`, in the two parts
-- that stand before and after the generation, for a handler that no other comes between. Schedule
-- takes them apart into atomic actions.
pub mod Accepts
pub mod Schedule
pub mod Forwarded
use decompute.Prelude.{
  ℕ, Bool, Text, List, Option, none, some, Result, ok, err, ◌>>=◌, ◌>>◌, map_err, or_fail,
}
use decompute.Protocol.Requests.{
  GenerateRequest, RequestValidationError, validate_tools, normalized_messages,
  validate_tool_history_messages,
}
use decompute.Worker.State.{
  WorkerRuntime, ReserveError, try_reserve, release, begin_request, finish_request,
}

-- The request that the handler answers with an error, by its status code.
pub data Refusal : Type 0 where
  bad_request : RequestValidationError → Refusal
  service_unavailable : ReserveError → Refusal
  conflict : Refusal

module _ {V : Type 0} (is_object : V → Bool) where
  unfoldable pub normalize_request :
      GenerateRequest V → Result (GenerateRequest V) RequestValidationError
  normalize_request request = do
    validate_tools is_object request.tools
    messages ← normalized_messages request
    let normalized : GenerateRequest V = record request { prompt = none; messages = some messages }
    validate_tool_history_messages is_object normalized messages
    ok normalized

  -- The state comes back beside the refusal too.
  unfoldable pub begin_or_release :
      WorkerRuntime → GenerateRequest V → WorkerRuntime × Result (GenerateRequest V) Refusal
  begin_or_release w request = elim (begin_request w request.request_id) [
    | none ↦ (release w, err conflict)
    | some w' ↦ (w', ok request)
  ]

  unfoldable pub reserve_and_begin :
      WorkerRuntime → GenerateRequest V → WorkerRuntime × Result (GenerateRequest V) Refusal
  unfolding begin_or_release
  reserve_and_begin w request = elim (try_reserve w request.model) [
    | err e ↦ (w, err (service_unavailable e))
    | ok w' ↦ begin_or_release w' request
  ]

  -- What stands before the generation in both handlers.
  unfoldable pub accept :
      WorkerRuntime → GenerateRequest V → WorkerRuntime × Result (GenerateRequest V) Refusal
  unfolding reserve_and_begin
  accept w request = elim (normalize_request request) [
    | err e ↦ (w, err (bad_request e))
    | ok normalized ↦ reserve_and_begin w normalized
  ]

-- What stands after it.
unfoldable pub complete : WorkerRuntime → ℕ → WorkerRuntime
complete w request_id = finish_request w request_id
