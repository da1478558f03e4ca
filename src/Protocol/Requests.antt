-- ===== src/Protocol/Requests.antt =====
-- crates/protocol/src/requests.rs: what the coordinator asks of a worker, and the checks on it.
pub mod Tools
use decompute.Prelude.{
  ℕ, Bool, true, false, not, ◌&&◌, ◌||◌, Text, text_eq, List, [], ◌∷◌, Option, none, some, leb,
  ◌==◌, nat_eq, if◌then◌else◌, all, Result, ok, err, ◌>>=◌, ◌>>◌, map_err, is_empty, contains,
}
use decompute.Core.Chat.{
  ChatMessage, user, ToolCall, ToolDefinition, FinishReason, ToolHistoryError,
}
use decompute.Core.History.{validate_tool_history}

pub record GenerateRequest (V : Type 0) : Type 0 where
  pub request_id : ℕ
  pub session_id : Option ℕ
  pub model : Text
  pub prompt : Option Text
  pub messages : Option (List (ChatMessage V))
  pub template : Option Text
  pub tools : List (ToolDefinition V)
  pub max_tokens : ℕ

pub record GenerateResponse (V : Type 0) : Type 0 where
  pub request_id : ℕ
  pub worker_id : Text
  pub model : Text
  pub reply : Text
  pub input_tokens : ℕ
  pub output_tokens : ℕ
  pub tool_calls : List (ToolCall V)
  pub finish_reason : FinishReason

-- An invalid history carries the error itself where the source carries its text.
pub data RequestValidationError : Type 0 where
  exactly_one_of_prompt_or_messages : RequestValidationError
  empty_messages : RequestValidationError
  invalid_tool_name : RequestValidationError
  duplicate_tool_name : RequestValidationError
  invalid_tool_parameters : RequestValidationError
  invalid_tool_history : ToolHistoryError → RequestValidationError

pub data GenerationStreamEvent (V : Type 0) : Type 0 where
  text_delta : Text → GenerationStreamEvent V
  completed : ℕ → ℕ → List (ToolCall V) → FinishReason → GenerationStreamEvent V
  error : Text → GenerationStreamEvent V

-- The test on the bytes of a name. A byte of a scalar value past ASCII is at least 0x80 and fails
-- it, as the value itself does.
unfoldable pub is_name_char : ℕ → Bool
is_name_char c =
    (leb b'0' c && leb c b'9')
    || (leb b'A' c && leb c b'Z')
    || (leb b'a' c && leb c b'z')
    || c == b'_'
    || c == b'-'

module _ {V : Type 0} (is_object : V → Bool) where
  unfoldable pub check_tools :
      List Text → List (ToolDefinition V) → Result (Unit {0}) RequestValidationError
  check_tools names [] = ok tt
  check_tools names (t ∷ tools) =
      let rest = check_tools (t.function.name ∷ names) tools in
      if is_empty t.function.name || not (all is_name_char t.function.name)
      then err invalid_tool_name
      else if contains t.function.name names
      then err duplicate_tool_name
      else if not (is_object t.function.parameters)
      then err invalid_tool_parameters
      else rest

  unfoldable pub validate_tools : List (ToolDefinition V) → Result (Unit {0}) RequestValidationError
  unfolding check_tools
  validate_tools tools = check_tools [] tools

  unfoldable pub validate_tool_history_messages :
      GenerateRequest V → List (ChatMessage V) → Result (Unit {0}) RequestValidationError
  validate_tool_history_messages request messages =
      map_err invalid_tool_history (validate_tool_history is_object messages request.tools)

unfoldable pub normalize_messages :
    {V : Type 0}
    → Option Text
    → Option (List (ChatMessage V))
    → Result (List (ChatMessage V)) RequestValidationError
normalize_messages (some prompt) none =
    ok (record { role = user; content = prompt; tool_calls = []; tool_call_id = none } ∷ [])
normalize_messages none (some (m ∷ messages)) = ok (m ∷ messages)
normalize_messages none (some []) = err empty_messages
normalize_messages (some prompt) (some messages) = err exactly_one_of_prompt_or_messages
normalize_messages none none = err exactly_one_of_prompt_or_messages

unfoldable pub normalized_messages :
    {V : Type 0} → GenerateRequest V → Result (List (ChatMessage V)) RequestValidationError
unfolding normalize_messages
normalized_messages request = normalize_messages request.prompt request.messages

module _ {V : Type 0} (is_object : V → Bool) where
  -- `GenerateRequest::validate_tool_history`.
  unfoldable pub validate_history : GenerateRequest V → Result (Unit {0}) RequestValidationError
  validate_history request = do
    messages ← normalized_messages request
    validate_tool_history_messages is_object request messages
