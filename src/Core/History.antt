-- ===== src/Core/History.antt =====
-- crates/decompute-core/src/chat.rs: `validate_tool_history`. `is_object` is that of
-- `serde_json::Value`.
pub mod Follows
use decompute.Prelude.{
  Bool, true, false, not, ◌||◌, Text, text_eq, List, [], ◌∷◌, ◌++◌, map, Option, none, some, ◌==◌,
  if◌then◌else◌, Result, ok, err, ◌>>=◌, is_some, is_empty, contains, discard,
}
use decompute.Core.Chat.{
  ChatRole, system, user, assistant, tool, ToolDefinition, ToolCall, ChatMessage, ToolHistoryError,
  tool_calls_on_non_assistant, empty_tool_call_id, duplicate_tool_call_id,
  assistant_has_tool_call_id, undeclared_tool, missing_tool_call_id, tool_result_has_tool_calls,
  invalid_tool_arguments, tool_result_out_of_order, unknown_tool_call_id, unresolved_tool_calls,
}

-- The queue of calls without a result, and the set of their ids.
pub record Pending : Type 0 where
  pub queue : List Text
  pub ids : List Text

abbrev pub nothing_pending : Pending
nothing_pending = record { queue = []; ids = [] }

abbrev pub tool_names : {V : Type 0} → List (ToolDefinition V) → List Text
tool_names = map (λ t. t.function.name)

-- `as_deref().filter(|id| !id.is_empty())`.
abbrev pub non_empty : Option Text → Option Text
non_empty none = none
non_empty (some id) = if is_empty id then none else some id

abbrev pub push_call : Pending → Text → Pending
push_call p id = record { queue = p.queue ++ id ∷ []; ids = id ∷ p.ids }

-- A result for the call `id`, by the front of the queue.
unfoldable pub check_result : List Text → List Text → Text → Result Pending ToolHistoryError
check_result [] ids id = err (unknown_tool_call_id id)
check_result (expected ∷ queue) ids id =
    if expected == id
    then ok (record { queue = queue; ids = discard id ids })
    else if contains id ids
    then err (tool_result_out_of_order expected id)
    else err (unknown_tool_call_id id)

unfoldable pub check_plain :
    {V : Type 0} → Pending → ChatMessage V → Result Pending ToolHistoryError
check_plain p m =
    if not (is_empty m.tool_calls) || is_some m.tool_call_id
    then err tool_calls_on_non_assistant
    else if not (is_empty p.queue)
    then err unresolved_tool_calls
    else ok p

module _ {V : Type 0} (is_object : V → Bool) (declared : List Text) where
  -- The early returns for one call, in their order; `none` goes on.
  unfoldable pub check_call : List Text → Pending → ToolCall V → Option ToolHistoryError
  check_call response_ids p call =
      if is_empty call.id
      then some empty_tool_call_id
      else if contains call.id response_ids || contains call.id p.ids
      then some duplicate_tool_call_id
      else if not (contains call.function.name declared)
      then some (undeclared_tool call.function.name)
      else if not (is_object call.function.arguments)
      then some invalid_tool_arguments
      else none

  unfoldable pub check_calls :
      List Text → Pending → List (ToolCall V) → Result Pending ToolHistoryError
  check_calls response_ids p [] = ok p
  check_calls response_ids p (call ∷ calls) =
      let rest = check_calls (call.id ∷ response_ids) (push_call p call.id) calls in
      elim (check_call response_ids p call) [ some e ↦ err e | none ↦ rest ]

  unfoldable pub check_role : ChatRole → Pending → ChatMessage V → Result Pending ToolHistoryError
  check_role assistant p m =
      if is_some m.tool_call_id
      then err assistant_has_tool_call_id
      else check_calls [] p m.tool_calls
  check_role tool p m =
      if not (is_empty m.tool_calls)
      then err tool_result_has_tool_calls
      else elim (non_empty m.tool_call_id) [
        | none ↦ err missing_tool_call_id
        | some id ↦ check_result p.queue p.ids id
      ]
  check_role system p m = check_plain p m
  check_role user p m = check_plain p m

  unfoldable pub validate_from : Pending → List (ChatMessage V) → Result (Unit {0}) ToolHistoryError
  validate_from p [] = if is_empty p.queue then ok tt else err unresolved_tool_calls
  validate_from p (m ∷ messages) = do p' ← check_role m.role p m; validate_from p' messages

unfoldable pub validate_tool_history :
    {V : Type 0} (is_object : V → Bool)
    → List (ChatMessage V)
    → List (ToolDefinition V)
    → Result (Unit {0}) ToolHistoryError
validate_tool_history is_object messages tools =
    validate_from is_object (tool_names tools) nothing_pending messages
