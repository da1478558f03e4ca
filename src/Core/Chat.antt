-- ===== src/Core/Chat.antt =====
-- crates/decompute-core/src/chat.rs: chat messages, tools and tool calls. `V` is the type
-- `serde_json::Value`, which belongs to another crate.
use decompute.Prelude.{Text, List, Option}

pub data ChatRole : Type 0 where
  system user assistant tool : ChatRole

pub data ToolType : Type 0 where
  function_tool : ToolType

pub record FunctionDefinition (V : Type 0) : Type 0 where
  pub name : Text
  pub description : Option Text
  pub parameters : V

pub record ToolDefinition (V : Type 0) : Type 0 where
  pub kind : ToolType
  pub function : FunctionDefinition V

pub record FunctionCall (V : Type 0) : Type 0 where
  pub name : Text
  pub arguments : V

pub record ToolCall (V : Type 0) : Type 0 where
  pub id : Text
  pub kind : ToolType
  pub function : FunctionCall V

pub record ChatMessage (V : Type 0) : Type 0 where
  pub role : ChatRole
  pub content : Text
  pub tool_calls : List (ToolCall V)
  pub tool_call_id : Option Text

pub data FinishReason : Type 0 where
  stop tool_calls_made : FinishReason

pub data ToolHistoryError : Type 0 where
  tool_calls_on_non_assistant : ToolHistoryError
  empty_tool_call_id : ToolHistoryError
  duplicate_tool_call_id : ToolHistoryError
  assistant_has_tool_call_id : ToolHistoryError
  undeclared_tool : Text → ToolHistoryError
  missing_tool_call_id : ToolHistoryError
  tool_result_has_tool_calls : ToolHistoryError
  invalid_tool_arguments : ToolHistoryError
  tool_result_out_of_order : Text → Text → ToolHistoryError
  unknown_tool_call_id : Text → ToolHistoryError
  unresolved_tool_calls : ToolHistoryError
