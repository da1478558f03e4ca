-- ===== src/Llama/ToolCalls/Answered.antt =====
-- The parsed calls as a part of the next request's history.
use decompute.Prelude.{ℕ, Bool, Text, List, [], ◌∷◌, ◌++◌, map, none, some, ◌≡◌, refl, ok}
use decompute.Core.Json.{Json}
use decompute.Core.Chat.{
  ChatRole, system, user, assistant, tool, ToolDefinition, ToolCall, ChatMessage,
}
use decompute.Core.History.{tool_names, validate_tool_history}
use decompute.Core.History.Follows.{call_ids, AreFresh, Allowed, Follows}
use decompute.Core.History.Follows.Exact.{validate_tool_history_iff}
use decompute.Llama.ToolCalls.{parse_tool_calls}
use decompute.Llama.ToolCalls.Fresh.{parse_tool_calls-AreFresh}

-- The message of the model, and a result for a call.
abbrev pub calls_message : {V : Type 0} → Text → List (ToolCall V) → ChatMessage V
calls_message content calls = record {
  role = assistant;
  content = content;
  tool_calls = calls;
  tool_call_id = none;
}

abbrev pub result_message : {V : Type 0} → (ToolCall V → Text) → ToolCall V → ChatMessage V
result_message answer call = record {
  role = tool;
  content = answer call;
  tool_calls = [];
  tool_call_id = some call.id;
}

module _ {V : Type 0} (is_object : V → Bool) (declared : List Text) where
  Allowed_weaken :
      (role : ChatRole) (queue : List Text) (m : ChatMessage V) (P Q : List Text → Type 0)
      → ((q : List Text) → P q → Q q)
      → Allowed is_object declared role queue m P
      → Allowed is_object declared role queue m Q
  Allowed_weaken assistant queue m P Q f (a, b, c) = (a, b, f _ c)
  Allowed_weaken tool queue m P Q f (a, (id, rest, b, c, d, e)) = (a, (id, rest, b, c, d, f _ e))
  Allowed_weaken system queue m P Q f (a, b, c, d) = (a, b, c, f _ d)
  Allowed_weaken user queue m P Q f (a, b, c, d) = (a, b, c, f _ d)

  Follows-append :
      (queue : List Text) (before after : List (ChatMessage V))
      → Follows is_object declared queue before
      → Follows is_object declared [] after
      → Follows is_object declared queue (before ++ after)
  Follows-append queue [] after h k = rw h k
  Follows-append queue (m ∷ before) after h k =
      Allowed_weaken m.role queue m _ _ (λ q h'. Follows-append q before after h' k) h

  -- Fresh calls have names.
  answers-Follows :
      (queue : List Text) (answer : ToolCall V → Text) (calls : List (ToolCall V))
      → AreFresh is_object declared queue calls
      → Follows is_object declared (call_ids calls) (map (result_message answer) calls)
  answers-Follows queue answer [] fresh = refl
  answers-Follows queue answer (call ∷ calls) (first, fresh) = (
    refl,
    (
      call.id,
      call_ids calls,
      refl,
      first.named,
      refl,
      answers-Follows (queue ++ call.id ∷ []) answer calls fresh,
    ),
  )

-- Any accepted conversation can go on with what the parser makes of the model's text: with the
-- assistant message that holds the visible text and the calls, and one result for each call in
-- order, it is accepted again under the same tools.
pub validate_tool_history-parse_tool_calls :
    {V : Type 0} (J : Json V) (show : ℕ → Text) (t visible : Text) (tools : List (ToolDefinition V))
    (request_id : ℕ) (calls : List (ToolCall V)) (before : List (ChatMessage V))
    (answer : ToolCall V → Text)
    → parse_tool_calls J show t tools request_id ≡ ok (visible, calls)
    → validate_tool_history J.is_object before tools ≡ ok tt
    → validate_tool_history J.is_object
        (before ++ calls_message visible calls ∷ map (result_message answer) calls)
        tools
      ≡ ok tt
validate_tool_history-parse_tool_calls J show t visible tools request_id calls before answer h
      accepted =
    let fresh = parse_tool_calls-AreFresh J show t visible tools request_id calls h in
    let added = calls_message visible calls ∷ map (result_message answer) calls in
    (validate_tool_history_iff J.is_object (before ++ added) tools).1 (
      Follows-append J.is_object (tool_names tools) [] before added
        ((validate_tool_history_iff J.is_object before tools).0 accepted)
        (refl, fresh, answers-Follows J.is_object (tool_names tools) [] answer calls fresh))

-- So does an answer without calls.
pub validate_tool_history-plain :
    {V : Type 0} (is_object : V → Bool) (t : Text) (tools : List (ToolDefinition V))
    (before : List (ChatMessage V))
    → validate_tool_history is_object before tools ≡ ok tt
    → validate_tool_history is_object (before ++ calls_message t [] ∷ []) tools ≡ ok tt
validate_tool_history-plain is_object t tools before accepted =
    let added = calls_message t [] ∷ [] in
    (validate_tool_history_iff is_object (before ++ added) tools).1 (
      Follows-append is_object (tool_names tools) [] before added
        ((validate_tool_history_iff is_object before tools).0 accepted) (refl, tt, refl))
