-- ===== src/Core/History/Follows.antt =====
-- `validate_tool_history` against the protocol of tool calls, stated on the queue of open calls.
pub mod Calls
pub mod Exact
use mathlib.Core.List.{append_assoc, append-nil}
use mathlib.Core.Path.{subst}
use decompute.Prelude.{
  Bool, true, false, not, ◌||◌, Text, text_eq, List, [], ◌∷◌, ◌++◌, map, Option, none, some, ◌==◌,
  ◌≡◌, refl, sym, ap, ◌∙◌, ◌≢◌, ◌↔◌, inl, inr, arith, if◌then◌else◌, Result, ok, err, ◌>>=◌,
  >>=-eq-ok, Result-cases, is_some, is_empty, contains, discard, contains_iff, contains-append,
  contains-discard, In, Option-cases, Bool-cases,
}
use decompute.Core.Chat.{
  ChatRole, system, user, assistant, tool, ToolDefinition, ToolCall, ChatMessage, ToolHistoryError,
}
use decompute.Core.History.{
  Pending, nothing_pending, tool_names, non_empty, check_call, push_call, check_calls, check_result,
  check_plain, check_role, validate_from, validate_tool_history,
}

abbrev pub call_ids : {V : Type 0} → List (ToolCall V) → List Text
call_ids [] = []
call_ids (call ∷ calls) = call.id ∷ call_ids calls

module _ {V : Type 0} (is_object : V → Bool) (declared : List Text) where
  -- A call that may be made while the calls of `queue` are open.
  pub record IsFresh (queue : List Text) (call : ToolCall V) : Type 0 where
    pub named : call.id ≢ []
    pub unused : ¬ In call.id queue
    pub is_declared : In call.function.name declared
    pub with_object : is_object call.function.arguments ≡ true

  abbrev pub AreFresh : List Text → List (ToolCall V) → Type 0
  AreFresh queue [] = Unit {0}
  AreFresh queue (call ∷ calls) = IsFresh queue call × AreFresh (queue ++ call.id ∷ []) calls

  -- One message: calls come on assistant messages and are answered in their order, and a system or
  -- user message finds no call open.
  abbrev pub Allowed : ChatRole → List Text → ChatMessage V → (List Text → Type 0) → Type 0
  Allowed assistant queue m Rest =
      (m.tool_call_id ≡ none) × AreFresh queue m.tool_calls × Rest (queue ++ call_ids m.tool_calls)
  Allowed tool queue m Rest =
      (m.tool_calls ≡ [])
      × ((id : Text) × (rest : List Text) × (m.tool_call_id ≡ some id)
          × (id ≢ [])
          × (queue ≡ id ∷ rest)
          × Rest rest)
  Allowed system queue m Rest =
      (m.tool_calls ≡ []) × (m.tool_call_id ≡ none) × (queue ≡ []) × Rest []
  Allowed user queue m Rest = (m.tool_calls ≡ []) × (m.tool_call_id ≡ none) × (queue ≡ []) × Rest []

  abbrev pub Follows : List Text → List (ChatMessage V) → Type 0
  Follows queue [] = queue ≡ []
  Follows queue (m ∷ messages) = Allowed m.role queue m (λ q. Follows q messages)
