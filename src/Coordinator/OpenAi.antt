-- ===== src/Coordinator/OpenAi.antt =====
-- crates/coordinator/src/openai.rs: the OpenAI requests that become requests to a worker.
pub mod Response
use decompute.Prelude.{
  ℕ, Bool, not, Text, text, List, [], ◌∷◌, ◌++◌, Option, none, some, if◌then◌else◌, Result, ok, err,
  ◌>>=◌, ◌>>◌, map_err, or_fail,
}
use decompute.Core.Json.{Json, View, null, string, array, other}
use decompute.Core.Chat.{ChatRole, ToolType, ToolDefinition, ToolCall, ChatMessage}
use decompute.Core.History.{validate_tool_history}
use decompute.Protocol.Requests.{
  GenerateRequest, RequestValidationError, invalid_tool_history, validate_tools,
}

pub data OpenAiRole : Type 0 where
  system developer user assistant tool : OpenAiRole

pub record OpenAiFunctionCall : Type 0 where
  pub name : Text
  pub arguments : Text

pub record OpenAiToolCall : Type 0 where
  pub id : Text
  pub kind : ToolType
  pub function : OpenAiFunctionCall

pub record ChatCompletionMessage (V : Type 0) : Type 0 where
  pub role : OpenAiRole
  pub content : Option V
  pub tool_calls : List OpenAiToolCall
  pub tool_call_id : Option Text

pub record ChatCompletionRequest (V : Type 0) : Type 0 where
  pub model : Text
  pub messages : List (ChatCompletionMessage V)
  pub tools : List (ToolDefinition V)
  pub stream : Bool
  pub max_tokens : Option ℕ
  pub max_completion_tokens : Option ℕ
  pub template : Option Text

pub data RequestError : Type 0 where
  empty_messages : RequestError
  non_text_content : RequestError
  invalid_tool_arguments : Text → RequestError
  validation : RequestValidationError → RequestError

unfoldable pub chat_role : OpenAiRole → ChatRole
chat_role OpenAiRole.system = ChatRole.system
chat_role OpenAiRole.developer = ChatRole.system
chat_role OpenAiRole.user = ChatRole.user
chat_role OpenAiRole.assistant = ChatRole.assistant
chat_role OpenAiRole.tool = ChatRole.tool

-- `map(..).collect::<Result<Vec<_>, _>>()?`: the first error ends it.
unfoldable pub collect : {A B E : Type 0} → (A → Result B E) → List A → Result (List B) E
collect f [] = ok []
collect f (x ∷ xs) = do y ← f x; ys ← collect f xs; ok (y ∷ ys)

module _ {V : Type 0} (json : Json V) where
  -- `part.get("text").and_then(Value::as_str)`.
  abbrev pub part_text : V → Option Text
  part_text part = elim (json.get part (text "text")) [ none ↦ none | some t ↦ json.as_str t ]

  -- `collect::<Option<Vec<_>>>()` and `concat`.
  unfoldable pub concat_parts : List V → Option Text
  concat_parts [] = some []
  concat_parts (part ∷ parts) =
      let rest = concat_parts parts in
      elim (part_text part) [
        | none ↦ none
        | some t ↦ elim rest [ none ↦ none | some ts ↦ some (t ++ ts) ]
      ]

  unfoldable pub view_text : View V → Result Text RequestError
  unfolding concat_parts
  view_text null = ok []
  view_text (string content) = ok content
  view_text (array parts) = or_fail (concat_parts parts) non_text_content
  view_text other = err non_text_content

  unfoldable pub content_text : Option V → Result Text RequestError
  unfolding view_text
  content_text none = ok []
  content_text (some v) = view_text (json.view v)

  unfoldable pub with_object : OpenAiToolCall → V → Result (ToolCall V) RequestError
  with_object call arguments =
      if not (json.is_object arguments)
      then err (invalid_tool_arguments call.function.name)
      else ok (record {
        id = call.id;
        kind = call.kind;
        function = record { name = call.function.name; arguments = arguments };
      })

  unfoldable pub tool_call : OpenAiToolCall → Result (ToolCall V) RequestError
  unfolding with_object
  tool_call call = do
    arguments ←
        map_err (λ _. invalid_tool_arguments call.function.name)
          (json.from_str call.function.arguments)
    with_object call arguments

  unfoldable pub chat_message : ChatCompletionMessage V → Result (ChatMessage V) RequestError
  chat_message message = do
    content ← content_text message.content
    tool_calls ← collect tool_call message.tool_calls
    ok (record {
      role = chat_role message.role;
      content = content;
      tool_calls = tool_calls;
      tool_call_id = message.tool_call_id;
    })

  -- `request_id` is the new `Uuid`.
  unfoldable pub token_limit : ChatCompletionRequest V → ℕ
  token_limit request = elim request.max_completion_tokens [
    | some n ↦ n
    | none ↦ elim request.max_tokens [ some n ↦ n | none ↦ 100 ]
  ]

  unfoldable pub convert : ChatCompletionRequest V → ℕ → Result (GenerateRequest V) RequestError
  convert request request_id = do
    map_err validation (validate_tools json.is_object request.tools)
    messages ← collect chat_message request.messages
    map_err (λ e. validation (invalid_tool_history e))
        (validate_tool_history json.is_object messages request.tools)
    ok (record {
      request_id = request_id;
      session_id = none;
      model = request.model;
      prompt = none;
      messages = some messages;
      template = request.template;
      tools = request.tools;
      max_tokens = token_limit request;
    })

  -- `GenerateRequest::try_from`.
  unfoldable pub try_from : ChatCompletionRequest V → ℕ → Result (GenerateRequest V) RequestError
  unfolding convert
  try_from request request_id = elim request.messages [
    | [] ↦ err empty_messages
    | _ ∷ _ ↦ convert request request_id
  ]
