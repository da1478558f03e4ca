-- ===== src/Llama/Chat.antt =====
-- crates/decompute-llama/src/runtime.rs: `generate_chat`, from messages to text and tool calls.
pub mod Runtime
pub mod Parsed
pub mod Delivered
use decompute.Prelude.{
  ℕ, Bool, true, false, not, ◌&&◌, Text, text, List, [], ◌∷◌, ◌++◌, map, Option, none, some,
  if◌then◌else◌, Result, ok, err, ◌>>=◌, ◌>>◌, map_err, is_empty,
}
use decompute.Core.Json.{Json}
use decompute.Core.Chat.{
  ChatRole, system, user, assistant, tool, ChatMessage, ToolDefinition, ToolCall, FinishReason,
  stop, tool_calls_made,
}
use decompute.Llama.Engine.{Engine}
use decompute.Llama.ToolCalls.{ToolCallError, parse_tool_calls}
use decompute.Llama.Templates.{TemplateRegistry, TemplateError, Jinja, select, render}
use decompute.Llama.Session.{GgufModel, invalidate_session}
use decompute.Llama.Decode.{GenerateError, callback_failed, GgufGenerationConfig}
use decompute.Llama.Generate.{GgufGenerationResult, Outcome, generate}

-- What the source puts into an `anyhow::Error`.
pub data ChatError : Type 0 where
  no_tool_calls : ChatError
  template : TemplateError → ChatError
  chat_template : Text → ChatError
  generation : GenerateError → ChatError
  tool_calls : ToolCallError → ChatError

-- The template that the model file embeds, and llama.cpp's use of it. `M` is `LlamaChatMessage`.
pub record Embedded (M : Type 0) : Type 0 where
  pub chat_template : Result Text Text
  pub new_message : Text → Text → Result M Text
  pub apply_chat_template : Text → List M → Bool → Result Text Text

abbrev pub role_name : ChatRole → Text
role_name system = text "system"
role_name user = text "user"
role_name assistant = text "assistant"
role_name tool = text "tool"

module _ {V M : Type 0} (jinja : Jinja V) (embedded : Embedded M)
    (registry : TemplateRegistry) where
  -- `collect` into a `Result`.
  unfoldable pub chat_messages : List (ChatMessage V) → Result (List M) ChatError
  chat_messages [] = ok []
  chat_messages (m ∷ messages) = do
    first ← map_err chat_template (embedded.new_message (role_name m.role) m.content)
    rest ← chat_messages messages
    ok (first ∷ rest)

  unfoldable pub render_embedded : List (ChatMessage V) → Result Text ChatError
  unfolding chat_messages
  render_embedded messages = do
    t ← map_err chat_template embedded.chat_template
    converted ← chat_messages messages
    map_err chat_template (embedded.apply_chat_template t converted true)

  unfoldable pub render_selected :
      List (ChatMessage V) → List (ToolDefinition V) → Option Text → Result Text ChatError
  unfolding render render_embedded
  render_selected messages tools none = render_embedded messages
  render_selected messages tools (some name) =
      map_err template (render jinja registry name messages tools)

  unfoldable pub render_chat :
      List (ChatMessage V) → List (ToolDefinition V) → Option Text → Result Text ChatError
  unfolding select render_selected
  render_chat messages tools requested = do
    selected ← map_err template (select registry requested (not (is_empty tools)))
    render_selected messages tools selected

-- `deferred`: the pieces that the closure has put together.
abbrev pub joined : List Text → Text
joined [] = []
joined (piece ∷ pieces) = piece ++ joined pieces

-- The closure's answer to a piece with tools, which goes into `deferred`.
abbrev pub defer : List Text → Text → Result (Unit {0}) Text
defer sent piece = ok tt

abbrev pub finish_reason_of : {V : Type 0} → List (ToolCall V) → FinishReason
finish_reason_of calls = if is_empty calls then stop else tool_calls_made

abbrev pub with_calls :
    {V : Type 0} → Text → List (ToolCall V) → GgufGenerationResult V → GgufGenerationResult V
with_calls visible calls generated = record generated {
  text = visible;
  tool_calls = calls;
  finish_reason = finish_reason_of calls;
}

module _ {V : Type 0} {C : Type 0} (callback : List Text → Text → Result (Unit {0}) Text) where
  -- After the generation for a request with tools: what is in `deferred` is parsed, and its visible
  -- text is sent, in one piece.
  unfoldable pub finish_tools :
      (Text → Result (Text × List (ToolCall V)) ToolCallError)
      → Option ℕ
      → GgufModel C
      → Text
      → GgufGenerationResult V
      → Outcome C (Result (GgufGenerationResult V) ChatError)
  unfolding invalidate_session
  finish_tools parse session_id model deferred generated = elim (parse deferred) [
    | err e ↦ record {
      model = invalidate_session session_id model;
      sent = [];
      result = err (tool_calls e);
    }
    | ok (visible, calls) ↦ elim (is_empty visible) [
      | true ↦ record { model = model; sent = []; result = ok (with_calls visible calls generated) }
      | false ↦ elim (callback [] visible) [
        | err e ↦ record {
          model = model;
          sent = visible ∷ [];
          result = err (generation (callback_failed e));
        }
        | ok _ ↦ record {
          model = model;
          sent = visible ∷ [];
          result = ok (with_calls visible calls generated);
        }
      ]
    ]
  ]

  -- The end of `generate_chat`.
  unfoldable pub conclude_chat :
      (Text → Result (Text × List (ToolCall V)) ToolCallError)
      → Bool
      → Option ℕ
      → Outcome C (Result (GgufGenerationResult V) GenerateError)
      → Outcome C (Result (GgufGenerationResult V) ChatError)
  conclude_chat parse has_tools session_id o = elim o.result [
    | err e ↦ record {
      model = o.model;
      sent = if has_tools then [] else o.sent;
      result = err (generation e);
    }
    | ok generated ↦ elim has_tools [
      | true ↦ finish_tools parse session_id o.model (joined o.sent) generated
      | false ↦ record { model = o.model; sent = o.sent; result = ok generated }
    ]
  ]

module _ {V M : Type 0} (J : Json V) (show : ℕ → Text) (jinja : Jinja V) (embedded : Embedded M)
    {C B S D F : Type 0} (E : Engine C B S D F) where
  unfoldable pub generate_chat :
      ℕ
      → (ℕ → Bool)
      → (List Text → Text → Result (Unit {0}) Text)
      → GgufGenerationConfig F
      → TemplateRegistry
      → GgufModel C
      → List (ChatMessage V)
      → List (ToolDefinition V)
      → Option Text
      → Option ℕ
      → ℕ
      → Outcome C (Result (GgufGenerationResult V) ChatError)
  generate_chat now stops callback config registry model messages tools requested session_id
        request_id =
      if not (is_empty tools) && not model.qwen_tool_calls
      then record { model = model; sent = []; result = err no_tool_calls }
      else elim (render_chat jinja embedded registry messages tools requested) [
        | err e ↦ record { model = model; sent = []; result = err e }
        | ok prompt ↦
            let capture = if is_empty tools then callback else defer in
            conclude_chat callback (λ deferred. parse_tool_calls J show deferred tools request_id)
              (not (is_empty tools)) session_id
              (generate E now stops capture config model session_id prompt)
      ]
