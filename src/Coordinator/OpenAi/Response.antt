-- ===== src/Coordinator/OpenAi/Response.antt =====
-- crates/coordinator/src/openai.rs: the responses and stream chunks for OpenAI clients. `created` is
-- the time in seconds; a `Uuid` is printed by `show`.
use decompute.Prelude.{
  ℕ, suc, ◌+◌, ◌%◌, ◌^◌, Text, text, List, [], ◌∷◌, ◌++◌, map, Option, none, some, if◌then◌else◌,
  is_empty,
}
use decompute.Core.Json.{Json}
use decompute.Core.Chat.{ToolType, ToolCall, FinishReason}
use decompute.Protocol.Requests.{GenerateResponse}

pub record OpenAiFunctionCallResponse : Type 0 where
  pub name : Text
  pub arguments : Text

pub record OpenAiToolCallResponse : Type 0 where
  pub id : Text
  pub kind : ToolType
  pub function : OpenAiFunctionCallResponse

pub record AssistantMessage : Type 0 where
  pub role : Text
  pub content : Option Text
  pub tool_calls : List OpenAiToolCallResponse

pub record CompletionChoice : Type 0 where
  pub index : ℕ
  pub message : AssistantMessage
  pub finish_reason : FinishReason

pub record CompletionUsage : Type 0 where
  pub prompt_tokens : ℕ
  pub completion_tokens : ℕ
  pub total_tokens : ℕ

pub record ChatCompletionResponse : Type 0 where
  pub id : Text
  pub object : Text
  pub created : ℕ
  pub model : Text
  pub choices : List CompletionChoice
  pub usage : CompletionUsage

pub record ChunkToolCall : Type 0 where
  pub index : ℕ
  pub id : Text
  pub kind : ToolType
  pub function : OpenAiFunctionCallResponse

pub record AssistantDelta : Type 0 where
  pub role : Option Text
  pub content : Option Text
  pub tool_calls : List ChunkToolCall

pub record ChunkChoice : Type 0 where
  pub index : ℕ
  pub delta : AssistantDelta
  pub finish_reason : Option FinishReason

pub record ChatCompletionChunk : Type 0 where
  pub id : Text
  pub object : Text
  pub created : ℕ
  pub model : Text
  pub choices : List ChunkChoice
  pub usage : Option CompletionUsage

-- The sum of two `usize`, which wraps.
unfoldable pub usage : ℕ → ℕ → CompletionUsage
usage input_tokens output_tokens = record {
  prompt_tokens = input_tokens;
  completion_tokens = output_tokens;
  total_tokens = (input_tokens + output_tokens) % 2 ^ 64;
}

module _ {V : Type 0} (json : Json V) where
  unfoldable pub tool_call_response : ToolCall V → OpenAiToolCallResponse
  tool_call_response call = record {
    id = call.id;
    kind = call.kind;
    function = record {
      name = call.function.name;
      arguments = json.to_string call.function.arguments;
    };
  }

  -- `tool_calls`.
  unfoldable pub tool_calls : List (ToolCall V) → List OpenAiToolCallResponse
  unfolding tool_call_response
  tool_calls calls = map tool_call_response calls

  -- `from_generate`.
  unfoldable pub from_generate : (ℕ → Text) → ℕ → Text → GenerateResponse V → ChatCompletionResponse
  unfolding tool_calls usage
  from_generate show created model response = record {
    id = text "chatcmpl-" ++ show response.request_id;
    object = text "chat.completion";
    created = created;
    model = model;
    choices =
        record {
          index = 0;
          message = record {
            role = text "assistant";
            content = if is_empty response.reply then none else some response.reply;
            tool_calls = tool_calls response.tool_calls;
          };
          finish_reason = response.finish_reason;
        }
        ∷ [];
    usage = usage response.input_tokens response.output_tokens;
  }

pub record StreamContext : Type 0 where
  pub id : Text
  pub created : ℕ
  pub model : Text

unfoldable pub new : (ℕ → Text) → ℕ → Text → ℕ → StreamContext
new show created model request_id = record {
  id = text "chatcmpl-" ++ show request_id;
  created = created;
  model = model;
}

abbrev pub no_delta : AssistantDelta
no_delta = record { role = none; content = none; tool_calls = [] }

unfoldable pub chunk :
    StreamContext
    → AssistantDelta
    → Option FinishReason
    → Option CompletionUsage
    → ChatCompletionChunk
chunk context delta finish_reason usage = record {
  id = context.id;
  object = text "chat.completion.chunk";
  created = context.created;
  model = context.model;
  choices = record { index = 0; delta = delta; finish_reason = finish_reason } ∷ [];
  usage = usage;
}

unfoldable pub role_chunk : StreamContext → ChatCompletionChunk
unfolding chunk
role_chunk context = chunk context (record no_delta { role = some (text "assistant") }) none none

unfoldable pub text_chunk : StreamContext → Text → ChatCompletionChunk
unfolding chunk
text_chunk context t = chunk context (record no_delta { content = some t }) none none

-- `enumerate`, from `index` on.
unfoldable pub enumerated : ℕ → List OpenAiToolCallResponse → List ChunkToolCall
enumerated index [] = []
enumerated index (call ∷ calls) =
    record { index = index; id = call.id; kind = call.kind; function = call.function }
    ∷ enumerated (suc index) calls

module _ {V : Type 0} (json : Json V) where
  -- `StreamContext::completed`.
  unfoldable pub completed_chunks :
      StreamContext → ℕ → ℕ → List (ToolCall V) → FinishReason → List ChatCompletionChunk
  unfolding chunk enumerated
  completed_chunks context input_tokens output_tokens calls finish_reason =
      let last =
        chunk context no_delta (some finish_reason) (some (usage input_tokens output_tokens)) in
      if is_empty calls
      then last ∷ []
      else chunk context (record no_delta { tool_calls = enumerated 0 (tool_calls json calls) })
          none none
        ∷ last
        ∷ []
