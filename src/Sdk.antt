-- ===== src/Sdk.antt =====
-- crates/decompute-sdk: requests to a loaded model, and the jobs of the thread that owns it. `as_f32`
-- narrows a temperature. The cancellation token of a request is the argument `stops`.
pub mod Events
use decompute.Prelude.{
  ℕ, Bool, true, false, Text, text, List, [], ◌∷◌, ◌++◌, map, Option, none, some, ltb,
  if◌then◌else◌, Result, ok, err, length,
}
use mathlib.Core.Option
use decompute.Prelude.Bytes.{take}
use decompute.Core.Json.{Json}
use decompute.Core.Chat.{ChatMessage, user, ToolDefinition, ToolCall, FinishReason}
use decompute.Llama.Engine.{Engine}
use decompute.Llama.Templates.{Jinja, TemplateRegistry}
use decompute.Llama.Session.{GgufModel}
use decompute.Llama.Decode.{GgufGenerationConfig}
use decompute.Llama.Generate.{GgufGenerationResult, Outcome}
use decompute.Llama.Chat.{ChatError, Embedded, generate_chat}

pub record GenerationConfig (G : Type 0) : Type 0 where
  pub max_tokens : ℕ
  pub temperature : Option G

pub record ChatRequest (V G : Type 0) : Type 0 where
  pub request_id : ℕ
  pub session_id : Option ℕ
  pub messages : List (ChatMessage V)
  pub template : Option Text
  pub tools : List (ToolDefinition V)
  pub generation : GenerationConfig G

pub record GenerationResult (V : Type 0) : Type 0 where
  pub text : Text
  pub input_tokens : ℕ
  pub output_tokens : ℕ
  pub tool_calls : List (ToolCall V)
  pub finish_reason : FinishReason

pub data GenerationEvent (V : Type 0) : Type 0 where
  text_delta : Text → GenerationEvent V
  completed : GenerationResult V → GenerationEvent V
  error : ChatError → GenerationEvent V

abbrev pub default_generation : {G : Type 0} → GenerationConfig G
default_generation = record { max_tokens = 100; temperature = none }

-- The request of `smoke_test`.
abbrev pub smoke_request : {V G : Type 0} → ChatRequest V G
smoke_request = record {
  request_id = 0;
  session_id = none;
  messages =
      record {
        role = user;
        content = text "Reply with one word.";
        tool_calls = [];
        tool_call_id = none;
      }
      ∷ [];
  template = none;
  tools = [];
  generation = record { max_tokens = 1; temperature = none };
}

abbrev pub from_gguf : {V : Type 0} → GgufGenerationResult V → GenerationResult V
from_gguf r = record {
  text = r.text;
  input_tokens = r.input_tokens;
  output_tokens = r.output_tokens;
  tool_calls = r.tool_calls;
  finish_reason = r.finish_reason;
}

-- The last event of a stream.
unfoldable pub final_event :
    {V : Type 0} → Result (GgufGenerationResult V) ChatError → GenerationEvent V
final_event (ok r) = completed (from_gguf r)
final_event (err e) = error e

abbrev pub accepts_all : List Text → Text → Result (Unit {0}) Text
accepts_all sent piece = ok tt

-- `room` is how many events the channel takes until its receiver is dropped.
unfoldable pub send_delta : ℕ → List Text → Text → Result (Unit {0}) Text
send_delta room sent piece =
    if ltb (length sent) room then ok tt else err (text "stream receiver dropped")

abbrev pub all_events :
    {V C : Type 0}
    → Outcome C (Result (GgufGenerationResult V) ChatError)
    → List (GenerationEvent V)
all_events o = map (λ t. text_delta t) o.sent ++ final_event o.result ∷ []

module _ {V M G C B S D F : Type 0} (J : Json V) (show : ℕ → Text) (jinja : Jinja V)
    (embedded : Embedded M) (E : Engine C B S D F) (as_f32 : G → F) (registry : TemplateRegistry)
    (now : ℕ) (stops : ℕ → Bool) where
  -- `generate` of the module, up to the names of the fields of its result.
  unfoldable pub generate :
      (List Text → Text → Result (Unit {0}) Text)
      → GgufModel C
      → ChatRequest V G
      → Outcome C (Result (GgufGenerationResult V) ChatError)
  generate callback model request =
      generate_chat J show jinja embedded E now stops callback
        (record {
          max_tokens = request.generation.max_tokens;
          temperature = Option.map as_f32 request.generation.temperature;
        })
        registry model request.messages request.tools request.template request.session_id
        request.request_id

  -- `Job::Generate`.
  unfoldable pub run_generate :
      GgufModel C → ChatRequest V G → GgufModel C × Result (GenerationResult V) ChatError
  unfolding generate
  run_generate model request =
      let o = generate accepts_all model request in
      elim o.result [ err e ↦ (o.model, err e) | ok r ↦ (o.model, ok (from_gguf r)) ]

  -- `Job::Stream`: the events that the channel has taken.
  unfoldable pub run_stream :
      ℕ → GgufModel C → ChatRequest V G → GgufModel C × List (GenerationEvent V)
  unfolding generate send_delta final_event
  run_stream room model request =
      let o = generate (send_delta room) model request in (o.model, take room (all_events o))
