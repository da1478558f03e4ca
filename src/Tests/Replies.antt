-- ===== src/Tests/Replies.antt =====
-- Streams of a loaded model: of its own thread, and of the worker.
use decompute.Prelude.{
  ℕ, true, false, Text, text, text_discrete, ℕ_discrete, List, [], ◌∷◌, ◌++◌, map, none, some,
  Result, ok, ◌≡◌, refl, arith, contains, trim, is_whitespace, decimal, length, nat_eq, ◌==◌,
}
use decompute.Prelude.Map.{get}
use decompute.Protocol.Requests.{
  GenerateRequest, RequestValidationError, text_delta, completed, normalized_messages,
  normalize_messages,
}
use decompute.Llama.Generate
use decompute.Llama.Generate.{Outcome, GgufGenerationResult}
use decompute.Llama.Chat.{
  ChatError, generate_chat, render_chat, conclude_chat, finish_tools, joined,
}
use decompute.Llama.ToolCalls.{parse_tool_calls}
use decompute.Sdk.{ChatRequest, generate, accepts_all}
use decompute.Worker.Stream.{ModelHandle, cache_session_id, chat_request, stream}
use decompute.Worker.Stream.Loaded.{loaded_handle, stream_loaded-Ended, stream_loaded-delivered}
use decompute.Worker.Stream.Shape.{Ended}
use decompute.Tests.Inference.{Sim, loaded, loaded-IsCommitted, never, sim_with-Laws}
use decompute.Tests.Tools.{
  json, jinja, embedded, registry, speaker, question, answered, show, search_tool, next_of,
}

abbrev asked : ChatRequest ℕ (Unit {0})
asked = record {
  request_id = 5;
  session_id = some 7;
  messages = question;
  template = none;
  tools = search_tool ∷ [];
  generation = record { max_tokens = 60; temperature = none };
}

abbrev as_f32 : Unit {0} → Unit {0}
as_f32 t = t

abbrev reply_with :
    (List Text → Text → Result (Unit {0}) Text)
    → ChatRequest ℕ (Unit {0})
    → Outcome Sim (Result (GgufGenerationResult ℕ) ChatError)
reply_with callback chat =
    generate json show jinja embedded speaker as_f32 registry 20 never callback loaded chat

reply_runs : (reply_with accepts_all asked).result ≡ ok answered
unfolding generate generate_chat ℕ_discrete render_chat text_discrete conclude_chat
    Generate.generate finish_tools parse_tool_calls contains trim is_whitespace decimal
reply_runs = refl

reply_fits : length (reply_with accepts_all asked).sent ≡ 1
unfolding generate generate_chat ℕ_discrete render_chat text_discrete conclude_chat
    Generate.generate finish_tools parse_tool_calls contains trim is_whitespace decimal
reply_fits = refl

abbrev describe : RequestValidationError → Text
describe e = text "invalid"

abbrev explain : ChatError → Text
explain e = text "failed"

abbrev posted : GenerateRequest ℕ
posted = record {
  request_id = 5;
  session_id = some 7;
  model = text "qwen";
  prompt = some (text "find it");
  messages = none;
  template = none;
  tools = search_tool ∷ [];
  max_tokens = 60;
}

abbrev handle : ModelHandle ℕ (Unit {0})
handle = loaded_handle json show jinja embedded speaker as_f32 registry 20 never explain loaded

stream_loaded-Ended_example :
    Ended
      (stream describe explain handle true true 1 posted).0
      (stream describe explain handle true true 1 posted).1
stream_loaded-Ended_example =
    stream_loaded-Ended json show jinja embedded speaker as_f32 registry 20 never explain loaded
      describe true true 1 posted (omega arith)

stream_loaded-delivered_example :
    (pieces : List Text) × (stream describe explain handle true true 2 posted ≡ (
      map (λ t. text_delta t) pieces
          ++ completed answered.input_tokens answered.output_tokens answered.tool_calls
              answered.finish_reason
            ∷ [],
      false,
    ))
    × (joined pieces ≡ text "Let me see.")
unfolding get cache_session_id chat_request normalized_messages normalize_messages
stream_loaded-delivered_example =
    stream_loaded-delivered json show jinja embedded speaker as_f32 registry 20 never explain loaded
      (sim_with-Laws next_of (λ t. t == 0)) describe true true 2 posted asked answered (refl, tt)
      (loaded-IsCommitted next_of (λ t. t == 0)) (omega arith) refl reply_runs
      (omega (arith, reply_fits))
