-- ===== src/Tests/Tools.antt =====
-- A model's text with a tool call. A JSON value is 0 where it is the call, 1 where it is its name and
-- 2 where it is its arguments.
use decompute.Prelude.{
  ℕ, true, false, Text, text, text_eq, text_discrete, ℕ_discrete, List, [], ◌∷◌, ◌++◌, none, some,
  ◌≡◌, ◌≢◌, refl, Result, ok, err, nat_eq, ◌==◌, if◌then◌else◌, trim, contains, text_lt, map_err,
  is_whitespace, decimal, zero, suc, length,
}
use decompute.Prelude.Map.{get}
use decompute.Core.Json.{Json, other}
use decompute.Core.Chat.{
  ChatRole, ChatMessage, ToolDefinition, ToolCall, FinishReason, function_tool,
}
use decompute.Core.History.{
  tool_names, validate_tool_history, validate_from, check_role, check_plain,
}
use decompute.Llama.ToolCalls.{parse_tool_calls, out_of_fuel, numbered}
use decompute.Llama.ToolCalls.Fresh.{parse_tool_calls-terminates}
use decompute.Llama.ToolCalls.Blocks.{Reads, parse_tool_calls-Reads}
use decompute.Llama.Templates.{
  Jinja, TemplateRegistry, Listing, done, directory, file, load, select, render, engine,
}
use decompute.Llama.Templates.Selected.{render-select}
use decompute.Llama.Engine.{Engine, Item}
use decompute.Llama.Decode.{GgufGenerationConfig}
use decompute.Llama.Generate.{GgufGenerationResult, Outcome, generate}
use decompute.Llama.Chat.{
  Embedded, ChatError, generate_chat, render_chat, conclude_chat, finish_tools,
}
use decompute.Llama.Chat.Parsed.{Parsed}
use decompute.Llama.Chat.Delivered.{validate_tool_history-generate_chat}
use decompute.Llama.ToolCalls.Answered.{calls_message, result_message}
use decompute.Tests.Inference.{Sim, sim_with, loaded, never, takes_all}

abbrev pub json : Json ℕ
json = record {
  view = λ v. other;
  is_object = λ v. v == 2;
  get = λ v key.
      if key == text "name" then some 1 else if key == text "arguments" then some 2 else none;
  as_str = λ v. if v == 1 then some (text "search") else none;
  from_str = λ t. ok 0;
  to_string = λ v. [];
}

abbrev pub search_tool : ToolDefinition ℕ
search_tool = record {
  kind = function_tool;
  function = record { name = text "search"; description = none; parameters = 2 };
}

abbrev pub found_call : ToolCall ℕ
found_call = record {
  id = text "r-0";
  kind = function_tool;
  function = record { name = text "search"; arguments = 2 };
}

abbrev pub show : ℕ → Text
show n = text "r"

abbrev answer_text : Text
answer_text = text " Let me see. <tool_call>{}</tool_call>"

parse_runs :
    parse_tool_calls json show answer_text (search_tool ∷ []) 5
    ≡ ok (text "Let me see.", found_call ∷ [])
unfolding parse_tool_calls trim text_discrete ℕ_discrete contains is_whitespace decimal
parse_runs = refl

parse_tool_calls-Reads_example :
    (v : Text) × (text "Let me see." ≡ trim v)
    × Reads json (tool_names (search_tool ∷ [])) (numbered show 5) 0 answer_text v (found_call ∷ [])
parse_tool_calls-Reads_example =
    parse_tool_calls-Reads json show answer_text (text "Let me see.") (search_tool ∷ []) 5
      (found_call ∷ []) parse_runs

parse_tool_calls-terminates_example :
    parse_tool_calls json show answer_text (search_tool ∷ []) 5 ≢ err out_of_fuel
parse_tool_calls-terminates_example =
    parse_tool_calls-terminates json show answer_text (search_tool ∷ []) 5

-- Two sidecar templates, one of them in a directory.
abbrev sidecar : Listing
sidecar =
    file (text "rag.jinja") (ok (text "R"))
      (directory (text "partials") (file (text "p.jinja") (ok (text "P")) done) done)

-- Every template renders to `hi`.
abbrev pub jinja : Jinja ℕ
jinja = record {
  compiles = λ name source. ok tt;
  render = λ environment source messages tools. ok (text "hi");
}

abbrev pub registry : TemplateRegistry
registry = record {
  environment =
      (text "qwen-tools", text "Q")
      ∷ (text "rag.jinja", text "R")
      ∷ (text "rag", text "R")
      ∷ (text "partials/p.jinja", text "P")
      ∷ [];
  names = text "qwen-tools" ∷ text "rag" ∷ [];
  qwen = true;
}

load_runs : load jinja (text "Q") (some sidecar) (text "Qwen2") ≡ ok registry
unfolding load text_discrete ℕ_discrete text_lt
load_runs = refl

render-select_example :
    (source : Text) × (get (text "rag") registry.environment ≡ some source)
    × (render jinja registry (text "rag") [] []
        ≡ map_err engine (jinja.render registry.environment source [] []))
unfolding select contains text_discrete ℕ_discrete
render-select_example =
    render-select jinja (text "Q") (some sidecar) (text "Qwen2") registry (some (text "rag"))
      (text "rag") [] [] false load_runs refl

abbrev pub embedded : Embedded Text
embedded = record {
  chat_template = ok [];
  new_message = λ role content. ok content;
  apply_chat_template = λ t messages prompted. ok [];
}

abbrev nth : ℕ → List ℕ → ℕ
nth n [] = 0
nth zero (x ∷ xs) = x
nth (suc n) (x ∷ xs) = nth n xs

-- Answers `hi` with the text above.
abbrev pub next_of : List ℕ → ℕ
next_of seen = nth (length seen) (text "hi" ++ answer_text)

abbrev pub speaker : Engine Sim (List Item) (Unit {0}) (Unit {0}) (Unit {0})
speaker = sim_with next_of (λ t. t == 0)

abbrev long : GgufGenerationConfig (Unit {0})
long = record { max_tokens = 60; temperature = none }

abbrev pub question : List (ChatMessage ℕ)
question =
    record { role = ChatRole.user; content = text "find it"; tool_calls = []; tool_call_id = none }
    ∷ []

abbrev pub answered : GgufGenerationResult ℕ
answered = record {
  text = text "Let me see.";
  input_tokens = 2;
  output_tokens = 38;
  tool_calls = found_call ∷ [];
  finish_reason = FinishReason.tool_calls_made;
}

abbrev chat : Outcome Sim (Result (GgufGenerationResult ℕ) ChatError)
chat =
    generate_chat json show jinja embedded speaker 20 never takes_all long registry loaded question
      (search_tool ∷ []) none (some 7) 5

chat_runs : chat.result ≡ ok answered
unfolding generate_chat ℕ_discrete render_chat text_discrete conclude_chat generate finish_tools
    parse_tool_calls contains trim is_whitespace decimal
chat_runs = refl

question_runs : validate_tool_history json.is_object question (search_tool ∷ []) ≡ ok tt
unfolding validate_tool_history validate_from check_role check_plain
question_runs = refl

validate_tool_history-generate_chat_example :
    validate_tool_history json.is_object
      (question
        ++ calls_message (text "Let me see.") (found_call ∷ [])
          ∷ result_message (λ call. text "sun") found_call
          ∷ [])
      (search_tool ∷ [])
    ≡ ok tt
validate_tool_history-generate_chat_example =
    validate_tool_history-generate_chat json show jinja embedded speaker 20 never takes_all long
      registry loaded question (search_tool ∷ []) none (some 7) 5 answered (λ call. text "sun")
      chat_runs question_runs
