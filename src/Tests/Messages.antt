-- ===== src/Tests/Messages.antt =====
-- Requests with a tool, and a worker of one slot. A JSON value is `true` where it is an object.
use decompute.Prelude.{
  length, ◌+◌, ℕ, ◌≤◌, Bool, true, false, Text, text, text_eq, text_discrete, ℕ_discrete, List, [],
  ◌∷◌, none, some, ◌≡◌, refl, arith, ok, err, ◌↔◌, All, all, contains, discard, filter, nat_eq,
}
use decompute.Prelude.Map.{get, insert}
use decompute.Core.Json.{Json, string}
use decompute.Core.Chat.{ChatRole, ChatMessage, ToolDefinition, function_tool}
use decompute.Core.Models.{metal}
use decompute.Core.History.{
  tool_names, validate_tool_history, validate_from, check_role, check_plain, check_calls,
  check_call, check_result,
}
use decompute.Core.History.Follows.{Follows}
use decompute.Core.History.Follows.Exact.{validate_tool_history_iff}
use decompute.Protocol.Requests.{
  GenerateRequest, validate_tools, check_tools, is_name_char, normalized_messages,
  normalize_messages, validate_tool_history_messages,
}
use decompute.Protocol.Requests.Tools.{IsTool, NoRepeats, validate_tools_iff}
use decompute.Coordinator.OpenAi.{
  ChatCompletionRequest, OpenAiRole, try_from, collect, chat_message, content_text, chat_role,
  token_limit,
}
use decompute.Worker.State.{WorkerRuntime, ReserveError, try_reserve, begin_request, begin, release}
use decompute.Worker.Api.{
  accept, complete, normalize_request, reserve_and_begin, begin_or_release, Refusal,
}
use decompute.Worker.Api.Accepts.{IsSound, Accepted, accept-err, accept-Accepted, complete-accept}
use decompute.Worker.Api.Schedule.{
  System, Action, checks, releases, reserves, begins, finishes, cancels, drains, run, IsBalanced,
  run-IsBalanced, run_draining,
}
use decompute.Worker.Api.Forwarded.{normalize_request-try_from}

abbrev is_object : Bool → Bool
is_object b = b

abbrev search_tool : ToolDefinition Bool
search_tool = record {
  kind = function_tool;
  function = record { name = text "search"; description = none; parameters = true };
}

abbrev said : ChatRole → Text → ChatMessage Bool
said role t = record { role = role; content = t; tool_calls = []; tool_call_id = none }

abbrev history : List (ChatMessage Bool)
history =
    said ChatRole.user (text "find it")
    ∷ record (said ChatRole.assistant []) {
      tool_calls =
          record {
            id = text "call_1";
            kind = function_tool;
            function = record { name = text "search"; arguments = true };
          }
          ∷ [];
    }
    ∷ record (said ChatRole.tool (text "found")) { tool_call_id = some (text "call_1") }
    ∷ []

validate_tool_history_iff_example :
    (validate_tool_history is_object history (search_tool ∷ []) ≡ ok tt)
    ↔ Follows is_object (tool_names (search_tool ∷ [])) [] history
validate_tool_history_iff_example = validate_tool_history_iff is_object history (search_tool ∷ [])

validate_tools_iff_example :
    (validate_tools is_object (search_tool ∷ []) ≡ ok tt)
    ↔ (All (IsTool is_object) (search_tool ∷ []) × NoRepeats (tool_names (search_tool ∷ [])))
validate_tools_iff_example = validate_tools_iff is_object (search_tool ∷ [])

abbrev request : GenerateRequest Bool
request = record {
  request_id = 3;
  session_id = none;
  model = text "tiny";
  prompt = none;
  messages = some history;
  template = none;
  tools = search_tool ∷ [];
  max_tokens = 10;
}

abbrev pub idle : WorkerRuntime
idle = record {
  node_id = text "a";
  model_id = text "tiny";
  address = text "http://w";
  max_requests = 1;
  manifest = record { id = []; architecture = []; revision = []; quantization = none; files = [] };
  acceleration = metal;
  active = 0;
  is_draining = false;
  requests = record { active = []; next_channel = 0; completed = [] };
}

idle-IsSound : IsSound idle
idle-IsSound = record { within = omega arith; word = omega arith; distinct = tt }

-- The worker while it serves the request.
abbrev serving : WorkerRuntime
serving = record idle {
  active = 1;
  requests = record {
    active = (3, record { cancelled = false; channel = 0 }) ∷ [];
    next_channel = 1;
    completed = [];
  };
}

accepts_runs : (accept is_object idle request).1 ≡ ok request
unfolding accept normalize_request reserve_and_begin begin_or_release try_reserve begin_request
    begin release validate_tools check_tools is_name_char all contains discard normalized_messages
    normalize_messages validate_tool_history_messages validate_tool_history validate_from check_role
    check_plain check_calls check_call check_result get insert filter text_discrete ℕ_discrete
accepts_runs = refl

refuses_runs :
    (accept is_object serving request).1
    ≡ err (Refusal.service_unavailable ReserveError.at_capacity)
unfolding accept normalize_request reserve_and_begin begin_or_release try_reserve begin_request
    begin release validate_tools check_tools is_name_char all contains discard normalized_messages
    normalize_messages validate_tool_history_messages validate_tool_history validate_from check_role
    check_plain check_calls check_call check_result get insert filter text_discrete ℕ_discrete
refuses_runs = refl

serving-IsSound : IsSound serving
unfolding get
serving-IsSound = record { within = omega arith; word = omega arith; distinct = (refl, tt) }

accept-err_example : (accept is_object serving request).0 ≡ serving
accept-err_example =
    accept-err is_object serving request (Refusal.service_unavailable ReserveError.at_capacity)
      serving-IsSound refuses_runs

accept-Accepted_example :
    (normalize_request is_object request ≡ ok request)
    × Accepted idle (accept is_object idle request).0 (text "tiny") 3
accept-Accepted_example = accept-Accepted is_object idle request request accepts_runs

complete-accept_example :
    let after = complete (accept is_object idle request).0 3 in
    (after.active ≡ 0) × ((j : ℕ) → get j after.requests.active ≡ get j idle.requests.active)
complete-accept_example = complete-accept is_object idle request request idle-IsSound accepts_runs

abbrev worker_alone : System
worker_alone = record { worker = idle; admitted = []; starting = []; releasing = [] }

worker_alone-IsBalanced : IsBalanced 1 worker_alone
worker_alone-IsBalanced = record {
  limit = refl;
  counted = omega arith;
  within = omega arith;
  distinct = tt;
}

abbrev actions : List Action
actions =
    checks (text "tiny") 3
    ∷ drains
    ∷ reserves 3
    ∷ begins 3
    ∷ cancels 3
    ∷ finishes 3
    ∷ releases 3
    ∷ []

run-IsBalanced_example : IsBalanced 1 (run worker_alone actions)
run-IsBalanced_example = run-IsBalanced 1 (omega arith) worker_alone actions worker_alone-IsBalanced

-- It drains after request 3 has passed the test.
abbrev worker_draining : System
worker_draining = record {
  worker = record idle { is_draining = true };
  admitted = 3 ∷ [];
  starting = [];
  releasing = [];
}

worker_draining-IsBalanced : IsBalanced 1 worker_draining
unfolding get
worker_draining-IsBalanced = record {
  limit = refl;
  counted = omega arith;
  within = omega arith;
  distinct = tt;
}

run_draining_example :
    ((run worker_draining actions).worker.is_draining ≡ true)
    × ((run worker_draining actions).worker.active + length (run worker_draining actions).admitted
        ≤ 1)
run_draining_example =
    run_draining 1 (omega arith) worker_draining actions worker_draining-IsBalanced refl

-- A JSON value is its text.
abbrev json : Json Bool
json = record {
  view = λ b. string (text "hello");
  is_object = λ b. b;
  get = λ b t. none;
  as_str = λ b. none;
  from_str = λ t. ok true;
  to_string = λ b. text "{}";
}

abbrev public : ChatCompletionRequest Bool
public = record {
  model = text "tiny";
  messages =
      record { role = OpenAiRole.user; content = some true; tool_calls = []; tool_call_id = none }
      ∷ [];
  tools = search_tool ∷ [];
  stream = false;
  max_tokens = none;
  max_completion_tokens = some 5;
  template = none;
}

abbrev converted : GenerateRequest Bool
converted = record request {
  messages = some (said ChatRole.user (text "hello") ∷ []);
  max_tokens = 5;
}

converts_runs : try_from json public 3 ≡ ok converted
unfolding try_from validate_tools all is_name_char contains collect chat_message content_text
    validate_tool_history validate_from check_role chat_role check_plain token_limit text_discrete
    ℕ_discrete
converts_runs = refl

normalize_request-try_from_example :
    normalize_request (json.is_object) (record converted { session_id = some 9 })
    ≡ ok (record converted { session_id = some 9 })
normalize_request-try_from_example =
    normalize_request-try_from json public 3 (some 9) converted converts_runs
