-- ===== src/Llama/ToolCalls.antt =====
-- crates/decompute-llama/src/tool_calls.rs: the tool calls in the text of a model. `J` is
-- `serde_json`, and `call_name` prints the id of the request and an index.
pub mod Fresh
pub mod Answered
pub mod Blocks
use decompute.Prelude.{
  ℕ, zero, suc, Bool, true, false, not, Text, text, text_eq, List, [], ◌∷◌, ◌++◌, Option, none,
  some, ◌+◌, if◌then◌else◌, Result, ok, err, ◌>>=◌, ◌>>◌, or_fail, map_err, is_empty, contains,
  length, trim, decimal,
}
use decompute.Prelude.Bytes.{position, take, drop}
use decompute.Core.Json.{Json, View, null, string, array, other}
use decompute.Core.Chat.{ToolDefinition, ToolCall, FunctionCall, function_tool}
use decompute.Core.History.{tool_names}

-- What the source puts into an `anyhow::Error`. `out_of_fuel` belongs to the model.
pub data ToolCallError : Type 0 where
  unterminated no_function_name empty_id out_of_fuel : ToolCallError
  duplicate_id undeclared no_arguments not_an_object : Text → ToolCallError
  invalid_json : Text → ToolCallError
  invalid_arguments : Text → Text → ToolCallError

abbrev pub open_tag : Text
open_tag = text "<tool_call>"

abbrev pub close_tag : Text
close_tag = text "</tool_call>"

-- `unwrap_or` and `and_then`.
abbrev pub unwrap_or {ℓ} : {A : Type ℓ} → A → Option A → A
unwrap_or a none = a
unwrap_or a (some b) = b

abbrev pub and_then {ℓ} : {A B : Type ℓ} → Option A → (A → Option B) → Option B
and_then none f = none
and_then (some a) f = f a

-- A call in the text, and what stands around its block.
pub record Block (V : Type 0) : Type 0 where
  pub before : Text
  pub call : ToolCall V
  pub after : Text

module _ {V : Type 0} (J : Json V) (names : List Text) (call_name : ℕ → Text) where
  -- Arguments in a string are JSON text.
  unfoldable pub read_arguments : Text → V → Result V ToolCallError
  read_arguments name arguments = elim (J.view arguments) [
    | string value ↦ map_err (invalid_arguments name) (J.from_str value)
    | null ↦ ok arguments
    | array _ ↦ ok arguments
    | other ↦ ok arguments
  ]

  unfoldable pub call_id : V → ℕ → Text
  call_id value index = unwrap_or (call_name index) (and_then (J.get value (text "id")) J.as_str)

  unfoldable pub parse_one : Text → ℕ → Result (ToolCall V) ToolCallError
  unfolding read_arguments call_id
  parse_one body index = do
    value ← map_err invalid_json (J.from_str body)
    let function = unwrap_or value (J.get value (text "function"))
    name ← or_fail (and_then (J.get function (text "name")) J.as_str) no_function_name
    if contains name names then ok tt else err (undeclared name)
    given ← or_fail (J.get function (text "arguments")) (no_arguments name)
    arguments ← read_arguments name given
    if J.is_object arguments then ok tt else err (not_an_object name)
    let id = call_id value index
    if is_empty id then err empty_id else ok tt
    ok (record {
      id = id;
      kind = function_tool;
      function = record { name = name; arguments = arguments };
    })

  -- One round of the loop: the next call, with the text before it and after it.
  unfoldable pub next_call : Text → ℕ → Result (Option (Block V)) ToolCallError
  unfolding position parse_one
  next_call remainder index = elim (position open_tag remainder) [
    | none ↦ ok none
    | some start ↦
        let body = drop (start + length open_tag) remainder in
        elim (position close_tag body) [
          | none ↦ err unterminated
          | some end ↦ do
            call ← parse_one (trim (take end body)) index
            ok (
                some (record {
                  before = take start remainder;
                  call = call;
                  after = drop (end + length close_tag) body;
                }))
        ]
  ]

  -- The loop: `calls` and `ids` are what the rounds before have found.
  unfoldable pub parse_from :
      ℕ
      → Text
      → List (ToolCall V)
      → List Text
      → Text
      → Result (Text × List (ToolCall V)) ToolCallError
  unfolding next_call
  parse_from zero visible calls ids remainder = err out_of_fuel
  parse_from (suc fuel) visible calls ids remainder = do
    found ← next_call remainder (length calls)
    elim found [
      | none ↦ ok (trim (visible ++ remainder), calls)
      | some b ↦ do
        if contains b.call.id ids then err (duplicate_id b.call.id) else ok tt
        parse_from fuel (visible ++ b.before) (calls ++ b.call ∷ []) (b.call.id ∷ ids) b.after
    ]

-- `format!("{request_id}-{index}")`.
abbrev pub numbered : (ℕ → Text) → ℕ → ℕ → Text
numbered show request_id index = show request_id ++ text "-" ++ decimal index

-- `show` is the `Display` of `Uuid`. Each round takes a tag off the text.
unfoldable pub parse_tool_calls :
    {V : Type 0} (J : Json V) (show : ℕ → Text)
    → Text
    → List (ToolDefinition V)
    → ℕ
    → Result (Text × List (ToolCall V)) ToolCallError
unfolding parse_from
parse_tool_calls J show text' tools request_id =
    parse_from J (tool_names tools) (numbered show request_id) (suc (length text')) [] [] [] text'
