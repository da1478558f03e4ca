-- ===== src/Harness/Model.antt =====
-- crates/harness/src/main.rs: the data of the application and the requests it makes. A `Uuid` is a
-- number; a new one is an argument.
use decompute.Prelude.{
  ℕ, ◌+◌, Bool, true, false, not, ◌&&◌, Text, text, text_eq, List, [], ◌∷◌, ◌++◌, Option, none,
  some, ◌==◌, if◌then◌else◌, Result, is_empty, trim, any,
}
use Prim.Native.Nat.{◌/◌}

pub record Settings : Type 0 where
  pub endpoint : Text
  pub model : Text
  pub context_budget : ℕ
  pub max_tokens : ℕ

abbrev pub default_settings : Settings
default_settings = record {
  endpoint = text "http://127.0.0.1:8000";
  model = text "qwen2.5-0.5b-instruct-q4-k-m";
  context_budget = 2048;
  max_tokens = 256;
}

pub data Role : Type 0 where
  user assistant error : Role

pub record Message : Type 0 where
  pub id : ℕ
  pub role : Role
  pub content : Text

pub record Conversation : Type 0 where
  pub id : ℕ
  pub title : Text
  pub system_enabled : Bool
  pub system_harness : Text
  pub messages : List Message

abbrev pub new : ℕ → Conversation
new id = record {
  id = id;
  title = text "New conversation";
  system_enabled = false;
  system_harness = [];
  messages = [];
}

pub record SavedState : Type 0 where
  pub settings : Settings
  pub conversations : List Conversation
  pub selected : Option ℕ

abbrev pub default_state : ℕ → SavedState
default_state id = record {
  settings = default_settings;
  conversations = new id ∷ [];
  selected = some id;
}

pub data Event : Type 0 where
  models : Result (List Text) Text → Event
  delta : ℕ → ℕ → Text → Event
  completed : ℕ → Event
  cancelled : ℕ → Event
  failed : ℕ → Text → Event

-- `is_cancelled` is the stream's `CancellationToken`.
pub record ActiveStream : Type 0 where
  pub conversation : ℕ
  pub user_message : ℕ
  pub assistant_message : ℕ
  pub is_cancelled : Bool

pub record ApiMessage : Type 0 where
  pub role : Text
  pub content : Text

pub record Request : Type 0 where
  pub model : Text
  pub messages : List ApiMessage
  pub max_tokens : ℕ
  pub stream : Bool

-- The `match` on the role.
unfoldable pub api_message : Message → Option ApiMessage
api_message m = elim m.role [
  | user ↦ some (record { role = text "user"; content = m.content })
  | assistant ↦
      if not (is_empty m.content)
      then some (record { role = text "assistant"; content = m.content })
      else none
  | error ↦ none
]

unfoldable pub api_messages : List Message → List ApiMessage
unfolding api_message
api_messages [] = []
api_messages (m ∷ messages) =
    let rest = api_messages messages in elim (api_message m) [ none ↦ rest | some a ↦ a ∷ rest ]

unfoldable pub system_message : Conversation → List ApiMessage
system_message conversation =
    if conversation.system_enabled && not (is_empty (trim conversation.system_harness))
    then record { role = text "system"; content = conversation.system_harness } ∷ []
    else []

unfoldable pub from_conversation : Settings → Conversation → Request
unfolding api_messages system_message
from_conversation settings conversation = record {
  model = settings.model;
  messages = system_message conversation ++ api_messages conversation.messages;
  max_tokens = settings.max_tokens;
  stream = true;
}

-- `div_ceil(4)`.
unfoldable pub approximate_tokens : ℕ → ℕ
approximate_tokens characters = (characters + 3) / 4

abbrev pub first_or_empty : List Text → Text
first_or_empty [] = []
first_or_empty (model ∷ rest) = model

unfoldable pub selected_discovered_model : Text → List Text → Text
selected_discovered_model current found =
    if any (λ model. model == current) found then current else first_or_empty found
