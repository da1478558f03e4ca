-- ===== src/Harness/App.antt =====
-- crates/harness/src/main.rs: `HarnessApp` and its operations. The two fields that only the drawing
-- reads, `pending_delete` and `show_settings`, and the channel of events are left out: an operation
-- takes the events it reads as arguments, and returns the request whose task it spawns.
pub mod Selection
use decompute.Prelude.{
  ℕ, zero, suc, ◌-◌, Bool, true, false, not, ◌&&◌, ◌||◌, Text, text, text_eq, List, [], ◌∷◌, ◌++◌,
  Option, none, some, ◌==◌, nat_eq, if◌then◌else◌, Result, ok, err, is_empty, trim, filter, length,
  min,
}
use mathlib.Core.Option
use decompute.Prelude.Bytes.{take}
use decompute.Harness.Model.{
  Settings, Role, Message, Conversation, new, SavedState, Event, models, delta, completed,
  cancelled, failed, ActiveStream, Request, from_conversation, selected_discovered_model,
}

pub record HarnessApp : Type 0 where
  pub state : SavedState
  pub draft : Text
  pub models : List Text
  pub status : Text
  pub connected : Bool
  pub active_stream : Option ActiveStream

unfoldable pub find : ℕ → List Conversation → Option Conversation
find id [] = none
find id (c ∷ cs) = let rest = find id cs in if c.id == id then some c else rest

-- A change through `iter_mut().find(..)`: of the first conversation with the id.
unfoldable pub update : ℕ → (Conversation → Conversation) → List Conversation → List Conversation
update id f [] = []
update id f (c ∷ cs) = let rest = update id f cs in if c.id == id then f c ∷ cs else c ∷ rest

unfoldable pub position : ℕ → List Conversation → Option ℕ
position id [] = none
position id (c ∷ cs) =
    let rest = position id cs in if c.id == id then some 0 else Option.map suc rest

unfoldable pub remove : ℕ → List Conversation → List Conversation
remove n [] = []
remove zero (c ∷ cs) = cs
remove (suc n) (c ∷ cs) = c ∷ remove n cs

-- The id at an index, if there is one.
unfoldable pub id_at : ℕ → List Conversation → Option ℕ
id_at n [] = none
id_at zero (c ∷ cs) = some c.id
id_at (suc n) (c ∷ cs) = id_at n cs

abbrev pub with_conversations : HarnessApp → List Conversation → HarnessApp
with_conversations app cs = record app { state = record app.state { conversations = cs } }

-- `selected_mut` with a change of what it gives.
unfoldable pub update_selected : (Conversation → Conversation) → HarnessApp → HarnessApp
unfolding update
update_selected f app = elim app.state.selected [
  | none ↦ app
  | some id ↦ with_conversations app (update id f app.state.conversations)
]

unfoldable pub selected : HarnessApp → Option Conversation
unfolding find
selected app = elim app.state.selected [ none ↦ none | some id ↦ find id app.state.conversations ]

unfoldable pub new_conversation : ℕ → HarnessApp → HarnessApp
new_conversation fresh app = record app {
  state = record app.state {
    conversations = app.state.conversations ++ new fresh ∷ [];
    selected = some fresh;
  };
}

unfoldable pub is_active_for : ℕ → HarnessApp → Bool
is_active_for conversation app = elim app.active_stream [
  | none ↦ false
  | some stream ↦ stream.conversation == conversation
]

-- `cancel_stream_for`; nothing uses its result.
unfoldable pub cancel_stream_for : ℕ → HarnessApp → HarnessApp
cancel_stream_for conversation app = elim app.active_stream [
  | none ↦ app
  | some stream ↦
      if stream.conversation == conversation
      then record app {
        active_stream = some (record stream { is_cancelled = true });
        status = text "Cancelling…";
      }
      else app
]

abbrev pub is_id : ℕ → Option ℕ → Bool
is_id id none = false
is_id id (some other) = other == id

-- The conversations and the selection after the removal; `left` are the conversations left.
unfoldable pub reselect : ℕ → ℕ → Bool → List Conversation → SavedState → SavedState
unfolding id_at
reselect fresh index was_selected [] state = record state {
  conversations = new fresh ∷ [];
  selected = some fresh;
}
reselect fresh index was_selected (c ∷ cs) state = record state {
  conversations = c ∷ cs;
  selected =
      if was_selected then id_at (min index (length (c ∷ cs) - 1)) (c ∷ cs) else state.selected;
}

unfoldable pub remove_conversation : ℕ → ℕ → HarnessApp → HarnessApp
unfolding position remove cancel_stream_for reselect
remove_conversation fresh id app = elim (position id app.state.conversations) [
  | none ↦ app
  | some index ↦
      let stopped = cancel_stream_for id app in
      let was_selected = is_id id app.state.selected in
      record stopped {
        state = reselect fresh index was_selected (remove index app.state.conversations) app.state;
        draft = if was_selected then [] else app.draft;
      }
]

unfoldable pub clear_selected_conversation : HarnessApp → HarnessApp
unfolding cancel_stream_for update_selected
clear_selected_conversation app = elim app.state.selected [
  | none ↦ app
  | some id ↦ update_selected (λ c. record c { messages = [] }) (cancel_stream_for id app)
]

unfoldable pub is_in_stream : ℕ → ℕ → Option ActiveStream → Bool
is_in_stream conversation id none = false
is_in_stream conversation id (some stream) =
    stream.conversation == conversation
    && (stream.user_message == id || stream.assistant_message == id)

unfoldable pub remove_selected_message : ℕ → HarnessApp → HarnessApp
unfolding cancel_stream_for update_selected is_in_stream
remove_selected_message id app = elim app.state.selected [
  | none ↦ app
  | some conversation ↦
      update_selected
        (λ c. record c { messages = filter (λ (m : Message). not (m.id == id)) c.messages })
        (if is_in_stream conversation id app.active_stream
          then cancel_stream_for conversation app
          else app)
]

-- The conversation with the user's message and the empty one of the assistant.
unfoldable pub extended : ℕ → ℕ → Text → Conversation → Conversation
extended user_id assistant content c = record c {
  title = if is_empty c.messages then take 36 content else c.title;
  messages =
      c.messages
      ++ record { id = user_id; role = Role.user; content = content }
        ∷ record { id = assistant; role = Role.assistant; content = [] }
        ∷ [];
}

-- Whether there is something to send and no stream under way.
unfoldable pub can_send : HarnessApp → Bool
can_send app = elim app.active_stream [ none ↦ not (is_empty (trim app.draft)) | some _ ↦ false ]

unfoldable pub send : ℕ → ℕ → HarnessApp → HarnessApp × Option Request
unfolding can_send selected extended update_selected
send user_id assistant app =
    let taken = record app { draft = [] } in
    let started : HarnessApp × Option Request = elim (selected app) [
      | none ↦ (taken, none)
      | some conversation ↦ (
        record (update_selected (extended user_id assistant app.draft) taken) {
          active_stream = some (record {
            conversation = conversation.id;
            user_message = user_id;
            assistant_message = assistant;
            is_cancelled = false;
          });
          status = text "Generating…";
        },
        some (
            from_conversation app.state.settings
              (extended user_id assistant app.draft conversation)),
      )
    ] in
    if can_send app then started else (app, none)

unfoldable pub append_text : ℕ → Text → List Message → List Message
append_text id t [] = []
append_text id t (m ∷ messages) =
    let rest = append_text id t messages in
    if m.id == id then record m { content = m.content ++ t } ∷ messages else m ∷ rest

-- The stream of the conversation is over.
unfoldable pub end_stream : ℕ → Text → HarnessApp → HarnessApp
unfolding is_active_for
end_stream conversation status app =
    if is_active_for conversation app
    then record app { active_stream = none; status = status }
    else app

-- One turn of the loop of `process_events`.
unfoldable pub process_event : ℕ → Event → HarnessApp → HarnessApp
unfolding end_stream append_text update
process_event fresh (models (ok found)) app = record app {
  models = found;
  status = text "Connected";
  connected = true;
  state = record app.state {
    settings = record app.state.settings {
      model = selected_discovered_model app.state.settings.model found;
    };
  };
}
process_event fresh (models (err e)) app = record app {
  status = text "Model discovery failed: " ++ e;
  connected = false;
}
process_event fresh (delta conversation message t) app = with_conversations app (
    update conversation (λ c. record c { messages = append_text message t c.messages })
      app.state.conversations)
process_event fresh (completed conversation) app = end_stream conversation (text "Completed") app
process_event fresh (cancelled conversation) app =
    end_stream conversation (text "Generation cancelled") app
process_event fresh (failed conversation message) app =
    let ended = end_stream conversation (text "Request failed") app in
    with_conversations ended (
      update conversation
        (λ c. record c {
          messages = c.messages ++ record { id = fresh; role = Role.error; content = message } ∷ [];
        })
        ended.state.conversations)
