-- ===== src/Harness/App/Selection.antt =====
-- crates/harness/src/main.rs: the selected conversation, through any use of the application.
use mathlib.Core.Path.{subst}
use decompute.Prelude.{
  ◌∙◌, sym, not, filter, ℕ, zero, suc, ◌-◌, ◌<◌, Bool, true, false, Text, text, text_eq, List, [],
  ◌∷◌, ◌++◌, Option, none, some, ◌==◌, nat_eq, if◌then◌else◌, length, min, is_some, ◌≡◌, ◌≢◌, refl,
  arith, inl, inr, Option-cases, Bool-cases, eq_refl, ok, err,
}
use decompute.Harness.Model.{
  Role, Message, Conversation, new, SavedState, Event, models, delta, completed, cancelled, failed,
}
use decompute.Harness.App.{
  HarnessApp, find, update, position, remove, id_at, with_conversations, update_selected, selected,
  new_conversation, cancel_stream_for, is_id, reselect, remove_conversation,
  clear_selected_conversation, is_in_stream, remove_selected_message, extended, can_send, send,
  end_stream, process_event, append_text,
}

abbrev has : ℕ → List Conversation → Bool
has id cs = is_some (find id cs)

-- One conversation is selected, and it is there.
unfoldable pub IsSelected : SavedState → Type 0
unfolding find
IsSelected s = (id : ℕ) × (s.selected ≡ some id) × (is_some (find id s.conversations) ≡ true)

has-append : (id : ℕ) (cs ds : List Conversation) → has id ds ≡ true → has id (cs ++ ds) ≡ true
unfolding find
has-append id [] ds h = h
has-append id (c ∷ cs) ds h = ground (arith, has-append id cs ds h)

has-update :
    (id other : ℕ) (f : Conversation → Conversation) (cs : List Conversation)
    → ((c : Conversation) → (f c).id ≡ c.id)
    → has id (update other f cs) ≡ has id cs
unfolding find update
has-update id other f [] k = refl
has-update id other f (c ∷ cs) k = ground (arith, k c, has-update id other f cs k)

has-remove :
    (id other : ℕ) (n : ℕ) (cs : List Conversation)
    → id ≢ other
    → position other cs ≡ some n
    → has id (remove n cs) ≡ has id cs
unfolding find remove position
has-remove id other n [] ne p = cc
has-remove id other zero (c ∷ cs) ne p = elim (Option-cases (position other cs)) [
  | inl e ↦ ground (arith, e, p, ne)
  | inr (k, e) ↦ ground (arith, e, p, ne)
]
has-remove id other (suc n) (c ∷ cs) ne p = elim (Option-cases (position other cs)) [
  | inl e ↦ ground (arith, e, p, ne)
  | inr (k, e) ↦ ground (arith, e, p, ne, has-remove id other n cs ne)
]

has-id_at :
    (n : ℕ) (cs : List Conversation)
    → n < length cs
    → (id : ℕ) × (id_at n cs ≡ some id) × (has id cs ≡ true)
unfolding find id_at
has-id_at n [] lt = absurd (omega (arith, lt))
has-id_at zero (c ∷ cs) lt = (c.id, refl, rw (eq_refl c.id) refl)
has-id_at (suc n) (c ∷ cs) lt =
    let (id, e, h) = has-id_at n cs (omega (arith, lt)) in (id, e, ground (arith, h))

new_conversation-IsSelected :
    (fresh : ℕ) (app : HarnessApp) → IsSelected (new_conversation fresh app).state
unfolding IsSelected new_conversation
new_conversation-IsSelected fresh app = (
  fresh,
  refl,
  has-append fresh app.state.conversations (new fresh ∷ [])
      (unfold find in ground (arith, eq_refl fresh)),
)

reselect-IsSelected :
    (fresh index : ℕ) (was_selected : Bool) (left : List Conversation) (s : SavedState)
    → (was_selected ≡ false → (id : ℕ) × (s.selected ≡ some id) × (has id left ≡ true))
    → IsSelected (reselect fresh index was_selected left s)
unfolding reselect IsSelected
reselect-IsSelected fresh index b [] s h =
    (fresh, refl, unfold find in ground (arith, eq_refl fresh))
reselect-IsSelected fresh index true (c ∷ cs) s h =
    has-id_at (min index (length (c ∷ cs) - 1)) (c ∷ cs) (omega arith)
reselect-IsSelected fresh index false (c ∷ cs) s h = h refl

cancel_stream_for-state : (id : ℕ) (app : HarnessApp) → (cancel_stream_for id app).state ≡ app.state
unfolding cancel_stream_for
cancel_stream_for-state id app = ground arith

differs : (id other : ℕ) (o : Option ℕ) → o ≡ some other → is_id id o ≡ false → other ≢ id
differs id other none e d = cc
differs id other (some x) e d = ground (arith, e, d)

remove_conversation-IsSelected :
    (fresh id : ℕ) (app : HarnessApp)
    → IsSelected app.state
    → IsSelected (remove_conversation fresh id app).state
unfolding remove_conversation IsSelected
remove_conversation-IsSelected fresh id app (other, f, h) =
    elim (Option-cases (position id app.state.conversations)) [
      | inl e ↦ rw (remove_conversation, e) (other, f, h)
      | inr (index, e) ↦
          let s = app.state in
          rw (remove_conversation, e)
            (reselect-IsSelected fresh index (is_id id s.selected) (remove index s.conversations) s
              (λ d. (
                other,
                f,
                has-remove other id index s.conversations (differs id other s.selected f d) e ∙ h,
              )))
    ]

update_selected-IsSelected :
    (f : Conversation → Conversation) (app : HarnessApp)
    → ((c : Conversation) → (f c).id ≡ c.id)
    → IsSelected app.state
    → IsSelected (update_selected f app).state
unfolding update_selected IsSelected
update_selected-IsSelected f app k (id, e, h) =
    rw (update_selected, e) (id, e, has-update id id f app.state.conversations k ∙ h)

update-IsSelected :
    (other : ℕ) (f : Conversation → Conversation) (app : HarnessApp)
    → ((c : Conversation) → (f c).id ≡ c.id)
    → IsSelected app.state
    → IsSelected (with_conversations app (update other f app.state.conversations)).state
unfolding IsSelected
update-IsSelected other f app k (id, e, h) =
    (id, e, has-update id other f app.state.conversations k ∙ h)

cancel_stream_for-IsSelected :
    (id : ℕ) (app : HarnessApp) → IsSelected app.state → IsSelected (cancel_stream_for id app).state
cancel_stream_for-IsSelected id app s = subst IsSelected (sym (cancel_stream_for-state id app)) s

end_stream-state :
    (id : ℕ) (status : Text) (app : HarnessApp) → (end_stream id status app).state ≡ app.state
unfolding end_stream
end_stream-state id status app = ground arith

clear-IsSelected :
    (app : HarnessApp) → IsSelected app.state → IsSelected (clear_selected_conversation app).state
unfolding clear_selected_conversation
clear-IsSelected app s = elim (Option-cases app.state.selected) [
  | inl e ↦ rw (clear_selected_conversation, e) s
  | inr (id, e) ↦
      rw (clear_selected_conversation, e)
        (update_selected-IsSelected (λ c. record c { messages = [] }) (cancel_stream_for id app)
          (λ c. refl) (cancel_stream_for-IsSelected id app s))
]

if-IsSelected :
    (b : Bool) (x y : HarnessApp)
    → IsSelected x.state
    → IsSelected y.state
    → IsSelected (if b then x else y).state
if-IsSelected true x y p q = p
if-IsSelected false x y p q = q

remove_selected_message-IsSelected :
    (id : ℕ) (app : HarnessApp)
    → IsSelected app.state
    → IsSelected (remove_selected_message id app).state
unfolding remove_selected_message
remove_selected_message-IsSelected id app s = elim (Option-cases app.state.selected) [
  | inl e ↦ rw (remove_selected_message, e) s
  | inr (conversation, e) ↦
      let stops = is_in_stream conversation id app.active_stream in
      let stopped = cancel_stream_for conversation app in
      rw (remove_selected_message, e)
        (update_selected-IsSelected
          (λ c. record c { messages = filter (λ (m : Message). not (m.id == id)) c.messages })
          (if stops then stopped else app) (λ c. refl)
          (if-IsSelected stops stopped app (cancel_stream_for-IsSelected conversation app s) s))
]

send-IsSelected :
    (user_id assistant : ℕ) (app : HarnessApp)
    → IsSelected app.state
    → IsSelected (send user_id assistant app).0.state
unfolding send
send-IsSelected user_id assistant app s =
    let taken = record app { draft = [] } in
    let extend = extended user_id assistant app.draft in
    elim (Bool-cases (can_send app)) [
      | inr e ↦ rw (send, e) s
      | inl e ↦ elim (Option-cases (selected app)) [
        | inl f ↦ rw (send, e, f) s
        | inr (c, f) ↦
            rw (send, e, f)
              (update_selected-IsSelected extend taken (λ c. unfold extended in refl) s)
      ]
    ]

process_event-IsSelected :
    (fresh : ℕ) (event : Event) (app : HarnessApp)
    → IsSelected app.state
    → IsSelected (process_event fresh event app).state
unfolding process_event
process_event-IsSelected fresh (models (ok found)) app s = unfold IsSelected in s
process_event-IsSelected fresh (models (err e)) app s = s
process_event-IsSelected fresh (delta conversation message t) app s =
    update-IsSelected conversation (λ c. record c { messages = append_text message t c.messages })
      app (λ c. refl) s
process_event-IsSelected fresh (completed id) app s =
    subst IsSelected (sym (end_stream-state id (text "Completed") app)) s
process_event-IsSelected fresh (cancelled id) app s =
    subst IsSelected (sym (end_stream-state id (text "Generation cancelled") app)) s
process_event-IsSelected fresh (failed id message) app s =
    let ended = end_stream id (text "Request failed") app in
    update-IsSelected id
      (λ c. record c {
        messages = c.messages ++ record { id = fresh; role = Role.error; content = message } ∷ [];
      })
      ended (λ c. refl) (subst IsSelected (sym (end_stream-state id (text "Request failed") app)) s)

-- What a user or the network makes the application do; the first numbers are new ids.
pub data Use : Type 0 where
  creates : ℕ → Use
  clears : Use
  deletes : ℕ → ℕ → Use
  deletes_message : ℕ → Use
  sends : ℕ → ℕ → Use
  types : Text → Use
  receives : ℕ → Event → Use

unfoldable pub use_once : Use → HarnessApp → HarnessApp
use_once (creates fresh) app = new_conversation fresh app
use_once clears app = clear_selected_conversation app
use_once (deletes fresh id) app = remove_conversation fresh id app
use_once (deletes_message id) app = remove_selected_message id app
use_once (sends user_id assistant) app = (send user_id assistant app).0
use_once (types draft) app = record app { draft = draft }
use_once (receives fresh event) app = process_event fresh event app

unfoldable pub use_all : List Use → HarnessApp → HarnessApp
unfolding use_once
use_all [] app = app
use_all (u ∷ us) app = use_all us (use_once u app)

use_once-IsSelected :
    (u : Use) (app : HarnessApp) → IsSelected app.state → IsSelected (use_once u app).state
unfolding use_once
use_once-IsSelected (creates fresh) app s = new_conversation-IsSelected fresh app
use_once-IsSelected clears app s = clear-IsSelected app s
use_once-IsSelected (deletes fresh id) app s = remove_conversation-IsSelected fresh id app s
use_once-IsSelected (deletes_message id) app s = remove_selected_message-IsSelected id app s
use_once-IsSelected (sends user_id assistant) app s = send-IsSelected user_id assistant app s
use_once-IsSelected (types draft) app s = s
use_once-IsSelected (receives fresh event) app s = process_event-IsSelected fresh event app s

-- Where a conversation is selected and there, one is after any use of the application: creating,
-- clearing and deleting conversations, deleting messages, typing, sending, and events of a stream.
pub use_all-IsSelected :
    (us : List Use) (app : HarnessApp) → IsSelected app.state → IsSelected (use_all us app).state
unfolding use_all
use_all-IsSelected [] app s = s
use_all-IsSelected (u ∷ us) app s =
    use_all-IsSelected us (use_once u app) (use_once-IsSelected u app s)
