-- ===== src/Core/History/Follows/Calls.antt =====
-- crates/decompute-core/src/chat.rs: the checks on the calls of one message, against the queue of
-- open calls.
use mathlib.Core.List.{append_assoc, append-nil}
use mathlib.Core.Path.{subst}
use decompute.Prelude.{
  Bool, true, false, Text, text_eq, List, [], ◌∷◌, ◌++◌, none, ◌≡◌, refl, sym, ap, ◌∙◌, inl, inr,
  arith, ok, is_empty, contains, contains_iff, contains-append, Option-cases,
}
use decompute.Core.Chat.{ToolCall}
use decompute.Core.History.{Pending, check_call, push_call, check_calls}
use decompute.Core.History.Follows.{call_ids, IsFresh, AreFresh}

abbrev pub NoRepeat : List Text → Type 0
NoRepeat [] = Unit
NoRepeat (x ∷ xs) = (contains x xs ≡ false) × NoRepeat xs

-- The set of ids has the members of the queue, and the queue no id twice.
pub record Tracks (p : Pending) : Type 0 where
  pub same : (x : Text) → contains x p.ids ≡ contains x p.queue
  pub once : NoRepeat p.queue

pub NoRepeat-concat :
    (xs : List Text) (x : Text) → contains x xs ≡ false → NoRepeat xs → NoRepeat (xs ++ x ∷ [])
unfolding contains
NoRepeat-concat [] x h n = (refl, tt)
NoRepeat-concat (y ∷ ys) x h n = ground (arith, NoRepeat-concat ys x, contains-append y ys (x ∷ []))

pub push_call-Tracks :
    (p : Pending) (id : Text) → contains id p.ids ≡ false → Tracks p → Tracks (push_call p id)
unfolding contains
push_call-Tracks p id new t = record {
  same = λ x. ground (arith, t.same x, contains-append x p.queue (id ∷ []));
  once = NoRepeat-concat p.queue id (sym (t.same id) ∙ new) t.once;
}

-- The ids of this response are among those of all open calls.
abbrev pub Within : List Text → Pending → Type 0
Within response_ids p = (x : Text) → contains x response_ids ≡ true → contains x p.ids ≡ true

pub push_call-Within :
    (response_ids : List Text) (p : Pending) (id : Text)
    → Within response_ids p
    → Within (id ∷ response_ids) (push_call p id)
unfolding contains
push_call-Within response_ids p id sub x h = ground (arith, sub x)

module _ {V : Type 0} (is_object : V → Bool) (declared : List Text) where
  pub check_call_passes :
      (response_ids : List Text) (p : Pending) (call : ToolCall V)
      → check_call is_object declared response_ids p call ≡ none
      → (is_empty call.id ≡ false)
        × (contains call.id p.ids ≡ false)
        × (contains call.function.name declared ≡ true)
        × (is_object call.function.arguments ≡ true)
  unfolding check_call
  check_call_passes response_ids p call h = ground arith

  pub check_call-IsFresh :
      (response_ids : List Text) (p : Pending) (call : ToolCall V)
      → Tracks p
      → check_call is_object declared response_ids p call ≡ none
      → IsFresh is_object declared p.queue call
  check_call-IsFresh response_ids p call t h =
      let (named, new, known, object) = check_call_passes response_ids p call h in
      record {
        named = λ e. ground arith;
        unused = λ at. cc ((contains_iff call.id p.queue).1 at, t.same call.id);
        is_declared = (contains_iff call.function.name declared).0 known;
        with_object = object;
      }

  pub IsFresh-check_call :
      (response_ids : List Text) (p : Pending) (call : ToolCall V)
      → Tracks p
      → (contains call.id response_ids ≡ true → contains call.id p.ids ≡ true)
      → IsFresh is_object declared p.queue call
      → (check_call is_object declared response_ids p call ≡ none)
        × (contains call.id p.ids ≡ false)
  unfolding check_call
  IsFresh-check_call response_ids p call t sub f = ground (
    arith,
    t.same call.id,
    f.named,
    f.unused,
    f.with_object,
    (contains_iff call.id p.queue).0,
    (contains_iff call.function.name declared).1 f.is_declared,
  )

  pub check_calls-AreFresh :
      (response_ids : List Text) (p q : Pending) (calls : List (ToolCall V))
      → Tracks p
      → check_calls is_object declared response_ids p calls ≡ ok q
      → AreFresh is_object declared p.queue calls × (q.queue ≡ p.queue ++ call_ids calls) × Tracks q
  unfolding check_calls
  check_calls-AreFresh response_ids p q [] t h =
      let same : p ≡ q = ground arith in
      (tt, rw append-nil (ap (λ (r : Pending). r.queue) (sym same)), subst Tracks same t)
  check_calls-AreFresh response_ids p q (call ∷ calls) t h =
      elim (Option-cases (check_call is_object declared response_ids p call)) [
        | inr (e, at) ↦ absurd (ground arith)
        | inl passes ↦
            let new = (check_call_passes response_ids p call passes).1 in
            let (fresh, queue, tracks) =
              check_calls-AreFresh (call.id ∷ response_ids) (push_call p call.id) q calls
                (push_call-Tracks p call.id new t) (ground arith) in
            (
              (check_call-IsFresh response_ids p call t passes, fresh),
              queue ∙ append_assoc p.queue (call.id ∷ []) (call_ids calls),
              tracks,
            )
      ]

  pub AreFresh-check_calls :
      (response_ids : List Text) (p : Pending) (calls : List (ToolCall V))
      → Tracks p
      → Within response_ids p
      → AreFresh is_object declared p.queue calls
      → (q : Pending) × (check_calls is_object declared response_ids p calls ≡ ok q)
  unfolding check_calls
  AreFresh-check_calls response_ids p [] t sub f = (p, refl)
  AreFresh-check_calls response_ids p (call ∷ calls) t sub f =
      let (passes, new) = IsFresh-check_call response_ids p call t (sub call.id) f.0 in
      let (q, e) =
        AreFresh-check_calls (call.id ∷ response_ids) (push_call p call.id) calls
          (push_call-Tracks p call.id new t) (push_call-Within response_ids p call.id sub) f.1 in
      (q, ground arith)
