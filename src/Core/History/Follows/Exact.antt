-- ===== src/Core/History/Follows/Exact.antt =====
-- crates/decompute-core/src/chat.rs: `validate_tool_history` passes what follows the protocol, and
-- nothing else.
use mathlib.Core.Path.{subst}
use decompute.Prelude.{
  Bool, Text, text_eq, List, [], ◌∷◌, Option, none, some, ◌≡◌, refl, sym, ◌≢◌, ◌↔◌, inl, inr, arith,
  ok, >>=-eq-ok, contains, discard, contains-discard, Option-cases,
}
use decompute.Core.Chat.{ChatRole, system, user, assistant, tool, ToolDefinition, ChatMessage}
use decompute.Core.History.{
  Pending, nothing_pending, tool_names, non_empty, check_calls, check_result, check_plain,
  check_role, validate_from, validate_tool_history,
}
use decompute.Core.History.Follows.{Allowed, Follows}
use decompute.Core.History.Follows.Calls.{Tracks, check_calls-AreFresh, AreFresh-check_calls}

pop-Tracks :
    (id : Text) (queue ids : List Text)
    → Tracks (record { queue = id ∷ queue; ids = ids })
    → Tracks (record { queue = queue; ids = discard id ids })
unfolding contains
pop-Tracks id queue ids t = record {
  same = λ x. ground (arith, contains-discard id x ids, t.same x, t.once.0);
  once = t.once.1;
}

-- A result that is accepted answers the front of the queue.
check_result-front :
    (p q : Pending) (queue : List Text) (id : Text)
    → p.queue ≡ queue
    → Tracks p
    → check_result queue p.ids id ≡ ok q
    → (p.queue ≡ id ∷ q.queue) × Tracks q
unfolding check_result
check_result-front p q [] id e t h = cc
check_result-front p q (expected ∷ rest) id e t h =
    let hit : expected ≡ id = ground arith in
    let popped : record { queue = rest; ids = discard id p.ids } ≡ q = ground arith in
    let here : p ≡ record { queue = id ∷ rest; ids = p.ids } = ground arith in
    (ground arith, subst Tracks popped (pop-Tracks id rest p.ids (subst Tracks here t)))

check_plain-empty :
    {V : Type 0} (p q : Pending) (m : ChatMessage V)
    → check_plain p m ≡ ok q
    → (m.tool_calls ≡ []) × (m.tool_call_id ≡ none) × (p.queue ≡ []) × (p ≡ q)
unfolding check_plain
check_plain-empty p q m h = ground arith

empty-check_plain :
    {V : Type 0} (p : Pending) (m : ChatMessage V)
    → m.tool_calls ≡ []
    → m.tool_call_id ≡ none
    → p.queue ≡ []
    → check_plain p m ≡ ok p
unfolding check_plain
empty-check_plain p m a b c = ground arith

non_empty_inv : (o : Option Text) (id : Text) → non_empty o ≡ some id → (o ≡ some id) × (id ≢ [])
non_empty_inv none id h = cc
non_empty_inv (some []) id h = cc
non_empty_inv (some (c ∷ cs)) id h = (h, λ e. cc)

non_empty-some : (id : Text) → id ≢ [] → non_empty (some id) ≡ some id
non_empty-some [] h = absurd (h refl)
non_empty-some (c ∷ cs) h = refl

front-check_result :
    (p : Pending) (id : Text) (rest : List Text)
    → p.queue ≡ id ∷ rest
    → check_result p.queue p.ids id ≡ ok (record { queue = rest; ids = discard id p.ids })
unfolding check_result
front-check_result p id rest e = rw e (ground arith)

module _ {V : Type 0} (is_object : V → Bool) (declared : List Text) where
  tool_inv :
      (p q : Pending) (m : ChatMessage V)
      → check_role is_object declared tool p m ≡ ok q
      → (m.tool_calls ≡ [])
        × ((id : Text) × (non_empty m.tool_call_id ≡ some id)
            × (check_result p.queue p.ids id ≡ ok q))
  unfolding check_role
  tool_inv p q m h = elim (Option-cases (non_empty m.tool_call_id)) [
    | inl e ↦ absurd (ground arith)
    | inr (id, e) ↦ (ground arith, (id, e, ground arith))
  ]

  check_role-Allowed :
      (role : ChatRole) (p q : Pending) (m : ChatMessage V) (Rest : List Text → Type 0)
      → Tracks p
      → check_role is_object declared role p m ≡ ok q
      → Tracks q × (Rest q.queue → Allowed is_object declared role p.queue m Rest)
  check_role-Allowed assistant p q m Rest t h =
      let calls : check_calls is_object declared [] p m.tool_calls ≡ ok q =
        unfold check_role in ground arith in
      let (fresh, queue, tracks) =
        check_calls-AreFresh is_object declared [] p q m.tool_calls t calls in
      (tracks, λ rest. (unfold check_role in ground arith, fresh, subst Rest queue rest))
  check_role-Allowed tool p q m Rest t h =
      let (no_calls, (id, e, result)) = tool_inv p q m h in
      let (given, named) = non_empty_inv m.tool_call_id id e in
      let (front, tracks) = check_result-front p q p.queue id refl t result in
      (tracks, λ rest. (no_calls, (id, q.queue, given, named, front, rest)))
  check_role-Allowed system p q m Rest t h =
      let (a, b, c, e) = check_plain-empty p q m (unfold check_role in h) in
      (subst Tracks e t, λ rest. (a, b, c, subst Rest (ground arith) rest))
  check_role-Allowed user p q m Rest t h =
      let (a, b, c, e) = check_plain-empty p q m (unfold check_role in h) in
      (subst Tracks e t, λ rest. (a, b, c, subst Rest (ground arith) rest))

  Allowed-check_role :
      (role : ChatRole) (p : Pending) (m : ChatMessage V) (Rest : List Text → Type 0)
      → Tracks p
      → Allowed is_object declared role p.queue m Rest
      → (q : Pending) × (check_role is_object declared role p m ≡ ok q) × Rest q.queue
  Allowed-check_role assistant p m Rest t (a, fresh, rest) =
      let (q, e) =
        AreFresh-check_calls is_object declared [] p m.tool_calls t (λ x h. unfold contains in cc h)
          fresh in
      let (_, queue, _) = check_calls-AreFresh is_object declared [] p q m.tool_calls t e in
      (q, unfold check_role in ground arith, subst Rest (sym queue) rest)
  Allowed-check_role tool p m Rest t (a, (id, queue, given, named, front, rest)) = (
    record { queue = queue; ids = discard id p.ids },
    unfold check_role in
        ground (arith, front-check_result p id queue front, non_empty-some id named),
    rest,
  )
  Allowed-check_role system p m Rest t (a, b, c, rest) =
      (p, unfold check_role in empty-check_plain p m a b c, subst Rest (sym c) rest)
  Allowed-check_role user p m Rest t (a, b, c, rest) =
      (p, unfold check_role in empty-check_plain p m a b c, subst Rest (sym c) rest)

  validate_from-Follows :
      (p : Pending) (messages : List (ChatMessage V))
      → Tracks p
      → validate_from is_object declared p messages ≡ ok tt
      → Follows is_object declared p.queue messages
  unfolding validate_from
  validate_from-Follows p [] t h = ground arith
  validate_from-Follows p (m ∷ messages) t h =
      let (q, e, h') =
        >>=-eq-ok (check_role is_object declared m.role p m)
          (λ q. validate_from is_object declared q messages) h in
      let (tracks, allowed) =
        check_role-Allowed m.role p q m (λ queue. Follows is_object declared queue messages) t e in
      allowed (validate_from-Follows q messages tracks h')

  Follows-validate_from :
      (p : Pending) (messages : List (ChatMessage V))
      → Tracks p
      → Follows is_object declared p.queue messages
      → validate_from is_object declared p messages ≡ ok tt
  unfolding validate_from
  Follows-validate_from p [] t h = ground arith
  Follows-validate_from p (m ∷ messages) t h =
      let (q, e, rest) =
        Allowed-check_role m.role p m (λ queue. Follows is_object declared queue messages) t h in
      let tracks = (check_role-Allowed m.role p q m (λ queue. Unit {0}) t e).0 in
      rw e (Follows-validate_from q messages tracks rest)

-- A history is accepted exactly if it follows the protocol: calls come on assistant messages, under
-- ids that are not empty and that no open call has, for declared tools and with an object for
-- arguments; every call is answered once, in the order of the calls; and no call is open at a system
-- or user message, or at the end.
pub validate_tool_history_iff :
    {V : Type 0} (is_object : V → Bool) (messages : List (ChatMessage V))
    (tools : List (ToolDefinition V))
    → (validate_tool_history is_object messages tools ≡ ok tt)
      ↔ Follows is_object (tool_names tools) [] messages
unfolding validate_tool_history
validate_tool_history_iff is_object messages tools =
    let t : Tracks nothing_pending = unfold contains in record { same = λ x. refl; once = tt } in
    (
      validate_from-Follows is_object (tool_names tools) nothing_pending messages t,
      Follows-validate_from is_object (tool_names tools) nothing_pending messages t,
    )
