-- ===== src/Llama/ToolCalls/Fresh.antt =====
-- The calls that the parser finds.
use mathlib.Core.List.{append_assoc, append-nil}
use mathlib.Core.Path.{subst}
use decompute.Prelude.{
  ℕ, zero, suc, ◌+◌, ◌<◌, true, false, Text, text_eq, List, [], ◌∷◌, ◌++◌, some, ok, err, contains,
  length, trim, ◌≡◌, ◌≢◌, refl, ap, ◌∙◌, inl, inr, In, In-append, arith, Option-cases, Result-cases,
  contains_iff, >>=-eq-ok,
}
use decompute.Prelude.Bytes.{position, take, drop, length-drop, position-length}
use decompute.Core.Json.{Json}
use decompute.Core.Chat.{ToolDefinition, ToolCall}
use decompute.Core.History.{tool_names}
use decompute.Core.History.Follows.{call_ids, AreFresh}
use decompute.Llama.ToolCalls.{
  out_of_fuel, Block, next_call, open_tag, close_tag, read_arguments, parse_one, parse_from,
  numbered, parse_tool_calls,
}

module _ {V : Type 0} (J : Json V) (names : List Text) (call_name : ℕ → Text) where
  -- What `parse_one` has tested.
  pub record IsWellFormed (call : ToolCall V) : Type 0 where
    pub named : call.id ≢ []
    pub is_declared : In call.function.name names
    pub with_object : J.is_object call.function.arguments ≡ true

  pub parse_one-IsWellFormed :
      (body : Text) (index : ℕ) (call : ToolCall V)
      → parse_one J names call_name body index ≡ ok call
      → IsWellFormed call
  unfolding parse_one
  parse_one-IsWellFormed body index call h = record {
    named = ground arith;
    is_declared = (contains_iff call.function.name names).0 (ground arith);
    with_object = ground arith;
  }

  -- The ids that the loop has recorded are those of the calls that it has found.
  abbrev Records : List Text → List (ToolCall V) → Type 0
  Records ids calls = (x : Text) → In x (call_ids calls) → In x ids

  -- The calls that the rounds to come add.
  abbrev Adds : List (ToolCall V) → List (ToolCall V) → Type 0
  Adds calls found =
      (more : List (ToolCall V)) × (found ≡ calls ++ more)
      × AreFresh J.is_object names (call_ids calls) more

  call_ids-append :
      (calls more : List (ToolCall V)) → call_ids (calls ++ more) ≡ call_ids calls ++ call_ids more
  call_ids-append [] more = refl
  call_ids-append (call ∷ calls) more = ap (◌∷◌ call.id) (call_ids-append calls more)

  Records-cons :
      (ids : List Text) (calls : List (ToolCall V)) (call : ToolCall V)
      → Records ids calls
      → Records (call.id ∷ ids) (calls ++ call ∷ [])
  Records-cons ids calls call r x at =
      ground
        (arith, r x, In-append x (call_ids calls) (call.id ∷ []), call_ids-append calls (call ∷ []))

  Adds-cons :
      (ids : List Text) (calls found : List (ToolCall V)) (call : ToolCall V)
      → Records ids calls
      → IsWellFormed call
      → contains call.id ids ≡ false
      → Adds (calls ++ call ∷ []) found
      → Adds calls found
  Adds-cons ids calls found call r well new (more, e, fresh) = (
    call ∷ more,
    e ∙ append_assoc calls (call ∷ []) more,
    (
      record {
        named = well.named;
        unused = λ at. ground (arith, r call.id at, contains_iff call.id ids);
        is_declared = well.is_declared;
        with_object = well.with_object;
      },
      subst (λ queue. AreFresh J.is_object names queue more) (call_ids-append calls (call ∷ []))
          fresh,
    ),
  )

  record FromText (remainder : Text) (index : ℕ) (b : Block V) : Type 0 where
    body : Text
    parsed : parse_one J names call_name body index ≡ ok b.call
    shorter : length b.after < length remainder

  next_call-FromText :
      (remainder : Text) (index : ℕ) (b : Block V)
      → next_call J names call_name remainder index ≡ ok (some b)
      → FromText remainder index b
  unfolding next_call
  next_call-FromText remainder index b h = elim (Option-cases (position open_tag remainder)) [
    | inl e ↦ absurd (ground arith)
    | inr (start, e) ↦
        let body = drop (start + length open_tag) remainder in
        elim (Option-cases (position close_tag body)) [
          | inl e' ↦ absurd (ground arith)
          | inr (end, e') ↦
              elim (Result-cases (parse_one J names call_name (trim (take end body)) index)) [
                | inr (x, p) ↦ absurd (ground arith)
                | inl (call, p) ↦
                    let after : b.after ≡ drop (end + length close_tag) body = ground arith in
                    record {
                      body = trim (take end body);
                      parsed = ground arith;
                      shorter = omega (
                        arith,
                        ap length after,
                        length-drop (end + length close_tag) body,
                        length-drop (start + length open_tag) remainder,
                        position-length open_tag remainder start e,
                      );
                    }
              ]
        ]
  ]

  parse_from-Adds :
      (fuel : ℕ) (visible : Text) (calls : List (ToolCall V)) (ids : List Text) (remainder : Text)
      (t : Text) (found : List (ToolCall V))
      → parse_from J names call_name fuel visible calls ids remainder ≡ ok (t, found)
      → Records ids calls
      → Adds calls found
  unfolding parse_from
  parse_from-Adds zero visible calls ids remainder t found h r = cc
  parse_from-Adds (suc fuel) visible calls ids remainder t found h r =
      let (o, e, h') = >>=-eq-ok (next_call J names call_name remainder (length calls)) _ h in
      elim (Option-cases o) [
        | inl n ↦ ([], ground (arith, append-nil calls), tt)
        | inr (b, s) ↦
            let text' = next_call-FromText remainder (length calls) b (rw (e, s) refl) in
            let (new, h'') : (contains b.call.id ids ≡ false)
                × (parse_from J names call_name fuel (visible ++ b.before) (calls ++ b.call ∷ [])
                      (b.call.id ∷ ids) b.after
                    ≡ ok (t, found)) =
              ground arith in
            Adds-cons ids calls found b.call r
              (parse_one-IsWellFormed text'.body (length calls) b.call text'.parsed) new
              (parse_from-Adds fuel _ _ _ b.after t found h'' (Records-cons ids calls b.call r))
      ]

  next_call-terminates :
      (remainder : Text) (index : ℕ) → next_call J names call_name remainder index ≢ err out_of_fuel
  unfolding next_call parse_one read_arguments
  next_call-terminates remainder index h = ground arith

  parse_from-terminates :
      (fuel : ℕ) (visible : Text) (calls : List (ToolCall V)) (ids : List Text) (remainder : Text)
      → length remainder < fuel
      → parse_from J names call_name fuel visible calls ids remainder ≢ err out_of_fuel
  unfolding parse_from
  parse_from-terminates zero visible calls ids remainder less h = omega arith
  parse_from-terminates (suc fuel) visible calls ids remainder less h =
      elim (Result-cases (next_call J names call_name remainder (length calls))) [
        | inr (x, e) ↦ next_call-terminates remainder (length calls) (ground arith)
        | inl (o, e) ↦ elim (Option-cases o) [
          | inl n ↦ ground arith
          | inr (b, s) ↦
              let text' = next_call-FromText remainder (length calls) b (rw (e, s) refl) in
              parse_from-terminates fuel (visible ++ b.before) (calls ++ b.call ∷ [])
                (b.call.id ∷ ids) b.after (omega (arith, text'.shorter)) (ground arith)
        ]
      ]

-- Whatever the text, the loop over it comes to an end.
pub parse_tool_calls-terminates :
    {V : Type 0} (J : Json V) (show : ℕ → Text) (t : Text) (tools : List (ToolDefinition V))
    (request_id : ℕ)
    → parse_tool_calls J show t tools request_id ≢ err out_of_fuel
unfolding parse_tool_calls
parse_tool_calls-terminates J show t tools request_id =
    parse_from-terminates J (tool_names tools) (numbered show request_id) (suc (length t)) [] [] []
      t (omega arith)

pub parse_tool_calls-AreFresh :
    {V : Type 0} (J : Json V) (show : ℕ → Text) (t visible : Text) (tools : List (ToolDefinition V))
    (request_id : ℕ) (calls : List (ToolCall V))
    → parse_tool_calls J show t tools request_id ≡ ok (visible, calls)
    → AreFresh J.is_object (tool_names tools) [] calls
unfolding parse_tool_calls
parse_tool_calls-AreFresh J show t visible tools request_id calls h =
    let (more, e, fresh) =
      parse_from-Adds J (tool_names tools) (numbered show request_id) (suc (length t)) [] [] [] t
        visible calls h (λ x at. at) in
    rw e fresh
