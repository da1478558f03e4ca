-- ===== src/Llama/ToolCalls/Blocks.antt =====
-- What the parser makes of the text, against a reading of the text as blocks.
use mathlib.Core.List.{append_assoc, append-nil}
use mathlib.Core.Path.{subst}
use decompute.Prelude.{
  ℕ, zero, suc, ◌+◌, Text, List, [], ◌∷◌, ◌++◌, none, some, length, length-append, trim, ◌≡◌, refl,
  ap, ◌∙◌, inl, inr, arith, ok, >>=-eq-ok, Option-cases, Result-cases,
}
use decompute.Prelude.Bytes.{position, take, drop, position-take, position-append}
use decompute.Core.Json.{Json}
use decompute.Core.Chat.{ToolDefinition, ToolCall}
use decompute.Core.History.{tool_names}
use decompute.Llama.ToolCalls.{
  Block, open_tag, close_tag, parse_one, next_call, parse_from, numbered, parse_tool_calls,
}

module _ {V : Type 0} (J : Json V) (names : List Text) (call_name : ℕ → Text) where
  -- The text is visible text without an opening tag, a block, and so on: the tags of a block enclose
  -- a text without a closing tag that reads as a call.
  abbrev pub Reads : ℕ → Text → Text → List (ToolCall V) → Type 0
  Reads index remainder visible [] = (visible ≡ remainder) × (position open_tag remainder ≡ none)
  Reads index remainder visible (call ∷ calls) =
      (before : Text) × (body : Text) × (after : Text) × (visible' : Text) × (remainder
        ≡ before ++ (open_tag ++ (body ++ (close_tag ++ after))))
      × (position open_tag before ≡ none)
      × (position close_tag body ≡ none)
      × (parse_one J names call_name (trim body) index ≡ ok call)
      × (visible ≡ before ++ visible')
      × Reads (suc index) after visible' calls

  next_call-none :
      (remainder : Text) (index : ℕ)
      → next_call J names call_name remainder index ≡ ok none
      → position open_tag remainder ≡ none
  unfolding next_call
  next_call-none remainder index h = ground arith

  record IsBlock (remainder : Text) (index : ℕ) (b : Block V) : Type 0 where
    body : Text
    parsed : parse_one J names call_name (trim body) index ≡ ok b.call
    whole : remainder ≡ b.before ++ (open_tag ++ (body ++ (close_tag ++ b.after)))
    no_open : position open_tag b.before ≡ none
    no_close : position close_tag body ≡ none

  next_call-IsBlock :
      (remainder : Text) (index : ℕ) (b : Block V)
      → next_call J names call_name remainder index ≡ ok (some b)
      → IsBlock remainder index b
  unfolding next_call
  next_call-IsBlock remainder index b h = elim (Option-cases (position open_tag remainder)) [
    | inl e ↦ absurd (ground arith)
    | inr (start, e) ↦
        let body = drop (start + length open_tag) remainder in
        elim (Option-cases (position close_tag body)) [
          | inl e' ↦ absurd (ground arith)
          | inr (end, e') ↦
              elim (Result-cases (parse_one J names call_name (trim (take end body)) index)) [
                | inr (x, p) ↦ absurd (ground arith)
                | inl (call, p) ↦
                    let after : b.after ≡ drop (end + length close_tag) body = ground arith in
                    let before : b.before ≡ take start remainder = ground arith in
                    record {
                      body = take end body;
                      parsed = ground arith;
                      whole =
                          rw (after, before)
                            (position-append open_tag remainder start e
                              ∙ ap (λ x. take start remainder ++ (open_tag ++ x))
                                  (position-append close_tag body end e'));
                      no_open = rw before (position-take open_tag remainder start e);
                      no_close = position-take close_tag body end e';
                    }
              ]
        ]
  ]

  parse_from-Reads :
      (fuel : ℕ) (visible : Text) (calls : List (ToolCall V)) (ids : List Text) (remainder : Text)
      (t : Text) (found : List (ToolCall V))
      → parse_from J names call_name fuel visible calls ids remainder ≡ ok (t, found)
      → (more : List (ToolCall V)) × (v : Text) × (found ≡ calls ++ more)
        × (t ≡ trim (visible ++ v))
        × Reads (length calls) remainder v more
  unfolding parse_from
  parse_from-Reads zero visible calls ids remainder t found h = cc
  parse_from-Reads (suc fuel) visible calls ids remainder t found h =
      let (o, e, h') = >>=-eq-ok (next_call J names call_name remainder (length calls)) _ h in
      elim (Option-cases o) [
        | inl n ↦ (
          [],
          remainder,
          ground (arith, append-nil calls),
          ground arith,
          (refl, next_call-none remainder (length calls) (rw (e, n) refl)),
        )
        | inr (b, s) ↦
            let block = next_call-IsBlock remainder (length calls) b (rw (e, s) refl) in
            let grown : length (calls ++ b.call ∷ []) ≡ suc (length calls) =
              omega (arith, length-append calls (b.call ∷ [])) in
            let (more, v, p, q, r) =
              parse_from-Reads fuel (visible ++ b.before) (calls ++ b.call ∷ []) (b.call.id ∷ ids)
                b.after t found (ground arith) in
            (
              b.call ∷ more,
              b.before ++ v,
              p ∙ append_assoc calls (b.call ∷ []) more,
              q ∙ ap trim (append_assoc visible b.before v),
              (
                b.before,
                block.body,
                b.after,
                v,
                block.whole,
                block.no_open,
                block.no_close,
                block.parsed,
                refl,
                subst (λ n. Reads n b.after v more) grown r,
              ),
            )
      ]

-- Where the parser accepts, the text is visible text and blocks in turn: no visible part holds an
-- opening tag, each block runs to the first closing tag after it, what it encloses reads as the call
-- in its place, and the answer is all visible text in order, trimmed, with the calls in order.
pub parse_tool_calls-Reads :
    {V : Type 0} (J : Json V) (show : ℕ → Text) (t visible : Text) (tools : List (ToolDefinition V))
    (request_id : ℕ) (calls : List (ToolCall V))
    → parse_tool_calls J show t tools request_id ≡ ok (visible, calls)
    → (v : Text) × (visible ≡ trim v)
      × Reads J (tool_names tools) (numbered show request_id) 0 t v calls
unfolding parse_tool_calls
parse_tool_calls-Reads J show t visible tools request_id calls h =
    let (more, v, p, q, r) =
      parse_from-Reads J (tool_names tools) (numbered show request_id) (suc (length t)) [] [] [] t
        visible calls h in
    (v, q, rw p r)
