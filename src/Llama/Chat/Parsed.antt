-- ===== src/Llama/Chat/Parsed.antt =====
-- The end of a request with tools.
use decompute.Prelude.{
  ℕ, nat_eq, Text, List, [], ◌∷◌, Option, Result, ok, ◌≡◌, refl, arith, inl, inr, Result-cases,
  Bool-cases, is_empty,
}
use decompute.Core.Chat.{ToolCall}
use decompute.Llama.ToolCalls.{ToolCallError}
use decompute.Llama.Session.{GgufModel}
use decompute.Llama.Decode.Rounds.{visible}
use decompute.Llama.Generate.{GgufGenerationResult, Outcome}
use decompute.Llama.Chat.{ChatError, finish_reason_of, with_calls, finish_tools}

-- What a request with tools has answered: the parse of a text. What was sent is the
-- text of the answer alone.
pub record Parsed {V C : Type 0} (parse : Text → Result (Text × List (ToolCall V)) ToolCallError)
    (deferred : Text) (o : Outcome C (Result (GgufGenerationResult V) ChatError))
    (r : GgufGenerationResult V) : Type 0 where
  pub parsed : parse deferred ≡ ok (r.text, r.tool_calls)
  pub sent : o.sent ≡ visible (r.text ∷ [])
  pub reason : r.finish_reason ≡ finish_reason_of r.tool_calls

module _ {V C : Type 0} (callback : List Text → Text → Result (Unit {0}) Text) where
  pub finish_tools-Parsed :
      (parse : Text → Result (Text × List (ToolCall V)) ToolCallError) (session_id : Option ℕ)
      (m : GgufModel C) (deferred : Text) (generated r : GgufGenerationResult V)
      → (finish_tools callback parse session_id m deferred generated).result ≡ ok r
      → Parsed parse deferred (finish_tools callback parse session_id m deferred generated) r
  unfolding finish_tools
  finish_tools-Parsed parse session_id m deferred generated r h =
      elim (Result-cases (parse deferred)) [
        | inr (e, p) ↦ absurd (ground arith)
        | inl ((t, calls), p) ↦ elim (Bool-cases (is_empty t)) [
          | inl empty ↦
              let same : r ≡ with_calls t calls generated = ground arith in
              rw (finish_tools, p, empty, same)
                (record { parsed = p; sent = rw empty refl; reason = refl })
          | inr filled ↦ elim (Result-cases (callback [] t)) [
            | inr (e, c) ↦ absurd (ground arith)
            | inl (u, c) ↦
                let same : r ≡ with_calls t calls generated = ground arith in
                rw (finish_tools, p, filled, c, same)
                  (record { parsed = p; sent = rw filled refl; reason = refl })
          ]
        ]
      ]
