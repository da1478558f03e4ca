-- ===== src/Llama/Chat/Runtime.antt =====
-- The calls that the runtime itself makes: none.
use decompute.Prelude.{
  ℕ, nat_eq, Bool, Text, List, [], Option, Result, ok, ◌≡◌, arith, inl, inr, Result-cases,
  Bool-cases, leb, ltb, length,
}
use decompute.Llama.Engine.{Engine}
use decompute.Llama.Session.{GgufModel}
use decompute.Llama.Decode.{GgufGenerationConfig, Generated, infer}
use decompute.Llama.Generate.{
  GgufGenerationResult, cached_session, checkout, tokenize, count_bypass, publish, conclude,
  generate_from, generate,
}
use decompute.Llama.Session.{expire_idle}

module _ {V C B S D F : Type 0} (E : Engine C B S D F) where
  tool_calls-conclude :
      (now : ℕ) (m : GgufModel C) (session : Option ℕ) (tokens : List ℕ) (reused : Bool)
      (sent : List Text) (g : Generated C) (r : GgufGenerationResult V)
      → (conclude E now m session tokens reused sent g).result ≡ ok r
      → r.tool_calls ≡ []
  unfolding conclude
  tool_calls-conclude now m session tokens reused sent g r h =
      elim (Result-cases (publish E now m session tokens g.context).1) [
        | inr (e, p) ↦ absurd (ground arith)
        | inl (committed, p) ↦ ground arith
      ]

  tool_calls-generate_from :
      (now : ℕ) (stops : ℕ → Bool) (callback : List Text → Text → Result (Unit {0}) Text)
      (config : GgufGenerationConfig F) (m : GgufModel C) (session_id : Option ℕ) (tokens : List ℕ)
      (r : GgufGenerationResult V)
      → (generate_from E now stops callback config m session_id tokens).result ≡ ok r
      → r.tool_calls ≡ []
  unfolding generate_from
  tool_calls-generate_from now stops callback config m session_id tokens r h =
      let session = cached_session m session_id tokens in
      let taken = checkout E (expire_idle now m) session tokens in
      elim (Result-cases taken.1) [
        | inr (e, c) ↦ absurd (ground arith)
        | inl (c, t) ↦
            let after = infer E m.context_tokens stops callback config c.prefix tokens c.context in
            elim (Result-cases after.1) [
              | inr (e, g) ↦ absurd (ground arith)
              | inl (g, e) ↦
                  tool_calls-conclude now taken.0 session tokens (ltb 0 c.prefix) after.0 g r
                    (rw (generate_from, t, e) at h)
            ]
      ]

  -- The runtime itself makes no calls.
  pub tool_calls-generate :
      (now : ℕ) (stops : ℕ → Bool) (callback : List Text → Text → Result (Unit {0}) Text)
      (config : GgufGenerationConfig F) (m : GgufModel C) (session_id : Option ℕ) (prompt : Text)
      (r : GgufGenerationResult V)
      → (generate E now stops callback config m session_id prompt).result ≡ ok r
      → r.tool_calls ≡ []
  unfolding generate generate_from
  tool_calls-generate now stops callback config m session_id prompt r h =
      elim (Result-cases (tokenize E stops prompt)) [
        | inr (e, t) ↦ absurd (ground arith)
        | inl (tokens, t) ↦ elim (Bool-cases (leb m.context_tokens (length tokens))) [
          | inl full ↦ absurd (ground arith)
          | inr room ↦
              tool_calls-generate_from now stops callback config
                (count_bypass E m session_id tokens) session_id tokens r
                (rw (generate, t, room) at h)
        ]
      ]
