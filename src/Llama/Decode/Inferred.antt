-- ===== src/Llama/Decode/Inferred.antt =====
-- What an inference on a context gives, whatever the context held.
use decompute.Prelude.{
  ℕ, ◌<◌, ◌≤◌, ◌^◌, Bool, Text, List, [], ◌++◌, none, length, ◌≡◌, refl, ap, ◌∙◌, inl, inr, arith,
  Result, ok, >>=-eq-ok, map_err, Result-cases,
}
use decompute.Prelude.Bytes.{take}
use decompute.Llama.Engine.{Engine, Laws}
use decompute.Llama.Decode.{
  GenerateError, native, GgufGenerationConfig, Generated, prefill, checkpoint, start_prompt,
  first_loop, run_loop, infer, generate_tokens, accept_many, choose_sampler,
}
use decompute.Llama.Decode.Prompt.{prefill-Decoded, map_err-ok}
use decompute.Llama.Decode.Rounds.{visible}
use decompute.Llama.Decode.Reference.{reference, concat, generate_tokens-Matches}

module _ {C B S D F : Type 0} (E : Engine C B S D F) (L : Laws E) where
  -- That the first `prefix` tokens are in sequence 0, if there are any.
  pub record Holds (c : C) (prefix : ℕ) (tokens : List ℕ) : Type 0 where
    pub cached : 0 < prefix → L.sequence c 0 ≡ take prefix tokens
    pub fits : prefix ≤ length tokens

module _ {C B S D F : Type 0} (E : Engine C B S D F) (L : Laws E) (maximum : ℕ) where
  -- The generation that a prompt has without a cache: its pieces, and all tokens at its end.
  abbrev pub plain : GgufGenerationConfig F → List ℕ → List Text × List ℕ
  plain config tokens =
      reference E L maximum config.max_tokens
        (accept_many E (choose_sampler E config.temperature) tokens) E.new_decoder tokens

  record Prompted (c : C) (tokens : List ℕ) : Type 0 where
    held : L.sequence c 1 ≡ tokens
    seen : L.seen c ≡ tokens
    kept : L.sequence c 2 ≡ tokens

  checkpoint-Prompted :
      (c c' : C) (tokens : List ℕ)
      → checkpoint E c ≡ ok c'
      → L.sequence c 1 ≡ tokens
      → L.seen c ≡ tokens
      → Prompted c' tokens
  unfolding checkpoint
  checkpoint-Prompted c c' tokens h held seen =
      let (c1, e1, h1) = >>=-eq-ok (map_err native (E.clear_kv_cache_seq c 2 none)) _ h in
      let cleared = map_err-ok native _ c1 e1 in
      let copied : E.copy_kv_cache_seq c1 1 2 ≡ ok c' = map_err-ok native _ c' h1 in
      let first = L.clear_others c c1 2 1 none cleared (omega arith) ∙ held in
      let done = L.copy c1 c' 1 2 copied (L.clear_whole c c1 2 cleared).0 in
      record {
        held = L.copy_others c1 c' 1 2 1 copied (omega arith) ∙ first;
        seen = done.1 ∙ (L.clear_whole c c1 2 cleared).1 ∙ seen;
        kept = done.0 ∙ first;
      }

  -- What is sent is the beginning of the plain generation, and where the inference succeeds, all of
  -- it, and sequence 2 holds the prompt.
  pub record Inferred (config : GgufGenerationConfig F) (tokens : List ℕ)
      (after : List Text × Result (Generated C) GenerateError) : Type 0 where
    pub unsent : List Text
    pub sent : after.0 ++ unsent ≡ visible (plain config tokens).0
    pub succeeds :
        (g : Generated C)
        → after.1 ≡ ok g
        → (unsent ≡ [])
          × (g.output ≡ concat (plain config tokens).0)
          × (g.position ≡ length (plain config tokens).1)
          × (L.sequence g.context 2 ≡ tokens)

  module _ (stops : ℕ → Bool) (callback : List Text → Text → Result (Unit {0}) Text) where
    start_prompt-Prompted :
        (prefix : ℕ) (tokens : List ℕ) (c c' : C) (b : B)
        → start_prompt E maximum stops callback prefix tokens c ≡ ok (c', b)
        → Holds E L c prefix tokens
        → 0 < length tokens
        → length tokens < 2 ^ 32
        → Prompted c' tokens
    unfolding start_prompt
    start_prompt-Prompted prefix tokens c c' b h holds more small =
        let ((c1, b1), e1, h1) = >>=-eq-ok (prefill E maximum prefix tokens c) _ h in
        let d =
          prefill-Decoded E L maximum prefix c c1 b1 tokens e1 holds.cached holds.fits
            (omega (arith, holds.fits)) more in
        let ready : checkpoint E c1 ≡ ok c' = ground arith in
        checkpoint-Prompted c1 c' tokens ready d.held d.seen

    run_loop-Inferred :
        (config : GgufGenerationConfig F) (tokens : List ℕ) (c : C) (b : B)
        → Prompted c tokens
        → Inferred config tokens (
            run_loop E maximum stops callback config.max_tokens
              (first_loop E maximum stops callback config tokens c b))
    unfolding run_loop
    run_loop-Inferred config tokens c b p =
        let first = first_loop E maximum stops callback config tokens c b in
        let m =
          generate_tokens-Matches E L maximum stops callback config.max_tokens 2 first tokens
            (record { held = p.held; seen = p.seen; position = refl }) in
        let after = generate_tokens E maximum stops callback config.max_tokens 2 first in
        elim (Result-cases (generate_tokens E maximum stops callback config.max_tokens 2 first).1) [
          | inl (u, e) ↦
              let all : after.1 ≡ ok tt = e in
              rw (run_loop, e)
                (record {
                  unsent = m.unsent;
                  sent = m.sent;
                  succeeds = λ g h.
                      let same : g ≡ record {
                        context = after.0.context;
                        output = after.0.output;
                        position = after.0.position;
                      } =
                        ground arith in
                      (
                        m.all_sent all,
                        ap (λ x. x.output) same ∙ m.output all,
                        ap (λ x. x.position) same ∙ m.position all,
                        ap (λ x. L.sequence x.context 2) same
                            ∙ m.keeps all 2 (omega arith)
                            ∙ p.kept,
                      );
                })
          | inr (x, e) ↦
              rw (run_loop, e) (record { unsent = m.unsent; sent = m.sent; succeeds = λ g h. cc })
        ]

    pub infer-Inferred :
        (config : GgufGenerationConfig F) (prefix : ℕ) (tokens : List ℕ) (c : C)
        → Holds E L c prefix tokens
        → 0 < length tokens
        → length tokens < 2 ^ 32
        → Inferred config tokens (infer E maximum stops callback config prefix tokens c)
    unfolding infer
    infer-Inferred config prefix tokens c holds more small =
        elim (Result-cases (start_prompt E maximum stops callback prefix tokens c)) [
          | inr (e, h) ↦
              rw (infer, h)
                (record {
                  unsent = visible (plain config tokens).0;
                  sent = refl;
                  succeeds = λ g h'. cc;
                })
          | inl ((ready, b), h) ↦
              rw (infer, h)
                (run_loop-Inferred config tokens ready b
                  (start_prompt-Prompted prefix tokens c ready b h holds more small))
        ]
