-- ===== src/Llama/Generate/Plain.antt =====
-- A generation with a session cache against the plain one.
use mathlib.Core.Path.{subst}
use decompute.Prelude.{
  ℕ, ◌-◌, ◌<◌, ◌^◌, Bool, false, Text, List, [], ◌∷◌, ◌++◌, Option, none, some, length, leb, nat_eq,
  ltb, ◌≡◌, refl, ◌∙◌, inl, inr, arith, Result, ok, err, Result-cases, Option-cases, Bool-cases,
  is_empty,
}
use decompute.Prelude.Bytes.{starts_with, starts_with-take_all, starts_with-length}
use decompute.Prelude.Map.{get, Distinct, get-retain_inv}
use decompute.Llama.Engine.{Engine, Laws}
use decompute.Llama.Session.{GgufModel, SessionCacheEntry, expire_idle}
use decompute.Llama.Decode.{GenerateError, GgufGenerationConfig, Generated, infer}
use decompute.Llama.Decode.Rounds.{visible}
use decompute.Llama.Decode.Reference.{concat}
use decompute.Llama.Decode.Inferred.{plain, Holds, Inferred, infer-Inferred}
use decompute.Llama.Generate.{
  GgufGenerationResult, Outcome, Checkout, cached_session, count_bypass, tokenize, fresh_context,
  checkout, publish, conclude, generate_from, generate,
}

pub not_empty : (tokens : List ℕ) → is_empty tokens ≡ false → 0 < length tokens
not_empty [] h = cc
not_empty (token ∷ tokens) h = omega arith

module _ {C B S D F : Type 0} (E : Engine C B S D F) (L : Laws E) where
  -- Sequence 0 of each cached context holds the tokens that are recorded with it.
  abbrev pub IsCommitted : GgufModel C → Type 0
  IsCommitted model =
      (id : ℕ) (entry : SessionCacheEntry C)
      → get id model.session_cache ≡ some entry
      → L.sequence entry.context 0 ≡ entry.tokens

  fresh_context-Holds :
      (tokens : List ℕ) (c : Checkout C)
      → fresh_context E ≡ ok c
      → Holds E L c.context c.prefix tokens
  unfolding fresh_context
  fresh_context-Holds tokens c h =
      let cold : c.prefix ≡ 0 = ground arith in
      record { cached = λ more. absurd (omega (arith, cold)); fits = omega (arith, cold) }

  pub checkout-Holds :
      (model : GgufModel C) (session : Option ℕ) (tokens : List ℕ) (c : Checkout C)
      → IsCommitted model
      → (checkout E model session tokens).1 ≡ ok c
      → Holds E L c.context c.prefix tokens
  unfolding checkout
  checkout-Holds model none tokens c committed h = fresh_context-Holds tokens c h
  checkout-Holds model (some id) tokens c committed h =
      elim (Option-cases (get id model.session_cache)) [
        | inl e ↦ fresh_context-Holds tokens c (ground arith)
        | inr (entry, e) ↦ elim (Bool-cases (starts_with entry.tokens tokens)) [
          | inr differs ↦ fresh_context-Holds tokens c (ground arith)
          | inl begins ↦
              let context : c.context ≡ entry.context = ground arith in
              let prefix : c.prefix ≡ length entry.tokens = ground arith in
              record {
                cached = λ _.
                    rw (context, prefix)
                      (committed id entry e ∙ starts_with-take_all entry.tokens tokens begins);
                fits = rw prefix (starts_with-length entry.tokens tokens begins);
              }
        ]
      ]

  pub expire_idle-IsCommitted :
      (now : ℕ) (model : GgufModel C)
      → Distinct model.session_cache
      → IsCommitted model
      → IsCommitted (expire_idle now model)
  unfolding expire_idle
  expire_idle-IsCommitted now model d committed id entry h =
      committed id entry (get-retain_inv _ id model.session_cache entry d h).0

  session_cache-count_bypass :
      (model : GgufModel C) (session_id : Option ℕ) (tokens : List ℕ)
      → (count_bypass E model session_id tokens).session_cache ≡ model.session_cache
  unfolding count_bypass
  session_cache-count_bypass model session_id tokens = ground arith

  context_tokens-count_bypass :
      (model : GgufModel C) (session_id : Option ℕ) (tokens : List ℕ)
      → (count_bypass E model session_id tokens).context_tokens ≡ model.context_tokens
  unfolding count_bypass
  context_tokens-count_bypass model session_id tokens = ground arith

  module _ {V : Type 0} where
    -- Against the plain generation, which knows no cache: the callback has got the beginning of its
    -- pieces, and a call that succeeds has sent and returned all of them.
    pub record IsPlain (maximum : ℕ) (config : GgufGenerationConfig F) (tokens : List ℕ)
        (o : Outcome C (Result (GgufGenerationResult V) GenerateError)) : Type 0 where
      pub unsent : List Text
      pub sent : o.sent ++ unsent ≡ visible (plain E L maximum config tokens).0
      pub succeeds :
          (r : GgufGenerationResult V)
          → o.result ≡ ok r
          → (unsent ≡ [])
            × (r.text ≡ concat (plain E L maximum config tokens).0)
            × (r.input_tokens ≡ length tokens)
            × (r.output_tokens ≡ length (plain E L maximum config tokens).1 - length tokens)

    stops_early :
        (maximum : ℕ) (config : GgufGenerationConfig F) (tokens : List ℕ) (model : GgufModel C)
        (e : GenerateError)
        → IsPlain maximum config tokens (record { model = model; sent = []; result = err e })
    stops_early maximum config tokens model e = record {
      unsent = visible (plain E L maximum config tokens).0;
      sent = refl;
      succeeds = λ r h. cc;
    }

    conclude-IsPlain :
        (now : ℕ) (model : GgufModel C) (session : Option ℕ) (tokens : List ℕ) (reused : Bool)
        (maximum : ℕ) (config : GgufGenerationConfig F) (sent : List Text) (g : Generated C)
        → Inferred E L maximum config tokens (sent, ok g)
        → IsPlain maximum config tokens (conclude E now model session tokens reused sent g)
    unfolding conclude
    conclude-IsPlain now model session tokens reused maximum config sent g i =
        let (all, output, position, _) = i.succeeds g refl in
        elim (Result-cases (publish E now model session tokens g.context).1) [
          | inr (e, p) ↦
              rw (conclude, p) (record { unsent = i.unsent; sent = i.sent; succeeds = λ r h. cc })
          | inl (committed, p) ↦
              rw (conclude, p)
                (record {
                  unsent = i.unsent;
                  sent = i.sent;
                  succeeds =
                      λ r h. (all, ground (arith, output), ground arith, ground (arith, position));
                })
        ]

    generate_from-IsPlain :
        (now : ℕ) (stops : ℕ → Bool) (callback : List Text → Text → Result (Unit {0}) Text)
        (config : GgufGenerationConfig F) (model : GgufModel C) (session_id : Option ℕ)
        (tokens : List ℕ)
        → IsCommitted (expire_idle now model)
        → 0 < length tokens
        → length tokens < 2 ^ 32
        → IsPlain model.context_tokens config tokens
            (generate_from E now stops callback config model session_id tokens)
    unfolding generate_from
    generate_from-IsPlain now stops callback config model session_id tokens committed more small =
        let session = cached_session model session_id tokens in
        let taken = checkout E (expire_idle now model) session tokens in
        elim (Result-cases taken.1) [
          | inr (e, h) ↦
              rw (generate_from, h) (stops_early model.context_tokens config tokens taken.0 e)
          | inl (c, h) ↦
              let holds = checkout-Holds (expire_idle now model) session tokens c committed h in
              let i =
                infer-Inferred E L model.context_tokens stops callback config c.prefix tokens
                  c.context holds more small in
              elim (Result-cases
                (infer E model.context_tokens stops callback config c.prefix tokens c.context).1) [
                  | inr (e, g) ↦
                      rw (generate_from, h, g)
                        (record { unsent = i.unsent; sent = i.sent; succeeds = λ r h'. cc })
                  | inl (g, e) ↦
                      rw (generate_from, h, e)
                        (conclude-IsPlain now taken.0 session tokens (ltb 0 c.prefix)
                          model.context_tokens config _ g
                          (record {
                            unsent = i.unsent;
                            sent = i.sent;
                            succeeds = λ g' same. i.succeeds g' (e ∙ same);
                          }))
                ]
        ]

    -- Where every cached context holds, in sequence 0, the tokens that are recorded with it, and the
    -- calls of llama.cpp keep their laws: whatever is cached, for whichever session the prompt comes
    -- and however the call ends, the callback has got the first pieces of the plain generation from
    -- the prompt's tokens; and a call that succeeds has sent all of them and returns their text, the
    -- number of the prompt's tokens and that of the tokens decoded after them.
    pub generate-IsPlain :
        (now : ℕ) (stops : ℕ → Bool) (callback : List Text → Text → Result (Unit {0}) Text)
        (config : GgufGenerationConfig F) (model : GgufModel C) (session_id : Option ℕ)
        (prompt : Text) (tokens : List ℕ)
        → Distinct model.session_cache
        → IsCommitted model
        → model.context_tokens < 2 ^ 32
        → E.str_to_token prompt ≡ ok tokens
        → IsPlain model.context_tokens config tokens
            (generate E now stops callback config model session_id prompt)
    unfolding generate tokenize
    generate-IsPlain now stops callback config model session_id prompt tokens d committed small t =
        let counted = count_bypass E model session_id tokens in
        let same : counted.context_tokens ≡ model.context_tokens =
          context_tokens-count_bypass model session_id tokens in
        let cache : counted.session_cache ≡ model.session_cache =
          session_cache-count_bypass model session_id tokens in
        elim (Result-cases (tokenize E stops prompt)) [
          | inr (e, h) ↦ rw (generate, h) (stops_early model.context_tokens config tokens model e)
          | inl (tokens', h) ↦
              let (equal, filled) : (tokens' ≡ tokens) × (is_empty tokens ≡ false) = ground arith in
              elim (Bool-cases (leb model.context_tokens (length tokens))) [
                | inl full ↦
                    rw (generate, h, equal, full)
                      (stops_early model.context_tokens config tokens counted _)
                | inr room ↦
                    let ready : IsCommitted (expire_idle now counted) =
                      expire_idle-IsCommitted now counted (rw cache d)
                        (λ id entry. rw cache (committed id entry)) in
                    let after : IsPlain model.context_tokens config tokens
                        (generate_from E now stops callback config counted session_id tokens) =
                      subst
                        (λ n.
                          IsPlain n config tokens
                            (generate_from E now stops callback config counted session_id tokens))
                        same
                        (generate_from-IsPlain now stops callback config counted session_id tokens
                          ready (not_empty tokens filled) (ground arith)) in
                    rw (generate, h, equal, room) after
              ]
        ]
