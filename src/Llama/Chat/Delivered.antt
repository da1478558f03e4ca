-- ===== src/Llama/Chat/Delivered.antt =====
-- What a chat request delivers.
use decompute.Prelude.{
  ℕ, nat_eq, ◌<◌, ◌^◌, Bool, true, false, not, ◌&&◌, Text, List, [], ◌∷◌, ◌++◌, map, Option, Result,
  ok, ◌≡◌, refl, sym, ap, ◌∙◌, arith, inl, inr, Result-cases, Bool-cases, is_empty, if◌then◌else◌,
}
use mathlib.Core.List.{append-nil}
use decompute.Prelude.Map.{Distinct}
use decompute.Core.Json.{Json}
use decompute.Core.Chat.{ChatMessage, ToolDefinition, ToolCall}
use decompute.Core.History.{validate_tool_history}
use decompute.Llama.Engine.{Engine, Laws}
use decompute.Llama.ToolCalls.{ToolCallError, parse_tool_calls}
use decompute.Llama.ToolCalls.Answered.{
  calls_message, result_message, validate_tool_history-parse_tool_calls,
  validate_tool_history-plain,
}
use decompute.Llama.Templates.{TemplateRegistry, Jinja}
use decompute.Llama.Session.{GgufModel}
use decompute.Llama.Decode.{GenerateError, GgufGenerationConfig}
use decompute.Llama.Decode.Rounds.{visible}
use decompute.Llama.Decode.Reference.{concat}
use decompute.Llama.Decode.Inferred.{plain}
use decompute.Llama.Generate.{tokenize, GgufGenerationResult, Outcome, generate}
use decompute.Llama.Generate.Plain.{IsCommitted, IsPlain, generate-IsPlain}
use decompute.Llama.Chat.{
  ChatError, Embedded, render_chat, joined, defer, finish_tools, conclude_chat, generate_chat,
}
use decompute.Llama.Chat.Runtime.{tool_calls-generate}
use decompute.Llama.Chat.Parsed.{Parsed, finish_tools-Parsed}

joined-visible : (pieces : List Text) → joined (visible pieces) ≡ concat pieces
joined-visible [] = refl
joined-visible ([] ∷ pieces) = joined-visible pieces
joined-visible ((c ∷ cs) ∷ pieces) = ap (λ x. (c ∷ cs) ++ x) (joined-visible pieces)

module _ {V M : Type 0} (J : Json V) (show : ℕ → Text) (jinja : Jinja V) (embedded : Embedded M)
    {C B S D F : Type 0} (E : Engine C B S D F) (now : ℕ) (stops : ℕ → Bool)
    (callback : List Text → Text → Result (Unit {0}) Text) (config : GgufGenerationConfig F)
    (registry : TemplateRegistry) (m : GgufModel C) (messages : List (ChatMessage V))
    (tools : List (ToolDefinition V)) (requested : Option Text) (session_id : Option ℕ)
    (request_id : ℕ) where
  -- The call of this request.
  abbrev chat : Outcome C (Result (GgufGenerationResult V) ChatError)
  chat =
      generate_chat J show jinja embedded E now stops callback config registry m messages tools
        requested session_id request_id

  abbrev deferring : Text → Outcome C (Result (GgufGenerationResult V) GenerateError)
  deferring prompt = generate E now stops defer config m session_id prompt

  abbrev parser : Text → Result (Text × List (ToolCall V)) ToolCallError
  parser deferred = parse_tool_calls J show deferred tools request_id

  -- With tools, a successful call is the parse of what the runtime has generated.
  record FromRuntime (r : GgufGenerationResult V) : Type 0 where
    pub prompt : Text
    pub rendered : render_chat jinja embedded registry messages tools requested ≡ ok prompt
    pub generated : GgufGenerationResult V
    pub succeeds : (deferring prompt).result ≡ ok generated
    pub answer : Parsed parser (joined (deferring prompt).sent) chat r

  chat-FromRuntime :
      (r : GgufGenerationResult V) → chat.result ≡ ok r → is_empty tools ≡ false → FromRuntime r
  unfolding generate_chat conclude_chat
  chat-FromRuntime r h filled = elim (Bool-cases (not (is_empty tools) && not m.qwen_tool_calls)) [
    | inl other ↦ absurd (ground arith)
    | inr serves ↦
        elim (Result-cases (render_chat jinja embedded registry messages tools requested)) [
          | inr (e, p) ↦ absurd (ground arith)
          | inl (prompt, p) ↦ elim (Result-cases (deferring prompt).result) [
            | inr (e, g) ↦ absurd (ground arith)
            | inl (generated, g) ↦
                let after = λ (tooled : Bool) (capture : List Text → Text → Result (Unit {0}) Text).
                  conclude_chat callback parser tooled session_id
                    (generate E now stops capture config m session_id prompt) in
                let served : chat
                    ≡ after (not (is_empty tools)) (if is_empty tools then callback else defer) =
                  rw (generate_chat, serves, p) refl in
                let deferred : chat ≡ after true defer =
                  served ∙ ap (λ b. after (not b) (if b then callback else defer)) filled in
                let concluded : after true defer
                    ≡ finish_tools callback parser session_id (deferring prompt).model
                        (joined (deferring prompt).sent) generated =
                  rw (conclude_chat, g) refl in
                let same = deferred ∙ concluded in
                record {
                  prompt = prompt;
                  rendered = p;
                  generated = generated;
                  succeeds = g;
                  answer = rw same (
                      finish_tools-Parsed callback parser session_id (deferring prompt).model
                        (joined (deferring prompt).sent) generated r (rw same at h));
                }
          ]
        ]
  ]

  abbrev direct : Text → Outcome C (Result (GgufGenerationResult V) GenerateError)
  direct prompt = generate E now stops callback config m session_id prompt

  -- Without tools, the answer is that of the runtime.
  record FromDirect (r : GgufGenerationResult V) : Type 0 where
    pub prompt : Text
    pub succeeds : (direct prompt).result ≡ ok r
    pub sent : chat.sent ≡ (direct prompt).sent

  chat-FromDirect :
      (r : GgufGenerationResult V) → chat.result ≡ ok r → is_empty tools ≡ true → FromDirect r
  unfolding generate_chat conclude_chat
  chat-FromDirect r h empty = elim (Bool-cases (not (is_empty tools) && not m.qwen_tool_calls)) [
    | inl other ↦ absurd (ground arith)
    | inr serves ↦
        elim (Result-cases (render_chat jinja embedded registry messages tools requested)) [
          | inr (e, p) ↦ absurd (ground arith)
          | inl (prompt, p) ↦
              let after = λ (tooled : Bool) (capture : List Text → Text → Result (Unit {0}) Text).
                conclude_chat callback parser tooled session_id
                  (generate E now stops capture config m session_id prompt) in
              let served : chat
                  ≡ after (not (is_empty tools)) (if is_empty tools then callback else defer) =
                rw (generate_chat, serves, p) refl in
              let same : chat ≡ after false callback =
                served ∙ ap (λ b. after (not b) (if b then callback else defer)) empty in
              elim (Result-cases (direct prompt).result) [
                | inr (e, g) ↦ absurd (ground (arith, ap (λ o. o.result) same))
                | inl (generated, g) ↦ record {
                  prompt = prompt;
                  succeeds = g ∙ ground (arith, ap (λ o. o.result) same);
                  sent = ground (arith, ap (λ o. o.sent) same);
                }
              ]
        ]
  ]

  chat_without_tools :
      (r : GgufGenerationResult V) → chat.result ≡ ok r → is_empty tools ≡ true → r.tool_calls ≡ []
  chat_without_tools r h empty =
      let runtime = chat-FromDirect r h empty in
      tool_calls-generate E now stops callback config m session_id runtime.prompt r runtime.succeeds

  -- A conversation that is accepted is accepted again when it goes on with the answer of
  -- `generate_chat`, text and tool calls, and with one result for each of these calls in their order.
  pub validate_tool_history-generate_chat :
      (r : GgufGenerationResult V) (answer : ToolCall V → Text)
      → chat.result ≡ ok r
      → validate_tool_history J.is_object messages tools ≡ ok tt
      → validate_tool_history J.is_object
          (messages ++ calls_message r.text r.tool_calls ∷ map (result_message answer) r.tool_calls)
          tools
        ≡ ok tt
  validate_tool_history-generate_chat r answer h accepted = elim (Bool-cases (is_empty tools)) [
    | inr filled ↦
        let runtime = chat-FromRuntime r h filled in
        validate_tool_history-parse_tool_calls J show (joined (deferring runtime.prompt).sent)
          r.text tools request_id r.tool_calls messages answer runtime.answer.parsed accepted
    | inl empty ↦
        rw (chat_without_tools r h empty)
          (validate_tool_history-plain J.is_object r.text tools messages accepted)
  ]

  -- A successful generation has read its prompt.
  tokens-generate :
      (capture : List Text → Text → Result (Unit {0}) Text) (prompt : Text)
      (r : GgufGenerationResult V)
      → (generate E now stops capture config m session_id prompt).result ≡ ok r
      → (tokens : List ℕ) × (E.str_to_token prompt ≡ ok tokens)
  unfolding generate tokenize
  tokens-generate capture prompt r h = elim (Result-cases (E.str_to_token prompt)) [
    | inl (tokens, t) ↦ (tokens, t)
    | inr (e, t) ↦ absurd (ground arith)
  ]

  -- For a model whose cached contexts hold the tokens recorded with them: the pieces that the callback
  -- has got by the end of a successful call are together the text of its answer.
  pub joined-generate_chat :
      (L : Laws E) (r : GgufGenerationResult V)
      → Distinct m.session_cache
      → IsCommitted E L m
      → m.context_tokens < 2 ^ 32
      → chat.result ≡ ok r
      → joined chat.sent ≡ r.text
  joined-generate_chat L r d committed small h = elim (Bool-cases (is_empty tools)) [
    | inr filled ↦
        let answer = (chat-FromRuntime r h filled).answer in
        ap joined answer.sent ∙ joined-visible (r.text ∷ []) ∙ append-nil r.text
    | inl empty ↦
        let runtime = chat-FromDirect r h empty in
        let (tokens, t) = tokens-generate callback runtime.prompt r runtime.succeeds in
        let p : IsPlain E L m.context_tokens config tokens (direct runtime.prompt) =
          generate-IsPlain E L now stops callback config m session_id runtime.prompt tokens d
            committed small t in
        let done = p.succeeds r runtime.succeeds in
        let whole =
          sym (append-nil (direct runtime.prompt).sent)
          ∙ ap (λ x. (direct runtime.prompt).sent ++ x) (sym done.0)
          ∙ p.sent in
        ap joined (runtime.sent ∙ whole)
        ∙ joined-visible (plain E L m.context_tokens config tokens).0
        ∙ sym done.1
  ]
