-- ===== src/Sdk/Events.antt =====
-- The events of a stream.
use mathlib.Core.Option
use decompute.Prelude.{
  ℕ, nat_eq, zero, suc, ◌<◌, ◌≤◌, ◌^◌, Bool, Text, List, [], ◌∷◌, ◌++◌, map, Result, ok, err, ◌≡◌,
  refl, ap, ◌∙◌, arith, length, length-append,
}
use decompute.Prelude.Bytes.{take}
use decompute.Prelude.Map.{Distinct}
use decompute.Core.Json.{Json}
use decompute.Llama.Engine.{Engine, Laws}
use decompute.Llama.Templates.{Jinja, TemplateRegistry}
use decompute.Llama.Session.{GgufModel}
use decompute.Llama.Generate.{GgufGenerationResult}
use decompute.Llama.Generate.Plain.{IsCommitted}
use decompute.Llama.Chat.{ChatError, Embedded, joined}
use decompute.Llama.Chat.Delivered.{joined-generate_chat}
use decompute.Sdk.{
  ChatRequest, GenerationEvent, text_delta, completed, error, from_gguf, final_event, send_delta,
  all_events, generate, run_stream,
}

module _ {V : Type 0} where
  -- Pieces, then one last event.
  abbrev pub IsFull : List (GenerationEvent V) → Type 0
  IsFull [] = ⊥ × Unit {0}
  IsFull (text_delta t ∷ events) = IsFull events
  IsFull (completed r ∷ events) = events ≡ []
  IsFull (error e ∷ events) = events ≡ []

  deltas : List Text → List (GenerationEvent V)
  deltas = map (λ t. text_delta t)

  final-IsFull :
      (result : Result (GgufGenerationResult V) ChatError) → IsFull (final_event result ∷ [])
  unfolding final_event
  final-IsFull (ok r) = refl
  final-IsFull (err e) = refl

  pub deltas-IsFull :
      (pieces : List Text) (result : Result (GgufGenerationResult V) ChatError)
      → IsFull (map (λ t. text_delta t) pieces ++ final_event result ∷ [])
  deltas-IsFull [] result = final-IsFull result
  deltas-IsFull (t ∷ pieces) result = deltas-IsFull pieces result

take_all : {A : Type 0} (n : ℕ) (xs : List A) → length xs ≤ n → take n xs ≡ xs
take_all zero [] le = refl
take_all zero (x ∷ xs) le = absurd (omega arith)
take_all (suc n) [] le = refl
take_all (suc n) (x ∷ xs) le = ap (◌∷◌ x) (take_all n xs (omega arith))

length-map : {A B : Type 0} (f : A → B) (xs : List A) → length (map f xs) ≡ length xs
length-map f [] = refl
length-map f (x ∷ xs) = omega (arith, length-map f xs)

module _ {V M G C B S D F : Type 0} (J : Json V) (show : ℕ → Text) (jinja : Jinja V)
    (embedded : Embedded M) (E : Engine C B S D F) (as_f32 : G → F) (registry : TemplateRegistry)
    (now : ℕ) (stops : ℕ → Bool) where
  -- Where the cached contexts hold the tokens recorded with them, and the channel takes one event more
  -- than there are pieces: a job that succeeds puts pieces into its channel that are together the text
  -- of its result, and after them the result, and nothing else.
  pub run_stream-completed :
      (L : Laws E) (room : ℕ) (model : GgufModel C) (request : ChatRequest V G)
      (r : GgufGenerationResult V)
      → Distinct model.session_cache
      → IsCommitted E L model
      → model.context_tokens < 2 ^ 32
      → (generate J show jinja embedded E as_f32 registry now stops
          (send_delta room)
          model
          request).result
        ≡ ok r
      → length
          (generate J show jinja embedded E as_f32 registry now stops
            (send_delta room)
            model
            request).sent
        < room
      → (pieces : List Text) × ((run_stream J show jinja embedded E as_f32 registry now stops room
            model request).1
          ≡ map (λ t. text_delta t) pieces ++ completed (from_gguf r) ∷ [])
        × (joined pieces ≡ r.text)
  unfolding run_stream generate final_event
  run_stream-completed L room model request r d committed small h less =
      let o =
        generate J show jinja embedded E as_f32 registry now stops (send_delta room) model
          request in
      let piece : Text → GenerationEvent V = λ t. text_delta t in
      let events = map piece o.sent in
      let fits : length (all_events o) ≤ room =
        omega (arith, length-append events (final_event o.result ∷ []), length-map piece o.sent) in
      (
        o.sent,
        take_all room (all_events o) fits ∙ ap (λ e. events ++ final_event e ∷ []) h,
        joined-generate_chat J show jinja embedded E now stops (send_delta room)
            (record {
              max_tokens = request.generation.max_tokens;
              temperature = Option.map as_f32 request.generation.temperature;
            })
            registry model request.messages request.tools request.template request.session_id
            request.request_id L r d committed small h,
      )
