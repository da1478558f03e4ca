-- ===== src/Worker/Stream/Loaded.antt =====
-- The worker over a loaded model, crates/decompute-sdk/src/gguf.rs.
use decompute.Prelude.{
  ℕ, nat_eq, zero, suc, ◌^◌, ◌<◌, Bool, false, Text, List, [], ◌∷◌, ◌++◌, map, length, ok, map_err,
  ◌≡◌, refl, arith,
}
use mathlib.Core.Option
use decompute.Prelude.Map.{Distinct}
use decompute.Llama.Generate.{GgufGenerationResult}
use decompute.Llama.Generate.Plain.{IsCommitted}
use decompute.Llama.Chat.Delivered.{joined-generate_chat}
use decompute.Core.Json.{Json}
use decompute.Protocol.Requests.{GenerateRequest, RequestValidationError, text_delta, completed}
use decompute.Llama.Engine.{Engine, Laws}
use decompute.Llama.Templates.{Jinja, TemplateRegistry}
use decompute.Llama.Session.{GgufModel}
use decompute.Llama.Chat.{ChatError, Embedded, joined}
use decompute.Sdk.{ChatRequest, GenerationEvent, accepts_all, all_events, run_generate}
use decompute.Sdk
use decompute.Sdk.Events.{deltas-IsFull}
use decompute.Worker.Stream.{ModelHandle, cache_session_id, chat_request, convert, forward, stream}
use decompute.Worker.Stream.Shape.{Ended, stream-Ended}

forward-all :
    {V : Type 0} (explain : ChatError → Text) (pieces : List Text) (last : GenerationEvent V)
    (room : ℕ)
    → length pieces < room
    → forward explain room (map (λ t. Sdk.text_delta t) pieces ++ last ∷ [])
      ≡ (map (λ t. text_delta t) pieces ++ convert explain last ∷ [], false)
unfolding forward convert
forward-all explain pieces last zero less = absurd (omega arith)
forward-all explain [] last (suc room) less = refl
forward-all explain (t ∷ pieces) last (suc room) less =
    rw (forward-all explain pieces last room (omega arith)) refl

module _ {V M G C B S D F : Type 0} (J : Json V) (show : ℕ → Text) (jinja : Jinja V)
    (embedded : Embedded M) (E : Engine C B S D F) (as_f32 : G → F) (registry : TemplateRegistry)
    (now : ℕ) (stops : ℕ → Bool) (explain : ChatError → Text) (model : GgufModel C) where
  -- The handle while the model's thread runs. The events are all that the thread has to send: those
  -- that a receiver takes before it goes are the first of them.
  abbrev pub loaded_handle : ModelHandle V G
  loaded_handle = record {
    generate = λ chat.
        map_err explain
          (run_generate J show jinja embedded E as_f32 registry now stops model chat).1;
    stream = λ chat. ok (
        all_events
          (Sdk.generate J show jinja embedded E as_f32 registry now stops accepts_all model chat));
  }

  -- Over a loaded model, where the client is there at the start, the response of the worker has pieces
  -- of text and then exactly one last event if the client stays, whatever fails in the generation, and
  -- if the client goes, pieces alone, and the request is cancelled.
  pub stream_loaded-Ended :
      (describe : RequestValidationError → Text) (session_cache_enabled has_lease : Bool) (room : ℕ)
      (request : GenerateRequest V)
      → 0 < room
      → Ended
          (stream describe explain loaded_handle session_cache_enabled has_lease room request).0
          (stream describe explain loaded_handle session_cache_enabled has_lease room request).1
  stream_loaded-Ended describe session_cache_enabled has_lease room request more =
      stream-Ended describe explain loaded_handle session_cache_enabled has_lease room request
        (λ chat events e.
          let o =
            Sdk.generate J show jinja embedded E as_f32 registry now stops accepts_all model chat in
          let same : all_events o ≡ events = cc in rw (← same) (deltas-IsFull o.sent o.result))
        more

  -- Over a loaded model that answers, where the cached contexts hold the tokens recorded with them and
  -- the client takes one event more than there are pieces, the response of the worker is pieces of
  -- text that are together the text of the answer, then the completion with its counts, tool calls and
  -- reason, and the request is not cancelled.
  pub stream_loaded-delivered :
      (L : Laws E) (describe : RequestValidationError → Text)
      (session_cache_enabled has_lease : Bool) (room : ℕ) (request : GenerateRequest V)
      (chat : ChatRequest V G) (r : GgufGenerationResult V)
      → Distinct model.session_cache
      → IsCommitted E L model
      → model.context_tokens < 2 ^ 32
      → chat_request describe request
          (cache_session_id session_cache_enabled has_lease request.session_id)
        ≡ ok chat
      → (Sdk.generate J show jinja embedded E as_f32 registry now stops accepts_all model
          chat).result
        ≡ ok r
      → length
          (Sdk.generate J show jinja embedded E as_f32 registry now stops accepts_all model
            chat).sent
        < room
      → (pieces : List Text) × (stream describe explain loaded_handle session_cache_enabled
            has_lease room request
          ≡ (
            map (λ t. text_delta t) pieces
                ++ completed r.input_tokens r.output_tokens r.tool_calls r.finish_reason ∷ [],
            false,
          ))
        × (joined pieces ≡ r.text)
  unfolding stream Sdk.generate Sdk.final_event convert
  stream_loaded-delivered L describe session_cache_enabled has_lease room request chat r d committed
        small c h less =
      let o =
        Sdk.generate J show jinja embedded E as_f32 registry now stops accepts_all model chat in
      (
        o.sent,
        rw (stream, c, h) (forward-all explain o.sent (Sdk.completed (Sdk.from_gguf r)) room less),
        joined-generate_chat J show jinja embedded E now stops accepts_all
            (record {
              max_tokens = chat.generation.max_tokens;
              temperature = Option.map as_f32 chat.generation.temperature;
            })
            registry model chat.messages chat.tools chat.template chat.session_id chat.request_id L
            r d committed small h,
      )
