-- ===== src/Worker/Stream/Shape.antt =====
-- The shape of a stream: pieces of text, then one last event.
use decompute.Prelude.{
  ℕ, zero, suc, ◌<◌, Bool, true, false, Text, List, [], ◌∷◌, ok, ◌≡◌, refl, inl, inr, arith,
  Result-cases,
}
use decompute.Protocol.Requests.{
  GenerateRequest, GenerationStreamEvent, RequestValidationError, text_delta, completed, error,
}
use decompute.Llama.Chat.{ChatError}
use decompute.Sdk.{ChatRequest, GenerationEvent, GenerationResult}
use decompute.Sdk.Events.{IsFull}
use decompute.Sdk
use decompute.Worker.Stream.{
  ModelHandle, cache_session_id, chat_request, forward, send_error, stream,
}

module _ {V : Type 0} where
  -- What the client gets: the same, complete.
  abbrev pub IsWhole : List (GenerationStreamEvent V) → Type 0
  IsWhole [] = ⊥ × Unit {0}
  IsWhole (text_delta t ∷ events) = IsWhole events
  IsWhole (completed i o calls reason ∷ events) = events ≡ []
  IsWhole (error message ∷ events) = events ≡ []

  -- Pieces alone.
  abbrev pub IsCutOff : List (GenerationStreamEvent V) → Type 0
  IsCutOff [] = Unit {0}
  IsCutOff (text_delta t ∷ events) = IsCutOff events
  IsCutOff (completed i o calls reason ∷ events) = ⊥ × Unit {0}
  IsCutOff (error message ∷ events) = ⊥ × Unit {0}

  -- Whole where the client has stayed, and cut off where it has gone.
  abbrev pub Ended : List (GenerationStreamEvent V) → Bool → Type 0
  Ended sent false = IsWhole sent
  Ended sent true = IsCutOff sent

  module _ (explain : ChatError → Text) where
    Ended-delta :
        (t : Text) (sent : List (GenerationStreamEvent V)) (cancelled : Bool)
        → Ended sent cancelled
        → Ended (text_delta t ∷ sent) cancelled
    Ended-delta t sent false h = h
    Ended-delta t sent true h = h

    forward-Ended :
        (room : ℕ) (events : List (GenerationEvent V))
        → IsFull events
        → Ended (forward explain room events).0 (forward explain room events).1
    unfolding forward
    forward-Ended room [] full = absurd full.0
    forward-Ended zero (event ∷ events) full = tt
    forward-Ended (suc room) (Sdk.text_delta t ∷ events) full =
        Ended-delta t (forward explain room events).0 (forward explain room events).1
          (forward-Ended room events full)
    forward-Ended (suc room) (Sdk.completed r ∷ events) full = rw full refl
    forward-Ended (suc room) (Sdk.error e ∷ events) full = rw full refl

send_error-Ended :
    (V : Type 0) (explain : ChatError → Text) (room : ℕ) (message : Text)
    → 0 < room
    → Ended (send_error {V = V} explain room message).0 (send_error {V = V} explain room message).1
unfolding send_error
send_error-Ended V explain zero message more = absurd (omega arith)
send_error-Ended V explain (suc room) message more = refl

-- Where a model's channel gives pieces and then one last event, and the client is there at the start,
-- so does the response of the worker: it has pieces of text and then exactly one last event if the
-- client stays, and if the client goes, pieces alone, and the request is cancelled.
pub stream-Ended :
    {V G : Type 0} (describe : RequestValidationError → Text) (explain : ChatError → Text)
    (model : ModelHandle V G) (session_cache_enabled has_lease : Bool) (room : ℕ)
    (request : GenerateRequest V)
    → ((chat : ChatRequest V G) (events : List (GenerationEvent V))
        → model.stream chat ≡ ok events
        → IsFull events)
    → 0 < room
    → Ended
        (stream describe explain model session_cache_enabled has_lease room request).0
        (stream describe explain model session_cache_enabled has_lease room request).1
unfolding stream
stream-Ended {V = V} {G = G} describe explain model session_cache_enabled has_lease room request
      full more =
    let session = cache_session_id session_cache_enabled has_lease request.session_id in
    elim (Result-cases (chat_request {G = G} describe request session)) [
      | inr (message, c) ↦ rw (stream, c) (send_error-Ended V explain room message more)
      | inl (chat, c) ↦ elim (Result-cases (model.stream chat)) [
        | inr (message, e) ↦ rw (stream, c, e) (send_error-Ended V explain room message more)
        | inl (events, e) ↦
            rw (stream, c, e) (forward-Ended explain room events (full chat events e))
      ]
    ]
