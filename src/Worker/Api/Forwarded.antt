-- ===== src/Worker/Api/Forwarded.antt =====
-- crates/coordinator/src/openai.rs and crates/worker/src/api.rs: the requests that the coordinator
-- makes of public ones, at the worker.
use mathlib.Core.Path.{subst}
use decompute.Prelude.{
  ℕ, Bool, List, [], ◌∷◌, Option, none, some, ◌≡◌, refl, Result, ok, err, ◌>>=◌, ◌>>◌, >>=-eq-ok,
  map_err,
}
use decompute.Core.Json.{Json}
use decompute.Core.Chat.{ChatMessage}
use decompute.Core.History.{validate_tool_history}
use decompute.Protocol.Requests.{
  GenerateRequest, invalid_tool_history, validate_tools, normalize_messages, normalized_messages,
  validate_tool_history_messages,
}
use decompute.Coordinator.OpenAi.{
  ChatCompletionMessage, token_limit, ChatCompletionRequest, RequestError, validation, collect,
  chat_message, convert, try_from,
}
use decompute.Worker.Api.{normalize_request}

map_err-ok : {A E F : Type 0} (f : E → F) (r : Result A E) (a : A) → map_err f r ≡ ok a → r ≡ ok a
map_err-ok f (ok b) a h = cc
map_err-ok f (err e) a h = cc

collect-nonempty :
    {A B E : Type 0} (f : A → Result B E) (x : A) (xs : List A) (ys : List B)
    → collect f (x ∷ xs) ≡ ok ys
    → (z : B) × (zs : List B) × (ys ≡ z ∷ zs)
unfolding collect
collect-nonempty f x xs ys h =
    let (z, _, p) = >>=-eq-ok (f x) (λ y. collect f xs >>= λ ys'. ok (y ∷ ys')) h in
    let (zs, _, q) = >>=-eq-ok (collect f xs) (λ ys'. ok (z ∷ ys')) p in (z, zs, cc)

normalize-ok :
    {V : Type 0} (is_object : V → Bool) (g : GenerateRequest V) (messages : List (ChatMessage V))
    → g.prompt ≡ none
    → g.messages ≡ some messages
    → normalize_messages none (some messages) ≡ ok messages
    → validate_tools is_object g.tools ≡ ok tt
    → validate_tool_history is_object messages g.tools ≡ ok tt
    → normalize_request is_object g ≡ ok g
unfolding normalize_request normalized_messages validate_tool_history_messages
normalize-ok is_object g messages p m n t v = rw (normalize_request, t, p, m, n, v) refl

normalize-nonempty :
    {V : Type 0} (messages : List (ChatMessage V)) (z : ChatMessage V) (zs : List (ChatMessage V))
    → messages ≡ z ∷ zs
    → normalize_messages none (some messages) ≡ ok messages
unfolding normalize_messages
normalize-nonempty messages z zs e = rw (e, normalize_messages) refl

-- What `convert` ends with.
abbrev made_request :
    {V : Type 0} → Json V → ChatCompletionRequest V → ℕ → List (ChatMessage V) → GenerateRequest V
made_request json public request_id messages = record {
  request_id = request_id;
  session_id = none;
  model = public.model;
  prompt = none;
  messages = some messages;
  template = public.template;
  tools = public.tools;
  max_tokens = token_limit json public;
}

abbrev convert_end :
    {V : Type 0}
    → Json V
    → ChatCompletionRequest V
    → ℕ
    → List (ChatMessage V)
    → Result (GenerateRequest V) RequestError
convert_end json public request_id messages = ok (made_request json public request_id messages)

try_from-convert :
    {V : Type 0} (json : Json V) (public : ChatCompletionRequest V) (request_id : ℕ)
    (g : GenerateRequest V) (ms : List (ChatCompletionMessage V))
    → public.messages ≡ ms
    → try_from json public request_id ≡ ok g
    → (m : ChatCompletionMessage V) × (ns : List (ChatCompletionMessage V)) × (public.messages
        ≡ m ∷ ns)
      × (convert json public request_id ≡ ok g)
unfolding try_from
try_from-convert json public request_id g [] e h = let k = rw (try_from, e) at h in cc
try_from-convert json public request_id g (m ∷ ns) e h = (m, ns, e, rw (try_from, e) at h)

convert-normal :
    {V : Type 0} (json : Json V) (public : ChatCompletionRequest V) (request_id : ℕ)
    (session_id : Option ℕ) (g : GenerateRequest V) (m : ChatCompletionMessage V)
    (ns : List (ChatCompletionMessage V))
    → public.messages ≡ m ∷ ns
    → convert json public request_id ≡ ok g
    → normalize_request json.is_object (record g { session_id = session_id })
      ≡ ok (record g { session_id = session_id })
unfolding convert
convert-normal json public request_id session_id g m ns e h =
    let made = λ (messages : List (ChatMessage _)). convert_end json public request_id messages in
    let history = λ (messages : List (ChatMessage _)).
      map_err (λ x. validation (invalid_tool_history x))
        (validate_tool_history json.is_object messages public.tools) in
    let messages' = collect (chat_message json) public.messages in
    let after = λ (messages : List (ChatMessage _)). history messages >> made messages in
    let (u, t, p) =
      >>=-eq-ok (map_err validation (validate_tools json.is_object public.tools))
        (λ _. messages' >>= after) h in
    let (messages, c, q) = >>=-eq-ok messages' after p in
    let (w, v, r) = >>=-eq-ok (history messages) (λ _. made messages) q in
    let (z, zs, n) =
      collect-nonempty (chat_message json) m ns messages
        (subst (λ x. collect (chat_message json) x ≡ ok messages) e c) in
    let same : made_request json public request_id messages ≡ g = cc in
    subst
      (λ x.
        normalize_request json.is_object (record x { session_id = session_id })
        ≡ ok (record x { session_id = session_id }))
      same
      (normalize-ok json.is_object
        (record (made_request json public request_id messages) { session_id = session_id }) messages
        refl refl (normalize-nonempty messages z zs n)
        (map_err-ok validation (validate_tools json.is_object public.tools) tt t)
        (map_err-ok (λ x. validation (invalid_tool_history x))
          (validate_tool_history json.is_object messages public.tools) tt v))

-- A public request that the coordinator could convert is one that a worker does not refuse as a bad
-- request, and its normal form is itself, whichever session it is given.
pub normalize_request-try_from :
    {V : Type 0} (json : Json V) (public : ChatCompletionRequest V) (request_id : ℕ)
    (session_id : Option ℕ) (g : GenerateRequest V)
    → try_from json public request_id ≡ ok g
    → normalize_request json.is_object (record g { session_id = session_id })
      ≡ ok (record g { session_id = session_id })
normalize_request-try_from json public request_id session_id g h =
    let (m, ns, e, c) = try_from-convert json public request_id g public.messages refl h in
    convert-normal json public request_id session_id g m ns e c
