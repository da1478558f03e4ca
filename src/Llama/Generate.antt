-- ===== src/Llama/Generate.antt =====
-- crates/decompute-llama/src/runtime.rs: `generate`, with the session cache around one inference.
pub mod Plain
pub mod Sound
pub mod Kept
pub mod Between
pub mod Reuse
use decompute.Prelude.{
  ℕ, ◌+◌, ◌-◌, Bool, true, false, not, ◌&&◌, Text, List, [], ◌∷◌, Option, none, some, nat_eq, ltb,
  leb, if◌then◌else◌, Result, ok, err, ◌>>=◌, ◌>>◌, map_err, is_empty, is_some, length,
}
use decompute.Prelude.Bytes.{starts_with}
use decompute.Prelude.Map.{get, insert, remove}
use decompute.Core.Chat.{ToolCall, FinishReason, stop}
use decompute.Core.Cache.{SessionCacheConfig}
use decompute.Llama.Engine.{Engine}
use decompute.Llama.Session.{
  GgufModel, SessionCacheEntry, cache_hit, cache_miss, drop_guard, expire_idle,
  estimated_cache_bytes, make_room,
}
use decompute.Llama.Decode.{
  GenerateError, empty_prompt, prompt_too_long, native, check_cancelled, GgufGenerationConfig,
  Generated, infer,
}

pub record GgufGenerationResult (V : Type 0) : Type 0 where
  pub text : Text
  pub input_tokens : ℕ
  pub output_tokens : ℕ
  pub tool_calls : List (ToolCall V)
  pub finish_reason : FinishReason

-- What a call leaves: the model, the pieces that the callback has got, and the result.
pub record Outcome (C R : Type 0) : Type 0 where
  pub model : GgufModel C
  pub sent : List Text
  pub result : R

-- A context with the number of tokens of the prompt that its sequence 0 holds.
pub record Checkout (C : Type 0) : Type 0 where
  pub context : C
  pub prefix : ℕ

abbrev pub cache_enabled : Option ℕ → SessionCacheConfig → Bool
cache_enabled session_id config = is_some session_id && ltb 0 config.max_entries

abbrev pub prompt_is_cacheable : Option ℕ → SessionCacheConfig → List ℕ → Bool
prompt_is_cacheable session_id config tokens =
    cache_enabled session_id config && leb config.min_tokens (length tokens)

-- `session_id.filter(|_| prompt_is_cacheable)`.
unfoldable pub cached_session : {C : Type 0} → GgufModel C → Option ℕ → List ℕ → Option ℕ
cached_session model session_id tokens =
    if prompt_is_cacheable session_id model.session_cache_config tokens then session_id else none

module _ {C B S D F : Type 0} (E : Engine C B S D F) where
  -- The first misses that are counted: without a cache, and for a short prompt.
  unfoldable pub count_bypass : GgufModel C → Option ℕ → List ℕ → GgufModel C
  count_bypass model session_id tokens =
      if not (cache_enabled session_id model.session_cache_config)
      then cache_miss model
      else if not (prompt_is_cacheable session_id model.session_cache_config tokens)
      then cache_miss model
      else model

  -- The tokens of the prompt.
  unfoldable pub tokenize : (ℕ → Bool) → Text → Result (List ℕ) GenerateError
  unfolding check_cancelled
  tokenize stops prompt = do
    check_cancelled stops 0
    tokens ← map_err native (E.str_to_token prompt)
    if is_empty tokens then err empty_prompt else ok tokens

  unfoldable pub fresh_context : Result (Checkout C) GenerateError
  fresh_context = do
    context ← map_err native E.new_context
    ok (record { context = context; prefix = 0 })

  -- Takes the session's context out of the cache where its tokens begin the prompt.
  unfoldable pub checkout :
      GgufModel C → Option ℕ → List ℕ → GgufModel C × Result (Checkout C) GenerateError
  unfolding fresh_context starts_with get remove
  checkout model none tokens = (model, fresh_context)
  checkout model (some id) tokens = elim (get id model.session_cache) [
    | none ↦ (cache_miss model, fresh_context)
    | some entry ↦
        let taken = record model { session_cache = remove id model.session_cache } in
        if starts_with entry.tokens tokens
        then (
          cache_hit taken,
          ok (record { context = entry.context; prefix = length entry.tokens }),
        )
        else (cache_miss taken, fresh_context)
  ]

  -- Sequence 2 becomes sequence 0.
  unfoldable pub commit : C → Result C GenerateError
  commit context = do
    cleared ← map_err native (E.clear_kv_cache_seq context 0 none)
    map_err native (E.copy_kv_cache_seq cleared 2 0)

  abbrev pub exceeds_budget : GgufModel C → Bool
  exceeds_budget model =
      ltb 0 model.session_cache_config.max_bytes
      && ltb model.session_cache_config.max_bytes (estimated_cache_bytes model)

  -- Puts the session back after the loop. The answer is whether the reuse was committed.
  unfoldable pub publish :
      ℕ → GgufModel C → Option ℕ → List ℕ → C → GgufModel C × Result Bool GenerateError
  unfolding commit make_room insert estimated_cache_bytes
  publish now model none tokens context = (model, ok false)
  publish now model (some id) tokens context =
      if exceeds_budget model
      then (model, ok false)
      else let roomy = make_room (estimated_cache_bytes model) model in
        elim (commit context) [
          | err e ↦ (roomy, err e)
          | ok committed ↦ (
            record roomy {
              session_cache =
                  insert id
                    (record {
                      context = committed;
                      tokens = tokens;
                      estimated_bytes = estimated_cache_bytes model;
                      last_used = now;
                    })
                    roomy.session_cache;
            },
            ok true,
          )
        ]

  module _ {V : Type 0} where
    abbrev pub finished : List ℕ → Generated C → GgufGenerationResult V
    finished tokens g = record {
      text = g.output;
      input_tokens = length tokens;
      output_tokens = g.position - length tokens;
      tool_calls = [];
      finish_reason = stop;
    }

    -- The end of `generate`, where the guard is dropped.
    unfoldable pub conclude :
        ℕ
        → GgufModel C
        → Option ℕ
        → List ℕ
        → Bool
        → List Text
        → Generated C
        → Outcome C (Result (GgufGenerationResult V) GenerateError)
    unfolding publish drop_guard
    conclude now model session tokens reused sent g =
        let (left, published) = publish now model session tokens g.context in
        elim published [
          | err e ↦ record { model = drop_guard reused false left; sent = sent; result = err e }
          | ok committed ↦ record {
            model = drop_guard reused committed left;
            sent = sent;
            result = ok (finished tokens g);
          }
        ]

    -- `generate` once the prompt has its tokens.
    unfoldable pub generate_from :
        ℕ
        → (ℕ → Bool)
        → (List Text → Text → Result (Unit {0}) Text)
        → GgufGenerationConfig F
        → GgufModel C
        → Option ℕ
        → List ℕ
        → Outcome C (Result (GgufGenerationResult V) GenerateError)
    unfolding cached_session checkout infer conclude expire_idle
    generate_from now stops callback config model session_id tokens =
        let session = cached_session model session_id tokens in
        let (taken, found) = checkout (expire_idle now model) session tokens in
        elim found [
          | err e ↦ record { model = taken; sent = []; result = err e }
          | ok c ↦
              let (sent, generated) =
                infer E model.context_tokens stops callback config c.prefix tokens c.context in
              elim generated [
                | err e ↦ record {
                  model = drop_guard (ltb 0 c.prefix) false taken;
                  sent = sent;
                  result = err e;
                }
                | ok g ↦ conclude now taken session tokens (ltb 0 c.prefix) sent g
              ]
        ]

    -- `now` is read once.
    unfoldable pub generate :
        ℕ
        → (ℕ → Bool)
        → (List Text → Text → Result (Unit {0}) Text)
        → GgufGenerationConfig F
        → GgufModel C
        → Option ℕ
        → Text
        → Outcome C (Result (GgufGenerationResult V) GenerateError)
    unfolding tokenize count_bypass generate_from
    generate now stops callback config model session_id prompt = elim (tokenize stops prompt) [
      | err e ↦ record { model = model; sent = []; result = err e }
      | ok tokens ↦
          let counted = count_bypass model session_id tokens in
          if leb model.context_tokens (length tokens)
          then record {
            model = counted;
            sent = [];
            result = err (prompt_too_long (length tokens) model.context_tokens);
          }
          else generate_from now stops callback config counted session_id tokens
    ]
