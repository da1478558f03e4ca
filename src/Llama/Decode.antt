-- ===== src/Llama/Decode.antt =====
-- crates/decompute-llama/src/runtime.rs: `generate` on one context, from the prompt to the last token.
-- `stops n` is what the cancellation token answers when it is asked for the n-th time, and
-- `callback sent piece` what the callback answers to a piece after those in `sent`.
pub mod Prompt
pub mod Rounds
pub mod Reference
pub mod Inferred
use decompute.Prelude.{
  ℕ, zero, suc, ◌+◌, ◌-◌, ◌%◌, ◌^◌, Bool, true, false, Text, List, [], ◌∷◌, ◌++◌, Option, none,
  some, ltb, leb, if◌then◌else◌, Result, ok, err, ◌>>=◌, ◌>>◌, map_err, is_empty, length,
}
use decompute.Prelude.Bytes.{drop}
use decompute.Llama.Engine.{Engine, Item}

-- What the source puts into an `anyhow::Error`; llama.cpp and the callback bring their own texts.
pub data GenerateError : Type 0 where
  cancelled empty_prompt position_overflow : GenerateError
  prompt_too_long : ℕ → ℕ → GenerateError
  native callback_failed : Text → GenerateError

unfoldable pub check_cancelled : (ℕ → Bool) → ℕ → Result (Unit {0}) GenerateError
check_cancelled stops asked = if stops asked then err cancelled else ok tt

unfoldable pub prompt_replay_start : ℕ → ℕ
prompt_replay_start prefix = prefix - 1

-- `as u32`, and `i32::try_from` of a `usize`.
abbrev pub as_u32 : ℕ → ℕ
as_u32 n = n % 2 ^ 32

unfoldable pub try_i32 : ℕ → Result ℕ GenerateError
try_i32 n = if ltb n (2 ^ 31) then ok n else err position_overflow

pub record GgufGenerationConfig (F : Type 0) : Type 0 where
  pub max_tokens : ℕ
  pub temperature : Option F

-- The variables of the loop, and the pieces that the callback has got.
pub record Loop (C B S D : Type 0) : Type 0 where
  pub context : C
  pub batch : B
  pub sampler : S
  pub decoder : D
  pub position : ℕ
  pub output : Text
  pub sent : List Text

-- How a round of the loop ends.
pub data Round : Type 0 where
  goes_on breaks : Round
  fails : GenerateError → Round

-- What is left when the loop is over.
pub record Generated (C : Type 0) : Type 0 where
  pub context : C
  pub output : Text
  pub position : ℕ

module _ {C B S D F : Type 0} (E : Engine C B S D F) where
  -- `batch.add` for sequence 1.
  unfoldable pub queue : B → ℕ → ℕ → Bool → Result B GenerateError
  unfolding try_i32
  queue batch token position wants_logits = do
    at ← try_i32 position
    map_err native (
        E.add batch
          (record { token = token; at = at; sequences = 1 ∷ []; wants_logits = wants_logits }))

  -- Queues the tokens from a position on, and asks for the logits of the last one.
  unfoldable pub add_prompt : ℕ → List ℕ → B → Result B GenerateError
  unfolding queue
  add_prompt position [] batch = ok batch
  add_prompt position (token ∷ tokens) batch = do
    queued ← queue batch token position (is_empty tokens)
    add_prompt (suc position) tokens queued

  -- Makes sequence 1 a copy of sequence 0, where that holds the first `prefix` tokens of the prompt,
  -- and takes the last of them off.
  unfoldable pub rewind : ℕ → C → Result C GenerateError
  unfolding prompt_replay_start
  rewind prefix context = do
    cleared ← map_err native (E.clear_kv_cache_seq context 1 none)
    copied ← if ltb 0 prefix then map_err native (E.copy_kv_cache_seq cleared 0 1) else ok cleared
    if ltb 0 prefix
        then map_err native (
            E.clear_kv_cache_seq copied 1
              (some (as_u32 (prompt_replay_start prefix), as_u32 prefix)))
        else ok copied

  -- Makes sequence 1 hold the prompt.
  unfoldable pub prefill : ℕ → ℕ → List ℕ → C → Result (C × B) GenerateError
  unfolding rewind add_prompt prompt_replay_start
  prefill maximum prefix tokens context = do
    rewound ← rewind prefix context
    let start = prompt_replay_start prefix
    batch ← add_prompt start (drop start tokens) (E.new_batch maximum)
    decoded ← map_err native (E.decode rewound batch)
    ok (decoded, batch)

  -- Keeps the prompt in sequence 2.
  unfoldable pub checkpoint : C → Result C GenerateError
  checkpoint context = do
    cleared ← map_err native (E.clear_kv_cache_seq context 2 none)
    map_err native (E.copy_kv_cache_seq cleared 1 2)

  unfoldable pub accept_many : S → List ℕ → S
  accept_many sampler [] = sampler
  accept_many sampler (token ∷ tokens) = accept_many (E.accept sampler token) tokens

  unfoldable pub choose_sampler : Option F → S
  choose_sampler none = E.greedy
  choose_sampler (some t) = if E.is_positive t then E.with_temperature t else E.greedy

  -- Decodes one generated token.
  unfoldable pub feed : B → ℕ → ℕ → C → Result (C × B) GenerateError
  unfolding queue
  feed batch token position context = do
    queued ← queue (E.clear_batch batch) token position true
    decoded ← map_err native (E.decode context queued)
    ok (decoded, queued)

  module _ (maximum : ℕ) (stops : ℕ → Bool)
      (callback : List Text → Text → Result (Unit {0}) Text) where
    abbrev pub fail : GenerateError → Loop C B S D → Loop C B S D × Round
    fail e l = (l, fails e)

    unfoldable pub deliver : Text → Loop C B S D → Loop C B S D × Result (Unit {0}) GenerateError
    deliver piece l = if is_empty piece then (l, ok tt) else (
      record l { sent = l.sent ++ piece ∷ [] },
      map_err callback_failed (callback l.sent piece),
    )

    -- The round after its token has been sent.
    unfoldable pub advance : ℕ → ℕ → Loop C B S D → Loop C B S D × Round
    unfolding feed check_cancelled
    advance asked token l = elim (check_cancelled stops asked) [
      | err e ↦ fail e l
      | ok _ ↦ elim (leb maximum l.position) [
        | true ↦ (l, breaks)
        | false ↦ elim (feed l.batch token l.position l.context) [
          | err e ↦ fail e l
          | ok (context, batch) ↦
              (record l { context = context; batch = batch; position = suc l.position }, goes_on)
        ]
      ]
    ]

    -- The round with its token accepted.
    unfoldable pub emit : ℕ → ℕ → Loop C B S D → Loop C B S D × Round
    unfolding deliver advance
    emit asked token l =
        let (decoder, decoded) = E.token_to_piece l.decoder token in
        elim decoded [
          | err e ↦ fail (native e) (record l { decoder = decoder })
          | ok piece ↦
              let (next, delivered) =
                deliver piece (record l { decoder = decoder; output = l.output ++ piece }) in
              elim delivered [ err e ↦ fail e next | ok _ ↦ advance asked token next ]
        ]

    -- One round, with the number of times that the token was asked before it.
    unfoldable pub step : ℕ → Loop C B S D → Loop C B S D × Round
    unfolding emit check_cancelled
    step asked l = elim (check_cancelled stops asked) [
      | err e ↦ fail e l
      | ok _ ↦
          let (sampler, token) = E.sample l.sampler l.context in
          if E.is_eog_token token
          then (record l { sampler = sampler }, breaks)
          else emit (suc asked) token (record l { sampler = E.accept sampler token })
    ]

    -- The loop of at most `max_tokens` rounds.
    unfoldable pub generate_tokens :
        ℕ → ℕ → Loop C B S D → Loop C B S D × Result (Unit {0}) GenerateError
    unfolding step
    generate_tokens zero asked l = (l, ok tt)
    generate_tokens (suc rounds) asked l =
        let (next, round) = step asked l in
        elim round [
          | fails e ↦ (next, err e)
          | breaks ↦ (next, ok tt)
          | goes_on ↦ generate_tokens rounds (suc (suc asked)) next
        ]

    -- From the chosen context to the prompt's checkpoint.
    unfoldable pub start_prompt : ℕ → List ℕ → C → Result (C × B) GenerateError
    unfolding prefill checkpoint check_cancelled
    start_prompt prefix tokens context = do
      (decoded, batch) ← prefill maximum prefix tokens context
      check_cancelled stops 1
      ready ← checkpoint decoded
      ok (ready, batch)

    abbrev pub first_loop : GgufGenerationConfig F → List ℕ → C → B → Loop C B S D
    first_loop config tokens ready batch = record {
      context = ready;
      batch = batch;
      sampler = accept_many (choose_sampler config.temperature) tokens;
      decoder = E.new_decoder;
      position = length tokens;
      output = [];
      sent = [];
    }

    -- The loop with what it leaves.
    unfoldable pub run_loop : ℕ → Loop C B S D → List Text × Result (Generated C) GenerateError
    unfolding generate_tokens
    run_loop max_tokens first =
        let (l, over) = generate_tokens max_tokens 2 first in
        elim over [
          | err e ↦ (l.sent, err e)
          | ok _ ↦ (
            l.sent,
            ok (record { context = l.context; output = l.output; position = l.position }),
          )
        ]

    -- From the context that was chosen to the end of the loop. The first answer is what the callback
    -- has got.
    unfoldable pub infer :
        GgufGenerationConfig F → ℕ → List ℕ → C → List Text × Result (Generated C) GenerateError
    unfolding start_prompt run_loop choose_sampler accept_many
    infer config prefix tokens context = elim (start_prompt prefix tokens context) [
      | err e ↦ ([], err e)
      | ok (ready, batch) ↦ run_loop config.max_tokens (first_loop config tokens ready batch)
    ]
