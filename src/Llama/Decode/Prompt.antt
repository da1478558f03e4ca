-- ===== src/Llama/Decode/Prompt.antt =====
-- What the prefill leaves in the sequences of a context.
use mathlib.Core.List.{append_assoc, append-nil}
use decompute.Prelude.{
  ℕ, zero, suc, Bool, true, ◌-◌, ◌<◌, ◌≤◌, ◌^◌, List, [], ◌∷◌, ◌++◌, none, some, length, ltb,
  is_empty, ◌≡◌, ◌≢◌, refl, sym, ap, ◌∙◌, arith, Result, ok, err, >>=-eq-ok, map_err,
}
use decompute.Prelude.Bytes.{take, drop, take-append-drop, length-take, take-take}
use decompute.Llama.Engine.{Engine, Item, items_from, Laws}
use decompute.Llama.Decode.{
  native, try_i32, add_prompt, rewind, prefill, queue, feed, prompt_replay_start, as_u32,
}

pub map_err-ok {ℓ} :
    {A X Y : Type ℓ} (f : X → Y) (r : Result A X) (a : A) → map_err f r ≡ ok a → r ≡ ok a
map_err-ok f (ok b) a h = ground arith
map_err-ok f (err x) a h = cc

module _ {C B S D F : Type 0} (E : Engine C B S D F) (L : Laws E) where
  queue-items :
      (b b' : B) (token position : ℕ) (last : Bool)
      → queue E b token position last ≡ ok b'
      → L.items b'
        ≡ L.items b
          ++ record { token = token; at = position; sequences = 1 ∷ []; wants_logits = last } ∷ []
  unfolding queue try_i32
  queue-items b b' token position last h =
      let added : E.add b
            (record { token = token; at = position; sequences = 1 ∷ []; wants_logits = last })
          ≡ ok b' =
        ground arith in
      L.items-add b b' _ added

  add_prompt-items :
      (position : ℕ) (tokens : List ℕ) (b b' : B)
      → add_prompt E position tokens b ≡ ok b'
      → L.items b' ≡ L.items b ++ items_from position tokens
  unfolding add_prompt
  add_prompt-items position [] b b' h = ground (arith, append-nil (L.items b))
  add_prompt-items position (token ∷ tokens) b b' h =
      let (queued, q, h') = >>=-eq-ok (queue E b token position (is_empty tokens)) _ h in
      let item : Item = record {
        token = token;
        at = position;
        sequences = 1 ∷ [];
        wants_logits = is_empty tokens;
      } in
      add_prompt-items (suc position) tokens queued b' h'
      ∙ ap (λ x. x ++ items_from (suc position) tokens)
          (queue-items b queued token position (is_empty tokens) q)
      ∙ append_assoc (L.items b) (item ∷ []) (items_from (suc position) tokens)

  -- What decoding the tokens of a queued batch gives.
  pub record Decoded (c c' : C) (tokens : List ℕ) : Type 0 where
    pub held : L.sequence c' 1 ≡ tokens
    pub seen : L.seen c' ≡ tokens
    pub others : (j : ℕ) → j ≢ 1 → L.sequence c' j ≡ L.sequence c j

  decode-Decoded :
      (c c' : C) (b : B) (token : ℕ) (tokens all : List ℕ)
      → E.decode c b ≡ ok c'
      → L.items b ≡ items_from (length (L.sequence c 1)) (token ∷ tokens)
      → L.sequence c 1 ++ token ∷ tokens ≡ all
      → Decoded c c' all
  decode-Decoded c c' b token tokens all h q e = record {
    held = (L.decode c c' b token tokens h q).0 ∙ e;
    seen = (L.decode c c' b token tokens h q).1 ∙ e;
    others = λ j ne. L.decode_others c c' b token j tokens h q ne;
  }

  pub feed-Decoded :
      (c c' : C) (b b' : B) (token position : ℕ)
      → feed E b token position c ≡ ok (c', b')
      → position ≡ length (L.sequence c 1)
      → Decoded c c' (L.sequence c 1 ++ token ∷ [])
  unfolding feed
  feed-Decoded c c' b b' token position h e =
      let (queued, q, h') = >>=-eq-ok (queue E (E.clear_batch b) token position true) _ h in
      let decoded : E.decode c queued ≡ ok c' = ground arith in
      let items : L.items queued ≡ items_from (length (L.sequence c 1)) (token ∷ []) = ground (
        arith,
        queue-items (E.clear_batch b) queued token position true q,
        L.items-clear_batch b,
      ) in
      decode-Decoded c c' queued token [] _ decoded items refl

  -- Sequence 1 before the prompt is queued: the cached tokens without the last one.
  record Rewound (c c' : C) (prefix : ℕ) (tokens : List ℕ) : Type 0 where
    held : L.sequence c' 1 ≡ take (prompt_replay_start prefix) tokens
    others : (j : ℕ) → j ≢ 1 → L.sequence c' j ≡ L.sequence c j

  -- The three calls for a cached prefix of `n + 1` tokens.
  replay-Rewound :
      (c c1 c2 c' : C) (n : ℕ) (tokens : List ℕ)
      → E.clear_kv_cache_seq c 1 none ≡ ok c1
      → E.copy_kv_cache_seq c1 0 1 ≡ ok c2
      → E.clear_kv_cache_seq c2 1 (some (as_u32 (suc n - 1), as_u32 (suc n))) ≡ ok c'
      → L.sequence c 0 ≡ take (suc n) tokens
      → suc n ≤ length tokens
      → suc n < 2 ^ 32
      → Rewound c c' (suc n) tokens
  unfolding prompt_replay_start
  replay-Rewound c c1 c2 c' n tokens cleared copied cut cached fits small =
      let whole : L.sequence c2 1 ≡ take (suc n) tokens =
        (L.copy c1 c2 0 1 copied (L.clear_whole c c1 1 cleared).0).0
        ∙ L.clear_others c c1 1 0 none cleared (ground arith)
        ∙ cached in
      let last : suc n - 1 ≡ n = omega arith in
      let from : as_u32 (suc n - 1) ≡ n = omega arith in
      let to : as_u32 (suc n) ≡ length (L.sequence c2 1) =
        omega (arith, length-take (suc n) tokens fits, ap length whole) in
      let cut' : E.clear_kv_cache_seq c2 1 (some (n, length (L.sequence c2 1))) ≡ ok c' =
        rw (from, to) at cut in
      record {
        held =
            (L.clear_end c2 c' 1 n cut').0
            ∙ ap (take n) whole
            ∙ take-take n (suc n) tokens (omega arith)
            ∙ ap (λ k. take k tokens) (sym last);
        others = λ j ne.
            L.clear_others c2 c' 1 j (some (n, length (L.sequence c2 1))) cut' ne
            ∙ L.copy_others c1 c2 0 1 j copied ne
            ∙ L.clear_others c c1 1 j none cleared ne;
      }

  rewind-Rewound :
      (c c' : C) (prefix : ℕ) (tokens : List ℕ)
      → rewind E prefix c ≡ ok c'
      → (0 < prefix → L.sequence c 0 ≡ take prefix tokens)
      → prefix ≤ length tokens
      → prefix < 2 ^ 32
      → Rewound c c' prefix tokens
  unfolding rewind prompt_replay_start
  rewind-Rewound c c' zero tokens h cached fits small =
      let cleared : E.clear_kv_cache_seq c 1 none ≡ ok c' = ground arith in
      record {
        held = (L.clear_whole c c' 1 cleared).0;
        others = λ j ne. L.clear_others c c' 1 j none cleared ne;
      }
  rewind-Rewound c c' (suc n) tokens h cached fits small =
      let on : ltb 0 (suc n) ≡ true = ground arith in
      let (c1, e1, h1) =
        >>=-eq-ok (map_err native (E.clear_kv_cache_seq c 1 none)) _ (rw on at h) in
      let (c2, e2, h2) = >>=-eq-ok (map_err native (E.copy_kv_cache_seq c1 0 1)) _ h1 in
      replay-Rewound c c1 c2 c' n tokens (map_err-ok native _ c1 e1) (map_err-ok native _ c2 e2)
        (map_err-ok native _ c' h2) (cached (omega arith)) fits small

  -- There is always a token to replay.
  drop-cons :
      (start : ℕ) (tokens : List ℕ)
      → start < length tokens
      → (token : ℕ) × (rest : List ℕ) × (drop start tokens ≡ token ∷ rest)
  drop-cons start [] less = absurd (omega arith)
  drop-cons zero (token ∷ rest) less = (token, rest, refl)
  drop-cons (suc n) (t ∷ tokens) less = drop-cons n tokens (omega arith)

  pub prefill-Decoded :
      (maximum prefix : ℕ) (c c' : C) (b : B) (tokens : List ℕ)
      → prefill E maximum prefix tokens c ≡ ok (c', b)
      → (0 < prefix → L.sequence c 0 ≡ take prefix tokens)
      → prefix ≤ length tokens
      → prefix < 2 ^ 32
      → 0 < length tokens
      → Decoded c c' tokens
  unfolding prefill prompt_replay_start
  prefill-Decoded maximum prefix c c' b tokens h cached fits small more =
      let (c1, e1, h1) = >>=-eq-ok (rewind E prefix c) _ h in
      let start = prefix - 1 in
      let (b1, e2, h2) =
        >>=-eq-ok (add_prompt E start (drop start tokens) (E.new_batch maximum)) _ h1 in
      let r = rewind-Rewound c c1 prefix tokens e1 cached fits small in
      let decoded : E.decode c1 b1 ≡ ok c' = ground arith in
      let (token, rest, left) = drop-cons start tokens (omega arith) in
      let at : length (L.sequence c1 1) ≡ start =
        ap length r.held ∙ length-take start tokens (omega arith) in
      let items : L.items b1 ≡ items_from (length (L.sequence c1 1)) (token ∷ rest) =
        add_prompt-items start (drop start tokens) (E.new_batch maximum) b1 e2
        ∙ rw (L.items-new_batch maximum, at, left) refl in
      let whole : L.sequence c1 1 ++ token ∷ rest ≡ tokens =
        rw (r.held, sym left) (take-append-drop start tokens) in
      let d = decode-Decoded c1 c' b1 token rest tokens decoded items whole in
      record { held = d.held; seen = d.seen; others = λ j ne. d.others j ne ∙ r.others j ne }
