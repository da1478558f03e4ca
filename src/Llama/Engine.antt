-- ===== src/Llama/Engine.antt =====
-- The parts of llama.cpp that crates/decompute-llama/src/runtime.rs calls, which belong to another
-- crate, and what it relies on.
use decompute.Prelude.{
  ℕ, Bool, Text, List, [], ◌∷◌, ◌++◌, Option, none, some, Result, ok, length, ◌≡◌, ◌≢◌, suc,
  is_empty,
}
use decompute.Prelude.Bytes.{take}

-- One entry of a batch: a token with its position, its sequences and whether its logits are due.
pub record Item : Type 0 where
  pub token : ℕ
  pub at : ℕ
  pub sequences : List ℕ
  pub wants_logits : Bool

-- `C` is `LlamaContext`, `B` is `LlamaBatch`, `S` is `LlamaSampler`, `D` is the UTF-8 decoder and
-- `F` is `f32`. An error is its text.
pub record Engine (C B S D F : Type 0) : Type 0 where
  pub new_context : Result C Text
  pub clear_kv_cache_seq : C → ℕ → Option (ℕ × ℕ) → Result C Text
  pub copy_kv_cache_seq : C → ℕ → ℕ → Result C Text
  pub new_batch : ℕ → B
  pub clear_batch : B → B
  pub add : B → Item → Result B Text
  pub decode : C → B → Result C Text
  pub str_to_token : Text → Result (List ℕ) Text
  pub is_eog_token : ℕ → Bool
  pub token_to_piece : D → ℕ → D × Result Text Text
  pub new_decoder : D
  pub greedy : S
  pub with_temperature : F → S
  pub is_positive : F → Bool
  pub accept : S → ℕ → S
  pub sample : S → C → S × ℕ

-- The entries for tokens that sequence 1 gets from a position on; the last one asks for logits.
abbrev pub items_from : ℕ → List ℕ → List Item
items_from position [] = []
items_from position (token ∷ tokens) =
    record { token = token; at = position; sequences = 1 ∷ []; wants_logits = is_empty tokens }
    ∷ items_from (suc position) tokens

-- What llama.cpp documents, on three views: `sequence c i` is the tokens that sequence `i` of a
-- context holds, from position 0 on; `seen c` is the tokens up to the one whose logits the context
-- has, and `items b` is the entries of a batch. Calls may fail; a law says what a call that succeeds
-- has done.
module _ {C B S D F : Type 0} (E : Engine C B S D F) where
  pub record Laws : Type 0 where
    pub sequence : C → ℕ → List ℕ
    pub seen : C → List ℕ
    pub items : B → List Item
    -- A sequence is cleared as a whole, or from a position to its end.
    pub clear_whole :
        (c c' : C) (i : ℕ)
        → E.clear_kv_cache_seq c i none ≡ ok c'
        → (sequence c' i ≡ []) × (seen c' ≡ seen c)
    pub clear_end :
        (c c' : C) (i from : ℕ)
        → E.clear_kv_cache_seq c i (some (from, length (sequence c i))) ≡ ok c'
        → (sequence c' i ≡ take from (sequence c i)) × (seen c' ≡ seen c)
    pub clear_others :
        (c c' : C) (i j : ℕ) (range : Option (ℕ × ℕ))
        → E.clear_kv_cache_seq c i range ≡ ok c'
        → j ≢ i
        → sequence c' j ≡ sequence c j
    -- A copy onto an empty sequence; it brings no logits.
    pub copy :
        (c c' : C) (i j : ℕ)
        → E.copy_kv_cache_seq c i j ≡ ok c'
        → sequence c j ≡ []
        → (sequence c' j ≡ sequence c i) × (seen c' ≡ seen c)
    pub copy_others :
        (c c' : C) (i j k : ℕ)
        → E.copy_kv_cache_seq c i j ≡ ok c'
        → k ≢ j
        → sequence c' k ≡ sequence c k
    pub items-new_batch : (n : ℕ) → items (E.new_batch n) ≡ []
    pub items-clear_batch : (b : B) → items (E.clear_batch b) ≡ []
    pub items-add :
        (b b' : B) (item : Item) → E.add b item ≡ ok b' → items b' ≡ items b ++ item ∷ []
    -- Tokens for sequence 1, at the positions that follow what it holds.
    pub decode :
        (c c' : C) (b : B) (token : ℕ) (tokens : List ℕ)
        → E.decode c b ≡ ok c'
        → items b ≡ items_from (length (sequence c 1)) (token ∷ tokens)
        → (sequence c' 1 ≡ sequence c 1 ++ token ∷ tokens)
          × (seen c' ≡ sequence c 1 ++ token ∷ tokens)
    pub decode_others :
        (c c' : C) (b : B) (token j : ℕ) (tokens : List ℕ)
        → E.decode c b ≡ ok c'
        → items b ≡ items_from (length (sequence c 1)) (token ∷ tokens)
        → j ≢ 1
        → sequence c' j ≡ sequence c j
    -- What is sampled depends on the logits alone.
    pub sample_at : S → List ℕ → S × ℕ
    pub sample : (s : S) (c : C) → E.sample s c ≡ sample_at s (seen c)
