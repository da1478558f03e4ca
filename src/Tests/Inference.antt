-- ===== src/Tests/Inference.antt =====
-- A runtime that decodes into lists, a model with one cached session, and a chat about the weather.
use decompute.Prelude.{
  ℕ, suc, Bool, true, false, Text, text_eq, ℕ_discrete, List, [], ◌∷◌, ◌++◌, map, Option, none,
  some, ◌≡◌, ◌≢◌, refl, ap, ◌∙◌, arith, Result, ok, nat_eq, ◌==◌, ltb, if◌then◌else◌, length, inr,
}
use decompute.Prelude.Map.{get, values, Distinct}
use decompute.Prelude.Bytes.{take, position, starts_with}
use decompute.Core.Cache.{default_config, default_stats}
use decompute.Llama.Engine.{Engine, Item, Laws, items_from}
use decompute.Llama.Session.{GgufModel, SessionCacheEntry}
use decompute.Llama.Session.{total_bytes, make_room, expire_idle}
use decompute.Llama.Session.Evicted.{MadeRoom, make_room-MadeRoom}
use decompute.Llama.Decode.{GgufGenerationConfig}
use decompute.Llama.Generate.{generate, commit, checkout, publish}
use decompute.Llama.Generate.Between.{
  Access, publishes, takes, invalidates, expires, access, accesses,
}
use decompute.Llama.Generate.Reuse.{checkout-publish}
use decompute.Llama.Generate.Plain.{IsCommitted, IsPlain, generate-IsPlain}
use decompute.Llama.Generate.Sound.{IsSound}
use decompute.Llama.Generate.Kept.{generate-IsSound}

-- The sequences of a context, and the tokens whose logits it has.
pub record Sim : Type 0 where
  pub sequence : ℕ → List ℕ
  pub seen : List ℕ

abbrev set : ℕ → List ℕ → (ℕ → List ℕ) → ℕ → List ℕ
set i tokens sequence j = if j == i then tokens else sequence j

abbrev tokens_of : List Item → List ℕ
tokens_of [] = []
tokens_of (item ∷ items) = item.token ∷ tokens_of items

abbrev clear_sim : Sim → ℕ → Option (ℕ × ℕ) → Result Sim Text
clear_sim c i none = ok (record c { sequence = set i [] c.sequence })
clear_sim c i (some (from, to)) =
    ok (record c { sequence = set i (take from (c.sequence i)) c.sequence })

abbrev decode_sim : Sim → List Item → Result Sim Text
decode_sim c b = ok (record {
  sequence = set 1 (c.sequence 1 ++ tokens_of b) c.sequence;
  seen = c.sequence 1 ++ tokens_of b;
})

-- `next` says which token follows a text, and `ends` which token ends it.
abbrev pub sim_with :
    (List ℕ → ℕ) → (ℕ → Bool) → Engine Sim (List Item) (Unit {0}) (Unit {0}) (Unit {0})
sim_with next ends = record {
  new_context = ok (record { sequence = λ _. []; seen = [] });
  clear_kv_cache_seq = clear_sim;
  copy_kv_cache_seq = λ c i j. ok (record c { sequence = set j (c.sequence i) c.sequence });
  new_batch = λ n. [];
  clear_batch = λ b. [];
  add = λ b item. ok (b ++ item ∷ []);
  decode = decode_sim;
  str_to_token = λ t. ok t;
  is_eog_token = ends;
  token_to_piece = λ d t. (d, ok (t ∷ []));
  new_decoder = tt;
  greedy = tt;
  with_temperature = λ f. tt;
  is_positive = λ f. false;
  accept = λ s t. s;
  sample = λ s c. (s, next c.seen);
}

-- Samples the length of the text so far, up to 7.
abbrev sim : Engine Sim (List Item) (Unit {0}) (Unit {0}) (Unit {0})
sim = sim_with length (λ t. ltb 7 t)

tokens_of-items_from :
    (position : ℕ) (tokens : List ℕ) → tokens_of (items_from position tokens) ≡ tokens
tokens_of-items_from position [] = refl
tokens_of-items_from position (t ∷ tokens) = ap (◌∷◌ t) (tokens_of-items_from (suc position) tokens)

set_same : (i : ℕ) (tokens : List ℕ) (sequence : ℕ → List ℕ) → set i tokens sequence i ≡ tokens
set_same i tokens sequence = ground arith

set_other :
    (i j : ℕ) (tokens : List ℕ) (sequence : ℕ → List ℕ)
    → j ≢ i
    → set i tokens sequence j ≡ sequence j
set_other i j tokens sequence ne = ground arith

abbrev success : {A : Type 0} → A → Result A Text
success a = ok a

pub ok_inj : {A : Type 0} (a b : A) → success a ≡ ok b → b ≡ a
ok_inj a b h = ground arith

-- A call that writes one sequence.
pub writes :
    (c' : Sim) (i : ℕ) (tokens seen : List ℕ) (sequence : ℕ → List ℕ)
    → success (record { sequence = set i tokens sequence; seen = seen }) ≡ ok c'
    → (c'.sequence i ≡ tokens) × (c'.seen ≡ seen) × ((j : ℕ) → j ≢ i → c'.sequence j ≡ sequence j)
writes c' i tokens seen sequence h =
    let same = ok_inj (record { sequence = set i tokens sequence; seen = seen }) c' h in
    (
      ap (λ x. x.sequence i) same ∙ set_same i tokens sequence,
      ap (λ x. x.seen) same,
      λ j ne. ap (λ x. x.sequence j) same ∙ set_other i j tokens sequence ne,
    )

pub clear_others :
    (c c' : Sim) (i j : ℕ) (range : Option (ℕ × ℕ))
    → clear_sim c i range ≡ ok c'
    → j ≢ i
    → c'.sequence j ≡ c.sequence j
clear_others c c' i j none h ne = (writes c' i [] c.seen c.sequence h).2 j ne
clear_others c c' i j (some (from, to)) h ne =
    (writes c' i (take from (c.sequence i)) c.seen c.sequence h).2 j ne

pub decode_lem :
    (c c' : Sim) (b : List Item) (token : ℕ) (tokens : List ℕ)
    → decode_sim c b ≡ ok c'
    → b ≡ items_from (length (c.sequence 1)) (token ∷ tokens)
    → (c'.sequence 1 ≡ c.sequence 1 ++ token ∷ tokens)
      × (c'.seen ≡ c.sequence 1 ++ token ∷ tokens)
      × ((j : ℕ) → j ≢ 1 → c'.sequence j ≡ c.sequence j)
decode_lem c c' b token tokens h e =
    let added : tokens_of b ≡ token ∷ tokens =
      ap tokens_of e ∙ tokens_of-items_from (length (c.sequence 1)) (token ∷ tokens) in
    let w = writes c' 1 (c.sequence 1 ++ tokens_of b) (c.sequence 1 ++ tokens_of b) c.sequence h in
    let whole = ap (λ x. c.sequence 1 ++ x) added in (w.0 ∙ whole, w.1 ∙ whole, w.2)

-- The laws hold of it.
abbrev pub sim_with-Laws : (next : List ℕ → ℕ) (ends : ℕ → Bool) → Laws (sim_with next ends)
sim_with-Laws next ends = record {
  sequence = λ c. c.sequence;
  seen = λ c. c.seen;
  items = λ b. b;
  clear_whole = λ c c' i h. let w = writes c' i [] c.seen c.sequence h in (w.0, w.1);
  clear_end = λ c c' i from h.
      let w = writes c' i (take from (c.sequence i)) c.seen c.sequence h in (w.0, w.1);
  clear_others = clear_others;
  copy = λ c c' i j h empty. let w = writes c' j (c.sequence i) c.seen c.sequence h in (w.0, w.1);
  copy_others = λ c c' i j k h ne. (writes c' j (c.sequence i) c.seen c.sequence h).2 k ne;
  items-new_batch = λ n. refl;
  items-clear_batch = λ b. refl;
  items-add = λ b b' item h. ok_inj (b ++ item ∷ []) b' h;
  decode = λ c c' b token tokens h e. let w = decode_lem c c' b token tokens h e in (w.0, w.1);
  decode_others = λ c c' b token j tokens h e ne. (decode_lem c c' b token tokens h e).2 j ne;
  sample_at = λ s history. (s, next history);
  sample = λ s c. refl;
}

abbrev sim-Laws : Laws sim
sim-Laws = sim_with-Laws length (λ t. ltb 7 t)

-- Session 7 has the first three tokens of the prompt; it was used at 10.
abbrev cached : SessionCacheEntry Sim
cached = record {
  context = record { sequence = set 0 (1 ∷ 2 ∷ 3 ∷ []) (λ _. []); seen = [] };
  tokens = 1 ∷ 2 ∷ 3 ∷ [];
  estimated_bytes = 8;
  last_used = 10;
}

abbrev pub loaded : GgufModel Sim
loaded = record {
  shape = record { n_embd = some 1; n_layer = some 1; n_head = some 1; n_head_kv = some 1 };
  context_tokens = 64;
  qwen_tool_calls = true;
  session_cache_config = record default_config { min_tokens = 2; max_entries = 2 };
  session_cache_stats = some default_stats;
  session_cache = (7, cached) ∷ [];
}

-- A full cache, and an empty one.
abbrev full : GgufModel Sim
full = record loaded { session_cache = (7, cached) ∷ (9, record cached { last_used = 15 }) ∷ [] }

abbrev nothing_cached : GgufModel Sim
nothing_cached = record loaded { session_cache = [] }

abbrev pub few : GgufGenerationConfig (Unit {0})
few = record { max_tokens = 16; temperature = none }

abbrev pub never : ℕ → Bool
never n = false

abbrev pub takes_all : List Text → Text → Result (Unit {0}) Text
takes_all sent piece = ok tt

loaded-Distinct : Distinct loaded.session_cache
unfolding get
loaded-Distinct = (refl, tt)

full-Distinct : Distinct full.session_cache
unfolding get ℕ_discrete
full-Distinct = (refl, (refl, tt))

pub loaded-IsCommitted :
    (next : List ℕ → ℕ) (ends : ℕ → Bool)
    → IsCommitted (sim_with next ends) (sim_with-Laws next ends) loaded
unfolding get
loaded-IsCommitted next ends id entry h = ground arith

loaded-IsSound : IsSound sim sim-Laws loaded
unfolding total_bytes values
loaded-IsSound = record {
  distinct = loaded-Distinct;
  within = omega arith;
  budget = λ h. omega arith;
  committed = loaded-IsCommitted length (λ t. ltb 7 t);
}

generate-IsPlain_example :
    IsPlain sim sim-Laws {V = Bool} 64 few
      (1 ∷ 2 ∷ 3 ∷ 4 ∷ [])
      (generate sim 20 never takes_all few loaded (some 7) (1 ∷ 2 ∷ 3 ∷ 4 ∷ []))
generate-IsPlain_example =
    generate-IsPlain sim sim-Laws 20 never takes_all few loaded (some 7) (1 ∷ 2 ∷ 3 ∷ 4 ∷ [])
      (1 ∷ 2 ∷ 3 ∷ 4 ∷ []) loaded-Distinct (loaded-IsCommitted length (λ t. ltb 7 t)) (omega arith)
      refl

generate-IsSound_example :
    IsSound sim sim-Laws
      (generate sim {V = Bool} 20 never takes_all few loaded (some 7) (1 ∷ 2 ∷ 3 ∷ 4 ∷ [])).model
generate-IsSound_example =
    generate-IsSound sim sim-Laws Bool 20 never takes_all few loaded (some 7) (1 ∷ 2 ∷ 3 ∷ 4 ∷ [])
      loaded-IsSound (omega arith)

-- The cached session is reused, and its tokens become those of the prompt.
reuse_runs :
    (generate sim {V = Bool} 20 never takes_all few loaded (some 7) (1 ∷ 2 ∷ 3 ∷ 4 ∷ [])).sent
    ≡ (4 ∷ []) ∷ (5 ∷ []) ∷ (6 ∷ []) ∷ (7 ∷ []) ∷ []
unfolding generate ℕ_discrete
reuse_runs = refl

make_room-MadeRoom_example : MadeRoom 8 full (make_room 8 full)
make_room-MadeRoom_example =
    make_room-MadeRoom 8 full full-Distinct
      (record { entries = omega arith; bytes = λ h. omega arith })

-- The older of the two sessions goes.
make_room_runs : map (λ x. x.0) (make_room 8 full).session_cache ≡ 9 ∷ []
unfolding make_room ℕ_discrete
make_room_runs = refl

-- The context that an inference on the prompt leaves.
abbrev inferred : Sim
inferred = record { sequence = set 2 (1 ∷ 2 ∷ 3 ∷ 4 ∷ []) (λ _. []); seen = [] }

-- Another session comes between.
abbrev between : List (Access Sim)
between =
    expires 500 ∷ publishes 600 9 (5 ∷ []) inferred ∷ takes 9 (5 ∷ 6 ∷ []) ∷ invalidates 9 ∷ []

checkout-publish_example :
    (committed : Sim) × (commit sim inferred ≡ ok committed)
    × ((checkout sim
          (expire_idle 1000 (
            accesses sim
              (publish sim 20 nothing_cached (some 7) (1 ∷ 2 ∷ 3 ∷ 4 ∷ []) inferred).0
              between))
          (some 7)
          (1 ∷ 2 ∷ 3 ∷ 4 ∷ 5 ∷ [])).1
        ≡ ok (record { context = committed; prefix = 4 }))
unfolding publish starts_with expire_idle access ℕ_discrete
checkout-publish_example =
    checkout-publish sim 20 1000 7 nothing_cached (1 ∷ 2 ∷ 3 ∷ 4 ∷ []) (1 ∷ 2 ∷ 3 ∷ 4 ∷ 5 ∷ [])
      inferred between tt (omega arith) refl
      (
        omega arith,
        (
          (λ e. omega (arith, e), record { entries = omega arith; bytes = λ h b. omega arith }),
          (λ e. omega (arith, e), (λ e. omega (arith, e), tt)),
        ),
      )
      (inr (omega arith)) refl
