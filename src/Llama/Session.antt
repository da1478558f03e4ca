-- ===== src/Llama/Session.antt =====
-- crates/decompute-llama/src/runtime.rs: the loaded model with its session cache. `C` is the type of
-- llama.cpp's contexts. A context that leaves the cache is dropped, so that clearing it first has no
-- effect here.
pub mod Room
pub mod Evicted
use decompute.Prelude.{
  ℕ, zero, suc, ◌+◌, ◌-◌, ◌*◌, ◌/◌, ◌^◌, min, Bool, true, false, not, ◌&&◌, ◌||◌, List, [], ◌∷◌,
  Option, none, some, nat_eq, ltb, leb, ◌==◌, if◌then◌else◌, length,
}
use mathlib.Core.Option
use decompute.Prelude.Map.{get, remove, retain, values}
use decompute.Prelude.MinBy.{min_by}
use decompute.Core.Cache.{
  SessionCacheConfig, SessionCacheStats, idle_ttl, increment_hits, increment_misses,
  increment_evictions, increment_expirations, increment_invalidations,
}

pub record SessionCacheEntry (C : Type 0) : Type 0 where
  pub context : C
  pub tokens : List ℕ
  pub estimated_bytes : ℕ
  pub last_used : ℕ

-- The numbers that the loaded file gives, each where it is a `usize`.
pub record Shape : Type 0 where
  pub n_embd : Option ℕ
  pub n_layer : Option ℕ
  pub n_head : Option ℕ
  pub n_head_kv : Option ℕ

pub record GgufModel (C : Type 0) : Type 0 where
  pub shape : Shape
  pub context_tokens : ℕ
  pub qwen_tool_calls : Bool
  pub session_cache_config : SessionCacheConfig
  pub session_cache_stats : Option SessionCacheStats
  pub session_cache : List (ℕ × SessionCacheEntry C)

-- The largest `usize`, `saturating_mul` and `saturating_add`.
abbrev pub usize_max : ℕ
usize_max = 2 ^ 64 - 1

abbrev pub saturating_mul : ℕ → ℕ → ℕ
saturating_mul a b = min usize_max (a * b)

abbrev pub saturating_add : ℕ → ℕ → ℕ
saturating_add a b = min usize_max (a + b)

abbrev pub or_zero : Option ℕ → ℕ
or_zero none = 0
or_zero (some n) = n

abbrev pub head_width : ℕ → ℕ → ℕ
head_width embedding heads = if heads == 0 then embedding else embedding / heads

abbrev pub kv_width : ℕ → ℕ → ℕ → ℕ
kv_width embedding kv_heads width =
    let product = kv_heads * width in
    if ltb usize_max product || product == 0 then embedding else product

unfoldable pub shape_bytes : Shape → ℕ → ℕ
shape_bytes shape context_tokens =
    let embedding = or_zero shape.n_embd in
    let width =
      kv_width embedding (or_zero shape.n_head_kv) (head_width embedding (or_zero shape.n_head)) in
    saturating_mul
      (saturating_mul (saturating_mul (saturating_mul context_tokens (or_zero shape.n_layer)) width)
        2)
      4

module _ {C : Type 0} where
  unfoldable pub estimated_cache_bytes : GgufModel C → ℕ
  unfolding shape_bytes
  estimated_cache_bytes model = shape_bytes model.shape model.context_tokens

  abbrev pub count : (SessionCacheStats → SessionCacheStats) → GgufModel C → GgufModel C
  count increment model = record model {
    session_cache_stats = Option.map increment model.session_cache_stats;
  }

  abbrev pub cache_hit : GgufModel C → GgufModel C
  cache_hit = count increment_hits

  abbrev pub cache_miss : GgufModel C → GgufModel C
  cache_miss = count increment_misses

  abbrev pub cache_eviction : GgufModel C → GgufModel C
  cache_eviction = count increment_evictions

  abbrev pub cache_invalidation : GgufModel C → GgufModel C
  cache_invalidation = count increment_invalidations

  -- The end of a `CacheReuseGuard` that was made with `reused`.
  unfoldable pub drop_guard : Bool → Bool → GgufModel C → GgufModel C
  drop_guard reused committed model =
      if reused && not committed then cache_invalidation model else model

  unfoldable pub invalidate_session : Option ℕ → GgufModel C → GgufModel C
  invalidate_session none model = model
  invalidate_session (some session_id) model = elim (get session_id model.session_cache) [
    | none ↦ model
    | some entry ↦
        cache_invalidation (record model { session_cache = remove session_id model.session_cache })
  ]

  -- `duration_since` stops at 0.
  unfoldable pub is_idle : SessionCacheConfig → ℕ → SessionCacheEntry C → Bool
  unfolding idle_ttl
  is_idle config now entry =
      ltb 0 config.idle_ttl_ms && ltb (idle_ttl config) (now - entry.last_used)

  unfoldable pub count_idle :
      SessionCacheConfig
      → ℕ
      → List (ℕ × SessionCacheEntry C)
      → Option SessionCacheStats
      → Option SessionCacheStats
  unfolding is_idle
  count_idle config now [] stats = stats
  count_idle config now ((id, entry) ∷ m) stats =
      count_idle config now m
        (if is_idle config now entry then Option.map increment_expirations stats else stats)

  -- The `retain` over the cache.
  unfoldable pub expire_idle : ℕ → GgufModel C → GgufModel C
  unfolding count_idle retain is_idle
  expire_idle now model = record model {
    session_cache =
        retain (λ _ e. not (is_idle model.session_cache_config now e)) model.session_cache;
    session_cache_stats =
        count_idle model.session_cache_config now model.session_cache model.session_cache_stats;
  }

  unfoldable pub total_bytes : ℕ → List (SessionCacheEntry C) → ℕ
  total_bytes total [] = total
  total_bytes total (entry ∷ entries) =
      total_bytes (saturating_add total entry.estimated_bytes) entries

  -- The condition of the eviction loop.
  unfoldable pub needs_room : ℕ → GgufModel C → Bool
  unfolding total_bytes values
  needs_room estimated_bytes model =
      let config = model.session_cache_config in
      leb config.max_entries (length model.session_cache)
      || (ltb 0 config.max_bytes
          && ltb config.max_bytes
              (saturating_add (total_bytes 0 (values model.session_cache)) estimated_bytes))

  abbrev pub used_before : ℕ × SessionCacheEntry C → ℕ × SessionCacheEntry C → Bool
  used_before a b = ltb a.1.last_used b.1.last_used

  -- The body of the loop; `none` is its `break`.
  unfoldable pub evict_one : GgufModel C → Option (GgufModel C)
  unfolding min_by remove
  evict_one model = elim (min_by used_before model.session_cache) [
    | none ↦ none
    | some (id, entry) ↦
        some (cache_eviction (record model { session_cache = remove id model.session_cache }))
  ]

  unfoldable pub evict : ℕ → ℕ → GgufModel C → GgufModel C
  unfolding needs_room evict_one
  evict zero estimated_bytes model = model
  evict (suc fuel) estimated_bytes model = elim (needs_room estimated_bytes model) [
    | false ↦ model
    | true ↦ elim (evict_one model) [ none ↦ model | some next ↦ evict fuel estimated_bytes next ]
  ]

  -- Each round takes an entry out, so that there are no more rounds than entries.
  unfoldable pub make_room : ℕ → GgufModel C → GgufModel C
  unfolding evict
  make_room estimated_bytes model = evict (length model.session_cache) estimated_bytes model
