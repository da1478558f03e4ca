-- ===== src/Core/Cache.antt =====
-- crates/decompute-core/src/cache.rs: the settings, the counters and the reasons of the session
-- cache. Durations are in nanoseconds, as all times of the model.
use decompute.Prelude.{ℕ, ◌+◌, ◌*◌, ◌%◌, ◌^◌, Text, text, List, [], ◌∷◌}

pub record SessionCacheConfig : Type 0 where
  pub min_tokens : ℕ
  pub max_entries : ℕ
  pub max_bytes : ℕ
  pub idle_ttl_ms : ℕ
  pub slot_wait_timeout_ms : ℕ

abbrev pub default_config : SessionCacheConfig
default_config = record {
  min_tokens = 100;
  max_entries = 1;
  max_bytes = 0;
  idle_ttl_ms = 15 * 60 * 1000;
  slot_wait_timeout_ms = 30 * 1000;
}

-- `Duration::from_millis`.
abbrev pub from_millis : ℕ → ℕ
from_millis ms = ms * 1000000

unfoldable pub idle_ttl : SessionCacheConfig → ℕ
idle_ttl config = from_millis config.idle_ttl_ms

unfoldable pub slot_wait_timeout : SessionCacheConfig → ℕ
slot_wait_timeout config = from_millis config.slot_wait_timeout_ms

-- What the `Arc` leads to, which only the model writes to.
pub record SessionCacheStats : Type 0 where
  pub hits : ℕ
  pub misses : ℕ
  pub evictions : ℕ
  pub expirations : ℕ
  pub invalidations : ℕ

abbrev pub default_stats : SessionCacheStats
default_stats = record { hits = 0; misses = 0; evictions = 0; expirations = 0; invalidations = 0 }

-- `fetch_add(1)` on an `AtomicU64`, which wraps.
abbrev pub fetch_add : ℕ → ℕ
fetch_add n = (n + 1) % 2 ^ 64

abbrev pub increment_hits : SessionCacheStats → SessionCacheStats
increment_hits stats = record stats { hits = fetch_add stats.hits }

abbrev pub increment_misses : SessionCacheStats → SessionCacheStats
increment_misses stats = record stats { misses = fetch_add stats.misses }

abbrev pub increment_evictions : SessionCacheStats → SessionCacheStats
increment_evictions stats = record stats { evictions = fetch_add stats.evictions }

abbrev pub increment_expirations : SessionCacheStats → SessionCacheStats
increment_expirations stats = record stats { expirations = fetch_add stats.expirations }

abbrev pub increment_invalidations : SessionCacheStats → SessionCacheStats
increment_invalidations stats = record stats { invalidations = fetch_add stats.invalidations }

unfoldable pub snapshot : SessionCacheStats → List ℕ
snapshot stats =
    stats.hits ∷ stats.misses ∷ stats.evictions ∷ stats.expirations ∷ stats.invalidations ∷ []

pub data SessionCacheMiss : Type 0 where
  disabled too_short missing expired prefix_mismatch : SessionCacheMiss
  incompatible overflow contended invalidated : SessionCacheMiss

unfoldable pub as_str : SessionCacheMiss → Text
as_str disabled = text "disabled"
as_str too_short = text "too_short"
as_str missing = text "missing"
as_str expired = text "expired"
as_str prefix_mismatch = text "prefix_mismatch"
as_str incompatible = text "incompatible"
as_str overflow = text "overflow"
as_str contended = text "contended"
as_str invalidated = text "invalidated"
