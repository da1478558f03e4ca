-- ===== src/Llama/Session/Room.antt =====
-- The eviction loop, and the bytes that the cache counts.
use decompute.Prelude.{
  ℕ, ◌+◌, ◌<◌, ◌≤◌, min, length, false, Bool, List, [], ◌∷◌, none, nat_eq, ◌≡◌, refl, inl, inr,
  arith, Bool-cases, ◌==◌,
}
use decompute.Prelude.Map.{get, remove, insert, retain, values}
use decompute.Llama.Session.{
  SessionCacheEntry, GgufModel, saturating_add, usize_max, total_bytes, needs_room,
}

module _ {C : Type 0} where
  total_bytes_mono :
      (a b : ℕ) (entries : List (SessionCacheEntry C))
      → a ≤ b
      → total_bytes a entries ≤ total_bytes b entries
  unfolding total_bytes
  total_bytes_mono a b [] le = le
  total_bytes_mono a b (entry ∷ entries) le =
      total_bytes_mono (saturating_add a entry.estimated_bytes)
        (saturating_add b entry.estimated_bytes) entries (omega arith)

  pub total_bytes_le :
      (start : ℕ) (entries : List (SessionCacheEntry C))
      → start ≤ usize_max
      → total_bytes start entries ≤ usize_max
  unfolding total_bytes
  total_bytes_le start [] le = le
  total_bytes_le start (entry ∷ entries) le =
      total_bytes_le (saturating_add start entry.estimated_bytes) entries (omega arith)

  pub total_bytes-remove :
      (start id : ℕ) (m : List (ℕ × SessionCacheEntry C))
      → start ≤ usize_max
      → total_bytes start (values (remove id m)) ≤ total_bytes start (values m)
  unfolding total_bytes values remove
  total_bytes-remove start id [] le = omega arith
  total_bytes-remove start id ((j, entry) ∷ m) le = elim (Bool-cases (j == id)) [
    | inl here ↦
        rw (remove, here)
          (total_bytes_mono start (saturating_add start entry.estimated_bytes) (values m)
            (omega arith))
    | inr there ↦
        rw (remove, there)
          (total_bytes-remove (saturating_add start entry.estimated_bytes) id m (omega arith))
  ]

  pub total_bytes-retain :
      (start : ℕ) (keep : ℕ → SessionCacheEntry C → Bool) (m : List (ℕ × SessionCacheEntry C))
      → start ≤ usize_max
      → total_bytes start (values (retain keep m)) ≤ total_bytes start (values m)
  unfolding total_bytes values retain
  total_bytes-retain start keep [] le = omega arith
  total_bytes-retain start keep ((j, entry) ∷ m) le = elim (Bool-cases (keep j entry)) [
    | inl kept ↦
        rw (retain, kept)
          (total_bytes-retain (saturating_add start entry.estimated_bytes) keep m (omega arith))
    | inr dropped ↦
        let more =
          total_bytes_mono start (saturating_add start entry.estimated_bytes) (values m)
            (omega arith) in
        rw (retain, dropped) (omega (arith, more, total_bytes-retain start keep m le))
  ]

  -- A new session comes last.
  pub total_bytes-insert :
      (start id : ℕ) (entry : SessionCacheEntry C) (m : List (ℕ × SessionCacheEntry C))
      → get id m ≡ none
      → total_bytes start (values (insert id entry m))
        ≡ saturating_add (total_bytes start (values m)) entry.estimated_bytes
  unfolding total_bytes values insert get
  total_bytes-insert start id entry [] new = refl
  total_bytes-insert start id entry ((j, other) ∷ m) new = elim (Bool-cases (j == id)) [
    | inl here ↦ absurd (ground arith)
    | inr there ↦
        rw (insert, there)
          (total_bytes-insert (saturating_add start other.estimated_bytes) id entry m
            (ground arith))
  ]

  -- The bytes of the cached sessions, summed without a bound.
  abbrev pub bytes_held : List (ℕ × SessionCacheEntry C) → ℕ
  bytes_held [] = 0
  bytes_held ((id, entry) ∷ m) = entry.estimated_bytes + bytes_held m

  total_bytes-held :
      (start : ℕ) (m : List (ℕ × SessionCacheEntry C))
      → start ≤ usize_max
      → total_bytes start (values m) ≡ min usize_max (start + bytes_held m)
  unfolding total_bytes values
  total_bytes-held start [] le = omega arith
  total_bytes-held start ((j, entry) ∷ m) le =
      omega (arith, total_bytes-held (saturating_add start entry.estimated_bytes) m (omega arith))

  -- One more session of these bytes is within the settings: fewer sessions than `max_entries`, and,
  -- where `max_bytes` is a limit, no more bytes than it. The largest `usize` is no limit, since sums
  -- stop there.
  pub record HasPlace (estimated_bytes : ℕ) (m : GgufModel C) : Type 0 where
    pub entries : length m.session_cache < m.session_cache_config.max_entries
    pub bytes :
        0 < m.session_cache_config.max_bytes
        → m.session_cache_config.max_bytes < usize_max
        → bytes_held m.session_cache + estimated_bytes ≤ m.session_cache_config.max_bytes

  pub needs_room-HasPlace :
      (estimated_bytes : ℕ) (m : GgufModel C)
      → needs_room estimated_bytes m ≡ false
      → HasPlace estimated_bytes m
  unfolding needs_room
  needs_room-HasPlace estimated_bytes m h =
      let held = total_bytes-held 0 m.session_cache (omega arith) in
      record { entries = ground arith; bytes = λ limited bounded. ground (arith, held) }

  pub HasPlace-needs_room :
      (estimated_bytes : ℕ) (m : GgufModel C)
      → HasPlace estimated_bytes m
      → needs_room estimated_bytes m ≡ false
  unfolding needs_room
  HasPlace-needs_room estimated_bytes m place =
      let held = total_bytes-held 0 m.session_cache (omega arith) in
      ground (arith, held, place.entries, place.bytes)
