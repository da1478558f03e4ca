-- ===== src/Llama/Generate/Between.antt =====
-- What other sessions do to the cache between two turns of a session.
use decompute.Prelude.{
  ℕ, ◌≤◌, ◌-◌, ◌*◌, Bool, true, not, List, [], ◌∷◌, some, nat_eq, ◌≡◌, ◌≢◌, refl, ap, ◌∙◌, ◌⊎◌, inl,
  inr, arith, Result-cases, Option-cases, Bool-cases,
}
use decompute.Prelude.Bytes.{starts_with}
use decompute.Prelude.Map.{
  get, remove, kept, Distinct, get-retain, get-insert, get-remove, insert-Distinct, remove-Distinct,
  retain-Distinct,
}
use decompute.Core.Cache.{SessionCacheConfig, idle_ttl}
use decompute.Llama.Engine.{Engine}
use decompute.Llama.Session.{
  GgufModel, SessionCacheEntry, expire_idle, is_idle, estimated_cache_bytes, make_room,
  invalidate_session,
}
use decompute.Llama.Session.Room.{HasPlace}
use decompute.Llama.Session.Evicted.{make_room-MadeRoom}
use decompute.Llama.Generate.{checkout, commit, exceeds_budget, publish}

-- An access to the cache: at a time, for a session, with its tokens.
pub data Access (C : Type 0) : Type 0 where
  publishes : ℕ → ℕ → List ℕ → C → Access C
  takes : ℕ → List ℕ → Access C
  invalidates expires : ℕ → Access C

pub young-kept :
    {C : Type 0} (config : SessionCacheConfig) (now : ℕ) (entry : SessionCacheEntry C)
    → (config.idle_ttl_ms ≡ 0) ⊎ (now - entry.last_used ≤ config.idle_ttl_ms * 1000000)
    → not (is_idle config now entry) ≡ true
unfolding is_idle idle_ttl
young-kept config now entry young = ground (arith, young)

module _ {C B S D F : Type 0} (E : Engine C B S D F) where
  unfoldable pub access : GgufModel C → Access C → GgufModel C
  access m (publishes now id tokens c) = (publish E now m (some id) tokens c).0
  access m (takes id tokens) = (checkout E m (some id) tokens).0
  access m (invalidates id) = invalidate_session (some id) m
  access m (expires now) = expire_idle now m

  unfoldable pub accesses : GgufModel C → List (Access C) → GgufModel C
  accesses m [] = m
  accesses m (a ∷ rest) = accesses (access m a) rest

  -- The access is of another session, a new context finds place without an eviction, and an expiry
  -- is not after `later`.
  abbrev pub Spares : ℕ → ℕ → GgufModel C → Access C → Type 0
  Spares id later m (publishes now id' tokens c) = (id' ≢ id) × HasPlace (estimated_cache_bytes m) m
  Spares id later m (takes id' tokens) = id' ≢ id
  Spares id later m (invalidates id') = id' ≢ id
  Spares id later m (expires now) = now ≤ later

  abbrev pub SparesAll : ℕ → ℕ → GgufModel C → List (Access C) → Type 0
  SparesAll id later m [] = Unit {0}
  SparesAll id later m (a ∷ rest) = Spares id later m a × SparesAll id later (access m a) rest

  -- The session's entry is in the cache, under these settings.
  pub record Holds (config : SessionCacheConfig) (id : ℕ) (entry : SessionCacheEntry C)
      (m : GgufModel C) : Type 0 where
    pub settings : m.session_cache_config ≡ config
    pub distinct : Distinct m.session_cache
    pub found : get id m.session_cache ≡ some entry

  module _ (config : SessionCacheConfig) (id : ℕ) (entry : SessionCacheEntry C) where
    publishes-Holds :
        (m : GgufModel C) (now id' : ℕ) (tokens : List ℕ) (c : C)
        → id' ≢ id
        → HasPlace (estimated_cache_bytes m) m
        → Holds config id entry m
        → Holds config id entry (publish E now m (some id') tokens c).0
    unfolding publish
    publishes-Holds m now id' tokens c other place h = elim (Bool-cases (exceeds_budget E m)) [
      | inl over ↦ rw (publish, over) h
      | inr fits ↦
          let bytes = estimated_cache_bytes m in
          let made =
            make_room-MadeRoom bytes m h.distinct (record {
              entries = omega (arith, place.entries);
              bytes = λ limited. ground arith;
            }) in
          let roomy = make_room bytes m in
          let held : Holds config id entry roomy = rw (made.unless_needed place) h in
          elim (Result-cases (commit E c)) [
            | inr (e, k) ↦ rw (publish, fits, k) held
            | inl (committed, k) ↦
                let new : SessionCacheEntry C = record {
                  context = committed;
                  tokens = tokens;
                  estimated_bytes = bytes;
                  last_used = now;
                } in
                rw (publish, fits, k)
                  (record {
                    settings = held.settings;
                    distinct = insert-Distinct id' new roomy.session_cache held.distinct;
                    found = ground (arith, get-insert id' id new roomy.session_cache, held.found);
                  })
          ]
    ]

    removed-Holds :
        (m m' : GgufModel C) (id' : ℕ)
        → m'.session_cache_config ≡ m.session_cache_config
        → m'.session_cache ≡ remove id' m.session_cache
        → id' ≢ id
        → Holds config id entry m
        → Holds config id entry m'
    removed-Holds m m' id' settings left other h = record {
      settings = settings ∙ h.settings;
      distinct = rw left (remove-Distinct id' m.session_cache h.distinct);
      found = rw left (ground (arith, get-remove id' id m.session_cache h.distinct, h.found));
    }

    takes-Holds :
        (m : GgufModel C) (id' : ℕ) (tokens : List ℕ)
        → id' ≢ id
        → Holds config id entry m
        → Holds config id entry (checkout E m (some id') tokens).0
    unfolding checkout
    takes-Holds m id' tokens other h = elim (Option-cases (get id' m.session_cache)) [
      | inl e ↦
          rw (checkout, e)
            (record { settings = h.settings; distinct = h.distinct; found = h.found })
      | inr (entry', e) ↦ elim (Bool-cases (starts_with entry'.tokens tokens)) [
        | inl begins ↦ rw (checkout, e, begins) (removed-Holds m _ id' refl refl other h)
        | inr differs ↦ rw (checkout, e, differs) (removed-Holds m _ id' refl refl other h)
      ]
    ]

    invalidates-Holds :
        (m : GgufModel C) (id' : ℕ)
        → id' ≢ id
        → Holds config id entry m
        → Holds config id entry (invalidate_session (some id') m)
    unfolding invalidate_session
    invalidates-Holds m id' other h = elim (Option-cases (get id' m.session_cache)) [
      | inl e ↦ rw (invalidate_session, e) h
      | inr (entry', e) ↦ rw (invalidate_session, e) (removed-Holds m _ id' refl refl other h)
    ]

    pub expires-Holds :
        (m : GgufModel C) (now : ℕ)
        → (config.idle_ttl_ms ≡ 0) ⊎ (now - entry.last_used ≤ config.idle_ttl_ms * 1000000)
        → Holds config id entry m
        → Holds config id entry (expire_idle now m)
    unfolding expire_idle
    expires-Holds m now young h =
        let keep : ℕ → SessionCacheEntry C → Bool =
          λ _ e. not (is_idle m.session_cache_config now e) in
        let fresh : keep id entry ≡ true = rw h.settings (young-kept config now entry young) in
        record {
          settings = h.settings;
          distinct = retain-Distinct keep m.session_cache h.distinct;
          found =
              get-retain keep id m.session_cache h.distinct
              ∙ ap (kept keep id) h.found
              ∙ rw fresh refl;
        }

    access-Holds :
        (later : ℕ) (m : GgufModel C) (a : Access C)
        → (config.idle_ttl_ms ≡ 0) ⊎ (later - entry.last_used ≤ config.idle_ttl_ms * 1000000)
        → Spares id later m a
        → Holds config id entry m
        → Holds config id entry (access m a)
    unfolding access
    access-Holds later m (publishes now id' tokens c) young (other, place) h =
        publishes-Holds m now id' tokens c other place h
    access-Holds later m (takes id' tokens) young other h = takes-Holds m id' tokens other h
    access-Holds later m (invalidates id') young other h = invalidates-Holds m id' other h
    access-Holds later m (expires now) young le h = expires-Holds m now (ground (arith, young)) h

    pub accesses-Holds :
        (later : ℕ) (m : GgufModel C) (others : List (Access C))
        → (config.idle_ttl_ms ≡ 0) ⊎ (later - entry.last_used ≤ config.idle_ttl_ms * 1000000)
        → SparesAll id later m others
        → Holds config id entry m
        → Holds config id entry (accesses m others)
    unfolding accesses
    accesses-Holds later m [] young spares h = h
    accesses-Holds later m (a ∷ others) young (spares, rest) h =
        accesses-Holds later (access m a) others young rest (access-Holds later m a young spares h)
