-- ===== src/Llama/Generate/Reuse.antt =====
-- The next turn of a session.
use decompute.Prelude.{
  ℕ, ◌-◌, ◌*◌, ◌≤◌, ◌<◌, true, List, some, length, nat_eq, ◌≡◌, refl, inl, inr, ◌⊎◌, arith, ok,
  Result-cases, Bool-cases,
}
use decompute.Prelude.Bytes.{starts_with}
use decompute.Prelude.Map.{get, Distinct, get-insert, insert-Distinct}
use decompute.Llama.Engine.{Engine}
use decompute.Llama.Session.{
  GgufModel, SessionCacheEntry, expire_idle, estimated_cache_bytes, make_room,
}
use decompute.Llama.Session.Evicted.{make_room-MadeRoom}
use decompute.Llama.Generate.Between.{
  Access, accesses, SparesAll, Holds, expires-Holds, accesses-Holds,
}
use decompute.Llama.Generate.{checkout, commit, exceeds_budget, publish}

module _ {C B S D F : Type 0} (E : Engine C B S D F) where
  -- A context that was published.
  record Published (now id : ℕ) (m m' : GgufModel C) (tokens : List ℕ) (c : C) : Type 0 where
    committed : C
    commits : commit E c ≡ ok committed
    config : m'.session_cache_config ≡ m.session_cache_config
    distinct : Distinct m'.session_cache
    found :
        get id m'.session_cache
        ≡ some (record {
          context = committed;
          tokens = tokens;
          estimated_bytes = estimated_cache_bytes m;
          last_used = now;
        })

  publish-Published :
      (now id : ℕ) (m : GgufModel C) (tokens : List ℕ) (c : C)
      → Distinct m.session_cache
      → 0 < m.session_cache_config.max_entries
      → (publish E now m (some id) tokens c).1 ≡ ok true
      → Published now id m (publish E now m (some id) tokens c).0 tokens c
  unfolding publish
  publish-Published now id m tokens c d enabled h = elim (Bool-cases (exceeds_budget E m)) [
    | inl over ↦ absurd (ground arith)
    | inr fits ↦ elim (Result-cases (commit E c)) [
      | inr (e, k) ↦ absurd (ground arith)
      | inl (committed, k) ↦
          let bytes = estimated_cache_bytes m in
          let entry : SessionCacheEntry C = record {
            context = committed;
            tokens = tokens;
            estimated_bytes = bytes;
            last_used = now;
          } in
          let made =
            make_room-MadeRoom bytes m d
              (record { entries = enabled; bytes = λ limited. ground arith }) in
          let at = get-insert id id entry (make_room bytes m).session_cache in
          rw (publish, fits, k)
            (record {
              committed = committed;
              commits = k;
              config = made.settings.config;
              distinct = insert-Distinct id entry (make_room bytes m).session_cache made.distinct;
              found = ground (arith, at);
            })
    ]
  ]

  checkout-found :
      (id : ℕ) (m : GgufModel C) (entry : SessionCacheEntry C) (next : List ℕ)
      → get id m.session_cache ≡ some entry
      → starts_with entry.tokens next ≡ true
      → (checkout E m (some id) next).1
        ≡ ok (record { context = entry.context; prefix = length entry.tokens })
  unfolding checkout
  checkout-found id m entry next at begins = rw (checkout, at, begins) refl

  -- A session that was published is there for the next prompt that continues it: where other sessions
  -- alone have come between, each published where it had place without an eviction, taken out or
  -- invalidated, and the session has not been idle for longer than its settings allow, the next turn
  -- gets the published context, with all the published tokens as its prefix.
  pub checkout-publish :
      (now later id : ℕ) (m : GgufModel C) (tokens next : List ℕ) (c : C) (others : List (Access C))
      → Distinct m.session_cache
      → 0 < m.session_cache_config.max_entries
      → (publish E now m (some id) tokens c).1 ≡ ok true
      → SparesAll E id later (publish E now m (some id) tokens c).0 others
      → (m.session_cache_config.idle_ttl_ms ≡ 0)
        ⊎ (later - now ≤ m.session_cache_config.idle_ttl_ms * 1000000)
      → starts_with tokens next ≡ true
      → (committed : C) × (commit E c ≡ ok committed)
        × ((checkout E
              (expire_idle later (accesses E (publish E now m (some id) tokens c).0 others))
              (some id)
              next).1
            ≡ ok (record { context = committed; prefix = length tokens }))
  checkout-publish now later id m tokens next c others d enabled h spares young begins =
      let m' = (publish E now m (some id) tokens c).0 in
      let p = publish-Published now id m tokens c d enabled h in
      let config = m.session_cache_config in
      let entry : SessionCacheEntry C = record {
        context = p.committed;
        tokens = tokens;
        estimated_bytes = estimated_cache_bytes m;
        last_used = now;
      } in
      let held : Holds E config id entry m' = record {
        settings = p.config;
        distinct = p.distinct;
        found = p.found;
      } in
      let after = accesses-Holds E config id entry later m' others young spares held in
      let left = expires-Holds E config id entry (accesses E m' others) later young after in
      (
        p.committed,
        p.commits,
        checkout-found id (expire_idle later (accesses E m' others)) entry next left.found begins,
      )
