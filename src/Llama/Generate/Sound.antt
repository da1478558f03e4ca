-- ===== src/Llama/Generate/Sound.antt =====
-- The session cache over a whole generation.
use decompute.Prelude.{
  ℕ, ◌<◌, ◌≤◌, Bool, false, not, List, [], ◌∷◌, Option, none, some, length, nat_eq, ◌≡◌, refl, ap,
  ◌∙◌, inl, inr, arith, ok, >>=-eq-ok, map_err, Option-cases, Bool-cases, ◌==◌,
}
use decompute.Prelude.Bytes.{starts_with}
use decompute.Prelude.Map.{
  get, insert, remove, retain, values, Distinct, get-retain_inv, get-remove, get-insert,
  insert-Distinct, retain-Distinct, remove-Distinct, length-insert_new,
}
use decompute.Llama.Engine.{Engine, Laws}
use decompute.Llama.Session.{
  GgufModel, SessionCacheEntry, expire_idle, is_idle, total_bytes, needs_room, saturating_add,
}
use decompute.Llama.Session.Room.{
  HasPlace-needs_room, total_bytes_le, total_bytes-remove, total_bytes-retain, total_bytes-insert,
}
use decompute.Llama.Session.Evicted.{MadeRoom, SameSettings}
use decompute.Llama.Decode.{native}
use decompute.Llama.Decode.Prompt.{map_err-ok}
use decompute.Llama.Generate.{checkout, commit}
use decompute.Llama.Generate.Plain.{IsCommitted}

module _ {C B S D F : Type 0} (E : Engine C B S D F) (L : Laws E) where
  -- No session twice, no more sessions and bytes than the settings allow, and in sequence 0 of each
  -- context the tokens that are recorded with it.
  pub record IsSound (m : GgufModel C) : Type 0 where
    pub distinct : Distinct m.session_cache
    pub within : length m.session_cache ≤ m.session_cache_config.max_entries
    pub budget :
        0 < m.session_cache_config.max_bytes
        → total_bytes 0 (values m.session_cache) ≤ m.session_cache_config.max_bytes
    pub committed : IsCommitted E L m

  -- A model with the same cache and settings.
  pub same-IsSound :
      (m m' : GgufModel C)
      → m'.session_cache_config ≡ m.session_cache_config
      → m'.session_cache ≡ m.session_cache
      → IsSound m
      → IsSound m'
  same-IsSound m m' config cache s = record {
    distinct = rw cache s.distinct;
    within = rw (cache, config) s.within;
    budget = rw (cache, config) s.budget;
    committed = rw cache s.committed;
  }

  length-remove_le :
      (id : ℕ) (cache : List (ℕ × SessionCacheEntry C)) → length (remove id cache) ≤ length cache
  unfolding remove
  length-remove_le id [] = omega arith
  length-remove_le id ((j, e) ∷ cache) = ground (arith, length-remove_le id cache)

  length-retain_le :
      (keep : ℕ → SessionCacheEntry C → Bool) (cache : List (ℕ × SessionCacheEntry C))
      → length (retain keep cache) ≤ length cache
  unfolding retain
  length-retain_le keep [] = omega arith
  length-retain_le keep ((j, e) ∷ cache) = ground (arith, length-retain_le keep cache)

  remove-IsSound :
      (id : ℕ) (m m' : GgufModel C)
      → m'.session_cache_config ≡ m.session_cache_config
      → m'.session_cache ≡ remove id m.session_cache
      → IsSound m
      → IsSound m'
  remove-IsSound id m m' config cache s = record {
    distinct = rw cache (remove-Distinct id m.session_cache s.distinct);
    within = omega (
      arith,
      s.within,
      ap length cache,
      length-remove_le id m.session_cache,
      ap (λ c. c.max_entries) config,
    );
    budget =
        rw (cache, config)
          (λ limited.
            omega (arith, s.budget limited, total_bytes-remove 0 id m.session_cache (omega arith)));
    committed = λ j entry at.
        s.committed j entry
          (ground (arith, ap (get j) cache, get-remove id j m.session_cache s.distinct));
  }

  pub expire_idle-IsSound : (now : ℕ) (m : GgufModel C) → IsSound m → IsSound (expire_idle now m)
  unfolding expire_idle
  expire_idle-IsSound now m s =
      let keep : ℕ → SessionCacheEntry C → Bool =
        λ _ e. not (is_idle m.session_cache_config now e) in
      record {
        distinct = retain-Distinct keep m.session_cache s.distinct;
        within = omega (arith, s.within, length-retain_le keep m.session_cache);
        budget = λ limited.
            omega
              (arith, s.budget limited, total_bytes-retain 0 keep m.session_cache (omega arith));
        committed = λ j entry at.
            s.committed j entry (get-retain_inv keep j m.session_cache entry s.distinct at).0;
      }

  pub record Taken (m taken : GgufModel C) (session : Option ℕ) : Type 0 where
    pub sound : IsSound taken
    pub settings : SameSettings m taken
    pub absent : (id : ℕ) → session ≡ some id → get id taken.session_cache ≡ none

  pub checkout-Taken :
      (m : GgufModel C) (session : Option ℕ) (tokens : List ℕ)
      → IsSound m
      → Taken m (checkout E m session tokens).0 session
  unfolding checkout
  checkout-Taken m none tokens s = record {
    sound = s;
    settings = record { config = refl; context_tokens = refl; shape = refl };
    absent = λ id h. cc;
  }
  checkout-Taken m (some id) tokens s = elim (Option-cases (get id m.session_cache)) [
    | inl e ↦
        rw (checkout, e)
          (record {
            sound = same-IsSound m _ refl refl s;
            settings = record { config = refl; context_tokens = refl; shape = refl };
            absent = λ j h. ground arith;
          })
    | inr (entry, e) ↦ elim (Bool-cases (starts_with entry.tokens tokens)) [
      | inl begins ↦
          rw (checkout, e, begins)
            (record {
              sound = remove-IsSound id m _ refl refl s;
              settings = record { config = refl; context_tokens = refl; shape = refl };
              absent = λ j h. ground (arith, get-remove id j m.session_cache s.distinct);
            })
      | inr differs ↦
          rw (checkout, e, differs)
            (record {
              sound = remove-IsSound id m _ refl refl s;
              settings = record { config = refl; context_tokens = refl; shape = refl };
              absent = λ j h. ground (arith, get-remove id j m.session_cache s.distinct);
            })
    ]
  ]

  pub commit_lem : (c c' : C) → commit E c ≡ ok c' → L.sequence c' 0 ≡ L.sequence c 2
  unfolding commit
  commit_lem c c' h =
      let (c1, e1, h1) = >>=-eq-ok (map_err native (E.clear_kv_cache_seq c 0 none)) _ h in
      let cleared = map_err-ok native (E.clear_kv_cache_seq c 0 none) c1 e1 in
      (L.copy c1 c' 2 0 (map_err-ok native (E.copy_kv_cache_seq c1 2 0) c' h1)
        (L.clear_whole c c1 0 cleared).0).0
      ∙ L.clear_others c c1 0 2 none cleared (omega arith)

  -- There is room in the cache for one more session of these bytes.
  pub record HasRoom (estimated_bytes : ℕ) (m : GgufModel C) : Type 0 where
    pub entries : length m.session_cache < m.session_cache_config.max_entries
    pub bytes :
        0 < m.session_cache_config.max_bytes
        → saturating_add (total_bytes 0 (values m.session_cache)) estimated_bytes
          ≤ m.session_cache_config.max_bytes

  pub needs_room-HasRoom :
      (estimated_bytes : ℕ) (m : GgufModel C)
      → needs_room estimated_bytes m ≡ false
      → HasRoom estimated_bytes m
  unfolding needs_room
  needs_room-HasRoom estimated_bytes m h = record {
    entries = ground arith;
    bytes = λ limited. ground arith;
  }

  pub roomy-IsSound :
      (estimated_bytes : ℕ) (m m' : GgufModel C)
      → MadeRoom estimated_bytes m m'
      → IsSound m
      → IsSound m'
  roomy-IsSound estimated_bytes m m' r s =
      let h =
        needs_room-HasRoom estimated_bytes m' (HasPlace-needs_room estimated_bytes m' r.place) in
      record {
        distinct = r.distinct;
        within = omega (arith, h.entries);
        budget = λ limited.
            omega
              (arith, h.bytes limited, total_bytes_le 0 (values m'.session_cache) (omega arith));
        committed = λ id entry at. s.committed id entry (r.kept id entry at);
      }

  pub insert-IsSound :
      (id : ℕ) (entry : SessionCacheEntry C) (m m' : GgufModel C)
      → m'.session_cache_config ≡ m.session_cache_config
      → m'.session_cache ≡ insert id entry m.session_cache
      → get id m.session_cache ≡ none
      → HasRoom entry.estimated_bytes m
      → L.sequence entry.context 0 ≡ entry.tokens
      → IsSound m
      → IsSound m'
  insert-IsSound id entry m m' config cache new room held s = record {
    distinct = rw cache (insert-Distinct id entry m.session_cache s.distinct);
    within = omega (
      arith,
      room.entries,
      ap length cache,
      length-insert_new id entry m.session_cache new,
      ap (λ c. c.max_entries) config,
    );
    budget =
        rw (cache, config, total_bytes-insert 0 id entry m.session_cache new)
          (λ limited. omega (arith, room.bytes limited));
    committed = λ j e at. elim (Bool-cases (id == j)) [
      | inl here ↦
          let same : e ≡ entry =
            ground (arith, ap (get j) cache, get-insert id j entry m.session_cache) in
          rw same held
      | inr there ↦
          s.committed j e (ground (arith, ap (get j) cache, get-insert id j entry m.session_cache))
    ];
  }
