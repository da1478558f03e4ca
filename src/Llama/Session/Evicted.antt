-- ===== src/Llama/Session/Evicted.antt =====
-- The eviction loop: which sessions it drops, and that it makes room.
use decompute.Prelude.{
  ℕ, zero, suc, ◌<◌, ◌≤◌, true, false, List, [], ◌∷◌, none, some, length, nat_eq, ltb, ◌≡◌, refl,
  ap, ◌∙◌, inl, inr, arith, Option-cases, Bool-cases, In, ◌==◌,
}
use decompute.Prelude.Map.{
  get, remove, values, Distinct, get-remove, remove-Distinct, length-remove,
}
use decompute.Prelude.MinBy.{min_by, min_by-In, min_by-eq-none, min_by-least, IsStrict}
use decompute.Llama.Session.Room.{HasPlace, needs_room-HasPlace, HasPlace-needs_room}
use decompute.Llama.Session.{
  GgufModel, SessionCacheEntry, total_bytes, needs_room, used_before, evict_one, evict, make_room,
  cache_eviction,
}

module _ {C : Type 0} where
  get_of_In :
      (id : ℕ) (entry : SessionCacheEntry C) (m : List (ℕ × SessionCacheEntry C))
      → Distinct m
      → In (id, entry) m
      → get id m ≡ some entry
  unfolding get
  get_of_In id entry [] d h = absurd h.0
  get_of_In id entry ((j, other) ∷ m) d (inl e) =
      let (same, at) : (id ≡ j) × (entry ≡ other) = (ap (λ x. x.0) e, ap (λ x. x.1) e) in
      ground arith
  get_of_In id entry ((j, other) ∷ m) d (inr h) = ground (arith, get_of_In id entry m d.1 h)

  In_of_get :
      (id : ℕ) (entry : SessionCacheEntry C) (m : List (ℕ × SessionCacheEntry C))
      → get id m ≡ some entry
      → In (id, entry) m
  unfolding get
  In_of_get id entry [] h = cc
  In_of_get id entry ((j, other) ∷ m) h = elim (Bool-cases (j == id)) [
    | inl here ↦ inl (ground arith)
    | inr there ↦ inr (In_of_get id entry m (ground arith))
  ]

  used_before-IsStrict : IsStrict {A = ℕ × SessionCacheEntry C} used_before
  used_before-IsStrict = record {
    irrefl = λ a. ground arith;
    asym = λ a b h. ground arith;
    neg_trans = λ a b c h k. ground arith;
  }

  -- What eviction leaves as it is.
  pub record SameSettings (m m' : GgufModel C) : Type 0 where
    pub config : m'.session_cache_config ≡ m.session_cache_config
    pub context_tokens : m'.context_tokens ≡ m.context_tokens
    pub shape : m'.shape ≡ m.shape

  -- The session that was used least recently is dropped.
  record DropsOldest (m m' : GgufModel C) : Type 0 where
    id : ℕ
    entry : SessionCacheEntry C
    found : get id m.session_cache ≡ some entry
    left : m'.session_cache ≡ remove id m.session_cache
    oldest :
        (id' : ℕ) (entry' : SessionCacheEntry C)
        → get id' m.session_cache ≡ some entry'
        → entry.last_used ≤ entry'.last_used
    settings : SameSettings m m'

  evict_one-DropsOldest :
      (m m' : GgufModel C) → Distinct m.session_cache → evict_one m ≡ some m' → DropsOldest m m'
  unfolding evict_one
  evict_one-DropsOldest m m' d h = elim (Option-cases (min_by used_before m.session_cache)) [
    | inl e ↦ absurd (ground arith)
    | inr ((id, entry), e) ↦
        let same : m' ≡ cache_eviction (record m { session_cache = remove id m.session_cache }) =
          ground arith in
        record {
          id = id;
          entry = entry;
          found =
              get_of_In id entry m.session_cache d
                (min_by-In used_before m.session_cache (id, entry) e);
          left = ap (λ x. x.session_cache) same;
          oldest = λ id' entry' at.
              let least =
                min_by-least used_before used_before-IsStrict m.session_cache (id, entry)
                  (id', entry') e (In_of_get id' entry' m.session_cache at) in
              ground arith;
          settings = record {
            config = ap (λ x. x.session_cache_config) same;
            context_tokens = ap (λ x. x.context_tokens) same;
            shape = ap (λ x. x.shape) same;
          };
        }
  ]

  evict_one-none : (m : GgufModel C) → evict_one m ≡ none → m.session_cache ≡ []
  unfolding evict_one
  evict_one-none m h = min_by-eq-none used_before m.session_cache (ground arith)

  no_elements : (m : List (ℕ × SessionCacheEntry C)) → length m ≤ 0 → m ≡ []
  no_elements [] h = refl
  no_elements (x ∷ m) h = absurd (omega arith)

  -- A session for which the settings leave room, if it is alone.
  pub record Fits (estimated_bytes : ℕ) (m : GgufModel C) : Type 0 where
    pub entries : 0 < m.session_cache_config.max_entries
    pub bytes :
        0 < m.session_cache_config.max_bytes → estimated_bytes ≤ m.session_cache_config.max_bytes

  pub record MadeRoom (estimated_bytes : ℕ) (m m' : GgufModel C) : Type 0 where
    pub settings : SameSettings m m'
    pub distinct : Distinct m'.session_cache
    pub kept :
        (id : ℕ) (entry : SessionCacheEntry C)
        → get id m'.session_cache ≡ some entry
        → get id m.session_cache ≡ some entry
    pub oldest :
        (id id' : ℕ) (entry entry' : SessionCacheEntry C)
        → get id m.session_cache ≡ some entry
        → get id m'.session_cache ≡ none
        → get id' m'.session_cache ≡ some entry'
        → entry.last_used ≤ entry'.last_used
    pub place : HasPlace estimated_bytes m'
    pub unless_needed : HasPlace estimated_bytes m → m' ≡ m

  empty_has_room :
      (estimated_bytes : ℕ) (m : GgufModel C)
      → m.session_cache ≡ []
      → Fits estimated_bytes m
      → needs_room estimated_bytes m ≡ false
  unfolding needs_room total_bytes values
  empty_has_room estimated_bytes m e fits =
      rw (needs_room, e)
        (elim (Bool-cases (ltb 0 m.session_cache_config.max_bytes)) [
          | inl limited ↦ ground (arith, fits.entries, fits.bytes (ground arith))
          | inr free ↦ ground (arith, fits.entries)
        ])

  stays :
      (estimated_bytes : ℕ) (m : GgufModel C)
      → Distinct m.session_cache
      → needs_room estimated_bytes m ≡ false
      → MadeRoom estimated_bytes m m
  stays estimated_bytes m d h = record {
    settings = record { config = refl; context_tokens = refl; shape = refl };
    distinct = d;
    kept = λ id entry at. at;
    oldest = λ id id' entry entry' at gone at'. cc;
    place = needs_room-HasPlace estimated_bytes m h;
    unless_needed = λ place. refl;
  }

  drops :
      (estimated_bytes : ℕ) (m next m' : GgufModel C)
      → Distinct m.session_cache
      → needs_room estimated_bytes m ≡ true
      → DropsOldest m next
      → MadeRoom estimated_bytes next m'
      → MadeRoom estimated_bytes m m'
  drops estimated_bytes m next m' d needs one rest =
      let at_next = λ (id : ℕ). ap (get id) one.left ∙ get-remove one.id id m.session_cache d in
      let back : (id : ℕ) (entry : SessionCacheEntry C)
          → get id m'.session_cache ≡ some entry
          → get id m.session_cache ≡ some entry =
        λ id entry at. ground (arith, rest.kept id entry at, at_next id) in
      record {
        settings = record {
          config = rest.settings.config ∙ one.settings.config;
          context_tokens = rest.settings.context_tokens ∙ one.settings.context_tokens;
          shape = rest.settings.shape ∙ one.settings.shape;
        };
        distinct = rest.distinct;
        kept = back;
        oldest = λ id id' entry entry' at gone at'. elim (Bool-cases (one.id == id)) [
          | inl here ↦
              let same : entry ≡ one.entry = ground (arith, one.found) in
              rw same (one.oldest id' entry' (back id' entry' at'))
          | inr there ↦ rest.oldest id id' entry entry' (ground (arith, at_next id)) gone at'
        ];
        place = rest.place;
        unless_needed = λ place. cc (HasPlace-needs_room estimated_bytes m place);
      }

  evict-MadeRoom :
      (fuel estimated_bytes : ℕ) (m : GgufModel C)
      → length m.session_cache ≤ fuel
      → Distinct m.session_cache
      → Fits estimated_bytes m
      → MadeRoom estimated_bytes m (evict fuel estimated_bytes m)
  unfolding evict
  evict-MadeRoom zero estimated_bytes m le d fits =
      stays estimated_bytes m d
        (empty_has_room estimated_bytes m (no_elements m.session_cache (omega arith)) fits)
  evict-MadeRoom (suc fuel) estimated_bytes m le d fits =
      elim (Bool-cases (needs_room estimated_bytes m)) [
        | inr room ↦ rw (evict, room) (stays estimated_bytes m d room)
        | inl needs ↦ elim (Option-cases (evict_one m)) [
          | inl none' ↦
              absurd
                (ground (arith, empty_has_room estimated_bytes m (evict_one-none m none') fits))
          | inr (next, e) ↦
              let one = evict_one-DropsOldest m next d e in
              let shorter : length next.session_cache ≤ fuel = omega (
                arith,
                ap length one.left,
                length-remove one.id m.session_cache one.entry one.found,
              ) in
              let fits' : Fits estimated_bytes next = record {
                entries = rw one.settings.config fits.entries;
                bytes = rw one.settings.config fits.bytes;
              } in
              rw (evict, needs, e)
                (drops estimated_bytes m next _ d needs one (
                  evict-MadeRoom fuel estimated_bytes next shorter
                    (rw one.left (remove-Distinct one.id m.session_cache d)) fits'))
        ]
      ]

  -- Where the settings allow the new session alone, the loop leaves a cache to which they allow it to
  -- be added, by number and by bytes, without running out of rounds; it changes nothing if they did
  -- so before, it keeps entries as they were, and it has dropped only sessions that were used no later
  -- than every session it keeps.
  pub make_room-MadeRoom :
      (estimated_bytes : ℕ) (m : GgufModel C)
      → Distinct m.session_cache
      → Fits estimated_bytes m
      → MadeRoom estimated_bytes m (make_room estimated_bytes m)
  unfolding make_room
  make_room-MadeRoom estimated_bytes m d fits =
      evict-MadeRoom (length m.session_cache) estimated_bytes m (omega arith) d fits
