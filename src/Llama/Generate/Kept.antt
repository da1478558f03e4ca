-- ===== src/Llama/Generate/Kept.antt =====
-- `generate` keeps the session cache sound, however it ends.
use decompute.Prelude.{
  ℕ, ◌<◌, ◌^◌, Bool, true, false, Text, List, Option, none, some, length, leb, nat_eq, ltb, ◌≡◌,
  refl, ◌∙◌, inl, inr, arith, Result, Result-cases, Option-cases, Bool-cases, is_empty, is_some,
}
use decompute.Prelude.Map.{get}
use decompute.Llama.Engine.{Engine, Laws}
use decompute.Llama.Session.{GgufModel, expire_idle, estimated_cache_bytes, make_room, drop_guard}
use decompute.Llama.Session.Room.{HasPlace-needs_room}
use decompute.Llama.Session.Evicted.{make_room-MadeRoom}
use decompute.Llama.Decode.{GgufGenerationConfig, Generated, infer}
use decompute.Llama.Decode.Inferred.{infer-Inferred}
use decompute.Llama.Generate.{
  cached_session, count_bypass, tokenize, checkout, commit, exceeds_budget, publish, conclude,
  generate_from, generate,
}
use decompute.Llama.Generate.Plain.{checkout-Holds, not_empty}
use decompute.Llama.Generate.Sound.{
  IsSound, same-IsSound, expire_idle-IsSound, checkout-Taken, commit_lem, needs_room-HasRoom,
  roomy-IsSound, insert-IsSound,
}

module _ {C B S D F : Type 0} (E : Engine C B S D F) (L : Laws E) where
  publish-IsSound :
      (now : ℕ) (m : GgufModel C) (session : Option ℕ) (tokens : List ℕ) (c : C)
      → IsSound E L m
      → ((id : ℕ) → session ≡ some id → get id m.session_cache ≡ none)
      → (is_some session ≡ true → 0 < m.session_cache_config.max_entries)
      → L.sequence c 2 ≡ tokens
      → IsSound E L (publish E now m session tokens c).0
  unfolding publish
  publish-IsSound now m none tokens c s absent enabled held = s
  publish-IsSound now m (some id) tokens c s absent enabled held =
      elim (Bool-cases (exceeds_budget E m)) [
        | inl over ↦ rw (publish, over) s
        | inr fits ↦
            let bytes = estimated_cache_bytes m in
            let roomy = make_room bytes m in
            let made =
              make_room-MadeRoom bytes m s.distinct
                (record { entries = enabled refl; bytes = λ limited. ground arith }) in
            let sound = roomy-IsSound E L bytes m roomy made s in
            elim (Result-cases (commit E c)) [
              | inr (e, h) ↦ rw (publish, fits, h) sound
              | inl (committed, h) ↦
                  let new : get id roomy.session_cache ≡ none =
                    elim (Option-cases (get id roomy.session_cache)) [
                      | inl gone ↦ gone
                      | inr (entry, at) ↦
                          absurd (ground (arith, made.kept id entry at, absent id refl))
                    ] in
                  rw (publish, fits, h)
                    (insert-IsSound E L id
                      (record {
                        context = committed;
                        tokens = tokens;
                        estimated_bytes = bytes;
                        last_used = now;
                      })
                      roomy _ refl refl new
                      (needs_room-HasRoom E L bytes roomy
                        (HasPlace-needs_room bytes roomy made.place))
                      (commit_lem E L c committed h ∙ held) sound)
            ]
      ]

  drop_guard-IsSound :
      (reused committed : Bool) (m : GgufModel C)
      → IsSound E L m
      → IsSound E L (drop_guard reused committed m)
  unfolding drop_guard
  drop_guard-IsSound reused committed m s = same-IsSound E L m _ (ground arith) (ground arith) s

  -- A session is looked up only where the cache may hold one.
  cached_session-enabled :
      (m : GgufModel C) (session_id : Option ℕ) (tokens : List ℕ)
      → is_some (cached_session m session_id tokens) ≡ true
      → 0 < m.session_cache_config.max_entries
  unfolding cached_session
  cached_session-enabled m session_id tokens h = ground arith

  module _ (V : Type 0) where
    conclude-IsSound :
        (now : ℕ) (m : GgufModel C) (session : Option ℕ) (tokens : List ℕ) (reused : Bool)
        (sent : List Text) (g : Generated C)
        → IsSound E L (publish E now m session tokens g.context).0
        → IsSound E L (conclude E {V = V} now m session tokens reused sent g).model
    unfolding conclude
    conclude-IsSound now m session tokens reused sent g s =
        let p = publish E now m session tokens g.context in
        elim (Result-cases p.1) [
          | inr (e, h) ↦ rw (conclude, h) (drop_guard-IsSound reused false p.0 s)
          | inl (committed, h) ↦ rw (conclude, h) (drop_guard-IsSound reused committed p.0 s)
        ]

    generate_from-IsSound :
        (now : ℕ) (stops : ℕ → Bool) (callback : List Text → Text → Result (Unit {0}) Text)
        (config : GgufGenerationConfig F) (m : GgufModel C) (session_id : Option ℕ)
        (tokens : List ℕ)
        → IsSound E L m
        → 0 < length tokens
        → length tokens < 2 ^ 32
        → IsSound E L (generate_from E {V = V} now stops callback config m session_id tokens).model
    unfolding generate_from expire_idle
    generate_from-IsSound now stops callback config m session_id tokens s more small =
        let session = cached_session m session_id tokens in
        let expired = expire_idle now m in
        let sound = expire_idle-IsSound E L now m s in
        let taken = checkout E expired session tokens in
        let t = checkout-Taken E L expired session tokens sound in
        elim (Result-cases taken.1) [
          | inr (e, h) ↦ rw (generate_from, h) t.sound
          | inl (c, h) ↦
              let holds = checkout-Holds E L expired session tokens c sound.committed h in
              let after =
                infer E m.context_tokens stops callback config c.prefix tokens c.context in
              let i =
                infer-Inferred E L m.context_tokens stops callback config c.prefix tokens c.context
                  holds more small in
              elim (Result-cases after.1) [
                | inr (e, g) ↦
                    rw (generate_from, h, g)
                      (drop_guard-IsSound (ltb 0 c.prefix) false taken.0 t.sound)
                | inl (g, e) ↦
                    let (_, _, _, held) = i.succeeds g e in
                    rw (generate_from, h, e)
                      (conclude-IsSound now taken.0 session tokens (ltb 0 c.prefix) after.0 g (
                        publish-IsSound now taken.0 session tokens g.context t.sound t.absent
                          (λ used.
                            rw t.settings.config (cached_session-enabled m session_id tokens used))
                          held))
              ]
        ]

    -- However a call ends, the cache stays sound: no session twice, no more sessions or bytes than the
    -- settings allow, and every cached context holds the tokens that are recorded with it.
    pub generate-IsSound :
        (now : ℕ) (stops : ℕ → Bool) (callback : List Text → Text → Result (Unit {0}) Text)
        (config : GgufGenerationConfig F) (m : GgufModel C) (session_id : Option ℕ) (prompt : Text)
        → IsSound E L m
        → m.context_tokens < 2 ^ 32
        → IsSound E L (generate E {V = V} now stops callback config m session_id prompt).model
    unfolding generate tokenize count_bypass
    generate-IsSound now stops callback config m session_id prompt s small =
        elim (Result-cases (tokenize E stops prompt)) [
          | inr (e, h) ↦ rw (generate, h) s
          | inl (tokens, h) ↦
              let counted = count_bypass E m session_id tokens in
              let sound = same-IsSound E L m counted (ground arith) (ground arith) s in
              let filled : is_empty tokens ≡ false = ground arith in
              elim (Bool-cases (leb m.context_tokens (length tokens))) [
                | inl full ↦ rw (generate, h, full) sound
                | inr room ↦
                    rw (generate, h, room)
                      (generate_from-IsSound now stops callback config counted session_id tokens
                        sound (not_empty tokens filled) (ground arith))
              ]
        ]
