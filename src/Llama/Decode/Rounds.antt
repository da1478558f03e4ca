-- ===== src/Llama/Decode/Rounds.antt =====
-- What one round of the loop does to the sequences, the output and the pieces sent.
use decompute.Prelude.{
  ℕ, suc, Bool, true, false, Text, List, [], ◌∷◌, ◌++◌, length, length-append, leb, is_empty,
  if◌then◌else◌, ◌≡◌, ◌≢◌, refl, sym, ap, ◌∙◌, ◌⊎◌, inl, inr, arith, Result, ok, Result-cases,
  Bool-cases,
}
use mathlib.Core.List.{append-nil}
use decompute.Llama.Engine.{Engine, Laws}
use decompute.Llama.Decode.{
  GenerateError, check_cancelled, Loop, Round, goes_on, breaks, fails, feed, deliver, advance, emit,
  step,
}
use decompute.Llama.Decode.Prompt.{feed-Decoded}

-- The pieces that the callback gets.
abbrev pub visible : List Text → List Text
visible [] = []
visible (piece ∷ pieces) = if is_empty piece then visible pieces else piece ∷ visible pieces

module _ {C B S D F : Type 0} (E : Engine C B S D F) (L : Laws E) where
  -- Sequence 1 holds the text so far, and the logits are those of its last token.
  pub record Synced (l : Loop C B S D) (history : List ℕ) : Type 0 where
    pub held : L.sequence l.context 1 ≡ history
    pub seen : L.seen l.context ≡ history
    pub position : l.position ≡ length history

  -- Only sequence 1 is written to.
  abbrev pub Keeps : Loop C B S D → Loop C B S D → Type 0
  Keeps l next = (j : ℕ) → j ≢ 1 → L.sequence next.context j ≡ L.sequence l.context j

  -- What is sampled from the text so far.
  abbrev pub sampled : Loop C B S D → List ℕ → ℕ
  sampled l history = (L.sample_at l.sampler history).1

  abbrev pub with_sampler : S → Loop C B S D → Loop C B S D
  with_sampler sampler l = record l { sampler = sampler }

  abbrev pub accepted : Loop C B S D → List ℕ → Loop C B S D
  accepted l history =
      with_sampler (E.accept (L.sample_at l.sampler history).0 (sampled l history)) l

  module _ (maximum : ℕ) (stops : ℕ → Bool)
      (callback : List Text → Text → Result (Unit {0}) Text) where
    pub record GoesOn (history : List ℕ) (token : ℕ) (l next : Loop C B S D) : Type 0 where
      pub has_room : leb maximum (length history) ≡ false
      pub synced : Synced next (history ++ token ∷ [])
      pub keeps : Keeps l next
      pub sampler : next.sampler ≡ l.sampler
      pub decoder : next.decoder ≡ l.decoder
      pub output : next.output ≡ l.output
      pub sent : next.sent ≡ l.sent

    abbrev pub Advanced : List ℕ → ℕ → Loop C B S D → Loop C B S D → Round → Type 0
    Advanced history token l next (fails e) = next.sent ≡ l.sent
    Advanced history token l next breaks = (next ≡ l) × (leb maximum (length history) ≡ true)
    Advanced history token l next goes_on = GoesOn history token l next

    advance-Advanced :
        (asked token : ℕ) (l : Loop C B S D) (history : List ℕ)
        → Synced l history
        → Advanced history token l
            (advance E maximum stops callback asked token l).0
            (advance E maximum stops callback asked token l).1
    unfolding advance
    advance-Advanced asked token l history s = elim (Result-cases (check_cancelled stops asked)) [
      | inr (e, c) ↦ rw (advance, c) refl
      | inl (u, c) ↦ elim (Bool-cases (leb maximum l.position)) [
        | inl full ↦ rw (advance, c, full) (refl, rw s.position at full)
        | inr room ↦ elim (Result-cases (feed E l.batch token l.position l.context)) [
          | inr (e, f) ↦ rw (advance, c, room, f) refl
          | inl ((context, batch), f) ↦
              let d =
                feed-Decoded E L l.context context l.batch batch token l.position f
                  (s.position ∙ ap length (sym s.held)) in
              let same : L.sequence l.context 1 ++ token ∷ [] ≡ history ++ token ∷ [] =
                ap (λ x. x ++ token ∷ []) s.held in
              rw (advance, c, room, f)
                (record {
                  has_room = rw s.position at room;
                  synced = record {
                    held = d.held ∙ same;
                    seen = d.seen ∙ same;
                    position = omega (arith, s.position, length-append history (token ∷ []));
                  };
                  keeps = d.others;
                  sampler = refl;
                  decoder = refl;
                  output = refl;
                  sent = refl;
                })
        ]
      ]
    ]

    abbrev sent_with : Text → Loop C B S D → Loop C B S D
    sent_with piece l = record l { sent = l.sent ++ visible (piece ∷ []) }

    deliver_lem :
        (piece : Text) (l : Loop C B S D)
        → (deliver E maximum stops callback piece l).0 ≡ sent_with piece l
    unfolding deliver
    deliver_lem [] l = ap (λ s. record l { sent = s }) (sym (append-nil l.sent))
    deliver_lem (c ∷ cs) l = refl

    -- The round wrote a piece.
    pub record Wrote (token : ℕ) (l next : Loop C B S D) (piece : Text) : Type 0 where
      pub decoded : (E.token_to_piece l.decoder token).1 ≡ ok piece
      pub output : next.output ≡ l.output ++ piece
      pub sent : next.sent ≡ l.sent ++ visible (piece ∷ [])
      pub keeps : Keeps l next

    pub record Continued (history : List ℕ) (token : ℕ) (l next : Loop C B S D) : Type 0 where
      pub has_room : leb maximum (length history) ≡ false
      pub synced : Synced next (history ++ token ∷ [])
      pub sampler : next.sampler ≡ l.sampler
      pub decoder : next.decoder ≡ (E.token_to_piece l.decoder token).0

    abbrev pub Emitted : List ℕ → ℕ → Loop C B S D → Loop C B S D → Round → Type 0
    Emitted history token l next (fails e) =
        (next.sent ≡ l.sent)
        ⊎ ((piece : Text) × ((E.token_to_piece l.decoder token).1 ≡ ok piece)
            × (next.sent ≡ l.sent ++ visible (piece ∷ [])))
    Emitted history token l next breaks =
        (piece : Text) × Wrote token l next piece
        × (leb maximum (length history) ≡ true)
        × (next.position ≡ length history)
    Emitted history token l next goes_on =
        (piece : Text) × Wrote token l next piece × Continued history token l next

    abbrev written : D → Text → Loop C B S D → Loop C B S D
    written decoder piece l = record l { decoder = decoder; output = l.output ++ piece }

    Advanced-Emitted :
        (history : List ℕ) (token : ℕ) (l next : Loop C B S D) (piece : Text) (round : Round)
        → (E.token_to_piece l.decoder token).1 ≡ ok piece
        → Advanced history token
            (sent_with piece (written (E.token_to_piece l.decoder token).0 piece l))
            next
            round
        → Synced l history
        → Emitted history token l next round
    Advanced-Emitted history token l next piece (fails e) d a s = inr (piece, d, a)
    Advanced-Emitted history token l next piece breaks d (same, full) s = (
      piece,
      record {
        decoded = d;
        output = ap (λ x. x.output) same;
        sent = ap (λ x. x.sent) same;
        keeps = λ j ne. ap (λ x. L.sequence x.context j) same;
      },
      full,
      ap (λ x. x.position) same ∙ s.position,
    )
    Advanced-Emitted history token l next piece goes_on d a s = (
      piece,
      record { decoded = d; output = a.output; sent = a.sent; keeps = a.keeps },
      record { has_room = a.has_room; synced = a.synced; sampler = a.sampler; decoder = a.decoder },
    )

    emit-Emitted :
        (asked token : ℕ) (l : Loop C B S D) (history : List ℕ)
        → Synced l history
        → Emitted history token l
            (emit E maximum stops callback asked token l).0
            (emit E maximum stops callback asked token l).1
    unfolding emit
    emit-Emitted asked token l history s =
        elim (Result-cases (E.token_to_piece l.decoder token).1) [
          | inr (e, d) ↦ rw (emit, d) (inl refl)
          | inl (piece, d) ↦
              let w = written (E.token_to_piece l.decoder token).0 piece l in
              elim (Result-cases (deliver E maximum stops callback piece w).1) [
                | inr (e, v) ↦
                    rw (emit, d, v) (inr (piece, d, ap (λ x. x.sent) (deliver_lem piece w)))
                | inl (u, v) ↦
                    let ready : Synced (sent_with piece w) history = record {
                      held = s.held;
                      seen = s.seen;
                      position = s.position;
                    } in
                    rw (emit, d, v, deliver_lem piece w)
                      (Advanced-Emitted history token l _ piece _ d
                        (advance-Advanced asked token (sent_with piece w) history ready) s)
              ]
        ]

    -- Cancelled before the token, at the end of the text, or with a token that is emitted.
    abbrev pub Stepped : List ℕ → Loop C B S D → Loop C B S D → Round → Type 0
    Stepped history l next round =
        ((e : GenerateError) × (round ≡ fails e) × (next.sent ≡ l.sent))
        ⊎ ((E.is_eog_token (sampled l history) ≡ true)
            × (round ≡ breaks)
            × (next ≡ with_sampler (L.sample_at l.sampler history).0 l))
        ⊎ ((E.is_eog_token (sampled l history) ≡ false)
            × Emitted history (sampled l history) (accepted l history) next round)

    pub step-Stepped :
        (asked : ℕ) (l : Loop C B S D) (history : List ℕ)
        → Synced l history
        → Stepped history l
            (step E maximum stops callback asked l).0
            (step E maximum stops callback asked l).1
    unfolding step
    step-Stepped asked l history s =
        let drawn : E.sample l.sampler l.context ≡ L.sample_at l.sampler history =
          L.sample l.sampler l.context ∙ ap (L.sample_at l.sampler) s.seen in
        elim (Result-cases (check_cancelled stops asked)) [
          | inr (e, c) ↦ rw (step, c) (inl (e, refl, refl))
          | inl (u, c) ↦ elim (Bool-cases (E.is_eog_token (sampled l history))) [
            | inl last ↦ rw (step, c, drawn, last) (inr (inl (refl, refl, refl)))
            | inr more ↦
                let ready : Synced (accepted l history) history = record {
                  held = s.held;
                  seen = s.seen;
                  position = s.position;
                } in
                rw (step, c, drawn, more)
                  (inr (
                    inr (
                      refl,
                      emit-Emitted (suc asked) (sampled l history) (accepted l history) history
                          ready,
                    )))
          ]
        ]
