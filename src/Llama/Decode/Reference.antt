-- ===== src/Llama/Decode/Reference.antt =====
-- The loop against the plain generation that samples from the whole text so far, each time.
use decompute.Prelude.{
  ℕ, zero, suc, Bool, true, false, Text, List, [], ◌∷◌, ◌++◌, length, leb, ◌≡◌, refl, sym, ap, ◌∙◌,
  inl, inr, arith, Result, ok, err, Bool-cases,
}
use mathlib.Core.Path.{subst}
use mathlib.Core.List.{append-nil, append_assoc}
use decompute.Llama.Engine.{Engine, Laws}
use decompute.Llama.Decode.{
  GenerateError, Loop, Round, goes_on, breaks, fails, step, generate_tokens,
}
use decompute.Llama.Decode.Rounds.{visible, Synced, Keeps, Stepped, step-Stepped, sampled, accepted}

abbrev pub concat : List Text → Text
concat [] = []
concat (piece ∷ pieces) = piece ++ concat pieces

module _ {C B S D F : Type 0} (E : Engine C B S D F) (L : Laws E) (maximum : ℕ) where
  -- At most `rounds` tokens, each sampled from the tokens before it: the pieces, and all tokens that
  -- the last sampling goes by. It ends with the end of the text, at a token without a piece, or where
  -- the context is full.
  unfoldable pub reference : ℕ → S → D → List ℕ → List Text × List ℕ
  reference zero sampler decoder history = ([], history)
  reference (suc rounds) sampler decoder history =
      let (drawn, token) = L.sample_at sampler history in
      let (next, decoded) = E.token_to_piece decoder token in
      elim (E.is_eog_token token) [
        | true ↦ ([], history)
        | false ↦ elim decoded [
          | err e ↦ ([], history)
          | ok piece ↦
              let after : List Text × List ℕ = elim (leb maximum (length history)) [
                | true ↦ ([], history)
                | false ↦ reference rounds (E.accept drawn token) next (history ++ token ∷ [])
              ] in
              (piece ∷ after.0, after.1)
        ]
      ]

  visible-append :
      (piece : Text) (pieces : List Text)
      → visible (piece ∷ pieces) ≡ visible (piece ∷ []) ++ visible pieces
  visible-append [] pieces = refl
  visible-append (c ∷ cs) pieces = refl

  -- The reference goes on with the token.
  record NextPiece (rounds : ℕ) (l : Loop C B S D) (history : List ℕ) (piece : Text) : Type 0 where
    pieces : List Text
    whole : List ℕ
    first : reference (suc rounds) l.sampler l.decoder history ≡ (piece ∷ pieces, whole)
    if_full : leb maximum (length history) ≡ true → (pieces ≡ []) × (whole ≡ history)
    if_room :
        leb maximum (length history) ≡ false
        → (pieces, whole)
          ≡ reference rounds
              (accepted E L l history).sampler
              (E.token_to_piece l.decoder (sampled E L l history)).0
              (history ++ sampled E L l history ∷ [])

  reference-NextPiece :
      (rounds : ℕ) (l : Loop C B S D) (history : List ℕ) (piece : Text)
      → E.is_eog_token (sampled E L l history) ≡ false
      → (E.token_to_piece l.decoder (sampled E L l history)).1 ≡ ok piece
      → NextPiece rounds l history piece
  unfolding reference
  reference-NextPiece rounds l history piece more d =
      elim (Bool-cases (leb maximum (length history))) [
        | inl full ↦ record {
          pieces = [];
          whole = history;
          first = rw (reference, more, d, full) refl;
          if_full = λ _. (refl, refl);
          if_room = λ h. absurd (ground arith);
        }
        | inr room ↦
            let after =
              reference rounds (accepted E L l history).sampler
                (E.token_to_piece l.decoder (sampled E L l history)).0
                (history ++ sampled E L l history ∷ []) in
            record {
              pieces = after.0;
              whole = after.1;
              first = rw (reference, more, d, room) refl;
              if_full = λ h. absurd (ground arith);
              if_room = λ _. refl;
            }
      ]

  module _ (stops : ℕ → Bool) (callback : List Text → Text → Result (Unit {0}) Text) where
    -- What the loop did, against the reference: the callback has got a first part of its pieces, and
    -- all of them if the loop ends well, with the same output.
    pub record Matches (l : Loop C B S D) (plain : List Text × List ℕ)
        (after : Loop C B S D × Result (Unit {0}) GenerateError) : Type 0 where
      pub unsent : List Text
      pub sent : after.0.sent ++ unsent ≡ l.sent ++ visible plain.0
      pub all_sent : after.1 ≡ ok tt → unsent ≡ []
      pub output : after.1 ≡ ok tt → after.0.output ≡ l.output ++ concat plain.0
      pub position : after.1 ≡ ok tt → after.0.position ≡ length plain.1
      pub keeps : after.1 ≡ ok tt → Keeps E L l after.0

    -- The loop after a round.
    abbrev after_round :
        ℕ → ℕ → Loop C B S D → Round → Loop C B S D × Result (Unit {0}) GenerateError
    after_round rounds asked next (fails e) = (next, err e)
    after_round rounds asked next breaks = (next, ok tt)
    after_round rounds asked next goes_on =
        generate_tokens E maximum stops callback rounds (suc (suc asked)) next

    nothing_sent :
        (l next : Loop C B S D) (plain : List Text × List ℕ) (e : GenerateError)
        → next.sent ≡ l.sent
        → Matches l plain (next, err e)
    nothing_sent l next plain e same = record {
      unsent = visible plain.0;
      sent = ap (λ x. x ++ visible plain.0) same;
      all_sent = λ h. cc;
      output = λ h. cc;
      position = λ h. cc;
      keeps = λ h. cc;
    }

    round-Matches :
        (rounds asked : ℕ) (l next : Loop C B S D) (history : List ℕ) (round : Round)
        → ((l' : Loop C B S D) (history' : List ℕ)
            → Synced E L l' history'
            → Matches l'
                (reference rounds l'.sampler l'.decoder history')
                (generate_tokens E maximum stops callback rounds (suc (suc asked)) l'))
        → Synced E L l history
        → Stepped E L maximum stops callback history l next round
        → Matches l
            (reference (suc rounds) l.sampler l.decoder history)
            (after_round rounds asked next round)
    unfolding reference generate_tokens
    round-Matches rounds asked l next history (fails e) rec s (inl (e', r, same)) =
        nothing_sent l next (reference (suc rounds) l.sampler l.decoder history) e same
    round-Matches rounds asked l next history (fails e) rec s (inr (inl (last, r, same))) =
        absurd (ground arith)
    round-Matches rounds asked l next history (fails e) rec s (inr (inr (more, inl same))) =
        nothing_sent l next (reference (suc rounds) l.sampler l.decoder history) e same
    round-Matches rounds asked l next history (fails e) rec s
          (inr (inr (more, inr (piece, d, same)))) =
        let n = reference-NextPiece rounds l history piece more d in
        rw n.first (record {
          unsent = visible n.pieces;
          sent =
              ap (λ x. x ++ visible n.pieces) same
              ∙ append_assoc l.sent (visible (piece ∷ [])) (visible n.pieces)
              ∙ ap (λ x. l.sent ++ x) (sym (visible-append piece n.pieces));
          all_sent = λ h. cc;
          output = λ h. cc;
          position = λ h. cc;
          keeps = λ h. cc;
        })
    round-Matches rounds asked l next history breaks rec s (inl (e', r, same)) =
        absurd (ground arith)
    round-Matches rounds asked l next history breaks rec s (inr (inl (last, r, same))) =
        rw (reference, last, same)
          (record {
            unsent = [];
            sent = refl;
            all_sent = λ h. refl;
            output = λ h. sym (append-nil l.output);
            position = λ h. s.position;
            keeps = λ h j ne. refl;
          })
    round-Matches rounds asked l next history breaks rec s
          (inr (inr (more, (piece, w, full, at)))) =
        let n = reference-NextPiece rounds l history piece more w.decoded in
        rw (n.first, (n.if_full full).0, (n.if_full full).1)
          (record {
            unsent = [];
            sent = append-nil next.sent ∙ w.sent;
            all_sent = λ h. refl;
            output = λ h. w.output ∙ ap (λ x. l.output ++ x) (sym (append-nil piece));
            position = λ h. at;
            keeps = λ h j ne. w.keeps j ne;
          })
    round-Matches rounds asked l next history goes_on rec s (inl (e', r, same)) =
        absurd (ground arith)
    round-Matches rounds asked l next history goes_on rec s (inr (inl (last, r, same))) =
        absurd (ground arith)
    round-Matches rounds asked l next history goes_on rec s (inr (inr (more, (piece, w, c)))) =
        let n = reference-NextPiece rounds l history piece more w.decoded in
        let tail : reference rounds next.sampler next.decoder
              (history ++ sampled E L l history ∷ [])
            ≡ (n.pieces, n.whole) =
          rw (c.sampler, c.decoder) (sym (n.if_room c.has_room)) in
        let m =
          subst
            (λ plain.
              Matches next plain
                (generate_tokens E maximum stops callback rounds (suc (suc asked)) next))
            tail (rec next (history ++ sampled E L l history ∷ []) c.synced) in
        rw n.first (record {
          unsent = m.unsent;
          sent =
              m.sent
              ∙ ap (λ x. x ++ visible n.pieces) w.sent
              ∙ append_assoc l.sent (visible (piece ∷ [])) (visible n.pieces)
              ∙ ap (λ x. l.sent ++ x) (sym (visible-append piece n.pieces));
          all_sent = m.all_sent;
          output = λ h.
              m.output h
              ∙ ap (λ x. x ++ concat n.pieces) w.output
              ∙ append_assoc l.output piece (concat n.pieces);
          position = m.position;
          keeps = λ h j ne. m.keeps h j ne ∙ w.keeps j ne;
        })

    pub generate_tokens-Matches :
        (rounds asked : ℕ) (l : Loop C B S D) (history : List ℕ)
        → Synced E L l history
        → Matches l
            (reference rounds l.sampler l.decoder history)
            (generate_tokens E maximum stops callback rounds asked l)
    unfolding generate_tokens reference
    generate_tokens-Matches zero asked l history s = record {
      unsent = [];
      sent = refl;
      all_sent = λ _. refl;
      output = λ _. sym (append-nil l.output);
      position = λ _. s.position;
      keeps = λ _ j ne. refl;
    }
    generate_tokens-Matches (suc rounds) asked l history s =
        round-Matches rounds asked l (step E maximum stops callback asked l).0 history
          (step E maximum stops callback asked l).1
          (generate_tokens-Matches rounds (suc (suc asked))) s
          (step-Stepped E L maximum stops callback asked l history s)
