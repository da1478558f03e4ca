-- ===== src/Coordinator/Sse/Framing.antt =====
-- crates/coordinator/src/api.rs: what `sse_frame_end` and `sse_data` make of the events that a
-- worker writes, one "data: " line and an empty line each.
use decompute.Prelude.{
  ℕ_discrete, ℕ, ◌≤◌, Bool, true, false, ◌&&◌, not, Text, text, List, [], ◌∷◌, ◌++◌, none, some,
  ◌==◌, nat_eq, ok, trim_start, ◌≡◌, refl, ap, arith, length, length-append, all, ltb,
  is_whitespace, Option-cases, inl, inr,
}
use decompute.Prelude.Bytes.{position, position-length, starts_with, from_utf8, decode_rest}
use decompute.Coordinator.Sse.{
  sse_frame_end, sse_data, lines, on_first_line, data_lines, join_lines, joined,
}

-- A character of one byte that ends no line.
unfoldable pub is_plain : ℕ → Bool
is_plain c = ltb c 0x80 && not (c == 10) && not (c == 13)

unfoldable pub event : Text → List ℕ
event payload = text "data: " ++ payload ++ 10 ∷ 10 ∷ []

-- Where `sse_frame_end` finds a frame, the frame is not empty and stands in the buffer.
pub sse_frame_end-bounds :
    (bytes : List ℕ) (n : ℕ) → sse_frame_end bytes ≡ some n → (2 ≤ n) × (n ≤ length bytes)
unfolding sse_frame_end
sse_frame_end-bounds bytes n h = elim (Option-cases (position (10 ∷ 10 ∷ []) bytes)) [
  | inr (k, e) ↦ ground (arith, e, position-length (10 ∷ 10 ∷ []) bytes k e)
  | inl e ↦ elim (Option-cases (position (13 ∷ 10 ∷ 13 ∷ 10 ∷ []) bytes)) [
    | inr (k, f) ↦ ground (arith, e, f, position-length (13 ∷ 10 ∷ 13 ∷ 10 ∷ []) bytes k f)
    | inl f ↦ ground (arith, e, f)
  ]
]

position-plain :
    (xs rest : List ℕ)
    → all is_plain xs ≡ true
    → position (10 ∷ 10 ∷ []) (xs ++ 10 ∷ 10 ∷ rest) ≡ some (length xs)
unfolding position starts_with all is_plain
position-plain [] rest h = ground arith
position-plain (x ∷ xs) rest h = ground (arith, position-plain xs rest)

all-append : (xs ys : List ℕ) → all is_plain (xs ++ ys) ≡ (all is_plain xs && all is_plain ys)
unfolding all
all-append [] ys = refl
all-append (x ∷ xs) ys = ground (arith, all-append xs ys)

-- A proper prefix of an event and of its empty line has no empty line.
position-prefix :
    (p q xs : List ℕ) (c : ℕ)
    → all is_plain xs ≡ true
    → p ++ c ∷ q ≡ xs ++ 10 ∷ 10 ∷ []
    → position (10 ∷ 10 ∷ []) p ≡ none
unfolding position starts_with all is_plain
position-prefix [] q xs c h e = refl
position-prefix (b ∷ []) q xs c h e = ground arith
position-prefix (b ∷ b' ∷ p) q [] c h e = ground arith
position-prefix (b ∷ b' ∷ p) q (x ∷ xs) c h e = ground (arith, position-prefix (b' ∷ p) q xs c)

no_return-prefix :
    (p q xs : List ℕ) (c : ℕ)
    → all is_plain xs ≡ true
    → p ++ c ∷ q ≡ xs ++ 10 ∷ 10 ∷ []
    → position (13 ∷ 10 ∷ 13 ∷ 10 ∷ []) p ≡ none
unfolding position starts_with all is_plain
no_return-prefix [] q xs c h e = refl
no_return-prefix (b ∷ []) q xs c h e = ground arith
no_return-prefix (b ∷ b' ∷ p) q [] c h e = ground arith
no_return-prefix (b ∷ b' ∷ p) q (x ∷ xs) c h e = ground (arith, no_return-prefix (b' ∷ p) q xs c)

decode-plain : (xs : List ℕ) → all is_plain xs ≡ true → decode_rest 0 0 0 0 xs ≡ some xs
unfolding decode_rest all is_plain
decode-plain [] h = refl
decode-plain (x ∷ xs) h = ground (arith, decode-plain xs)

decode-event :
    (xs : List ℕ)
    → all is_plain xs ≡ true
    → from_utf8 (xs ++ 10 ∷ 10 ∷ []) ≡ some (xs ++ 10 ∷ 10 ∷ [])
unfolding from_utf8 decode_rest all is_plain
decode-event [] h = ground arith
decode-event (x ∷ xs) h = ground (arith, decode-event xs)

lines-event :
    (x : ℕ) (xs : List ℕ)
    → all is_plain (x ∷ xs) ≡ true
    → lines (x ∷ xs ++ 10 ∷ 10 ∷ []) ≡ (x ∷ xs) ∷ [] ∷ []
unfolding lines on_first_line starts_with all is_plain
lines-event x [] h = ground arith
lines-event x (y ∷ xs) h = ground (arith, lines-event y xs)

abbrev line : Text → List ℕ
line payload = text "data: " ++ payload

line-IsPlain : (payload : Text) → all is_plain payload ≡ true → all is_plain (line payload) ≡ true
unfolding is_plain all
line-IsPlain payload h = ground (arith, h)

append_assoc : (xs ys zs : List ℕ) → (xs ++ ys) ++ zs ≡ xs ++ (ys ++ zs)
append_assoc [] ys zs = refl
append_assoc (x ∷ xs) ys zs = ap (◌∷◌ x) (append_assoc xs ys zs)

-- The frame that `sse_frame_end` finds in a buffer that starts with an event is the event, whatever
-- follows it, where the payload is ASCII and of one line.
pub sse_frame_end-event :
    (payload : Text) (rest : List ℕ)
    → all is_plain payload ≡ true
    → sse_frame_end (event payload ++ rest) ≡ some (length (event payload))
unfolding sse_frame_end event
sse_frame_end-event payload rest h = ground (
  arith,
  append_assoc payload (10 ∷ 10 ∷ []) rest,
  position-plain (line payload) rest (line-IsPlain payload h),
  length-append payload (10 ∷ 10 ∷ []),
)

-- While a part of an event is yet to come, `sse_frame_end` finds no frame in the part that has,
-- where the payload is ASCII and of one line.
pub sse_frame_end-prefix :
    (payload p q : List ℕ) (c : ℕ)
    → all is_plain payload ≡ true
    → p ++ c ∷ q ≡ event payload
    → sse_frame_end p ≡ none
unfolding sse_frame_end event
sse_frame_end-prefix payload p q c h e = ground (
  arith,
  position-prefix p q (line payload) c (line-IsPlain payload h) e,
  no_return-prefix p q (line payload) c (line-IsPlain payload h) e,
)

-- `sse_data` reads the payload back from an event, where the payload is ASCII, of one line, not
-- empty and does not start with white space.
pub sse_data-event :
    (error : List ℕ → Text) (c : ℕ) (payload : Text)
    → all is_plain (c ∷ payload) ≡ true
    → is_whitespace c ≡ false
    → sse_data error (event (c ∷ payload)) ≡ ok (some (c ∷ payload))
unfolding sse_data event data_lines starts_with joined join_lines trim_start is_whitespace
    ℕ_discrete
sse_data-event error c payload h s =
    rw
      (
        decode-event (line (c ∷ payload)) (line-IsPlain (c ∷ payload) h),
        lines-event 100 (text "ata: " ++ c ∷ payload) (line-IsPlain (c ∷ payload) h),
      )
      ground (arith, s)
