-- ===== src/Prelude/Bytes.antt =====
-- Searches in byte strings, and UTF-8.
use decompute.Prelude.{
  ℕ, zero, suc, ◌+◌, ◌-◌, ◌*◌, ◌≤◌, Bool, true, false, ◌&&◌, Text, List, [], ◌∷◌, ◌++◌, Option,
  none, some, ℕ_discrete, ◌≡◌, refl, ap, arith, leb, ltb, ◌==◌, nat_eq, if◌then◌else◌, length,
}
use mathlib.Core.Option

module _ {ℓ} {A : Type ℓ} where
  abbrev pub take : ℕ → List A → List A
  take zero xs = []
  take (suc n) [] = []
  take (suc n) (x ∷ xs) = x ∷ take n xs

  abbrev pub drop : ℕ → List A → List A
  drop zero xs = xs
  drop (suc n) [] = []
  drop (suc n) (x ∷ xs) = drop n xs

  pub take-append-drop : (n : ℕ) (xs : List A) → take n xs ++ drop n xs ≡ xs
  take-append-drop zero xs = refl
  take-append-drop (suc n) [] = refl
  take-append-drop (suc n) (x ∷ xs) = ap (◌∷◌ x) (take-append-drop n xs)

  pub length-take : (n : ℕ) (xs : List A) → n ≤ length xs → length (take n xs) ≡ n
  length-take zero xs h = refl
  length-take (suc n) [] h = omega arith
  length-take (suc n) (x ∷ xs) h = omega (arith, length-take n xs)

  pub take-take : (n m : ℕ) (xs : List A) → n ≤ m → take n (take m xs) ≡ take n xs
  take-take zero m xs h = refl
  take-take (suc n) zero xs h = absurd (omega arith)
  take-take (suc n) (suc m) [] h = refl
  take-take (suc n) (suc m) (x ∷ xs) h = ap (◌∷◌ x) (take-take n m xs (omega arith))

  pub length-drop : (n : ℕ) (xs : List A) → length (drop n xs) ≡ length xs - n
  length-drop zero xs = omega arith
  length-drop (suc n) [] = omega arith
  length-drop (suc n) (x ∷ xs) = omega (arith, length-drop n xs)

unfoldable pub starts_with : List ℕ → List ℕ → Bool
starts_with [] bytes = true
starts_with (p ∷ ps) [] = false
starts_with (p ∷ ps) (b ∷ bytes) = let rest = starts_with ps bytes in if p == b then rest else false

-- `windows(k).position(|window| window == pattern)` for a pattern of `k > 0` bytes, and `str::find`:
-- the first place where the pattern stands.
unfoldable pub position : List ℕ → List ℕ → Option ℕ
unfolding starts_with
position pattern' [] = none
position pattern' (b ∷ bytes) =
    let rest = position pattern' bytes in
    if starts_with pattern' (b ∷ bytes) then some 0 else Option.map suc rest

pub starts_with-length : (p bytes : List ℕ) → starts_with p bytes ≡ true → length p ≤ length bytes
unfolding starts_with
starts_with-length [] bytes h = omega arith
starts_with-length (p ∷ ps) [] h = cc
starts_with-length (p ∷ ps) (b ∷ bytes) h = ground (arith, starts_with-length ps bytes)

pub starts_with-take_all :
    (p bytes : List ℕ) → starts_with p bytes ≡ true → p ≡ take (length p) bytes
unfolding starts_with
starts_with-take_all [] bytes h = refl
starts_with-take_all (p ∷ ps) [] h = cc
starts_with-take_all (p ∷ ps) (b ∷ bytes) h = ground (arith, starts_with-take_all ps bytes)

-- The pattern ends within the text.
pub position-length :
    (p bytes : List ℕ) (n : ℕ) → position p bytes ≡ some n → n + length p ≤ length bytes
unfolding position
position-length p [] n h = cc
position-length p (b ∷ bytes) n h =
    ground (arith, starts_with-length p (b ∷ bytes), position-length p bytes (n - 1))

-- The bytes that may follow a lead byte, and its own share of the scalar value.
pub record Lead : Type 0 where
  pub needed : ℕ
  pub low : ℕ
  pub high : ℕ
  pub share : ℕ

unfoldable pub lead : ℕ → Option Lead
lead b =
    if ltb b 0xc2
    then none
    else if ltb b 0xe0
    then some (record { needed = 1; low = 0x80; high = 0xbf; share = b - 0xc0 })
    else if b == 0xe0
    then some (record { needed = 2; low = 0xa0; high = 0xbf; share = 0 })
    else if b == 0xed
    then some (record { needed = 2; low = 0x80; high = 0x9f; share = 0xd })
    else if ltb b 0xf0
    then some (record { needed = 2; low = 0x80; high = 0xbf; share = b - 0xe0 })
    else if b == 0xf0
    then some (record { needed = 3; low = 0x90; high = 0xbf; share = 0 })
    else if ltb b 0xf4
    then some (record { needed = 3; low = 0x80; high = 0xbf; share = b - 0xf0 })
    else if b == 0xf4
    then some (record { needed = 3; low = 0x80; high = 0x8f; share = 4 })
    else none

-- `std::str::from_utf8`: inside a character, `needed` more bytes are due, the next from `low` to
-- `high`.
unfoldable pub decode_rest : ℕ → ℕ → ℕ → ℕ → List ℕ → Option Text
unfolding lead
decode_rest zero low high share [] = some []
decode_rest zero low high share (b ∷ bytes) = elim (ltb b 0x80) [
  | true ↦ Option.map (λ t. b ∷ t) (decode_rest 0 0 0 0 bytes)
  | false ↦ elim (lead b) [ none ↦ none | some l ↦ decode_rest l.needed l.low l.high l.share bytes ]
]
decode_rest (suc n) low high share [] = none
decode_rest (suc zero) low high share (b ∷ bytes) = elim (leb low b && leb b high) [
  | true ↦ Option.map (λ t. (share * 64 + (b - 0x80)) ∷ t) (decode_rest 0 0 0 0 bytes)
  | false ↦ none
]
decode_rest (suc (suc n)) low high share (b ∷ bytes) = elim (leb low b && leb b high) [
  | true ↦ decode_rest (suc n) 0x80 0xbf (share * 64 + (b - 0x80)) bytes
  | false ↦ none
]

unfoldable pub from_utf8 : List ℕ → Option Text
unfolding decode_rest
from_utf8 bytes = decode_rest 0 0 0 0 bytes

from_utf8_runs :
    from_utf8 (0x61 ∷ 0xc3 ∷ 0xa9 ∷ 0xe2 ∷ 0x80 ∷ 0xa6 ∷ []) ≡ some (0x61 ∷ 0xe9 ∷ 0x2026 ∷ [])
unfolding from_utf8 ℕ_discrete
from_utf8_runs = refl

starts_with-take :
    (p bytes : List ℕ) (n : ℕ) → starts_with p (take n bytes) ≡ true → starts_with p bytes ≡ true
unfolding starts_with
starts_with-take [] bytes n h = refl
starts_with-take (p ∷ ps) bytes zero h = cc
starts_with-take (p ∷ ps) [] (suc n) h = cc
starts_with-take (p ∷ ps) (b ∷ bytes) (suc n) h = ground (arith, starts_with-take ps bytes n)

-- It is the first place: the pattern is not in what stands before.
pub position-take :
    (p bytes : List ℕ) (n : ℕ) → position p bytes ≡ some n → position p (take n bytes) ≡ none
unfolding position
position-take p [] n h = cc
position-take p (b ∷ bytes) zero h = refl
position-take p (b ∷ bytes) (suc n) h =
    ground (arith, starts_with-take p (b ∷ bytes) (suc n), position-take p bytes n)

starts_with-append :
    (p bytes : List ℕ) → starts_with p bytes ≡ true → bytes ≡ p ++ drop (length p) bytes
unfolding starts_with
starts_with-append [] bytes h = refl
starts_with-append (p ∷ ps) [] h = cc
starts_with-append (p ∷ ps) (b ∷ bytes) h = ground (arith, starts_with-append ps bytes)

-- The pattern stands there.
pub position-append :
    (p bytes : List ℕ) (n : ℕ)
    → position p bytes ≡ some n
    → bytes ≡ take n bytes ++ (p ++ drop (n + length p) bytes)
unfolding position
position-append p [] n h = cc
position-append p (b ∷ bytes) zero h =
    let same : 0 + length p ≡ length p = omega arith in
    rw same (starts_with-append p (b ∷ bytes) (ground arith))
position-append p (b ∷ bytes) (suc n) h =
    let same : suc n + length p ≡ suc (n + length p) = omega arith in
    rw same (ap (◌∷◌ b) (position-append p bytes n (ground arith)))
