-- ===== src/Prelude/Texts.antt =====
-- Rust's `String` as the list of its Unicode scalar values. UTF-8 keeps their order, so the
-- lexicographic order below is that of `str`.
use Prim.Native.Char.{code}
use Prim.Native.String.{String}
use Prim.Native.Nat.{ℕ, zero, suc, ◌+◌, ◌/◌, ◌%◌}
use mathlib.Core.Path.{◌≡◌, refl}
use mathlib.Core.Bool.{Bool, true, false, ◌&&◌, ◌||◌}
use mathlib.Core.List.{List, [], ◌∷◌, reverse}
use native.Mathlib.Omega.{arith}
use native.Mathlib.Decide.{ℕ_discrete}
use decompute.Prelude.Tests.{Eq, ltb, leb, ◌==◌, nat_eq, if◌then◌else◌}

abbrev pub Text : Type 0
Text = List ℕ

abbrev pub text : String → Text
text String.[] = []
text (String.◌∷◌ c s) = code c ∷ text s

unfoldable pub text_discrete : Discrete Text
text_discrete = hlevel ℕ_discrete

instance abbrev pub text_eq : Eq Text
text_eq = record { decide = text_discrete }

-- `str::cmp`, as its strict order.
unfoldable pub text_lt : Text → Text → Bool
text_lt [] [] = false
text_lt [] (b ∷ bs) = true
text_lt (a ∷ as') [] = false
text_lt (a ∷ as') (b ∷ bs) = let rest = text_lt as' bs in if a == b then rest else ltb a b

pub text_lt_irrefl : (a : Text) → text_lt a a ≡ false
unfolding text_lt
text_lt_irrefl [] = refl
text_lt_irrefl (a ∷ as') = ground (arith, text_lt_irrefl as')

pub text_lt_trans : (a b c : Text) → text_lt a b ≡ true → text_lt b c ≡ true → text_lt a c ≡ true
unfolding text_lt
text_lt_trans [] [] c p q = ground arith
text_lt_trans [] (b ∷ bs) [] p q = ground arith
text_lt_trans [] (b ∷ bs) (c ∷ cs) p q = refl
text_lt_trans (a ∷ as') [] c p q = ground arith
text_lt_trans (a ∷ as') (b ∷ bs) [] p q = ground arith
text_lt_trans (a ∷ as') (b ∷ bs) (c ∷ cs) p q = ground (arith, text_lt_trans as' bs cs)

pub text_lt-total : (a b : Text) → text_lt a b ≡ false → text_lt b a ≡ false → a ≡ b
unfolding text_lt
text_lt-total [] [] p q = refl
text_lt-total [] (b ∷ bs) p q = ground arith
text_lt-total (a ∷ as') [] p q = ground arith
text_lt-total (a ∷ as') (b ∷ bs) p q = ground (arith, text_lt-total as' bs)

-- `char::is_whitespace`: the Unicode property White_Space.
unfoldable pub is_whitespace : ℕ → Bool
is_whitespace c =
    (leb 0x9 c && leb c 0xd)
    || c == 0x20
    || c == 0x85
    || c == 0xa0
    || c == 0x1680
    || (leb 0x2000 c && leb c 0x200a)
    || c == 0x2028
    || c == 0x2029
    || c == 0x202f
    || c == 0x205f
    || c == 0x3000

unfoldable pub trim_start : Text → Text
trim_start [] = []
trim_start (c ∷ cs) = let rest = trim_start cs in if is_whitespace c then rest else c ∷ cs

unfoldable pub trim_end : Text → Text
unfolding trim_start
trim_end cs = reverse (trim_start (reverse cs))

unfoldable pub trim : Text → Text
unfolding trim_start trim_end
trim cs = trim_end (trim_start cs)

trim_runs : trim (text " a b\n") ≡ text "a b"
unfolding trim is_whitespace ℕ_discrete
trim_runs = refl

text_eq_runs : (text "a b" == text "a b") ≡ true
unfolding text_discrete ℕ_discrete
text_eq_runs = refl

-- The `Display` of `usize`: its digits, with `acc` behind them. A number has fewer digits than its
-- value plus one.
unfoldable pub decimal_from : ℕ → ℕ → Text → Text
decimal_from zero n acc = acc
decimal_from (suc fuel) n acc =
    let rest = decimal_from fuel (n / 10) ((48 + n % 10) ∷ acc) in
    if ltb n 10 then (48 + n) ∷ acc else rest

unfoldable pub decimal : ℕ → Text
unfolding decimal_from
decimal n = decimal_from (suc n) n []

decimal_runs : decimal 1207 ≡ text "1207"
unfolding decimal
decimal_runs = refl
