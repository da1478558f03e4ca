-- ===== src/Prelude/Results.antt =====
-- Rust's `Result`, `?` as the bind of a `do` block, and sets as lists of their members.
use Prim.Native.Nat.{◌+◌}
use mathlib.Core.Path.{◌≡◌, refl}
use mathlib.Core.Bool.{Bool, true, false, not, ◌||◌, ◌&&◌}
use mathlib.Core.Option.{Option, none, some}
use mathlib.Core.Logic.{◌⊎◌, inl, inr, ◌↔◌}
use mathlib.Core.List.{List, [], ◌∷◌, ◌++◌}
use native.Mathlib.Omega.{arith}
use decompute.Prelude.Tests.{Eq, ◌==◌, if◌then◌else◌}
use decompute.Prelude.Lists.{In, filter, length}

pub data Result {ℓ} (A E : Type ℓ) : Type ℓ where
  ok : A → Result A E
  err : E → Result A E

infixl 5 ◌>>=◌ ◌>>◌
abbrev pub ◌>>=◌ {ℓ} : {A B E : Type ℓ} → Result A E → (A → Result B E) → Result B E
err e >>= next = err e
ok value >>= next = next value

abbrev pub ◌>>◌ {ℓ} : {A B E : Type ℓ} → Result A E → Result B E → Result B E
m >> k = m >>= λ _. k

abbrev pub or_fail {ℓ} : {A E : Type ℓ} → Option A → E → Result A E
or_fail none e = err e
or_fail (some a) e = ok a

abbrev pub map_err {ℓ} : {A E F : Type ℓ} → (E → F) → Result A E → Result A F
map_err f (ok a) = ok a
map_err f (err e) = err (f e)

pub Result-cases {ℓ} :
    {A E : Type ℓ} (r : Result A E) → ((a : A) × (r ≡ ok a)) ⊎ ((e : E) × (r ≡ err e))
Result-cases (ok a) = inl (a, refl)
Result-cases (err e) = inr (e, refl)

-- Inversion of a successful bind: the value that went on.
pub >>=-eq-ok {ℓ} :
    {A B E : Type ℓ} (r : Result A E) (next : A → Result B E) {last : B}
    → (r >>= next) ≡ ok last
    → (value : A) × (r ≡ ok value) × (next value ≡ ok last)
>>=-eq-ok (err e) next h = cc
>>=-eq-ok (ok value) next h = (value, refl, h)

module _ {ℓ} {A : Type ℓ} where
  abbrev pub is_empty : List A → Bool
  is_empty [] = true
  is_empty (x ∷ xs) = false

module _ {ℓ} {A : Type ℓ} ⦃e : Eq A⦄ where
  unfoldable pub contains : A → List A → Bool
  contains a [] = false
  contains a (x ∷ xs) = a == x || contains a xs

  -- `HashSet::remove`.
  unfoldable pub discard : A → List A → List A
  unfolding filter
  discard a = filter (λ x. not (a == x))

  pub contains_iff : (a : A) (xs : List A) → (contains a xs ≡ true) ↔ In a xs
  unfolding contains
  contains_iff a [] = (λ h. cc, λ h. absurd h.0)
  contains_iff a (x ∷ xs) = ground (arith, contains_iff a xs)

  pub contains-append :
      (a : A) (xs ys : List A) → contains a (xs ++ ys) ≡ (contains a xs || contains a ys)
  unfolding contains
  contains-append a [] ys = refl
  contains-append a (x ∷ xs) ys = ground (arith, contains-append a xs ys)

  pub contains-discard :
      (a b : A) (xs : List A) → contains b (discard a xs) ≡ (not (a == b) && contains b xs)
  unfolding contains discard
  contains-discard a b [] = ground arith
  contains-discard a b (x ∷ xs) = ground (arith, contains-discard a b xs)

module _ {ℓ} {A : Type ℓ} ⦃e : Eq A⦄ where
  -- Takes out the first occurrence.
  unfoldable pub erase : A → List A → List A
  erase a [] = []
  erase a (x ∷ xs) = let rest = erase a xs in if a == x then xs else x ∷ rest

  pub length-erase :
      (a : A) (xs : List A) → contains a xs ≡ true → length (erase a xs) + 1 ≡ length xs
  unfolding contains erase
  length-erase a [] h = cc
  length-erase a (x ∷ xs) h = ground (arith, length-erase a xs)
