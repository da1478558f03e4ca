-- ===== src/Prelude/Lists.antt =====
-- Lists over the native numbers, and membership and quantifiers by recursion.
use Prim.Native.Nat.{ℕ, suc, ◌+◌, ◌≤◌}
use mathlib.Core.Path.{◌≡◌, refl, ap}
use mathlib.Core.Logic.{◌⊎◌, ◌↔◌, inl, inr}
use mathlib.Core.Bool.{Bool, true, false, ◌&&◌, ◌||◌}
use mathlib.Core.List.{List, [], ◌∷◌, ◌++◌, map}
use native.Mathlib.Omega.{arith}
use decompute.Prelude.Tests.{if◌then◌else◌}

module _ {ℓ} {A : Type ℓ} where
  abbrev pub length : List A → ℕ
  length [] = 0
  length (x ∷ xs) = suc (length xs)

  pub length-append : (xs ys : List A) → length (xs ++ ys) ≡ length xs + length ys
  length-append [] ys = omega arith
  length-append (x ∷ xs) ys = omega (arith, length-append xs ys)

  -- Membership, with the place.
  abbrev pub In : A → List A → Type ℓ
  In a [] = ⊥ × Unit {ℓ}
  In a (x ∷ xs) = (a ≡ x) ⊎ In a xs

  -- A proof for each element.
  abbrev pub All {κ} : (A → Type κ) → List A → Type κ
  All Holds [] = Unit
  All Holds (a ∷ rest) = Holds a × All Holds rest

  -- `Iterator::any`, `all` and `filter`, over Boolean tests as in the source.
  unfoldable pub any : (A → Bool) → List A → Bool
  any p [] = false
  any p (x ∷ xs) = p x || any p xs

  unfoldable pub all : (A → Bool) → List A → Bool
  all p [] = true
  all p (x ∷ xs) = p x && all p xs

  unfoldable pub filter : (A → Bool) → List A → List A
  filter p [] = []
  filter p (x ∷ xs) = let rest = filter p xs in if p x then x ∷ rest else rest

  In-cons_if :
      (b : Bool) (a x : A) (xs : List A)
      → In a (if b then x ∷ xs else xs)
      → ((a ≡ x) × (b ≡ true)) ⊎ In a xs
  In-cons_if true a x xs (inl e) = inl (e, refl)
  In-cons_if true a x xs (inr h) = inr h
  In-cons_if false a x xs h = inr h

  pub In-filter : (p : A → Bool) (a : A) (xs : List A) → In a (filter p xs) → In a xs × (p a ≡ true)
  unfolding filter
  In-filter p a [] h = absurd h.0
  In-filter p a (x ∷ xs) h = elim (In-cons_if (p x) a x (filter p xs) h) [
    | inl (e, t) ↦ (inl e, rw e t)
    | inr r ↦ let ih = In-filter p a xs r in (inr ih.0, ih.1)
  ]

  pub filter-In : (p : A → Bool) (a : A) (xs : List A) → In a xs → p a ≡ true → In a (filter p xs)
  unfolding filter
  filter-In p a [] h t = absurd h.0
  filter-In p a (x ∷ xs) h t = ground (arith, filter-In p a xs)

  pub In-append : (a : A) (xs ys : List A) → In a (xs ++ ys) ↔ (In a xs ⊎ In a ys)
  In-append a [] ys = (λ h. inr h, λ h. elim h [ inl n ↦ absurd n.0 | inr at ↦ at ])
  In-append a (x ∷ xs) ys = ground (arith, In-append a xs ys)

  pub length-filter-le : (p : A → Bool) (xs : List A) → length (filter p xs) ≤ length xs
  unfolding filter
  length-filter-le p [] = omega arith
  length-filter-le p (x ∷ xs) = ground (arith, length-filter-le p xs)

module _ {ℓ} {A B : Type ℓ} where
  unfoldable pub flat_map : (A → List B) → List A → List B
  flat_map f [] = []
  flat_map f (x ∷ xs) = f x ++ flat_map f xs

  pub In-flat_map :
      (f : A → List B) (b : B) (xs : List A) → In b (flat_map f xs) → (a : A) × In a xs × In b (f a)
  unfolding flat_map
  In-flat_map f b [] h = absurd h.0
  In-flat_map f b (x ∷ xs) h = elim ((In-append b (f x) (flat_map f xs)).0 h) [
    | inl here ↦ (x, inl refl, here)
    | inr there ↦ let (a, at, b_at) = In-flat_map f b xs there in (a, inr at, b_at)
  ]

  pub flat_map-In :
      (f : A → List B) (b : B) (xs : List A) (a : A) → In a xs → In b (f a) → In b (flat_map f xs)
  unfolding flat_map
  flat_map-In f b [] a at h = absurd at.0
  flat_map-In f b (x ∷ xs) a (inl e) h = (In-append b (f x) (flat_map f xs)).1 (inl (rw e at h))
  flat_map-In f b (x ∷ xs) a (inr at) h =
      (In-append b (f x) (flat_map f xs)).1 (inr (flat_map-In f b xs a at h))

  pub In-map : (f : A → B) (b : B) (xs : List A) → In b (map f xs) → (a : A) × In a xs × (b ≡ f a)
  In-map f b [] h = absurd h.0
  In-map f b (x ∷ xs) (inl e) = (x, inl refl, e)
  In-map f b (x ∷ xs) (inr h) = let (a, at, e) = In-map f b xs h in (a, inr at, e)

  pub map-In : (f : A → B) (a : A) (xs : List A) → In a xs → In (f a) (map f xs)
  map-In f a [] at = absurd at.0
  map-In f a (x ∷ xs) (inl e) = inl (ap f e)
  map-In f a (x ∷ xs) (inr at) = inr (map-In f a xs at)
