-- ===== src/Prelude/MinBy.antt =====
-- `Iterator::min_by_key`: the first of the least elements, by a strict order on the elements.
use decompute.Prelude.{
  Bool, true, false, List, [], ◌∷◌, Option, none, some, ◌≡◌, refl, inl, inr, arith, if◌then◌else◌,
  In,
}

module _ {ℓ} {A : Type ℓ} (lt : A → A → Bool) where
  unfoldable pub min_from : A → List A → A
  min_from x [] = x
  min_from x (y ∷ ys) = min_from (if lt y x then y else x) ys

  unfoldable pub min_by : List A → Option A
  unfolding min_from
  min_by [] = none
  min_by (x ∷ xs) = some (min_from x xs)

-- What a linear order on keys gives for `lt`.
pub record IsStrict {ℓ} {A : Type ℓ} (lt : A → A → Bool) : Type ℓ where
  pub irrefl : (a : A) → lt a a ≡ false
  pub asym : (a b : A) → lt a b ≡ true → lt b a ≡ false
  pub neg_trans : (a b c : A) → lt a b ≡ false → lt b c ≡ false → lt a c ≡ false

module _ {ℓ} {A : Type ℓ} (lt : A → A → Bool) where
  min_from-In : (x : A) (ys : List A) → In (min_from lt x ys) (x ∷ ys)
  unfolding min_from
  min_from-In x [] = inl refl
  min_from-In x (y ∷ ys) = ground (arith, min_from-In (if lt y x then y else x) ys)

  -- The result is an element of the list.
  pub min_by-In : (xs : List A) (a : A) → min_by lt xs ≡ some a → In a xs
  unfolding min_by
  min_by-In [] a h = cc
  min_by-In (x ∷ xs) a h = ground (arith, min_from-In x xs)

  pub min_by-eq-none : (xs : List A) → min_by lt xs ≡ none → xs ≡ []
  unfolding min_by
  min_by-eq-none [] h = refl
  min_by-eq-none (x ∷ xs) h = cc

  module _ (strict : IsStrict lt) where
    step_le :
        (x y r : A) → lt (if lt y x then y else x) r ≡ false → (lt x r ≡ false) × (lt y r ≡ false)
    step_le x y r h =
        ground (arith, strict.asym y x, strict.neg_trans x y r, strict.neg_trans y x r)

    min_from-le : (x : A) (ys : List A) → lt x (min_from lt x ys) ≡ false
    unfolding min_from
    min_from-le x [] = strict.irrefl x
    min_from-le x (y ∷ ys) = (step_le x y _ (min_from-le (if lt y x then y else x) ys)).0

    min_from-least : (x : A) (ys : List A) (z : A) → In z ys → lt z (min_from lt x ys) ≡ false
    unfolding min_from
    min_from-least x [] z h = absurd h.0
    min_from-least x (y ∷ ys) z (inl e) =
        let below = (step_le x y _ (min_from-le (if lt y x then y else x) ys)).1 in rw e below
    min_from-least x (y ∷ ys) z (inr h) = min_from-least (if lt y x then y else x) ys z h

    -- No element is below the result.
    pub min_by-least : (xs : List A) (a z : A) → min_by lt xs ≡ some a → In z xs → lt z a ≡ false
    unfolding min_by
    min_by-least [] a z h m = absurd m.0
    min_by-least (x ∷ xs) a z h (inl e) = ground (arith, min_from-le x xs)
    min_by-least (x ∷ xs) a z h (inr m) = ground (arith, min_from-least x xs z m)
