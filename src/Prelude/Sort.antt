-- ===== src/Prelude/Sort.antt =====
-- `Vec::sort` on strings and `Vec::dedup`.
use decompute.Prelude.{
  true, false, Text, text_lt, text_lt_trans, text_lt-total, text_lt_irrefl, text_eq, List, [], ◌∷◌,
  ◌≡◌, refl, ◌↔◌, ◌⊎◌, inl, inr, arith, ◌==◌, if◌then◌else◌, In, Bool-cases,
}

insert_text : Text → List Text → List Text
insert_text x [] = x ∷ []
insert_text x (y ∷ ys) = let rest = insert_text x ys in if text_lt y x then y ∷ rest else x ∷ y ∷ ys

unfoldable pub sort : List Text → List Text
unfolding insert_text
sort [] = []
sort (x ∷ xs) = insert_text x (sort xs)

unfoldable pub dedup : List Text → List Text
dedup [] = []
dedup (x ∷ []) = x ∷ []
dedup (x ∷ y ∷ ys) = let rest = dedup (y ∷ ys) in if x == y then rest else x ∷ rest

-- No element is below one that stands before it.
abbrev pub IsSorted : List Text → Type 0
IsSorted [] = Unit
IsSorted (x ∷ []) = Unit
IsSorted (x ∷ y ∷ ys) = (text_lt y x ≡ false) × IsSorted (y ∷ ys)

-- Every element is below those after it.
abbrev pub IsAscending : List Text → Type 0
IsAscending [] = Unit
IsAscending (x ∷ []) = Unit
IsAscending (x ∷ y ∷ ys) = (text_lt x y ≡ true) × IsAscending (y ∷ ys)

text_lt-asym : (a b : Text) → text_lt a b ≡ true → text_lt b a ≡ false
text_lt-asym a b h = elim (Bool-cases (text_lt b a)) [
  | inl back ↦ cc (text_lt_trans a b a h back, text_lt_irrefl a)
  | inr done ↦ done
]

insert_text-IsSorted : (x : Text) (ys : List Text) → IsSorted ys → IsSorted (insert_text x ys)
unfolding insert_text
insert_text-IsSorted x [] s = tt
insert_text-IsSorted x (y ∷ []) s = ground (arith, text_lt-asym y x)
insert_text-IsSorted x (y ∷ z ∷ zs) s =
    ground (arith, text_lt-asym y x, insert_text-IsSorted x (z ∷ zs) s.1)

sort-IsSorted : (xs : List Text) → IsSorted (sort xs)
unfolding sort
sort-IsSorted [] = tt
sort-IsSorted (x ∷ xs) = insert_text-IsSorted x (sort xs) (sort-IsSorted xs)

dedup_head : (y : Text) (ys : List Text) → (r : List Text) × (dedup (y ∷ ys) ≡ y ∷ r)
unfolding dedup
dedup_head y [] = ([], refl)
dedup_head y (z ∷ zs) = elim (Bool-cases (y == z)) [
  | inl same ↦ let (r, e) = dedup_head z zs in (r, ground arith)
  | inr other ↦ (dedup (z ∷ zs), ground arith)
]

above : (x y : Text) → text_lt y x ≡ false → (x == y) ≡ false → text_lt x y ≡ true
above x y h other = ground (arith, text_lt-total x y)

cons-IsAscending :
    (x y : Text) (ys r : List Text)
    → ys ≡ y ∷ r
    → text_lt x y ≡ true
    → IsAscending ys
    → IsAscending (x ∷ ys)
cons-IsAscending x y [] r e h a = tt
cons-IsAscending x y (z ∷ zs) r e h a = (ground arith, a)

dedup-IsAscending : (xs : List Text) → IsSorted xs → IsAscending (dedup xs)
unfolding dedup
dedup-IsAscending [] s = tt
dedup-IsAscending (x ∷ []) s = tt
dedup-IsAscending (x ∷ y ∷ ys) s =
    let ih = dedup-IsAscending (y ∷ ys) s.1 in
    let (r, e) = dedup_head y ys in
    elim (Bool-cases (x == y)) [
      | inl same ↦ rw same ih
      | inr other ↦ rw other (cons-IsAscending x y (dedup (y ∷ ys)) r e (above x y s.0 other) ih)
    ]

pub dedup-sort-IsAscending : (xs : List Text) → IsAscending (dedup (sort xs))
dedup-sort-IsAscending xs = dedup-IsAscending (sort xs) (sort-IsSorted xs)

In-insert_text : (a x : Text) (ys : List Text) → In a (insert_text x ys) ↔ ((a ≡ x) ⊎ In a ys)
unfolding insert_text
In-insert_text a x [] = (λ h. h, λ h. h)
In-insert_text a x (y ∷ ys) = ground (arith, In-insert_text a x ys)

pub In-sort : (a : Text) (xs : List Text) → In a (sort xs) ↔ In a xs
unfolding sort
In-sort a [] = (λ h. h, λ h. h)
In-sort a (x ∷ xs) = ground (arith, In-insert_text a x (sort xs), In-sort a xs)

In-dedup : (a : Text) (xs : List Text) → In a (dedup xs) ↔ In a xs
unfolding dedup
In-dedup a [] = (λ h. h, λ h. h)
In-dedup a (x ∷ []) = (λ h. h, λ h. h)
In-dedup a (x ∷ y ∷ ys) = ground (arith, In-dedup a (y ∷ ys))

pub In-dedup-sort : (a : Text) (xs : List Text) → In a (dedup (sort xs)) ↔ In a xs
In-dedup-sort a xs = (
  λ h. (In-sort a xs).0 ((In-dedup a (sort xs)).0 h),
  λ h. (In-dedup a (sort xs)).1 ((In-sort a xs).1 h),
)
