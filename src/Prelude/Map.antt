-- ===== src/Prelude/Map.antt =====
-- Rust's `HashMap` as an association list in its order of iteration, which the program cannot rely
-- on. `Distinct` holds of the lists that stand for a map: no key twice.
use mathlib.Core.Path.{◌≡◌, refl}
use mathlib.Core.Logic.{inl, inr}
use Prim.Native.Nat.{◌+◌}
use mathlib.Core.Bool.{Bool, true}
use mathlib.Core.Option.{Option, none, some}
use mathlib.Core.Option
use mathlib.Core.List.{List, [], ◌∷◌}
use native.Mathlib.Omega.{arith}
use decompute.Prelude.Tests.{Eq, ◌==◌, Option-cases, if◌then◌else◌}
use decompute.Prelude.Lists.{In, length}

module _ {ℓ} {K V : Type ℓ} where
  unfoldable pub values : List (K × V) → List V
  values [] = []
  values ((k, v) ∷ m) = v ∷ values m

  unfoldable pub retain : (K → V → Bool) → List (K × V) → List (K × V)
  retain p [] = []
  retain p ((k, v) ∷ m) = let rest = retain p m in if p k v then (k, v) ∷ rest else rest

  unfoldable pub map_values : (V → V) → List (K × V) → List (K × V)
  map_values f [] = []
  map_values f ((k, v) ∷ m) = (k, f v) ∷ map_values f m

module _ {ℓ} {K V : Type ℓ} ⦃e : Eq K⦄ where
  unfoldable pub get : K → List (K × V) → Option V
  get k [] = none
  get k ((j, v) ∷ m) = let rest = get k m in if j == k then some v else rest

  unfoldable pub insert : K → V → List (K × V) → List (K × V)
  insert k v [] = (k, v) ∷ []
  insert k v ((j, w) ∷ m) = let rest = insert k v m in if j == k then (k, v) ∷ m else (j, w) ∷ rest

  -- `get_mut` and a write through the reference.
  unfoldable pub modify : K → (V → V) → List (K × V) → List (K × V)
  modify k f [] = []
  modify k f ((j, v) ∷ m) =
      let rest = modify k f m in if j == k then (j, f v) ∷ m else (j, v) ∷ rest

  unfoldable pub remove : K → List (K × V) → List (K × V)
  remove k [] = []
  remove k ((j, v) ∷ m) = let rest = remove k m in if j == k then m else (j, v) ∷ rest

  abbrev pub Distinct : List (K × V) → Type ℓ
  Distinct [] = Unit
  Distinct ((k, v) ∷ m) = (get k m ≡ none) × Distinct m

  pub get-insert :
      (k j : K) (v : V) (m : List (K × V))
      → get j (insert k v m) ≡ (if k == j then some v else get j m)
  unfolding get insert
  get-insert k j v [] = refl
  get-insert k j v ((i, w) ∷ m) = ground (arith, get-insert k j v m)

  pub get-modify :
      (k j : K) (f : V → V) (m : List (K × V))
      → get j (modify k f m) ≡ (if k == j then Option.map f (get j m) else get j m)
  unfolding get modify
  get-modify k j f [] = ground arith
  get-modify k j f ((i, w) ∷ m) = ground (arith, get-modify k j f m)

  pub get-map_values :
      (j : K) (f : V → V) (m : List (K × V)) → get j (map_values f m) ≡ Option.map f (get j m)
  unfolding get map_values
  get-map_values j f [] = refl
  get-map_values j f ((i, w) ∷ m) = ground (arith, get-map_values j f m)

  -- What `retain` keeps.
  abbrev pub kept : (K → V → Bool) → K → Option V → Option V
  kept p k none = none
  kept p k (some v) = if p k v then some v else none

  pub get-retain-none :
      (p : K → V → Bool) (j : K) (m : List (K × V)) → get j m ≡ none → get j (retain p m) ≡ none
  unfolding get retain
  get-retain-none p j [] h = refl
  get-retain-none p j ((i, w) ∷ m) h = ground (arith, get-retain-none p j m)

  pub get-retain :
      (p : K → V → Bool) (j : K) (m : List (K × V))
      → Distinct m
      → get j (retain p m) ≡ kept p j (get j m)
  unfolding get retain
  get-retain p j [] d = refl
  get-retain p j ((i, w) ∷ m) d = ground (arith, get-retain p j m d.1, get-retain-none p j m)

  pub get-remove :
      (k j : K) (m : List (K × V))
      → Distinct m
      → get j (remove k m) ≡ (if k == j then none else get j m)
  unfolding get remove
  get-remove k j [] d = ground arith
  get-remove k j ((i, w) ∷ m) d = ground (arith, get-remove k j m d.1)

  pub insert-Distinct : (k : K) (v : V) (m : List (K × V)) → Distinct m → Distinct (insert k v m)
  unfolding get insert
  insert-Distinct k v [] d = (refl, tt)
  insert-Distinct k v ((j, w) ∷ m) d = ground (arith, insert-Distinct k v m d.1, get-insert k j v m)

  pub modify-Distinct :
      (k : K) (f : V → V) (m : List (K × V)) → Distinct m → Distinct (modify k f m)
  unfolding modify
  modify-Distinct k f [] d = tt
  modify-Distinct k f ((j, w) ∷ m) d = ground (arith, modify-Distinct k f m d.1, get-modify k j f m)

  pub map_values-Distinct : (f : V → V) (m : List (K × V)) → Distinct m → Distinct (map_values f m)
  unfolding map_values
  map_values-Distinct f [] d = tt
  map_values-Distinct f ((j, w) ∷ m) d =
      ground (arith, map_values-Distinct f m d.1, get-map_values j f m)

  pub retain-Distinct : (p : K → V → Bool) (m : List (K × V)) → Distinct m → Distinct (retain p m)
  unfolding retain
  retain-Distinct p [] d = tt
  retain-Distinct p ((j, w) ∷ m) d = ground (arith, retain-Distinct p m d.1, get-retain-none p j m)

  pub remove-Distinct : (k : K) (m : List (K × V)) → Distinct m → Distinct (remove k m)
  unfolding remove
  remove-Distinct k [] d = tt
  remove-Distinct k ((j, w) ∷ m) d = ground (arith, remove-Distinct k m d.1, get-remove k j m d.1)

  -- The values of a map are those that its keys lead to.
  pub In-values_of_get : (k : K) (v : V) (m : List (K × V)) → get k m ≡ some v → In v (values m)
  unfolding get values
  In-values_of_get k v [] h = cc
  In-values_of_get k v ((j, w) ∷ m) h = ground (arith, In-values_of_get k v m)

  pub get_of_In-values :
      (v : V) (m : List (K × V)) → Distinct m → In v (values m) → (k : K) × (get k m ≡ some v)
  unfolding get values
  get_of_In-values v [] d h = absurd h.0
  get_of_In-values v ((j, w) ∷ m) d (inl e) = (j, ground arith)
  get_of_In-values v ((j, w) ∷ m) d (inr h) =
      let (k, p) = get_of_In-values v m d.1 h in (k, ground arith)

  -- Where a value of a modified map comes from.
  pub get-modify_inv :
      (k j : K) (f : V → V) (m : List (K × V)) (w : V)
      → get j (modify k f m) ≡ some w
      → (v : V) × (get j m ≡ some v) × (w ≡ (if k == j then f v else v))
  get-modify_inv k j f m w h = elim (Option-cases (get j m)) [
    | inl e ↦ absurd (ground (arith, get-modify k j f m))
    | inr (v, e) ↦ (v, e, ground (arith, get-modify k j f m))
  ]

  pub get-map_values_inv :
      (j : K) (f : V → V) (m : List (K × V)) (w : V)
      → get j (map_values f m) ≡ some w
      → (v : V) × (get j m ≡ some v) × (w ≡ f v)
  get-map_values_inv j f m w h = elim (Option-cases (get j m)) [
    | inl e ↦ absurd (ground (arith, get-map_values j f m))
    | inr (v, e) ↦ (v, e, ground (arith, get-map_values j f m))
  ]

  pub get-retain_inv :
      (p : K → V → Bool) (j : K) (m : List (K × V)) (w : V)
      → Distinct m
      → get j (retain p m) ≡ some w
      → (get j m ≡ some w) × (p j w ≡ true)
  get-retain_inv p j m w d h = elim (Option-cases (get j m)) [
    | inl e ↦ absurd (ground (arith, get-retain p j m d))
    | inr (v, e) ↦ ground (arith, get-retain p j m d)
  ]

  pub length-insert_new :
      (k : K) (v : V) (m : List (K × V)) → get k m ≡ none → length (insert k v m) ≡ length m + 1
  unfolding get insert
  length-insert_new k v [] h = omega arith
  length-insert_new k v ((j, w) ∷ m) h = ground (arith, length-insert_new k v m)

  pub length-remove :
      (k : K) (m : List (K × V)) (v : V) → get k m ≡ some v → length (remove k m) + 1 ≡ length m
  unfolding get remove
  length-remove k [] v h = cc
  length-remove k ((j, w) ∷ m) v h = ground (arith, length-remove k m v)

  pub length-modify : (k : K) (f : V → V) (m : List (K × V)) → length (modify k f m) ≡ length m
  unfolding modify
  length-modify k f [] = refl
  length-modify k f ((j, w) ∷ m) = ground (arith, length-modify k f m)
