-- ===== src/Models/Catalog/Valid.antt =====
-- crates/decompute-models/src/lib.rs: what a catalog that passed `validate` gives.
use mathlib.Core.Path.{subst}
use decompute.Prelude.{
  ℕ, Bool, true, false, not, Text, text_eq, List, [], ◌∷◌, some, ◌==◌, nat_eq, if◌then◌else◌,
  Result, ok, err, ◌>>◌, is_empty, filter, length, In, ◌≡◌, ◌≢◌, ◌↔◌, sym, refl, ap, arith, inl,
  inr,
}
use decompute.Models.Catalog.{
  CatalogModel, ModelCatalog, CatalogError, validate_model, check_models, validate, find, get,
}

-- How many models have an id.
abbrev count : Text → List CatalogModel → ℕ
count id models = length (filter (λ (other : CatalogModel). other.id == id) models)

abbrev count_recommended : List CatalogModel → ℕ
count_recommended models = length (filter (λ (m : CatalogModel). m.recommended) models)

-- Each model passes its own checks and has an id of its own, and one is recommended.
pub record IsValid (catalog : ModelCatalog) : Type 0 where
  pub models_pass : (m : CatalogModel) → In m catalog.models → validate_model m ≡ ok tt
  pub ids_differ : (m : CatalogModel) → In m catalog.models → count m.id catalog.models ≡ 1
  pub one_recommended : count_recommended catalog.models ≡ 1

abbrev fail_if : Bool → CatalogError → Result (Unit {0}) CatalogError
fail_if b e = if b then err e else ok tt

check-ok : (b : Bool) (e : CatalogError) → (fail_if b e ≡ ok tt) ↔ (b ≡ false)
check-ok true e = ground arith
check-ok false e = ground arith

bind-ok : (m k : Result (Unit {0}) CatalogError) → ((m >> k) ≡ ok tt) ↔ ((m ≡ ok tt) × (k ≡ ok tt))
bind-ok (ok tt) k = (λ h. (refl, h), λ h. h.1)
bind-ok (err e) k = (λ h. cc, λ h. cc)

one-test : (n : ℕ) → (not (n == 1) ≡ false) ↔ (n ≡ 1)
one-test n = ground arith

check_models_iff :
    (all_models models : List CatalogModel)
    → (check_models all_models models ≡ ok tt) ↔ (
        (m : CatalogModel) → In m models → (validate_model m ≡ ok tt) × (count m.id all_models ≡ 1))
unfolding check_models
check_models_iff all_models [] = (λ h m i. absurd i.0, λ h. refl)
check_models_iff all_models (x ∷ models) =
    let is_duplicate = not (count x.id all_models == 1) in
    let test = fail_if is_duplicate (CatalogError.duplicate_id x.id) in
    let outer = bind-ok (validate_model x) (test >> check_models all_models models) in
    let inner = bind-ok test (check_models all_models models) in
    let here = check-ok is_duplicate (CatalogError.duplicate_id x.id) in
    let one = one-test (count x.id all_models) in
    let rest = check_models_iff all_models models in
    (
      λ h m i.
          let (passes, more) = outer.0 h in
          let (unique, others) = inner.0 more in
          elim i [
            | inl e ↦
                subst (λ y. (validate_model y ≡ ok tt) × (count y.id all_models ≡ 1)) (sym e)
                  (passes, one.0 (here.0 unique))
            | inr j ↦ rest.0 others m j
          ],
      λ h.
          let (passes, unique) = h x (inl refl) in
          outer.1 (passes, inner.1 (here.1 (one.1 unique), rest.1 (λ m i. h m (inr i)))),
    )

none_has_id :
    (id : Text) (m : CatalogModel) (models : List CatalogModel)
    → In m models
    → count id models ≡ 0
    → m.id ≢ id
unfolding filter
none_has_id id m [] i h e = absurd i.0
none_has_id id m (x ∷ models) (inl j) h e = ground (arith, ap (λ (y : CatalogModel). y.id) j)
none_has_id id m (x ∷ models) (inr j) h e = ground (arith, none_has_id id m models j)

find-In :
    (id : Text) (m : CatalogModel) (models : List CatalogModel)
    → In m models
    → m.id ≡ id
    → count id models ≡ 1
    → find id models ≡ some m
unfolding find filter
find-In id m [] i e le = absurd i.0
find-In id m (x ∷ models) (inl j) e le = ground (arith, j, ap (λ (y : CatalogModel). y.id) j)
find-In id m (x ∷ models) (inr j) e le =
    ground (arith, find-In id m models j e, none_has_id id m models j)

is_empty-eq : (models : List CatalogModel) → count_recommended models ≡ 1 → is_empty models ≡ false
unfolding filter
is_empty-eq [] h = ground arith
is_empty-eq (x ∷ models) h = refl

-- `validate` passes exactly the catalogs whose models all pass `validate_model` and have different
-- ids, and of which one is recommended.
pub validate_iff : (catalog : ModelCatalog) → (validate catalog ≡ ok tt) ↔ IsValid catalog
unfolding validate
validate_iff catalog =
    let models = catalog.models in
    let not_one = not (count_recommended models == 1) in
    let last = fail_if not_one CatalogError.not_one_recommended in
    let checks = check_models models models in
    let outer = bind-ok (fail_if (is_empty models) CatalogError.no_models) (checks >> last) in
    let inner = bind-ok checks last in
    let some_model = check-ok (is_empty models) CatalogError.no_models in
    let recommended = check-ok not_one CatalogError.not_one_recommended in
    let one = one-test (count_recommended models) in
    let each = check_models_iff models models in
    (
      λ h.
          let (a, b) = outer.0 h in
          let (c, d) = inner.0 b in
          record {
            models_pass = λ m i. (each.0 c m i).0;
            ids_differ = λ m i. (each.0 c m i).1;
            one_recommended = one.0 (recommended.0 d);
          },
      λ v. outer.1 (
        some_model.1 (is_empty-eq models v.one_recommended),
        inner.1 (
          each.1 (λ m i. (v.models_pass m i, v.ids_differ m i)),
          recommended.1 (one.1 v.one_recommended),
        ),
      ),
    )

-- In a catalog that passed `validate`, `get` finds each model by its id.
pub get-validate :
    (catalog : ModelCatalog) (m : CatalogModel)
    → validate catalog ≡ ok tt
    → In m catalog.models
    → get catalog m.id ≡ ok m
unfolding get
get-validate catalog m h i =
    let v = (validate_iff catalog).0 h in
    rw (get, find-In m.id m catalog.models i refl (v.ids_differ m i)) refl
