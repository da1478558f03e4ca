-- ===== src/Models/Catalog.antt =====
-- crates/decompute-models/src/lib.rs: the catalog of curated models. An error keeps the data of its
-- message.
pub mod Valid
use decompute.Prelude.{
  ℕ, Bool, true, false, not, ◌&&◌, ◌||◌, Text, text, text_eq, List, [], ◌∷◌, Option, none, some,
  leb, ◌==◌, nat_eq, if◌then◌else◌, Result, ok, err, ◌>>=◌, ◌>>◌, is_empty, any, all, filter,
  length, trim, contains, Eq, text_discrete,
}
use decompute.Models.Paths.{split_once, extension}

pub record CatalogModel : Type 0 where
  pub id : Text
  pub display_name : Text
  pub description : Text
  pub download_size_bytes : ℕ
  pub recommended : Bool
  pub format : Text
  pub repository : Text
  pub revision : Text
  pub filename : Text
  pub sha256 : Text
  pub architecture : Text
  pub quantization : Option Text

pub record ModelCatalog : Type 0 where
  pub models : List CatalogModel

pub data CatalogError : Type 0 where
  empty_field : Text → CatalogError
  zero_download_size : Text → CatalogError
  invalid_repository : Text → Text → CatalogError
  unsupported_format : Text → Text → CatalogError
  mismatched_filename : Text → Text → CatalogError
  invalid_sha256 : Text → CatalogError
  no_models : CatalogError
  duplicate_id : Text → CatalogError
  not_one_recommended : CatalogError
  unknown_model : Text → List Text → CatalogError

unfoldable pub is_hex_digit : ℕ → Bool
is_hex_digit c =
    (leb b'0' c && leb c b'9') || (leb b'a' c && leb c b'f') || (leb b'A' c && leb c b'F')

-- `len` counts bytes. A text of hexadecimal digits has as many as characters, and any other text
-- fails the second test.
unfoldable pub is_sha256 : Text → Bool
unfolding is_hex_digit
is_sha256 value = length value == 64 && all is_hex_digit value

-- The loop over the fields that must not be blank.
unfoldable pub check_fields : List (Text × Text) → Result (Unit {0}) CatalogError
check_fields [] = ok tt
check_fields ((field, value) ∷ fields) =
    let rest = check_fields fields in
    if is_empty (trim value) then err (empty_field field) else rest

abbrev pub fields : CatalogModel → List (Text × Text)
fields model =
    (text "id", model.id)
    ∷ (text "display_name", model.display_name)
    ∷ (text "description", model.description)
    ∷ (text "repository", model.repository)
    ∷ (text "revision", model.revision)
    ∷ (text "filename", model.filename)
    ∷ (text "architecture", model.architecture)
    ∷ []

unfoldable pub is_repository : Text → Bool
is_repository repository = elim (split_once b'/' repository) [
  | none ↦ false
  | some p ↦ not (is_empty (trim p.0) || is_empty (trim p.1) || contains b'/' p.1)
]

abbrev pub has_extension_gguf : Text → Bool
has_extension_gguf path = elim (extension path) [ none ↦ false | some e ↦ e == text "gguf" ]

unfoldable pub validate_model : CatalogModel → Result (Unit {0}) CatalogError
unfolding check_fields is_repository is_sha256
validate_model model = do
  check_fields (fields model)
  if model.download_size_bytes == 0 then err (zero_download_size model.id) else ok tt
  if not (is_repository model.repository)
      then err (invalid_repository model.id model.repository)
      else ok tt
  if not (model.format == text "gguf")
      then err (unsupported_format model.id model.format)
      else ok tt
  if not (has_extension_gguf model.filename)
      then err (mismatched_filename model.id model.filename)
      else ok tt
  if not (is_sha256 model.sha256) then err (invalid_sha256 model.id) else ok tt

-- The loop over the models, of which `all_models` has them all.
unfoldable pub check_models : List CatalogModel → List CatalogModel → Result (Unit {0}) CatalogError
unfolding validate_model
check_models all_models [] = ok tt
check_models all_models (model ∷ models) = do
  validate_model model
  if not (length (filter (λ (other : CatalogModel). other.id == model.id) all_models) == 1)
      then err (duplicate_id model.id)
      else ok tt
  check_models all_models models

unfoldable pub validate : ModelCatalog → Result (Unit {0}) CatalogError
unfolding check_models
validate catalog = do
  if is_empty catalog.models then err no_models else ok tt
  check_models catalog.models catalog.models
  if not (length (filter (λ (model : CatalogModel). model.recommended) catalog.models) == 1)
      then err not_one_recommended
      else ok tt

unfoldable pub find : Text → List CatalogModel → Option CatalogModel
find id [] = none
find id (model ∷ models) = let rest = find id models in if model.id == id then some model else rest

unfoldable pub ids : List CatalogModel → List Text
ids [] = []
ids (model ∷ models) = model.id ∷ ids models

unfoldable pub get : ModelCatalog → Text → Result CatalogModel CatalogError
unfolding find ids
get catalog id = elim (find id catalog.models) [
  | some model ↦ ok model
  | none ↦ err (unknown_model id (ids catalog.models))
]
