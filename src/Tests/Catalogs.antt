-- ===== src/Tests/Catalogs.antt =====
-- A catalog of one model.
use decompute.Prelude.{
  true, false, Text, text, text_discrete, [], ◌∷◌, none, some, ◌≡◌, ◌↔◌, refl, ok, err, all,
  ℕ_discrete, trim, is_whitespace, filter, contains,
}
use decompute.Models.Paths.{extension, split_once}
use decompute.Models.Catalog.{CatalogModel, ModelCatalog, validate, validate_model}
use decompute.Models.Catalog.Valid.{IsValid, validate_iff}
use decompute.Models.Resolve.{
  Outside, ResolvedModel, resolved_model, resolve_with_progress, ModelResolveError, local_override,
}
use decompute.Models.Resolve.Verified.{IsVerified, resolve_with_progress-IsVerified}

abbrev digest : Text
digest = text "00112233445566778899aabbccddeeff00112233445566778899aabbccddeeff"

abbrev model : CatalogModel
model = record {
  id = text "m";
  display_name = text "M";
  description = text "M";
  download_size_bytes = 5;
  recommended = true;
  format = text "gguf";
  repository = text "o/n";
  revision = text "r";
  filename = text "m.gguf";
  sha256 = digest;
  architecture = text "q";
  quantization = none;
}

abbrev catalog : ModelCatalog
catalog = record { models = model ∷ [] }

validate_iff_example : (validate catalog ≡ ok tt) ↔ IsValid catalog
validate_iff_example = validate_iff catalog

validate_runs : validate catalog ≡ ok tt
unfolding validate text_discrete ℕ_discrete trim is_whitespace split_once contains extension all
    filter
validate_runs = refl

-- A disk with one file, of two reads.
abbrev outside : Outside
outside = record {
  is_file = λ path. true;
  open_file = λ path. ok (ok (1 ∷ []) ∷ ok (2 ∷ []) ∷ []);
  sha256 = λ bytes. digest;
  lookup = λ m. ok none;
  download = λ m force. err ModelResolveError.cancelled;
  available_space = ok 0;
  is_cancelled = λ n. false;
}

abbrev resolved : ResolvedModel
resolved = resolved_model model (text "/x/m.gguf") local_override

resolves_runs : resolve_with_progress outside false model (some (text "/x/m.gguf")) ≡ ok resolved
unfolding resolve_with_progress validate_model trim is_whitespace split_once contains extension all
    text_discrete ℕ_discrete
resolves_runs = refl

resolve_with_progress-IsVerified_example :
    (validate_model model ≡ ok tt)
    × ((path : Text) × IsVerified outside path model
        × (resolved_model model path local_override ≡ resolved))
resolve_with_progress-IsVerified_example =
    resolve_with_progress-IsVerified outside false model (some (text "/x/m.gguf")) resolved
      resolves_runs
