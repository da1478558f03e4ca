-- ===== src/Models/Resolve.antt =====
-- crates/decompute-models/src/lib.rs: how a model of the catalog becomes a verified local file. What
-- the file system, the Hugging Face client and SHA-256 do are arguments. Reports to the progress
-- observer are left out: they have no effect on the result.
pub mod Verified
use decompute.Prelude.{
  ℕ, zero, suc, ◌+◌, ◌*◌, ◌-◌, ◌^◌, Bool, true, false, not, ◌&&◌, Text, text, text_eq, List, [],
  ◌∷◌, ◌++◌, map, Option, none, some, ltb, leb, ◌==◌, if◌then◌else◌, Result, ok, err, ◌>>=◌, ◌>>◌,
  map_err, is_empty, min, max,
}
use Prim.Native.Nat.{◌/◌}
use decompute.Core.Models.{ModelManifest}
use decompute.Models.Paths.{file_name, extension}
use decompute.Models.Catalog.{
  CatalogModel, CatalogError, validate_model, is_repository, has_extension_gguf,
}

pub data ModelSource : Type 0 where
  hugging_face_cache local_override : ModelSource

pub record ResolvedModel : Type 0 where
  pub entry : CatalogModel
  pub path : Text
  pub manifest : ModelManifest
  pub source : ModelSource

-- What the source puts into an `anyhow::Error`.
pub data OtherError : Type 0 where
  invalid_model : CatalogError → OtherError
  no_such_file no_gguf_file : Text → OtherError
  mismatch : Text → Text → OtherError
  io : Text → OtherError

pub data ModelResolveError : Type 0 where
  cancelled : ModelResolveError
  insufficient_disk_space : ℕ → ℕ → ModelResolveError
  other : OtherError → ModelResolveError

-- A corrupt file comes with the error itself where the source has its text.
pub data ModelCacheStatus : Type 0 where
  missing : ModelCacheStatus
  verified : ResolvedModel → ModelCacheStatus
  corrupt : Text → ModelResolveError → ModelCacheStatus

-- What lies outside: `is_file`, the reads of a file until its end, SHA-256 in lower-case digits,
-- the lookup in the Hugging Face cache, a download (forced or not), the free space, and whether
-- `is_cancelled` holds at a read. A lookup gives `none` for `LocalEntryNotFound`. The
-- client and its repository are built within these two.
pub record Outside : Type 0 where
  pub is_file : Text → Bool
  pub open_file : Text → Result (List (Result (List ℕ) Text)) Text
  pub sha256 : List ℕ → Text
  pub lookup : CatalogModel → Result (Option Text) Text
  pub download : CatalogModel → Bool → Result Text ModelResolveError
  pub available_space : Result ℕ Text
  pub is_cancelled : ℕ → Bool

unfoldable pub manifest_for : Text → CatalogModel → ModelManifest
manifest_for path model = record {
  id = text "sha256:" ++ model.sha256;
  architecture = model.architecture;
  revision = model.revision;
  quantization = model.quantization;
  files =
      record {
        path = elim (file_name path) [ none ↦ [] | some name ↦ name ];
        sha256 = model.sha256;
      }
      ∷ [];
}

unfoldable pub resolved_model : CatalogModel → Text → ModelSource → ResolvedModel
unfolding manifest_for
resolved_model model path source = record {
  entry = model;
  path = path;
  manifest = manifest_for path model;
  source = source;
}

abbrev pub to_lower : ℕ → ℕ
to_lower c = if leb b'A' c && leb c b'Z' then c + 32 else c

-- `str::eq_ignore_ascii_case`.
unfoldable pub eq_ignore_ascii_case : Text → Text → Bool
eq_ignore_ascii_case a b = map to_lower a == map to_lower b

-- The loop of `sha256_file_with_progress`: `seen` is what the hasher has, and `count` how many reads
-- were made. A read of no bytes is the end of the file.
unfoldable pub hash_reads :
    Outside → (ℕ → Bool) → ℕ → List ℕ → List (Result (List ℕ) Text) → Result Text ModelResolveError
hash_reads outside stop count seen [] =
    if stop count then err cancelled else ok (outside.sha256 seen)
hash_reads outside stop count seen (err e ∷ reads) =
    if stop count then err cancelled else err (other (io e))
hash_reads outside stop count seen (ok bytes ∷ reads) =
    let rest = hash_reads outside stop (suc count) (seen ++ bytes) reads in
    if stop count then err cancelled else if is_empty bytes then ok (outside.sha256 seen) else rest

unfoldable pub sha256_file : Outside → (ℕ → Bool) → Text → Result Text ModelResolveError
unfolding hash_reads
sha256_file outside stop path = do
  reads ← map_err (λ e. other (io e)) (outside.open_file path)
  hash_reads outside stop 0 [] reads

-- `verify_file_with_progress`.
unfoldable pub verify_file_with_progress :
    Outside → (ℕ → Bool) → Text → CatalogModel → Result (Unit {0}) ModelResolveError
unfolding sha256_file eq_ignore_ascii_case
verify_file_with_progress outside stop path model = do
  if not (outside.is_file path) then err (other (no_such_file path)) else ok tt
  if not (has_extension_gguf path) then err (other (no_gguf_file path)) else ok tt
  digest ← sha256_file outside stop path
  if not (eq_ignore_ascii_case digest model.sha256)
      then err (other (mismatch model.sha256 digest))
      else ok tt

-- `verify_file`, which nothing cancels.
unfoldable pub verify_file : Outside → Text → CatalogModel → Result (Unit {0}) ModelResolveError
unfolding verify_file_with_progress
verify_file outside = verify_file_with_progress outside (λ _. false)

abbrev pub validated : CatalogModel → Result (Unit {0}) ModelResolveError
validated model = map_err (λ e. other (invalid_model e)) (validate_model model)

unfoldable pub cached :
    Outside → CatalogModel → Option Text → Result ModelCacheStatus ModelResolveError
unfolding verify_file resolved_model
cached outside model none = ok missing
cached outside model (some path) = elim (verify_file outside path model) [
  | ok _ ↦ ok (verified (resolved_model model path hugging_face_cache))
  | err e ↦ ok (corrupt path e)
]

unfoldable pub inspect_cache : Outside → CatalogModel → Result ModelCacheStatus ModelResolveError
unfolding cached
inspect_cache outside model = do
  validated model
  found ← map_err (λ e. other (io e)) (outside.lookup model)
  cached outside model found

unfoldable pub required_space : CatalogModel → ℕ
required_space model =
    min (2 ^ 64 - 1)
      (model.download_size_bytes + max (model.download_size_bytes / 10) (256 * 1024 * 1024))

unfoldable pub preflight_disk_space : Outside → CatalogModel → Result (Unit {0}) ModelResolveError
unfolding required_space
preflight_disk_space outside model = do
  available ← map_err (λ e. other (io e)) outside.available_space
  if ltb available (required_space model)
      then err (insufficient_disk_space available (required_space model))
      else ok tt

-- The file that is still to be verified, or the model where the cache had it verified.
pub data Located : Type 0 where
  ready : ResolvedModel → Located
  unverified : Text → ModelSource → Located

unfoldable pub fetch : Outside → CatalogModel → Bool → Result Located ModelResolveError
unfolding preflight_disk_space
fetch outside model force_download = do
  preflight_disk_space outside model
  path ← outside.download model force_download
  ok (unverified path hugging_face_cache)

unfoldable pub from_status :
    Outside → CatalogModel → ModelCacheStatus → Result Located ModelResolveError
unfolding fetch
from_status outside model (verified resolved) = ok (ready resolved)
from_status outside model (corrupt path e) = fetch outside model true
from_status outside model missing = fetch outside model false

unfoldable pub locate : Outside → CatalogModel → Option Text → Result Located ModelResolveError
unfolding from_status inspect_cache
locate outside model (some path) = ok (unverified path local_override)
locate outside model none = do
  status ← inspect_cache outside model
  from_status outside model status

unfoldable pub conclude : Outside → CatalogModel → Located → Result ResolvedModel ModelResolveError
unfolding verify_file_with_progress resolved_model
conclude outside model (ready resolved) = ok resolved
conclude outside model (unverified path source) = do
  verify_file_with_progress outside outside.is_cancelled path model
  ok (resolved_model model path source)

-- `at_start` is the test of the token before anything else.
unfoldable pub resolve_with_progress :
    Outside → Bool → CatalogModel → Option Text → Result ResolvedModel ModelResolveError
unfolding locate conclude
resolve_with_progress outside at_start model override = do
  validated model
  if at_start then err cancelled else ok tt
  located ← locate outside model override
  conclude outside model located
