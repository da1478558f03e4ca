-- ===== src/Models/Resolve/Verified.antt =====
-- crates/decompute-models/src/lib.rs: what is known of a model that was resolved.
use mathlib.Core.Path.{subst}
use decompute.Prelude.{
  ℕ, suc, Bool, true, false, not, Text, text_eq, List, [], ◌∷◌, ◌++◌, Option, none, some,
  if◌then◌else◌, Result, ok, err, ◌>>=◌, ◌>>◌, >>=-eq-ok, map_err, ◌≡◌, refl, sym, ◌∙◌, ap, arith,
  inl, inr, Result-cases,
}
use decompute.Models.Catalog.{CatalogModel, validate_model, has_extension_gguf}
use decompute.Models.Resolve.{
  ModelSource, hugging_face_cache, local_override, ResolvedModel, ModelCacheStatus, missing,
  verified, corrupt, OtherError, ModelResolveError, Outside, resolved_model, eq_ignore_ascii_case,
  hash_reads, sha256_file, verify_file_with_progress, verify_file, validated, cached, inspect_cache,
  Located, ready, unverified, fetch, from_status, locate, conclude, resolve_with_progress,
  preflight_disk_space,
}

-- The bytes that reading a file gave, up to its end.
pub data Reads : List (Result (List ℕ) Text) → List ℕ → Type 0 where
  closed : Reads [] []
  at_end : {reads : List (Result (List ℕ) Text)} → Reads (ok [] ∷ reads) []
  piece :
      {b : ℕ} {bytes more : List ℕ} {reads : List (Result (List ℕ) Text)}
      → Reads reads more
      → Reads (ok (b ∷ bytes) ∷ reads) (b ∷ bytes ++ more)

-- The file at a path is a model file whose content has the digest of the catalog.
pub record IsVerified (outside : Outside) (path : Text) (model : CatalogModel) : Type 0 where
  pub is_file : outside.is_file path ≡ true
  pub is_gguf : has_extension_gguf path ≡ true
  pub content : List ℕ
  pub reads : List (Result (List ℕ) Text)
  pub opened : outside.open_file path ≡ ok reads
  pub read : Reads reads content
  pub digest : eq_ignore_ascii_case (outside.sha256 content) model.sha256 ≡ true

append_nil : (xs : List ℕ) → xs ++ [] ≡ xs
append_nil [] = refl
append_nil (x ∷ xs) = ap (◌∷◌ x) (append_nil xs)

append_assoc : (xs ys zs : List ℕ) → (xs ++ ys) ++ zs ≡ xs ++ (ys ++ zs)
append_assoc [] ys zs = refl
append_assoc (x ∷ xs) ys zs = ap (◌∷◌ x) (append_assoc xs ys zs)

if-ok :
    {A E : Type 0} (b : Bool) (e : E) (r : Result A E) (a : A)
    → (if b then err e else r) ≡ ok a
    → (b ≡ false) × (r ≡ ok a)
if-ok true e r a h = cc
if-ok false e r a h = (refl, h)

hash_reads-ok :
    (outside : Outside) (stop : ℕ → Bool) (count : ℕ) (seen : List ℕ)
    (reads : List (Result (List ℕ) Text)) (digest : Text)
    → hash_reads outside stop count seen reads ≡ ok digest
    → (more : List ℕ) × Reads reads more × (digest ≡ outside.sha256 (seen ++ more))
unfolding hash_reads
hash_reads-ok outside stop count seen [] digest h =
    let (_, e) =
      if-ok (stop count) ModelResolveError.cancelled (ok (outside.sha256 seen)) digest h in
    ([], closed, rw (append_nil seen) cc)
hash_reads-ok outside stop count seen (err e ∷ reads) digest h = ground (arith, h)
hash_reads-ok outside stop count seen (ok [] ∷ reads) digest h =
    let (_, e) =
      if-ok (stop count) ModelResolveError.cancelled (ok (outside.sha256 seen)) digest h in
    ([], at_end, rw (append_nil seen) cc)
hash_reads-ok outside stop count seen (ok (b ∷ bytes) ∷ reads) digest h =
    let rest = hash_reads outside stop (suc count) (seen ++ (b ∷ bytes)) reads in
    let (_, e) = if-ok (stop count) ModelResolveError.cancelled rest digest h in
    let (more, r, d) =
      hash_reads-ok outside stop (suc count) (seen ++ (b ∷ bytes)) reads digest e in
    ((b ∷ bytes) ++ more, piece r, d ∙ ap outside.sha256 (append_assoc seen (b ∷ bytes) more))

abbrev fail_unless : Bool → ModelResolveError → Result (Unit {0}) ModelResolveError
fail_unless b e = if not b then err e else ok tt

bind-test :
    {B : Type 0} (b : Bool) (e : ModelResolveError) (k : Result B ModelResolveError) (x : B)
    → (fail_unless b e >> k) ≡ ok x
    → (b ≡ true) × (k ≡ ok x)
bind-test true e k x h = (refl, h)
bind-test false e k x h = cc

map_err-ok : {A E F : Type 0} (f : E → F) (r : Result A E) (a : A) → map_err f r ≡ ok a → r ≡ ok a
map_err-ok f (ok b) a h = cc
map_err-ok f (err e) a h = cc

verify_file-IsVerified :
    (outside : Outside) (stop : ℕ → Bool) (path : Text) (model : CatalogModel)
    → verify_file_with_progress outside stop path model ≡ ok tt
    → IsVerified outside path model
unfolding verify_file_with_progress sha256_file
verify_file-IsVerified outside stop path model h =
    let last = λ (digest : Text).
      fail_unless (eq_ignore_ascii_case digest model.sha256)
        (ModelResolveError.other (OtherError.mismatch model.sha256 digest)) in
    let hashed = sha256_file outside stop path >>= last in
    let gguf = ModelResolveError.other (OtherError.no_gguf_file path) in
    let file = ModelResolveError.other (OtherError.no_such_file path) in
    let (a, p) =
      bind-test (outside.is_file path) file (fail_unless (has_extension_gguf path) gguf >> hashed)
        tt h in
    let (b, q) = bind-test (has_extension_gguf path) gguf hashed tt p in
    let (digest, d, t) = >>=-eq-ok (sha256_file outside stop path) last q in
    let opening =
      map_err (λ e. ModelResolveError.other (OtherError.io e)) (outside.open_file path) in
    let (reads, o, r) = >>=-eq-ok opening (hash_reads outside stop 0 []) d in
    let (content, whole, e) = hash_reads-ok outside stop 0 [] reads digest r in
    record {
      is_file = a;
      is_gguf = b;
      content = content;
      reads = reads;
      opened =
          map_err-ok (λ e. ModelResolveError.other (OtherError.io e)) (outside.open_file path) reads
            o;
      read = whole;
      digest = ground (arith, e, t);
    }

conclude-ok :
    (outside : Outside) (model : CatalogModel) (path : Text) (source : ModelSource)
    (r : ResolvedModel)
    → conclude outside model (unverified path source) ≡ ok r
    → IsVerified outside path model × (resolved_model model path source ≡ r)
unfolding conclude
conclude-ok outside model path source r h =
    let (t, v, e) =
      >>=-eq-ok (verify_file_with_progress outside outside.is_cancelled path model)
        (λ _. ok (resolved_model model path source)) h in
    (verify_file-IsVerified outside outside.is_cancelled path model v, cc)

cached-verified :
    (outside : Outside) (model : CatalogModel) (found : Option Text) (r : ResolvedModel)
    → cached outside model found ≡ ok (verified r)
    → (path : Text) × IsVerified outside path model
      × (resolved_model model path hugging_face_cache ≡ r)
unfolding cached verify_file
cached-verified outside model none r h = cc
cached-verified outside model (some path) r h =
    elim (Result-cases (verify_file outside path model)) [
      | inl (t, e) ↦ (
        path,
        verify_file-IsVerified outside (λ _. false) path model (unfold verify_file in e),
        let k = rw (cached, e) at h in cc,
      )
      | inr (x, e) ↦ let k = rw (cached, e) at h in cc
    ]

-- Where the cache's status is a verified model, its file was just verified.
inspect_cache-verified :
    (outside : Outside) (model : CatalogModel) (r : ResolvedModel)
    → inspect_cache outside model ≡ ok (verified r)
    → (path : Text) × IsVerified outside path model
      × (resolved_model model path hugging_face_cache ≡ r)
unfolding inspect_cache
inspect_cache-verified outside model r h =
    let looked = map_err (λ e. ModelResolveError.other (OtherError.io e)) (outside.lookup model) in
    let (t, _, p) = >>=-eq-ok (validated model) (λ _. looked >>= cached outside model) h in
    let (found, _, q) = >>=-eq-ok looked (cached outside model) p in
    cached-verified outside model found r q

fetch-unverified :
    (outside : Outside) (model : CatalogModel) (force : Bool) (l : Located)
    → fetch outside model force ≡ ok l
    → (path : Text) × (unverified path hugging_face_cache ≡ l)
unfolding fetch
fetch-unverified outside model force l h =
    let download = outside.download model force in
    let (_, _, p) =
      >>=-eq-ok (preflight_disk_space outside model)
        (λ _. download >>= λ path. ok (unverified path hugging_face_cache)) h in
    let (path, _, q) = >>=-eq-ok download (λ path. ok (unverified path hugging_face_cache)) p in
    (path, cc)

-- What `conclude` returns for what was located without an override.
from_status-IsVerified :
    (outside : Outside) (model : CatalogModel) (status : ModelCacheStatus) (l : Located)
    (r : ResolvedModel)
    → inspect_cache outside model ≡ ok status
    → from_status outside model status ≡ ok l
    → conclude outside model l ≡ ok r
    → (path : Text) × IsVerified outside path model
      × (resolved_model model path hugging_face_cache ≡ r)
unfolding from_status
from_status-IsVerified outside model (verified found) l r i h k =
    let (path, v, e) = inspect_cache-verified outside model found i in
    let same : ready found ≡ l = cc in
    let k' = subst (λ x. conclude outside model x ≡ ok r) (sym same) k in
    (path, v, unfold conclude in cc)
from_status-IsVerified outside model (corrupt at why) l r i h k =
    let (path, e) = fetch-unverified outside model true l h in
    let (v, made) =
      conclude-ok outside model path hugging_face_cache r
        (subst (λ x. conclude outside model x ≡ ok r) (sym e) k) in
    (path, v, made)
from_status-IsVerified outside model missing l r i h k =
    let (path, e) = fetch-unverified outside model false l h in
    let (v, made) =
      conclude-ok outside model path hugging_face_cache r
        (subst (λ x. conclude outside model x ≡ ok r) (sym e) k) in
    (path, v, made)

-- The source that `resolve_with_progress` gives.
abbrev pub source_of : Option Text → ModelSource
source_of none = hugging_face_cache
source_of (some path) = local_override

conclude-locate :
    (outside : Outside) (model : CatalogModel) (override : Option Text) (l : Located)
    (r : ResolvedModel)
    → locate outside model override ≡ ok l
    → conclude outside model l ≡ ok r
    → (path : Text) × IsVerified outside path model
      × (resolved_model model path (source_of override) ≡ r)
unfolding locate
conclude-locate outside model none l r h k =
    let (status, i, f) = >>=-eq-ok (inspect_cache outside model) (from_status outside model) h in
    from_status-IsVerified outside model status l r i f k
conclude-locate outside model (some path) l r h k =
    let same : unverified path local_override ≡ l = cc in
    let (v, made) =
      conclude-ok outside model path local_override r
        (subst (λ x. conclude outside model x ≡ ok r) (sym same) k) in
    (path, v, made)

-- Where `resolve_with_progress` succeeds, by an override, from the cache or by a download, the model
-- passes `validate_model`, and the result is the one that `resolved_model` makes of the model and a
-- path at which there is a ".gguf" file whose content, read to its end, has the digest of the catalog.
pub resolve_with_progress-IsVerified :
    (outside : Outside) (at_start : Bool) (model : CatalogModel) (override : Option Text)
    (r : ResolvedModel)
    → resolve_with_progress outside at_start model override ≡ ok r
    → (validate_model model ≡ ok tt)
      × ((path : Text) × IsVerified outside path model
          × (resolved_model model path (source_of override) ≡ r))
unfolding resolve_with_progress
resolve_with_progress-IsVerified outside at_start model override r h =
    let located = locate outside model override >>= conclude outside model in
    let test : Result (Unit {0}) ModelResolveError =
      if at_start then err ModelResolveError.cancelled else ok tt in
    let (a, va, p) = >>=-eq-ok (validated model) (λ _. test >> located) h in
    let (b, _, q) = >>=-eq-ok test (λ _. located) p in
    let (l, loc, k) = >>=-eq-ok (locate outside model override) (conclude outside model) q in
    (
      map_err-ok (λ e. ModelResolveError.other (OtherError.invalid_model e)) (validate_model model)
          tt va,
      conclude-locate outside model override l r loc k,
    )
