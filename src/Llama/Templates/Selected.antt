-- ===== src/Llama/Templates/Selected.antt =====
-- A template that is selected is one that can be rendered.
use decompute.Prelude.{
  Bool, true, Text, text_eq, List, [], ◌∷◌, ◌++◌, Option, none, some, Result, ok, >>=-eq-ok,
  map_err, ◌≡◌, refl, arith, inl, inr, In, In-append, contains, contains_iff, Option-cases,
  Bool-cases, is_some,
}
use decompute.Prelude.Map.{get, insert, get-insert}
use decompute.Prelude.Sort.{sort, In-sort}
use decompute.Core.Chat.{ChatMessage, ToolDefinition}
use decompute.Llama.Templates.{
  Listing, refused, done, directory, file, TemplateRegistry, Jinja, add_template_owned, add_alias,
  load_file, load_directory, load_sidecar, load, render, select, template_name, io, engine, builtin,
  is_qwen, alias_of, is_jinja,
}

-- The built-in name and every listed name have a template.
abbrev HasAll : TemplateRegistry → Type 0
HasAll registry =
    (name : Text)
    → In name (builtin ∷ registry.names)
    → is_some (get name registry.environment) ≡ true

select-In :
    (registry : TemplateRegistry) (requested : Option Text) (name : Text) (has_tools : Bool)
    → select registry requested has_tools ≡ ok (some name)
    → In name (builtin ∷ registry.names)
unfolding select
select-In registry none name has_tools h = inl (ground arith)
select-In registry (some wanted) name has_tools h =
    let listed : contains name registry.names ≡ true = ground arith in
    inr ((contains_iff name registry.names).0 listed)

module _ {V : Type 0} (jinja : Jinja V) where
  record Added (name : Text) (registry added : TemplateRegistry) : Type 0 where
    names : added.names ≡ registry.names
    has : is_some (get name added.environment) ≡ true
    keeps :
        (n : Text)
        → is_some (get n registry.environment) ≡ true
        → is_some (get n added.environment) ≡ true

  add_template_owned-Added :
      (name source : Text) (registry added : TemplateRegistry)
      → add_template_owned jinja name source registry ≡ ok added
      → Added name registry added
  unfolding add_template_owned
  add_template_owned-Added name source registry added h =
      let same : added ≡ record registry { environment = insert name source registry.environment } =
        ground arith in
      let at = λ (n : Text). get-insert name n source registry.environment in
      rw same (record {
        names = refl;
        has = ground (arith, at name);
        keeps = λ n e. ground (arith, at n);
      })

  Added-HasAll :
      (name : Text) (registry added : TemplateRegistry)
      → Added name registry added
      → HasAll registry
      → HasAll added
  Added-HasAll name registry added a h n at = a.keeps n (h n (rw a.names at at))

  add_alias-HasAll :
      (parents : List Text) (name source : Text) (registry added : TemplateRegistry)
      → add_alias jinja parents name source registry ≡ ok added
      → HasAll registry
      → HasAll added
  unfolding add_alias
  add_alias-HasAll [] name source registry added h all =
      let (r, e, h') = >>=-eq-ok (add_template_owned jinja (alias_of name) source registry) _ h in
      let a = add_template_owned-Added (alias_of name) source registry r e in
      let has = Added-HasAll (alias_of name) registry r a all in
      let same : added ≡ record r { names = r.names ++ alias_of name ∷ [] } = ground arith in
      rw same (λ n at. elim at [
        | inl first ↦ has n (inl first)
        | inr later ↦ elim ((In-append n r.names (alias_of name ∷ [])).0 later) [
          | inl old ↦ has n (inr old)
          | inr (inl new) ↦ rw new a.has
          | inr (inr none') ↦ absurd none'.0
        ]
      ])
  add_alias-HasAll (part ∷ parts) name source registry added h all =
      let same : added ≡ registry = ground arith in rw same all

  load_file-HasAll :
      (parents : List Text) (name : Text) (content : Result Text Text)
      (registry added : TemplateRegistry)
      → load_file jinja parents name content registry ≡ ok added
      → HasAll registry
      → HasAll added
  unfolding load_file
  load_file-HasAll parents name content registry added h all = elim (Bool-cases (is_jinja name)) [
    | inr other ↦ let same : added ≡ registry = ground arith in rw same all
    | inl found ↦
        let (source, e, h1) = >>=-eq-ok (map_err io content) _ (rw (load_file, found) at h) in
        let (r, e', h2) =
          >>=-eq-ok (add_template_owned jinja (template_name parents name) source registry) _ h1 in
        add_alias-HasAll parents name source r added h2 (
          Added-HasAll (template_name parents name) registry r
            (add_template_owned-Added (template_name parents name) source registry r e') all)
  ]

  load_directory-HasAll :
      (parents : List Text) (listing : Listing) (registry added : TemplateRegistry)
      → load_directory jinja parents listing registry ≡ ok added
      → HasAll registry
      → HasAll added
  unfolding load_directory
  load_directory-HasAll parents (refused e) registry added h all = cc
  load_directory-HasAll parents done registry added h all =
      let same : added ≡ registry = ground arith in rw same all
  load_directory-HasAll parents (directory name inner rest) registry added h all =
      let (r, e, h') = >>=-eq-ok (load_directory jinja (parents ++ name ∷ []) inner registry) _ h in
      load_directory-HasAll parents rest r added h'
        (load_directory-HasAll (parents ++ name ∷ []) inner registry r e all)
  load_directory-HasAll parents (file name content rest) registry added h all =
      let (r, e, h') = >>=-eq-ok (load_file jinja parents name content registry) _ h in
      load_directory-HasAll parents rest r added h'
        (load_file-HasAll parents name content registry r e all)

  load_sidecar-HasAll :
      (sidecar : Option Listing) (registry added : TemplateRegistry)
      → load_sidecar jinja sidecar registry ≡ ok added
      → HasAll registry
      → HasAll added
  unfolding load_sidecar
  load_sidecar-HasAll none registry added h all =
      let same : added ≡ registry = ground arith in rw same all
  load_sidecar-HasAll (some listing) registry added h all =
      load_directory-HasAll [] listing registry added h all

  only : (a n : Text) → In n (a ∷ a ∷ []) → n ≡ a
  only a n (inl e) = e
  only a n (inr (inl e)) = e
  only a n (inr (inr h)) = absurd h.0

  load-HasAll :
      (qwen_tools_template : Text) (sidecar : Option Listing) (architecture : Text)
      (registry : TemplateRegistry)
      → load jinja qwen_tools_template sidecar architecture ≡ ok registry
      → HasAll registry
  unfolding load
  load-HasAll qwen_tools_template sidecar architecture registry h =
      let empty : TemplateRegistry = record {
        environment = [];
        names = builtin ∷ [];
        qwen = is_qwen architecture;
      } in
      let (first, e, h1) =
        >>=-eq-ok (add_template_owned jinja builtin qwen_tools_template empty) _ h in
      let a = add_template_owned-Added builtin qwen_tools_template empty first e in
      let all : HasAll first = λ n at. rw (only builtin n (rw a.names at at)) a.has in
      let (loaded, e', h2) = >>=-eq-ok (load_sidecar jinja sidecar first) _ h1 in
      let has = load_sidecar-HasAll sidecar first loaded e' all in
      let same : registry ≡ record loaded { names = sort loaded.names } = ground arith in
      rw same (λ n at. elim at [
        | inl builtin' ↦ has n (inl builtin')
        | inr listed ↦ has n (inr ((In-sort n loaded.names).0 listed))
      ])

  -- Once a registry is loaded, a template that `select` answers with is one of the environment: it is
  -- rendered by minijinja, and never refused as not loaded.
  pub render-select :
      (qwen_tools_template : Text) (sidecar : Option Listing) (architecture : Text)
      (registry : TemplateRegistry) (requested : Option Text) (name : Text)
      (messages : List (ChatMessage V)) (tools : List (ToolDefinition V)) (has_tools : Bool)
      → load jinja qwen_tools_template sidecar architecture ≡ ok registry
      → select registry requested has_tools ≡ ok (some name)
      → (source : Text) × (get name registry.environment ≡ some source)
        × (render jinja registry name messages tools
            ≡ map_err engine (jinja.render registry.environment source messages tools))
  unfolding render
  render-select qwen_tools_template sidecar architecture registry requested name messages tools
        has_tools h s =
      let all = load-HasAll qwen_tools_template sidecar architecture registry h in
      let has = all name (select-In registry requested name has_tools s) in
      elim (Option-cases (get name registry.environment)) [
        | inl e ↦ absurd (ground arith)
        | inr (source, e) ↦ (source, e, rw (render, e) refl)
      ]
