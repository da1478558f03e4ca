-- ===== src/Llama/Templates.antt =====
-- crates/decompute-llama/src/templates.rs: the registry of chat templates. minijinja, which reads the
-- templates, is an argument, and so is the text of the built-in template, which only minijinja reads.
pub mod Selected
use decompute.Prelude.{
  ℕ, Bool, true, false, not, Text, text, text_eq, List, [], ◌∷◌, ◌++◌, map, Option, none, some,
  ◌==◌, nat_eq, if◌then◌else◌, Result, ok, err, ◌>>=◌, ◌>>◌, map_err, is_empty, contains,
}
use decompute.Prelude.Map.{get, insert}
use decompute.Prelude.Sort.{sort}
use decompute.Prelude.Bytes.{starts_with}
use decompute.Models.Paths.{extension, file_name, rsplit_once}
use decompute.Models.Resolve.{to_lower}
use decompute.Core.Chat.{ChatMessage, ToolDefinition}

pub data TemplateError : Type 0 where
  unknown_template : Text → List Text → TemplateError
  no_tool_template : TemplateError
  not_loaded : Text → TemplateError
  io engine : Text → TemplateError

-- What is found below a directory, in the order of `read_dir`: the listing fails, or ends, or has a
-- directory or a file with its text next.
pub data Listing : Type 0 where
  refused : Text → Listing
  done : Listing
  directory : Text → Listing → Listing → Listing
  file : Text → Result Text Text → Listing → Listing

pub record TemplateRegistry : Type 0 where
  pub environment : List (Text × Text)
  pub names : List Text
  pub qwen : Bool

-- minijinja: the test of a template's syntax, and the rendering of a template that may include
-- others of the environment.
pub record Jinja (V : Type 0) : Type 0 where
  pub compiles : Text → Text → Result (Unit {0}) Text
  pub render :
      List (Text × Text) → Text → List (ChatMessage V) → List (ToolDefinition V) → Result Text Text

unfoldable pub sidecar_directory : Text → Text
sidecar_directory model_path = model_path ++ text ".templates"

-- `Path::file_stem`.
unfoldable pub file_stem : Text → Option Text
unfolding file_name rsplit_once
file_stem path = elim (file_name path) [
  | none ↦ none
  | some name ↦ elim (rsplit_once b'.' name) [
    | none ↦ some name
    | some p ↦ if is_empty p.0 then some name else some p.0
  ]
]

-- `unwrap_or_default`.
abbrev pub alias_of : Text → Text
alias_of name = elim (file_stem name) [ none ↦ [] | some stem ↦ stem ]

unfoldable pub is_jinja : Text → Bool
unfolding extension
is_jinja name = elim (extension name) [ none ↦ false | some e ↦ e == text "jinja" ]

-- A relative path with `/` between its parts and for each `\`.
unfoldable pub template_name : List Text → Text → Text
template_name [] name = map (λ c. if c == b'\\' then b'/' else c) name
template_name (part ∷ parts) name =
    map (λ c. if c == b'\\' then b'/' else c) part ++ b'/' ∷ template_name parts name

unfoldable pub is_qwen : Text → Bool
unfolding starts_with
is_qwen architecture = starts_with (text "qwen") (map to_lower architecture)

abbrev pub builtin : Text
builtin = text "qwen-tools"

module _ {V : Type 0} (jinja : Jinja V) where
  unfoldable pub add_template_owned :
      Text → Text → TemplateRegistry → Result TemplateRegistry TemplateError
  unfolding insert
  add_template_owned name source registry = do
    map_err engine (jinja.compiles name source)
    ok (record registry { environment = insert name source registry.environment })

  -- The name without its extension, for a file beside no directory.
  unfoldable pub add_alias :
      List Text → Text → Text → TemplateRegistry → Result TemplateRegistry TemplateError
  unfolding add_template_owned file_stem
  add_alias [] name source registry = do
    added ← add_template_owned (alias_of name) source registry
    ok (record added { names = added.names ++ alias_of name ∷ [] })
  add_alias (part ∷ parts) name source registry = ok registry

  -- One file.
  unfoldable pub load_file :
      List Text → Text → Result Text Text → TemplateRegistry → Result TemplateRegistry TemplateError
  unfolding add_alias template_name is_jinja
  load_file parents name content registry = elim (is_jinja name) [
    | false ↦ ok registry
    | true ↦ do
      source ← map_err io content
      added ← add_template_owned (template_name parents name) source registry
      add_alias parents name source added
  ]

  -- `parents` leads from the root to the directory.
  unfoldable pub load_directory :
      List Text → Listing → TemplateRegistry → Result TemplateRegistry TemplateError
  unfolding load_file
  load_directory parents (refused e) registry = err (io e)
  load_directory parents done registry = ok registry
  load_directory parents (directory name inner rest) registry = do
    added ← load_directory (parents ++ name ∷ []) inner registry
    load_directory parents rest added
  load_directory parents (file name content rest) registry = do
    added ← load_file parents name content registry
    load_directory parents rest added

  unfoldable pub load_sidecar :
      Option Listing → TemplateRegistry → Result TemplateRegistry TemplateError
  unfolding load_directory
  load_sidecar none registry = ok registry
  load_sidecar (some listing) registry = load_directory [] listing registry

  -- `sidecar` is what is found in the directory beside the model, if there is one.
  unfoldable pub load : Text → Option Listing → Text → Result TemplateRegistry TemplateError
  unfolding load_sidecar is_qwen sort
  load qwen_tools_template sidecar architecture = do
    first ←
        add_template_owned builtin qwen_tools_template
          (record { environment = []; names = builtin ∷ []; qwen = is_qwen architecture })
    loaded ← load_sidecar sidecar first
    ok (record loaded { names = sort loaded.names })

  unfoldable pub render :
      TemplateRegistry
      → Text
      → List (ChatMessage V)
      → List (ToolDefinition V)
      → Result Text TemplateError
  unfolding get
  render registry name messages tools = elim (get name registry.environment) [
    | none ↦ err (not_loaded name)
    | some source ↦ map_err engine (jinja.render registry.environment source messages tools)
  ]

unfoldable pub select : TemplateRegistry → Option Text → Bool → Result (Option Text) TemplateError
select registry (some name) has_tools =
    if contains name registry.names
    then ok (some name)
    else err (unknown_template name registry.names)
select registry none has_tools =
    if has_tools then if registry.qwen then ok (some builtin) else err no_tool_template else ok none
