-- ===== src/Models/Paths.antt =====
-- What crates/decompute-models uses of `std::path::Path` on Unix. A path is its text.
use decompute.Prelude.{
  ℕ, ◌||◌, Text, text, text_eq, List, [], ◌∷◌, Option, none, some, ◌==◌, nat_eq, if◌then◌else◌,
  is_empty, ℕ_discrete, ◌≡◌, refl, text_discrete,
}

-- `str::split_once`.
unfoldable pub split_once : ℕ → Text → Option (Text × Text)
split_once sep [] = none
split_once sep (c ∷ cs) =
    let rest = split_once sep cs in
    if c == sep then some ([], cs) else elim rest [ none ↦ none | some p ↦ some (c ∷ p.0, p.1) ]

-- The text around the last separator.
unfoldable pub rsplit_once : ℕ → Text → Option (Text × Text)
rsplit_once sep [] = none
rsplit_once sep (c ∷ cs) = elim (rsplit_once sep cs) [
  | some p ↦ some (c ∷ p.0, p.1)
  | none ↦ if c == sep then some ([], cs) else none
]

unfoldable pub on_first : ℕ → List Text → List Text
on_first c [] = (c ∷ []) ∷ []
on_first c (part ∷ parts) = (c ∷ part) ∷ parts

unfoldable pub split : ℕ → Text → List Text
unfolding on_first
split sep [] = [] ∷ []
split sep (c ∷ cs) = let rest = split sep cs in if c == sep then [] ∷ rest else on_first c rest

-- A component counts unless it is empty or ".".
unfoldable pub last_component : List Text → Option Text
last_component [] = none
last_component (part ∷ parts) = elim (last_component parts) [
  | some name ↦ some name
  | none ↦ if is_empty part || part == text "." then none else some part
]

-- `Path::file_name`.
unfoldable pub file_name : Text → Option Text
unfolding last_component split
file_name path = elim (last_component (split b'/' path)) [
  | none ↦ none
  | some name ↦ if name == text ".." then none else some name
]

-- `Path::extension`: what follows the last dot of the name, unless the name starts with that dot.
unfoldable pub extension : Text → Option Text
unfolding file_name rsplit_once
extension path = elim (file_name path) [
  | none ↦ none
  | some name ↦ elim (rsplit_once b'.' name) [
    | none ↦ none
    | some p ↦ if is_empty p.0 then none else some p.1
  ]
]

extension_runs : extension (text "/models/./a.b.gguf") ≡ some (text "gguf")
unfolding extension text_discrete ℕ_discrete
extension_runs = refl

extension_hidden_runs : extension (text "/models/.gguf/") ≡ none
unfolding extension text_discrete ℕ_discrete
extension_hidden_runs = refl
