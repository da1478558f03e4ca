-- ===== src/Protocol/Requests/Tools.antt =====
-- Which tool definitions a request may carry.
use decompute.Prelude.{
  ℕ, ◌≤◌, ◌⊎◌, Bool, true, false, Text, text_eq, List, [], ◌∷◌, ◌≡◌, refl, inl, inr, ◌≢◌, ◌↔◌,
  arith, all, ok, is_empty, contains, contains_iff, In, All,
}
use decompute.Core.Chat.{ToolDefinition}
use decompute.Core.History.{tool_names}
use decompute.Protocol.Requests.{is_name_char, check_tools, validate_tools}

-- The characters from `a` to `b`, as `a-z`.
abbrev pub IsBetween : ℕ → ℕ → ℕ → Type 0
IsBetween a b c = (a ≤ c) × (c ≤ b)

-- An ASCII digit or letter, an underscore or a hyphen.
abbrev pub IsNameChar : ℕ → Type 0
IsNameChar c =
    IsBetween b'0' b'9' c ⊎ IsBetween b'A' b'Z' c ⊎ IsBetween b'a' b'z' c ⊎ (c ≡ b'_') ⊎ (c ≡ b'-')

is_name_char_iff : (c : ℕ) → (is_name_char c ≡ true) ↔ IsNameChar c
unfolding is_name_char
is_name_char_iff c = (λ h. ground arith, λ h. ground arith)

module _ {V : Type 0} (is_object : V → Bool) where
  pub record IsTool (t : ToolDefinition V) : Type 0 where
    pub named : t.function.name ≢ []
    pub spelled : All IsNameChar t.function.name
    pub with_object : is_object t.function.parameters ≡ true

abbrev pub NoRepeats : List Text → Type 0
NoRepeats [] = Unit
NoRepeats (x ∷ xs) = (¬ In x xs) × NoRepeats xs

all_iff : (xs : List ℕ) → (all is_name_char xs ≡ true) ↔ All IsNameChar xs
unfolding all
all_iff [] = (λ h. tt, λ h. refl)
all_iff (x ∷ xs) =
    let (to, from) = is_name_char_iff x in
    let (tos, froms) = all_iff xs in
    (λ h. (to (ground arith), tos (ground arith)), λ (h, hs). ground (arith, from h, froms hs))

module _ {V : Type 0} (is_object : V → Bool) where
  abbrev Avoids : List Text → List Text → Type 0
  Avoids names others = (x : Text) → In x names → ¬ In x others

  tool_passes :
      (names : List Text) (t : ToolDefinition V) (tools : List (ToolDefinition V))
      → check_tools is_object names (t ∷ tools) ≡ ok tt
      → (is_empty t.function.name ≡ false)
        × (all is_name_char t.function.name ≡ true)
        × (contains t.function.name names ≡ false)
        × (is_object t.function.parameters ≡ true)
        × (check_tools is_object (t.function.name ∷ names) tools ≡ ok tt)
  unfolding check_tools
  tool_passes names t tools h = ground arith

  check_tools-ok :
      (names : List Text) (tools : List (ToolDefinition V))
      → check_tools is_object names tools ≡ ok tt
      → All (IsTool is_object) tools
        × NoRepeats (tool_names tools)
        × Avoids names (tool_names tools)
  check_tools-ok names [] h = (tt, tt, λ x at. λ n. n.0)
  check_tools-ok names (t ∷ tools) h =
      let n = t.function.name in
      let (named, spelled, new, object, rest) = tool_passes names t tools h in
      let (tools_ok, once, avoids) = check_tools-ok (n ∷ names) tools rest in
      (
        (
          record {
            named = λ e. ground arith;
            spelled = (all_iff n).0 spelled;
            with_object = object;
          },
          tools_ok,
        ),
        (avoids n (inl refl), once),
        λ x at. elim [
          | inl e ↦ cc ((contains_iff n names).1 (rw e at at), new)
          | inr there ↦ avoids x (inr at) there
        ],
      )

  ok-check_tools :
      (names : List Text) (tools : List (ToolDefinition V))
      → All (IsTool is_object) tools
      → NoRepeats (tool_names tools)
      → Avoids names (tool_names tools)
      → check_tools is_object names tools ≡ ok tt
  unfolding check_tools
  ok-check_tools names [] tools_ok once avoids = refl
  ok-check_tools names (t ∷ tools) (this, tools_ok) (new, once) avoids =
      let n = t.function.name in
      let rest =
        ok-check_tools (n ∷ names) tools tools_ok once
          (λ x. elim [ inl e ↦ rw e new | inr at ↦ λ there. avoids x at (inr there) ]) in
      let fresh : contains n names ≢ true = λ c. avoids n ((contains_iff n names).0 c) (inl refl) in
      ground (arith, rest, fresh, this.named, this.with_object, (all_iff n).1 this.spelled)

  -- The tools of a request pass exactly if every name is not empty and of ASCII letters, digits,
  -- underscores and hyphens, no two names are equal, and every schema is a JSON object.
  pub validate_tools_iff :
      (tools : List (ToolDefinition V))
      → (validate_tools is_object tools ≡ ok tt)
        ↔ (All (IsTool is_object) tools × NoRepeats (tool_names tools))
  unfolding validate_tools
  validate_tools_iff tools = (
    λ h. let (tools_ok, once, _) = check_tools-ok [] tools h in (tools_ok, once),
    λ (tools_ok, once). ok-check_tools [] tools tools_ok once (λ x at. absurd at.0),
  )
