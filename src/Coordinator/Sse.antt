-- ===== src/Coordinator/Sse.antt =====
-- crates/coordinator/src/api.rs: the frames of a worker's event stream. Bytes and scalar values are
-- numbers.
pub mod Framing
use decompute.Prelude.{
  ℕ, suc, ◌+◌, Bool, true, false, ◌&&◌, Text, text, List, [], ◌∷◌, ◌++◌, Option, none, some, ◌==◌,
  nat_eq, if◌then◌else◌, Result, ok, err, ◌>>=◌, or_fail, trim_start, is_empty,
}
use mathlib.Core.Option
use decompute.Prelude.Bytes.{position, starts_with, drop, from_utf8}

unfoldable pub sse_frame_end : List ℕ → Option ℕ
unfolding position
sse_frame_end bytes = elim (position (10 ∷ 10 ∷ []) bytes) [
  | some n ↦ some (n + 2)
  | none ↦ Option.map (λ n. n + 4) (position (13 ∷ 10 ∷ 13 ∷ 10 ∷ []) bytes)
]

-- Puts a character before the first line.
unfoldable pub on_first_line : ℕ → List Text → List Text
on_first_line c [] = (c ∷ []) ∷ []
on_first_line c (line ∷ rest) = (c ∷ line) ∷ rest

-- `str::lines`: a line ends at "\n", and one "\r" right before it goes with it.
unfoldable pub lines : Text → List Text
unfolding on_first_line starts_with
lines [] = []
lines (c ∷ cs) =
    let rest = lines cs in
    if c == 10
    then [] ∷ rest
    else if c == 13 && starts_with (10 ∷ []) cs
    then rest
    else on_first_line c rest

-- `strip_prefix("data:").map(str::trim_start)` of each line that has the prefix.
unfoldable pub data_lines : List Text → List Text
unfolding starts_with
data_lines [] = []
data_lines (line ∷ rest) =
    let more = data_lines rest in
    if starts_with (text "data:") line then trim_start (drop 5 line) ∷ more else more

-- `join("\n")`.
unfoldable pub join_lines : List Text → Text
join_lines [] = []
join_lines (line ∷ []) = line
join_lines (line ∷ next ∷ rest) = line ++ 10 ∷ join_lines (next ∷ rest)

unfoldable pub joined : List Text → Option Text
unfolding join_lines
joined found = if is_empty found then none else some (join_lines found)

-- `error` is the text of the error of `from_utf8`.
unfoldable pub sse_data : (List ℕ → Text) → List ℕ → Result (Option Text) Text
unfolding joined data_lines lines
sse_data error frame = do
  t ← or_fail (from_utf8 frame) (text "invalid UTF-8 worker SSE frame: " ++ error frame)
  ok (joined (data_lines (lines t)))
