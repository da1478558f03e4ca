-- ===== src/Core/Json.antt =====
-- `serde_json::Value`, which belongs to another crate: a type with the operations that the code
-- calls. Nothing is assumed of them.
use decompute.Prelude.{Bool, Text, List, Option, Result}

-- The variants that the code matches on.
pub data View (V : Type 0) : Type 0 where
  null : View V
  string : Text → View V
  array : List V → View V
  other : View V

pub record Json (V : Type 0) : Type 0 where
  pub view : V → View V
  pub is_object : V → Bool
  -- `Value::get` with a name, and `Value::as_str`.
  pub get : V → Text → Option V
  pub as_str : V → Option Text
  -- `from_str`, with the text of its error, and `to_string`.
  pub from_str : Text → Result V Text
  pub to_string : V → Text
