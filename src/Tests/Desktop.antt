-- ===== src/Tests/Desktop.antt =====
-- A session at the desktop.
use decompute.Prelude.{text, List, [], ◌∷◌, none, refl, false, nat_eq, ℕ_discrete}
use decompute.Harness.Model.{default_state, delta, cancelled}
use decompute.Harness.App.{HarnessApp, find}
use decompute.Harness.App.Selection.{
  IsSelected, Use, creates, deletes, sends, types, receives, use_all, use_all-IsSelected,
}

abbrev app : HarnessApp
app = record {
  state = default_state 1;
  draft = [];
  models = [];
  status = text "Not connected";
  connected = false;
  active_stream = none;
}

app-IsSelected : IsSelected app.state
unfolding IsSelected find ℕ_discrete
app-IsSelected = (1, refl, refl)

abbrev uses : List Use
uses =
    types (text "hi")
    ∷ sends 10 11
    ∷ receives 0 (delta 1 11 (text "hello"))
    ∷ deletes 2 1
    ∷ receives 0 (cancelled 1)
    ∷ creates 3
    ∷ []

use_all-IsSelected_example : IsSelected (use_all uses app).state
use_all-IsSelected_example = use_all-IsSelected uses app app-IsSelected
