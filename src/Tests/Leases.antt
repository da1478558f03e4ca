-- ===== src/Tests/Leases.antt =====
-- Two requests of one session.
use decompute.Prelude.{List, [], ◌∷◌, some, none, refl}
use decompute.Worker.Leases.Exclusive.{
  Holding, Move, acquires, drops, moves, IsExclusive, moves-IsExclusive,
}

abbrev unused : Holding
unused = record { leases = record { active = [] }; held = [] }

unused-IsExclusive : IsExclusive unused
unused-IsExclusive = record { once = tt; same = λ id. refl }

abbrev requests : List Move
requests = acquires (some 9) ∷ acquires (some 9) ∷ acquires none ∷ drops 9 ∷ acquires (some 9) ∷ []

moves-IsExclusive_example : IsExclusive (moves unused requests)
moves-IsExclusive_example = moves-IsExclusive unused requests unused-IsExclusive
