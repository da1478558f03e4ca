-- ===== src/Worker/Leases/Exclusive.antt =====
-- crates/worker/src/state.rs: at most one lease for a session at a time.
use decompute.Prelude.{
  ℕ, false, not, ◌&&◌, List, [], ◌∷◌, Option, none, some, ◌≡◌, arith, ◌==◌, nat_eq, if◌then◌else◌,
  contains, contains-discard, erase, Bool-cases, inl, inr,
}
use decompute.Worker.Leases.{SessionLeases, try_acquire_for, drop_lease}

-- The set of sessions, and the sessions of the leases that requests hold.
pub record Holding : Type 0 where
  pub leases : SessionLeases
  pub held : List ℕ

pub data Move : Type 0 where
  acquires : Option ℕ → Move
  drops : ℕ → Move

-- A lease that nobody holds is not dropped.
unfoldable pub move : Holding → Move → Holding
move h (acquires session_id) = elim (try_acquire_for h.leases session_id) [
  | none ↦ h
  | some leases ↦ elim session_id [
    | none ↦ h
    | some id ↦ record { leases = leases; held = id ∷ h.held }
  ]
]
move h (drops id) =
    if contains id h.held
    then record { leases = (drop_lease h.leases id).0; held = erase id h.held }
    else h

unfoldable pub moves : Holding → List Move → Holding
unfolding move
moves h [] = h
moves h (m ∷ ms) = moves (move h m) ms

abbrev pub Once : List ℕ → Type 0
Once [] = Unit
Once (x ∷ xs) = (contains x xs ≡ false) × Once xs

-- No session is held twice, and the set has exactly the sessions that are held.
pub record IsExclusive (h : Holding) : Type 0 where
  pub once : Once h.held
  pub same : (id : ℕ) → contains id h.leases.active ≡ contains id h.held

contains-erase :
    (a b : ℕ) (xs : List ℕ) → Once xs → contains b (erase a xs) ≡ (not (a == b) && contains b xs)
unfolding contains erase
contains-erase a b [] o = ground arith
contains-erase a b (x ∷ xs) o = ground (arith, contains-erase a b xs, o.0)

erase-Once : (a : ℕ) (xs : List ℕ) → Once xs → Once (erase a xs)
unfolding contains erase
erase-Once a [] o = o
erase-Once a (x ∷ xs) o = ground (arith, erase-Once a xs, contains-erase a x xs, o.0, o.1)

move-IsExclusive : (h : Holding) (m : Move) → IsExclusive h → IsExclusive (move h m)
unfolding move try_acquire_for drop_lease contains
move-IsExclusive h (acquires none) e = e
move-IsExclusive h (acquires (some id)) e = elim (Bool-cases (contains id h.leases.active)) [
  | inl t ↦ rw (move, t) e
  | inr f ↦
      rw (move, f)
        (record {
          once = (ground (arith, f, e.same id), e.once);
          same = λ j. ground (arith, e.same j);
        })
]
move-IsExclusive h (drops id) e = elim (Bool-cases (contains id h.held)) [
  | inr f ↦ rw (move, f) e
  | inl t ↦
      rw (move, t)
        (record {
          once = erase-Once id h.held e.once;
          same = λ j. ground (
            arith,
            contains-discard id j h.leases.active,
            contains-erase id j h.held e.once,
            e.same j,
          );
        })
]

-- Whatever the order of attempts and drops, no session has two leases at a time, and the set of
-- active sessions is that of the leases that are held, where this holds at the start.
pub moves-IsExclusive : (h : Holding) (ms : List Move) → IsExclusive h → IsExclusive (moves h ms)
unfolding moves
moves-IsExclusive h [] e = e
moves-IsExclusive h (m ∷ ms) e = moves-IsExclusive (move h m) ms (move-IsExclusive h m e)
