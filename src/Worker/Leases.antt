-- ===== src/Worker/Leases.antt =====
-- crates/worker/src/state.rs: session leases. A lease is held from the insertion of its session to the
-- drop of the `SessionLease`; each of the two is one section under the lock. What a request does
-- between two attempts, which is to wait, has no effect on the state.
pub mod Exclusive
use decompute.Prelude.{
  ℕ, Bool, true, false, List, [], ◌∷◌, Option, none, some, nat_eq, if◌then◌else◌, contains, discard,
}

pub record SessionLeases : Type 0 where
  pub active : List ℕ

-- One attempt of `acquire`: `active.insert(session_id)`. `none` is an attempt that fails.
unfoldable pub try_acquire : SessionLeases → ℕ → Option SessionLeases
try_acquire leases session_id =
    if contains session_id leases.active
    then none
    else some (record { active = session_id ∷ leases.active })

-- `acquire` without a session takes no lease.
unfoldable pub try_acquire_for : SessionLeases → Option ℕ → Option SessionLeases
unfolding try_acquire
try_acquire_for leases none = none
try_acquire_for leases (some session_id) = try_acquire leases session_id

-- `SessionLease::drop`, and whether it notifies those that wait.
unfoldable pub drop_lease : SessionLeases → ℕ → SessionLeases × Bool
drop_lease leases session_id =
    (record { active = discard session_id leases.active }, contains session_id leases.active)
