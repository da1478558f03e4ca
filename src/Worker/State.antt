-- ===== src/Worker/State.antt =====
-- crates/worker/src/state.rs: capacity, draining and active requests. `try_reserve` and
-- `finish_request` are two atomic actions each, `check_open` and `take_room`, `finish_control` and
-- `release`, which other calls can come between; they are put together here for a call that is left
-- alone. `begin_request`, `release`, `drain` and `cancel` are one atomic action: a section under a lock
-- or an access to an atomic.
-- `capabilities` loads the counter and then the flag, here at one time.
use decompute.Prelude.{
  ℕ, suc, ◌+◌, ◌-◌, ◌%◌, ◌^◌, Bool, true, false, not, Text, text_eq, List, [], ◌∷◌, Option, none,
  some, leb, ◌==◌, nat_eq, if◌then◌else◌, Result, ok, err, is_some,
}
use decompute.Prelude.Map.{get, insert, modify, remove}
use decompute.Core.Models.{Acceleration, HardwareInfo, ModelManifest}
use decompute.Protocol.Workers.{WorkerCapabilities, WorkerState, loaded, available, busy, draining}

-- `cancelled` is the state of the cancellation token. `channel` names the completion channel, of
-- which each request has its own.
pub record RequestControl : Type 0 where
  pub cancelled : Bool
  pub channel : ℕ

-- `completed` lists the channels that carry `true`; `next_channel` is the next new name.
pub record RequestControls : Type 0 where
  pub active : List (ℕ × RequestControl)
  pub next_channel : ℕ
  pub completed : List ℕ

unfoldable pub begin : RequestControls → ℕ → Option RequestControls
begin c request_id =
    if is_some (get request_id c.active)
    then none
    else some (record c {
      active = insert request_id (record { cancelled = false; channel = c.next_channel }) c.active;
      next_channel = suc c.next_channel;
    })

abbrev pub set_cancelled : RequestControl → RequestControl
set_cancelled control = record control { cancelled = true }

-- `cancel` up to its wait: the channel that it waits on, unless the request is not active.
unfoldable pub cancel : RequestControls → ℕ → RequestControls × Option ℕ
cancel c request_id = elim (get request_id c.active) [
  | none ↦ (c, none)
  | some control ↦
      (record c { active = modify request_id set_cancelled c.active }, some control.channel)
]

unfoldable pub finish : RequestControls → ℕ → RequestControls
finish c request_id = elim (get request_id c.active) [
  | none ↦ c
  | some control ↦ record c {
    active = remove request_id c.active;
    completed = control.channel ∷ c.completed;
  }
]

pub record WorkerRuntime : Type 0 where
  pub node_id : Text
  pub model_id : Text
  pub address : Text
  pub max_requests : ℕ
  pub manifest : ModelManifest
  pub acceleration : Acceleration
  pub active : ℕ
  pub is_draining : Bool
  pub requests : RequestControls

pub data ReserveError : Type 0 where
  not_loaded worker_draining at_capacity : ReserveError

-- The tests before the loop: the model's name never changes, and the flag is loaded once.
unfoldable pub check_open : WorkerRuntime → Text → Option ReserveError
check_open w model =
    if not (model == w.model_id)
    then some not_loaded
    else if w.is_draining
    then some worker_draining
    else none

-- The loop. `compare_exchange_weak` succeeds on the value that was loaded, or the loop goes round
-- with the value that it finds; this is the round that ends it.
unfoldable pub take_room : WorkerRuntime → Result WorkerRuntime ReserveError
take_room w =
    if leb w.max_requests w.active then err at_capacity else ok (record w { active = w.active + 1 })

unfoldable pub try_reserve : WorkerRuntime → Text → Result WorkerRuntime ReserveError
unfolding check_open take_room
try_reserve w model = elim (check_open w model) [ some e ↦ err e | none ↦ take_room w ]

-- The bound of `usize`.
abbrev pub usize : ℕ
usize = 2 ^ 64

-- `fetch_sub` wraps.
unfoldable pub release : WorkerRuntime → WorkerRuntime
release w = record w { active = (w.active + usize - 1) % usize }

unfoldable pub begin_request : WorkerRuntime → ℕ → Option WorkerRuntime
begin_request w request_id = elim (begin w.requests request_id) [
  | none ↦ none
  | some requests' ↦ some (record w { requests = requests' })
]

unfoldable pub finish_control : WorkerRuntime → ℕ → WorkerRuntime
finish_control w request_id = record w { requests = finish w.requests request_id }

unfoldable pub finish_request : WorkerRuntime → ℕ → WorkerRuntime
unfolding finish_control release
finish_request w request_id = release (finish_control w request_id)

unfoldable pub drain : WorkerRuntime → WorkerRuntime
drain w = record w { is_draining = true }

unfoldable pub reported_state : WorkerRuntime → WorkerState
reported_state w =
    if w.is_draining then draining else if leb w.max_requests w.active then busy else available

-- `detect` is `decompute_llama::hardware_info`, which asks the operating system.
unfoldable pub capabilities : (Acceleration → HardwareInfo) → WorkerRuntime → WorkerCapabilities
unfolding reported_state
capabilities detect w = record {
  node_id = w.node_id;
  models = record { id = w.model_id; status = loaded; manifest_sha256 = some w.manifest.id } ∷ [];
  active_requests = w.active;
  max_requests = w.max_requests;
  state = reported_state w;
  hardware = detect w.acceleration;
}
