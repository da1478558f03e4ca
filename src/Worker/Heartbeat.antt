-- ===== src/Worker/Heartbeat.antt =====
-- crates/worker/src/heartbeat.rs: one round of the loop. The network has a state of its own, and
-- answers a post by a status or an error. A post is a route of the coordinator with its body.
pub mod Known
use decompute.Prelude.{ℕ, Text, Result, ok, err, ◌==◌, nat_eq, if◌then◌else◌}
use decompute.Core.Models.{Acceleration, HardwareInfo}
use decompute.Protocol.Workers.{RegisterWorkerRequest, HeartbeatRequest}
use decompute.Worker.State.{WorkerRuntime, capabilities}

pub data Post : Type 0 where
  register_post : RegisterWorkerRequest → Post
  heartbeat_post : Text → HeartbeatRequest → Post

module _ (detect : Acceleration → HardwareInfo) where
  unfoldable pub register : WorkerRuntime → RegisterWorkerRequest
  register w = record { address = w.address; capabilities = capabilities detect w }

  module _ {N : Type 0} (post : N → Post → N × Result ℕ Text) where
    unfoldable pub start : N → WorkerRuntime → N
    unfolding register
    start n w = (post n (register_post (register w))).0

    -- The body of the loop, after its tick.
    unfoldable pub round : N → WorkerRuntime → N
    unfolding register
    round n w =
        let (sent, answer) =
          post n (heartbeat_post w.node_id (record { capabilities = capabilities detect w })) in
        elim answer [
          | err message ↦ sent
          | ok status ↦ if status == 404 then (post sent (register_post (register w))).0 else sent
        ]
