-- ===== src/Tests/Beats.antt =====
-- A round of heartbeats to a coordinator that has forgotten the worker.
use decompute.Prelude.{Text, text, text_eq, some, ◌≡◌, ◌≢◌, In}
use decompute.Prelude.Map.{get}
use decompute.Core.Models.{Acceleration, HardwareInfo}
use decompute.Coordinator.Record.{WorkerRecord}
use decompute.Coordinator.Registry.{Registry, default, register, available_models}
use decompute.Coordinator.Registry.Invariant.{default-IsConsistent, register-IsConsistent}
use decompute.Worker.Heartbeat.{round}
use decompute.Worker.Heartbeat.Known.{deliver, IsHeard, round-IsHeard}
use decompute.Tests.Fleet.{request_of}
use decompute.Tests.Messages.{idle}

abbrev detect : Acceleration → HardwareInfo
detect a = record {
  architecture = text "arm64";
  total_memory_bytes = 1;
  available_memory_bytes = 1;
  acceleration = a;
}

abbrev others : Registry
others = register default (request_of (text "b")) 3

round-IsHeard_example :
    ((worker : WorkerRecord) × (get idle.node_id (round detect (deliver 9) others idle).workers
        ≡ some worker)
      × IsHeard detect idle 9 (get idle.node_id others.workers) worker)
    × ((id : Text)
        → id ≢ idle.node_id
        → get id (round detect (deliver 9) others idle).workers ≡ get id others.workers)
    × In (text "tiny") (available_models (round detect (deliver 9) others idle))
round-IsHeard_example =
    round-IsHeard detect others idle 9
      (register-IsConsistent default (request_of (text "b")) 3 default-IsConsistent)
