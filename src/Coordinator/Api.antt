-- ===== src/Coordinator/Api.antt =====
-- crates/coordinator/src/api.rs: the routes that workers call, and the list of models. A handler's
-- answer is its status.
use decompute.Prelude.{ℕ, Text, List, map, text, if◌then◌else◌}
use decompute.Protocol.Workers.{RegisterWorkerRequest, HeartbeatRequest}
use decompute.Coordinator.Registry.{Registry, available_models}
use decompute.Coordinator.Registry

abbrev pub created : ℕ
created = 201

abbrev pub no_content : ℕ
no_content = 204

abbrev pub not_found : ℕ
not_found = 404

unfoldable pub register : Registry → RegisterWorkerRequest → ℕ → Registry × ℕ
register registry request now = (Registry.register registry request now, created)

unfoldable pub heartbeat : Registry → Text → HeartbeatRequest → ℕ → Registry × ℕ
heartbeat registry id request now =
    let (r, known) = Registry.heartbeat registry id request now in
    (r, if known then no_content else not_found)

pub record Model : Type 0 where
  pub id : Text
  pub object : Text
  pub owned_by : Text

pub record ModelsResponse : Type 0 where
  pub object : Text
  pub entries : List Model

unfoldable pub models : Registry → ModelsResponse
models registry = record {
  object = text "list";
  entries =
      map (λ id. record { id = id; object = text "model"; owned_by = text "decompute" })
        (available_models registry);
}
