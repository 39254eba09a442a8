-- ===== src/Fabric/Telemetry.antt =====
-- src/fabric.rs: the telemetry of a node.
use trust_system.Prelude.{ℕ, Bool, not, ◌||◌, List, [], ltb, length, Result, ok, ◌>>◌, reject_if}
use trust_system.Prelude.Text.{Text, bytes, is_empty}
use trust_system.Prelude.Clock.{older_than}
use trust_system.Prelude.Float.{Floats, Num, ◌-ᶠ◌, is_nan, within, zero_f, one_f}
use trust_system.Fabric.{FabricError, malformed_response}

module _ ⦃f : Floats⦄ where
  pub record NodeTelemetry : Type 0 where
    pub timestamp : ℕ
    pub node_id : Text
    pub revision : ℕ
    pub provider_version : Text
    pub gpu_utilization : Num
    pub gpu_memory_used_mb : ℕ
    pub gpu_memory_total_mb : ℕ
    pub compute_availability : Num
    pub queue_depth : ℕ
    pub active_requests : ℕ
    pub model_residency : List Text
    pub kv_utilization : Num

  abbrev pub telemetry_is_stale : NodeTelemetry → ℕ → ℕ → Bool
  telemetry_is_stale t max_age now = older_than t.timestamp max_age now

  unfoldable pub validate : NodeTelemetry → Result FabricError (Unit {0})
  validate t = do
    reject_if (is_empty t.node_id || ltb 128 (length t.node_id)) malformed_response
    reject_if (is_nan t.gpu_utilization || not (within zero_f one_f t.gpu_utilization))
        malformed_response
    reject_if (is_nan t.kv_utilization || not (within zero_f one_f t.kv_utilization))
        malformed_response

  pub record DeterministicTelemetryProvider : Type 0 where
    pub gpu_utilization : Num
    pub queue_depth : ℕ

  unfoldable pub collect :
      DeterministicTelemetryProvider → Text → ℕ → Result FabricError NodeTelemetry
  collect p node_id now = ok (record {
    timestamp = now;
    node_id = node_id;
    revision = 1;
    provider_version = bytes "test-v1";
    gpu_utilization = p.gpu_utilization;
    gpu_memory_used_mb = 4000;
    gpu_memory_total_mb = 8000;
    compute_availability = one_f -ᶠ p.gpu_utilization;
    queue_depth = p.queue_depth;
    active_requests = 0;
    model_residency = [];
    kv_utilization = zero_f;
  })
