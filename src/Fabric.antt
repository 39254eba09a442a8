-- ===== src/Fabric.antt =====
-- src/fabric.rs: the boundary to transports of inference and of key-value state, and what is decided
-- before they are called. The children hold the parts with a state of their own.
pub mod Telemetry
pub mod Canary
pub mod Gate
pub mod Queue
pub mod Lifecycle
pub mod Lease
pub mod Chain
mod Examples
use trust_system.Prelude.{
  ℕ, ◌+◌, ◌-◌, ◌*◌, ◌/◌, ◌%◌, ◌^◌, ◌≡◌, Bool, true, false, not, ◌&&◌, ◌||◌, Option, none, some,
  List, [], ◌∷◌, if◌then◌else◌, ltb, leb, length, Result, ok, err, ◌>>=◌, ◌>>◌, reject_if,
}
use trust_system.Prelude.Text.{Text, bytes, is_empty}
use trust_system.Prelude.Clock.{older_than, milliseconds}
use trust_system.Prelude.Float.{
  Floats, Num, ◌<ᶠ◌, ◌≤ᶠ◌, ◌+ᶠ◌, ◌-ᶠ◌, ◌*ᶠ◌, is_nan, within, of_nat, lit, zero_f, one_f,
}
use trust_system.Intelligence.Candidates.{CounterfactualEstimate}

pub data FabricError : Type 0 where
  timeout capability_mismatch : FabricError
  admission_rejected : Text → FabricError
  stale_lease queue_full backend_unavailable identity_mismatch malformed_response : FabricError
  kv_transfer_failed stale_readiness : FabricError

pub record TransportRequest : Type 0 where
  pub request_id : Text
  pub model : Text
  pub model_version : Text
  pub backend_id : Text
  pub timeout : ℕ

-- The trait of key-value transports: an implementation is a value of it.
pub record KvTransport : Type 0 where
  pub can_transfer : Text → Text → Bool
  pub estimate_transfer : ℕ → ℕ
  pub transfer : Text → Text → Result FabricError (Unit {0})
  pub verify : Text → Bool

pub record DeterministicKvTransport : Type 0 where
  pub allow_transfer : Bool
  pub transfer_latency_per_mb : ℕ

-- `size_mb as u32` keeps the low 32 bits.
abbrev pub kv_transport : DeterministicKvTransport → KvTransport
kv_transport t = record {
  can_transfer = λ source dest. t.allow_transfer;
  estimate_transfer = λ size_mb. t.transfer_latency_per_mb * (size_mb % 2 ^ 32);
  transfer = λ source dest. if t.allow_transfer then ok tt else err kv_transfer_failed;
  verify = λ dest. t.allow_transfer;
}

pub data KvAction : Type 0 where
  reuse transfer keep evict migrate recompute : KvAction

pub data ExecutionPhase : Type 0 where
  prefill decode prefill_decode : ExecutionPhase

pub data BackendReadiness : Type 0 where
  declared ready degraded unavailable : BackendReadiness

pub record RuntimeBackendState : Type 0 where
  pub backend_id : Text
  pub readiness : BackendReadiness
  pub model_loaded : Bool
  pub model_version : Text
  pub health_ok : Bool
  pub last_checked : ℕ

unfoldable pub is_selectable : RuntimeBackendState → Bool
is_selectable s = elim s.readiness [ ready ↦ true | _ ↦ false ] && s.model_loaded && s.health_ok

abbrev pub readiness_is_stale : RuntimeBackendState → ℕ → ℕ → Bool
readiness_is_stale s max_age now = older_than s.last_checked max_age now

module _ ⦃f : Floats⦄ where
  pub record TransportResponse : Type 0 where
    pub request_id : Text
    pub backend_id : Text
    pub success : Bool
    pub latency_ms : ℕ
    pub failure_class : Option Text
    pub ttft_ms : Option ℕ
    pub tpot_ms : Option ℕ
    pub queue_delay_ms : Option ℕ
    pub gpu_utilization : Option Num
    pub gpu_memory_used_mb : Option ℕ
    pub gpu_memory_total_mb : Option ℕ
    pub actual_cost : Option Num
    pub quality_score : Option Num
    pub accelerator : Option Text
    pub region : Option Text
    pub backend_version : Option Text

  -- The trait of inference transports: an implementation is a value of it.
  pub record InferenceTransport : Type 0 where
    pub execute : TransportRequest → Result FabricError TransportResponse
    pub health : Bool
    pub capabilities : List Text

  pub record DeterministicTransport : Type 0 where
    pub healthy : Bool
    pub latency_ms : ℕ
    pub capabilities : List Text

  abbrev pub answer : DeterministicTransport → TransportRequest → TransportResponse
  answer t request = record {
    request_id = request.request_id;
    backend_id = request.backend_id;
    success = true;
    latency_ms = t.latency_ms;
    failure_class = none;
    ttft_ms = some (t.latency_ms / 4);
    tpot_ms = some (t.latency_ms / 20);
    queue_delay_ms = some 1;
    gpu_utilization = some (lit 5 10);
    gpu_memory_used_mb = some 4000;
    gpu_memory_total_mb = some 80000;
    actual_cost = some (lit 2 1000);
    quality_score = some one_f;
    accelerator = none;
    region = none;
    backend_version = none;
  }

  abbrev pub transport : DeterministicTransport → InferenceTransport
  transport t = record {
    execute = λ request. if not t.healthy then err backend_unavailable else ok (answer t request);
    health = t.healthy;
    capabilities = t.capabilities;
  }

  pub record KvDecisionInput : Type 0 where
    pub compatible : Bool
    pub kv_size_mb : ℕ
    pub transfer_latency_ms : ℕ
    pub network_cost : Num
    pub recomputation_ms : ℕ
    pub expected_reuse : Num
    pub failure_risk : Num
    pub confidence : Num

  unfoldable pub decide : KvDecisionInput → KvAction × Text
  decide i =
      let transfer_cost = of_nat i.transfer_latency_ms +ᶠ i.network_cost in
      let recompute_cost = of_nat i.recomputation_ms in
      if not i.compatible
      then (recompute, bytes "INCOMPATIBLE_KV")
      else if i.confidence <ᶠ lit 5 10
      then (recompute, bytes "LOW_CONFIDENCE")
      else if lit 3 10 <ᶠ i.failure_risk
      then (recompute, bytes "HIGH_FAILURE_RISK")
      else if transfer_cost +ᶠ i.failure_risk *ᶠ recompute_cost ≤ᶠ recompute_cost
      then (transfer, bytes "TRANSFER_BENEFICIAL")
      else (recompute, bytes "TRANSFER_COST_EXCEEDS_BENEFIT")

  pub record CompiledExecutionPlan : Type 0 where
    pub schema_version : ℕ
    pub model : Text
    pub model_version : Text
    pub backend : Text
    pub node : Text
    pub execution_phase : ExecutionPhase
    pub strategy : Text
    pub timeout : ℕ
    pub retry_budget : ℕ
    pub kv_action : KvAction
    pub kv_reason : Text
    pub quality_floor : Num
    pub world_revision : ℕ
    pub lease_epoch : ℕ
    pub fencing_token : ℕ

  unfoldable pub compile :
      CounterfactualEstimate → Text → KvAction × Text → Num → ℕ → ℕ → ℕ → CompiledExecutionPlan
  compile c model_version kv quality_floor world_revision lease_epoch fencing_token = record {
    schema_version = 2;
    model = c.model;
    model_version = model_version;
    backend = c.backend_id;
    node = c.compute_node_id;
    execution_phase = prefill_decode;
    strategy = c.strategy;
    timeout = milliseconds 5000;
    retry_budget = 3;
    kv_action = kv.0;
    kv_reason = kv.1;
    quality_floor = quality_floor;
    world_revision = world_revision;
    lease_epoch = lease_epoch;
    fencing_token = fencing_token;
  }
