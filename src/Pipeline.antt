-- ===== src/Pipeline.antt =====
-- src/pipeline.rs: one request through authentication, admission, the world snapshot, the generation
-- and screening of candidates, transfer of key-value state, execution and feedback. A call is
-- modelled as if no other ran into it; the clock and the transports are arguments.
pub mod Texts
pub mod Candidates
pub mod Screen
pub mod Choose
pub mod Run
pub mod Stages
pub mod Screening
pub mod Choice
pub mod Returns
pub mod Served
mod Examples
use trust_system.Prelude.{
  ℕ, ◌+◌, ◌/◌, ◌%◌, ◌≡◌, zero, suc, Bool, true, false, Option, none, some, List, [], ◌∷◌, ◌++◌,
  if◌then◌else◌, ltb, Result, ok, err,
}
use trust_system.Prelude.Text.{Text, bytes}
use trust_system.Prelude.Clock.{seconds}
use trust_system.Prelude.Float.{Floats, Num, lit, one_f}
use trust_system.Kv.{KvStrategy, no_kv, prefix_cache, cached_kv, cross_model_transfer}
use trust_system.Kv.Select.{KvIntelligence}
use trust_system.Admission.{AdmissionController, AdmissionError}
use trust_system.Admission
use trust_system.Backend.{BackendRegistry, BackendResult}
use trust_system.Capacity.{CapacitySnapshot}
use trust_system.Trace.{DecisionTrace}
use trust_system.Planner.{ExecutionPlan}
use trust_system.Fabric.{
  FabricError, timeout, capability_mismatch, admission_rejected, stale_lease, queue_full,
  backend_unavailable, identity_mismatch, malformed_response, kv_transfer_failed, stale_readiness,
  KvAction, CompiledExecutionPlan,
}
use trust_system.Fabric.Chain.{AuditChain}
use trust_system.Fabric.Chain
use trust_system.Intelligence.{
  IntelligenceError, invalid_observation, invalid_configuration, stale_world_state,
  insufficient_data,
}
use trust_system.Intelligence.World.{WorldStateManager}
use trust_system.Intelligence.Prediction.{PredictionEngine}
use trust_system.Intelligence.Prediction
use trust_system.Intelligence.Errors.{PredictionErrorTracker}
use trust_system.Intelligence.Errors
use trust_system.Intelligence.Candidates.{UtilityConfig, DecisionFirewall}
use trust_system.Intelligence.Memory.{DecisionMemory}
use trust_system.Intelligence.Memory

module _ ⦃f : Floats⦄ where
  -- What the standard library prints of an error of admission and of a float.
  pub record Printer : Type 0 where
    pub admission_text : AdmissionError → Text
    pub float_text : Num → Text

  pub record PipelineRequest : Type 0 where
    pub request_id : Text
    pub tenant_id : Text
    pub api_key : Option Text
    pub model : Text
    pub model_version : Option Text
    pub prompt_tokens : ℕ
    pub max_tokens : ℕ
    pub prompt_prefix_hash : Option Text
    pub max_ttft_ms : Option ℕ
    pub max_e2e_ms : Option ℕ
    pub min_quality : Option Num
    pub max_cost : Option Num
    pub force_stale_world_state : Bool
    pub observed_kv_size_mb : Option ℕ
    pub observed_transfer_latency_ms : Option ℕ
    pub observed_network_cost : Option Num
    pub observed_recomputation_ms : Option ℕ
    pub observed_source_node : Option Text

  abbrev pub new_request : Text → Text → Text → PipelineRequest
  new_request request_id tenant_id model = record {
    request_id = request_id;
    tenant_id = tenant_id;
    api_key = none;
    model = model;
    model_version = none;
    prompt_tokens = 128;
    max_tokens = 256;
    prompt_prefix_hash = none;
    max_ttft_ms = some 500;
    max_e2e_ms = some 2000;
    min_quality = some (lit 8 10);
    max_cost = some (lit 5 100);
    force_stale_world_state = false;
    observed_kv_size_mb = none;
    observed_transfer_latency_ms = none;
    observed_network_cost = none;
    observed_recomputation_ms = none;
    observed_source_node = none;
  }

  pub record PipelineOutcome : Type 0 where
    pub success : Bool
    pub request_id : Text
    pub decision_id : Text
    pub selected_backend : Option Text
    pub selected_node : Option Text
    pub selected_strategy : Option Text
    pub selected_kv_action : Option KvAction
    pub execution_plan : Option ExecutionPlan
    pub compiled_plan : Option CompiledExecutionPlan
    pub execution_result : Option BackendResult
    pub rejection_reason : Option Text
    pub trace : DecisionTrace
    pub world_revision : ℕ

  -- What the distributed store answers during the call.
  pub record StateStore : Type 0 where
    pub fetch_registry : Result FabricError BackendRegistry
    pub fetch_capacity : Result FabricError CapacitySnapshot

  -- The store of one process: it answers with copies of what it holds.
  abbrev pub local_store : BackendRegistry → CapacitySnapshot → StateStore
  local_store registry capacity = record {
    fetch_registry = ok registry;
    fetch_capacity = ok capacity;
  }

  -- The parts of the engine that a request reads or writes.
  pub record PipelineEngine : Type 0 where
    pub state_store : StateStore
    pub world_state_manager : WorldStateManager
    pub kv_intelligence : KvIntelligence
    pub admission_controller : AdmissionController
    pub firewall : DecisionFirewall
    pub audit_chain : AuditChain
    pub decision_memory : DecisionMemory
    pub prediction_tracker : PredictionErrorTracker
    pub prediction_engine : PredictionEngine

  abbrev pub default_firewall : DecisionFirewall
  default_firewall = record {
    config = record {
      weight_latency = lit 3 10;
      weight_throughput = lit 2 10;
      weight_reliability = lit 2 10;
      weight_quality = lit 15 100;
      weight_cost = lit 1 10;
      weight_kv_transfer = lit 5 100;
      max_ttft = 1000;
      max_tpot = 200;
      max_e2e = 5000;
      min_quality = lit 5 10;
      max_cost = one_f;
      max_failure_probability = lit 2 10;
    };
    max_world_state_age = seconds 300;
  }

  -- `None` is the panic of an admission policy that is refused.
  unfoldable pub new_engine :
      WorldStateManager → StateStore → KvIntelligence → Option PipelineEngine
  new_engine world_state_manager state_store kv_intelligence =
      elim (Admission.new (record { global_in_flight = 1000; per_tenant_in_flight = 100 })) [
        | err x ↦ none
        | ok controller ↦ some (record {
          state_store = state_store;
          world_state_manager = world_state_manager;
          kv_intelligence = kv_intelligence;
          admission_controller = controller;
          firewall = default_firewall;
          audit_chain = Chain.new 1000;
          decision_memory = Memory.new 500;
          prediction_tracker = Errors.new 500;
          prediction_engine = Prediction.new_engine (lit 3 10) 5;
        })
      ]
