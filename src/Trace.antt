-- ===== src/Trace.antt =====
-- src/decision_trace.rs: a bounded explanation of a decision of the planner.
pub mod Bounded
mod Examples
use trust_system.Prelude.{
  ℕ, ◌≡◌, Bool, not, Option, none, some, List, [], map, Result, ok, err, ◌>>=◌, ◌>>◌, reject_if,
  length, take, ltb,
}
use Prim.Native.Nat.{min}
use trust_system.Prelude.Text.{Text, bytes, valid_identifier}
use trust_system.Prelude.Words.{clamp_nat}
use trust_system.Prelude.Float.{Floats, Num}
use trust_system.Kv.{ModelReference, KvStrategy}
use trust_system.Capacity.{
  CapacityRejection, unhealthy, region_mismatch, model_not_resident, insufficient_memory,
  queue_limit,
}
use trust_system.Inference.{
  DecisionError, invalid_constraints, invalid_objective, invalid_estimate, latency_constraint,
  cost_constraint, quality_constraint, invalid_planning_config,
}
use trust_system.Placement.{
  PlacementRejection, invalid_candidate, model_mismatch, unknown_compute_node, capacity,
  unknown_backend, unsupported_backend_capability, inference, PlacementCandidate,
  PlacementSelection, SystemDecision,
}

abbrev pub decision_trace_schema_version : ℕ
decision_trace_schema_version = 1

abbrev pub max_trace_rejections : ℕ
max_trace_rejections = 64

unfoldable pub capacity_reason : CapacityRejection → Text
capacity_reason unhealthy = bytes "node_unhealthy"
capacity_reason region_mismatch = bytes "region_mismatch"
capacity_reason model_not_resident = bytes "model_not_resident"
capacity_reason insufficient_memory = bytes "insufficient_memory"
capacity_reason queue_limit = bytes "queue_limit"

unfoldable pub rejection_reason : PlacementRejection → Text
rejection_reason invalid_candidate = bytes "invalid_candidate"
rejection_reason model_mismatch = bytes "model_mismatch"
rejection_reason unknown_compute_node = bytes "unknown_compute_node"
rejection_reason (capacity reason) = capacity_reason reason
rejection_reason unknown_backend = bytes "unknown_backend"
rejection_reason unsupported_backend_capability = bytes "unsupported_backend_capability"
rejection_reason (inference invalid_estimate) = bytes "invalid_estimate"
rejection_reason (inference latency_constraint) = bytes "latency_constraint"
rejection_reason (inference cost_constraint) = bytes "cost_constraint"
rejection_reason (inference quality_constraint) = bytes "quality_constraint"
rejection_reason (inference invalid_planning_config) = bytes "invalid_planning_config"

unfoldable pub config_error_text : DecisionError → Text
config_error_text invalid_constraints = bytes "invalid_constraints"
config_error_text invalid_objective = bytes "invalid_objective"

pub record TraceRejection : Type 0 where
  pub backend_id : Text
  pub compute_node_id : Text
  pub reason : Text

pub data TraceError : Type 0 where
  invalid_request_id : TraceError

module _ ⦃f : Floats⦄ where
  pub record TraceSelection : Type 0 where
    pub backend_id : Text
    pub compute_node_id : Text
    pub model : ModelReference
    pub strategy : KvStrategy
    pub score : Num
    pub fallbacks : List KvStrategy

  pub record DecisionTrace : Type 0 where
    pub schema_version : ℕ
    pub request_id : Text
    pub capacity_revision : ℕ
    pub backend_revision : ℕ
    pub selected : Option TraceSelection
    pub rejected : List TraceRejection
    pub rejected_truncated : Bool
    pub unavailable_nodes : List TraceRejection
    pub config_error : Option Text

  abbrev pub trace_selection : PlacementSelection → TraceSelection
  trace_selection s = record {
    backend_id = s.backend_id;
    compute_node_id = s.compute_node_id;
    model = s.scored.candidate.model;
    strategy = s.scored.candidate.strategy;
    score = s.scored.score;
    fallbacks = s.fallbacks;
  }

  abbrev pub trace_rejection : PlacementCandidate × PlacementRejection → TraceRejection
  trace_rejection r = record {
    backend_id = r.0.backend_id;
    compute_node_id = r.0.compute_node_id;
    reason = rejection_reason r.1;
  }

  abbrev pub trace_node : Text × CapacityRejection → TraceRejection
  trace_node r = record { backend_id = []; compute_node_id = r.0; reason = capacity_reason r.1 }

  unfoldable pub from_system_decision :
      Text → SystemDecision → ℕ → ℕ → ℕ → Result TraceError DecisionTrace
  from_system_decision request_id d capacity_revision backend_revision max_rejections =
      let limit = clamp_nat 1 max_trace_rejections max_rejections in
      reject_if (not (valid_identifier request_id)) invalid_request_id
      >> ok (record {
        schema_version = decision_trace_schema_version;
        request_id = request_id;
        capacity_revision = capacity_revision;
        backend_revision = backend_revision;
        selected = elim d.selected [ none ↦ none | some s ↦ some (trace_selection s) ];
        rejected = map trace_rejection (take limit d.rejected);
        rejected_truncated = ltb limit (length d.rejected);
        unavailable_nodes = map trace_node d.unavailable_nodes;
        config_error = elim d.config_error [ none ↦ none | some e ↦ some (config_error_text e) ];
      })
