-- ===== src/Intelligence.antt =====
-- src/intelligence.rs: observations, the world state that they make, predictions, the firewall that
-- candidates pass, and the bounded memories of errors and decisions.
pub mod World
pub mod Prediction
pub mod Errors
pub mod Candidates
pub mod Memory
pub mod Approval
pub mod Ranking
pub mod Revisions
mod Examples
use trust_system.Prelude.{
  ℕ, ◌+◌, ◌≡◌, Bool, true, false, not, ◌||◌, ◌&&◌, Option, Result, ok, err, ◌>>=◌, ◌>>◌, reject_if,
}
use trust_system.Prelude.Text.{Text, bytes, valid_identifier}
use trust_system.Prelude.Float.{Floats, Num, ◌≤ᶠ◌, is_finite, within, zero_f, one_f}

pub data IntelligenceError : Type 0 where
  invalid_observation invalid_configuration : Text → IntelligenceError
  stale_world_state insufficient_data : IntelligenceError

module _ ⦃f : Floats⦄ where
  pub record InferenceObservation : Type 0 where
    pub schema_version : ℕ
    pub request_id : Text
    pub tenant : Text
    pub model : Text
    pub model_version : Text
    pub backend_id : Text
    pub backend_version : Text
    pub compute_node_id : Text
    pub accelerator : Text
    pub region : Text
    pub prefill_tokens : ℕ
    pub decode_tokens : ℕ
    pub total_tokens : ℕ
    pub queue_delay_ms : ℕ
    pub ttft_ms : ℕ
    pub tpot_ms : ℕ
    pub e2e_latency_ms : ℕ
    pub gpu_utilization : Num
    pub gpu_memory_used_mb : ℕ
    pub gpu_memory_total_mb : ℕ
    pub kv_hit : Bool
    pub kv_tokens : ℕ
    pub kv_memory_mb : ℕ
    pub kv_transfer_ms : ℕ
    pub network_transfer_ms : ℕ
    pub retries : ℕ
    pub failure_class : Option Text
    pub quality_score : Num
    pub estimated_cost : Num
    pub actual_cost : Num
    pub timestamp : ℕ
    pub world_revision : ℕ

  abbrev pub valid_f64_unit : Num → Bool
  valid_f64_unit v = is_finite v && within zero_f one_f v

  abbrev pub valid_f64_nonneg : Num → Bool
  valid_f64_nonneg v = is_finite v && zero_f ≤ᶠ v

  unfoldable pub validate : InferenceObservation → Result IntelligenceError (Unit {0})
  validate o = do
    reject_if (not (valid_identifier o.request_id))
        (invalid_observation (bytes "invalid request_id"))
    reject_if (not (valid_identifier o.tenant)) (invalid_observation (bytes "invalid tenant"))
    reject_if (not (valid_identifier o.model)) (invalid_observation (bytes "invalid model"))
    reject_if (not (valid_identifier o.backend_id))
        (invalid_observation (bytes "invalid backend_id"))
    reject_if (not (valid_f64_unit o.gpu_utilization))
        (invalid_observation (bytes "gpu_utilization must be 0.0..=1.0"))
    reject_if (not (valid_f64_unit o.quality_score))
        (invalid_observation (bytes "quality_score must be 0.0..=1.0"))
    reject_if (not (valid_f64_nonneg o.estimated_cost))
        (invalid_observation (bytes "estimated_cost must be finite and non-negative"))
    reject_if (not (valid_f64_nonneg o.actual_cost))
        (invalid_observation (bytes "actual_cost must be finite and non-negative"))
