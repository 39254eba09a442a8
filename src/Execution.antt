-- ===== src/Execution.antt =====
-- src/execution.rs: a request is executed by the selected backend, and its outcome is reported to the
-- health monitor.
pub mod Outcome
mod Examples
use trust_system.Prelude.{
  ℕ, ◌≡◌, Bool, true, false, not, Option, none, some, List, [], ◌∷◌, if◌then◌else◌, all, holds,
  Result, ok, err, ◌>>=◌, ◌>>◌, reject_if, ok_or, map_err,
}
use trust_system.Prelude.Text.{Text, text_dec, valid_identifier}
use trust_system.Prelude.Float.{Floats}
use trust_system.Kv.{ModelReference, KvStrategy}
use trust_system.Backend.{BackendRegistry, BackendRegistryError, BackendResult}
use trust_system.Backend
use trust_system.Monitor.{ToolResult, Channel, HealthMonitor, report}

pub record ExecutionRequest : Type 0 where
  pub request_id : Text
  pub tenant : Text
  pub node : Text
  pub backend_id : Text
  pub model : ModelReference
  pub strategy : KvStrategy

pub data ExecutionError : Type 0 where
  invalid_request : ExecutionError
  backend : BackendRegistryError → ExecutionError
  missing_latency backend_identity_mismatch inconsistent_backend_result : ExecutionError
  health_monitor_closed : ExecutionError

abbrev pub is_some : {A : Type 0} → Option A → Bool
is_some none = false
is_some (some a) = true

abbrev pub bool_eq : Bool → Bool → Bool
bool_eq true b = b
bool_eq false b = not b

abbrev pub identifiers : ExecutionRequest → List Text
identifiers r =
    r.request_id ∷ r.tenant ∷ r.node ∷ r.backend_id ∷ r.model.model_id ∷ r.model.model_version ∷ []

module _ ⦃f : Floats⦄ where
  -- The result of the backend, and what is to be reported of it.
  unfoldable pub observe :
      BackendRegistry → ExecutionRequest → Result ExecutionError (BackendResult × ToolResult)
  observe backends r = do
    reject_if (not (all valid_identifier (identifiers r))) invalid_request
    result ← map_err backend (
        Backend.execute backends r.backend_id
          (record { request_id = r.request_id; model = r.model; strategy = r.strategy }))
    reject_if (not (holds (text_dec result.backend r.backend_id))) backend_identity_mismatch
    reject_if (bool_eq result.success (is_some result.failure)) inconsistent_backend_result
    latency_ms ← ok_or result.latency_ms missing_latency
    ok (
      result,
      record {
        tenant = r.tenant;
        node = r.node;
        success = result.success;
        latency_ms = latency_ms;
      },
    )

  module _ ⦃ch : Channel⦄ where
    pub record ExecutionCoordinator : Type 0 where
      pub backends : BackendRegistry
      pub monitor : HealthMonitor

    -- The coordinator with the monitor as the call leaves it.
    unfoldable pub execute :
        ExecutionCoordinator
        → ExecutionRequest
        → ExecutionCoordinator × Result ExecutionError BackendResult
    unfolding observe
    execute c r = elim (observe c.backends r) [
      | err x ↦ (c, err x)
      | ok (result, observed) ↦ elim (report c.monitor observed) [
        | err _ ↦ (c, err health_monitor_closed)
        | ok monitor ↦ (record c { monitor = monitor }, ok result)
      ]
    ]
