-- ===== src/Pipeline/Stages.antt =====
-- src/pipeline.rs: what the stages of a request make of each other's results.
use trust_system.Prelude.{
  ℕ, ◌+◌, ◌%◌, ◌^◌, Bool, true, false, Option, none, some, List, [], ◌∷◌, ◌++◌, if◌then◌else◌,
  holds,
}
use trust_system.Prelude.Text.{Text, bytes, text_dec}
use trust_system.Prelude.Float.{Floats, lit, one_f, zero_f, of_nat}
use trust_system.Kv.{normal_prefill, no_kv}
use trust_system.Backend.{BackendResult}
use trust_system.Planner.{ExecutionPlan}
use trust_system.Trace.{DecisionTrace, TraceRejection, decision_trace_schema_version}
use trust_system.Fabric.{
  KvAction, recompute, reuse, transfer, TransportRequest, TransportResponse, CompiledExecutionPlan,
  compile,
}
use trust_system.Intelligence.{InferenceObservation}
use trust_system.Intelligence.World.{WorldState}
use trust_system.Intelligence.Errors.{PredictionError, compute}
use trust_system.Intelligence.Candidates.{CounterfactualEstimate, value, value_or}
use trust_system.Pipeline.{PipelineRequest, PipelineOutcome}
use trust_system.Pipeline.Candidates.{unwrap_or, model_of, Raw}

unfoldable pub is_reuse : KvAction → Bool
is_reuse reuse = true
is_reuse _ = false

unfoldable pub is_transfer : KvAction → Bool
is_transfer transfer = true
is_transfer _ = false

module _ ⦃f : Floats⦄ where
  -- What the stages before the execution settle.
  pub record Selected : Type 0 where
    pub candidate : CounterfactualEstimate
    pub kv_action : KvAction
    pub world : WorldState
    pub rejected : List TraceRejection

  abbrev pub decision_id : PipelineRequest → Text
  decision_id req = bytes "dec-" ++ req.request_id

  abbrev pub trace_finish : PipelineRequest → Option Text → List TraceRejection → DecisionTrace
  trace_finish req reason rejected = record {
    schema_version = decision_trace_schema_version;
    request_id = req.request_id;
    capacity_revision = 0;
    backend_revision = 0;
    selected = none;
    rejected = rejected;
    rejected_truncated = false;
    unavailable_nodes = [];
    config_error = reason;
  }

  -- The outcome of a request that fails before a candidate is selected: the reason in the trace,
  -- and the one of the outcome.
  abbrev pub refused : PipelineRequest → Text → Text → List TraceRejection → ℕ → PipelineOutcome
  refused req traced reason rejected revision = record {
    success = false;
    request_id = req.request_id;
    decision_id = decision_id req;
    selected_backend = none;
    selected_node = none;
    selected_strategy = none;
    selected_kv_action = none;
    execution_plan = none;
    compiled_plan = none;
    execution_result = none;
    rejection_reason = some reason;
    trace = trace_finish req (some traced) rejected;
    world_revision = revision;
  }

  -- `find(..).map(..).unwrap_or(KvAction::Recompute)`.
  unfoldable pub kv_of : Text → List Raw → KvAction
  kv_of id [] = recompute
  kv_of id ((c, kv) ∷ cs) =
      let later = kv_of id cs in if holds (text_dec c.id id) then kv else later

  unfoldable pub plan_of : PipelineRequest → Selected → ExecutionPlan
  plan_of req s = record {
    schema_version = 1;
    snapshot = record {
      tenant_id = req.tenant_id;
      start = s.candidate.compute_node_id;
      goal = s.candidate.compute_node_id;
      cache_hit = is_reuse s.kv_action;
    };
    candidate = record { nodes = s.candidate.compute_node_id ∷ []; score = one_f };
    steps = record { ordinal = 0; node = s.candidate.compute_node_id } ∷ [];
    kv = record {
      inference_strategy = normal_prefill;
      strategy = no_kv;
      target = some (model_of req);
      source = none;
      mapping_version = none;
      model_revision = 0;
      compatibility_revision = 0;
      fallback_reason = none;
    };
  }

  abbrev pub version_or_unknown : PipelineRequest → Text
  version_or_unknown req = unwrap_or req.model_version (bytes "Unknown")

  abbrev pub compiled_of : PipelineRequest → Selected → CompiledExecutionPlan
  compiled_of req s =
      compile s.candidate (version_or_unknown req)
        (s.kv_action, bytes "Selected deterministic action") (lit 8 10) s.world.revision 1 1

  unfoldable pub transport_request_of : PipelineRequest → Selected → TransportRequest
  unfolding compile
  transport_request_of req s = record {
    request_id = req.request_id;
    model = req.model;
    model_version = version_or_unknown req;
    backend_id = s.candidate.backend_id;
    timeout = (compiled_of req s).timeout;
  }

  unfoldable pub execution_result_of : Selected → TransportResponse → BackendResult
  execution_result_of s resp = record {
    backend = s.candidate.backend_id;
    success = resp.success;
    latency_ms = some resp.latency_ms;
    estimated_cost = value s.candidate.predicted_cost;
    failure = none;
  }

  -- An outcome past the selection: that of a failed transfer or execution, and the last one.
  abbrev pub finished :
      PipelineRequest
      → Selected
      → Bool
      → Option BackendResult
      → Option Text
      → Option Text
      → ℕ
      → PipelineOutcome
  finished req s success result traced reason revision = record {
    success = success;
    request_id = req.request_id;
    decision_id = decision_id req;
    selected_backend = some s.candidate.backend_id;
    selected_node = some s.candidate.compute_node_id;
    selected_strategy = some s.candidate.strategy;
    selected_kv_action = some s.kv_action;
    execution_plan = some (plan_of req s);
    compiled_plan = some (compiled_of req s);
    execution_result = result;
    rejection_reason = reason;
    trace = trace_finish req traced s.rejected;
    world_revision = revision;
  }

  unfoldable pub observation_of :
      PipelineRequest → Selected → TransportResponse → ℕ → InferenceObservation
  observation_of req s resp now = record {
    schema_version = 1;
    request_id = req.request_id;
    tenant = req.tenant_id;
    model = req.model;
    model_version = version_or_unknown req;
    backend_id = s.candidate.backend_id;
    backend_version = unwrap_or resp.backend_version (bytes "Unknown");
    compute_node_id = s.candidate.compute_node_id;
    accelerator = unwrap_or resp.accelerator (bytes "Unknown");
    region = unwrap_or resp.region (bytes "Unknown");
    prefill_tokens = req.prompt_tokens;
    decode_tokens = req.max_tokens;
    total_tokens = (req.prompt_tokens + req.max_tokens) % 2 ^ 64;
    queue_delay_ms = unwrap_or resp.queue_delay_ms 0;
    ttft_ms = unwrap_or resp.ttft_ms 0;
    tpot_ms = unwrap_or resp.tpot_ms 0;
    e2e_latency_ms = resp.latency_ms;
    gpu_utilization = unwrap_or resp.gpu_utilization zero_f;
    gpu_memory_used_mb = unwrap_or resp.gpu_memory_used_mb 0;
    gpu_memory_total_mb = unwrap_or resp.gpu_memory_total_mb 0;
    kv_hit = is_reuse s.kv_action;
    kv_tokens = if is_reuse s.kv_action then req.prompt_tokens else 0;
    kv_memory_mb = unwrap_or req.observed_kv_size_mb 0;
    kv_transfer_ms = unwrap_or req.observed_transfer_latency_ms 0;
    network_transfer_ms = 0;
    retries = 0;
    failure_class = resp.failure_class;
    quality_score = unwrap_or resp.quality_score one_f;
    estimated_cost = value_or s.candidate.predicted_cost zero_f;
    actual_cost = unwrap_or resp.actual_cost zero_f;
    timestamp = now;
    world_revision = s.world.revision;
  }

  unfoldable pub prediction_error_of :
      PipelineRequest → Selected → TransportResponse → PredictionError
  unfolding compute
  prediction_error_of req s resp =
      compute (bytes "e2e_ms") (of_nat (value_or s.candidate.predicted_e2e 0))
        (of_nat resp.latency_ms) (value_or s.candidate.confidence zero_f)
        (unwrap_or req.model_version (bytes "1")) s.world.revision
