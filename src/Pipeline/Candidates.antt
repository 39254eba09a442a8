-- ===== src/Pipeline/Candidates.antt =====
-- src/pipeline.rs, stages 4 and 5: the candidates of a request.
use trust_system.Prelude.{
  ℕ, Bool, true, false, ◌||◌, Option, none, some, List, [], ◌∷◌, ◌++◌, map, if◌then◌else◌, keep,
  ◌==◌, ok, err,
}
use trust_system.Prelude.Text.{Text, bytes}
use trust_system.Prelude.Words.{u64_max}
use trust_system.Prelude.Order.{by, list_cmp}
use trust_system.Prelude.Sort.{sort_by}
use trust_system.Prelude.Float.{Floats, ◌==ᶠ◌, lit, max_float, one_f, to_u64}
use trust_system.Kv.{
  ModelReference, KvStrategy, no_kv, prefix_cache, cached_kv, cross_model_transfer,
}
use trust_system.Backend.{BackendRegistry, supports}
use trust_system.Capacity.{CapacityRequirement, ComputeNode}
use trust_system.Fabric.{KvAction, recompute, decide}
use trust_system.Intelligence.Prediction.{PredictionEngine, predict_metric}
use trust_system.Intelligence.Candidates.{
  OperationalValue, predicted, derived, configured, unavailable, candidate_id,
  CounterfactualEstimate,
}
use trust_system.Pipeline.{PipelineRequest}
use trust_system.Pipeline.Texts.{strategy_text}

abbrev pub unwrap_or : {A : Type 0} → Option A → A → A
unwrap_or none d = d
unwrap_or (some a) d = a

module _ ⦃f : Floats⦄ where
  abbrev pub model_of : PipelineRequest → ModelReference
  model_of req = record {
    model_id = req.model;
    model_version = unwrap_or req.model_version (bytes "1");
  }

  abbrev pub requirement_of : PipelineRequest → CapacityRequirement
  requirement_of req = record {
    model = model_of req;
    region = none;
    min_available_memory_mb = 1000;
    max_queue_depth = 10;
  }

  unfoldable pub kv_action_of : PipelineRequest → KvAction
  kv_action_of req = elim req.prompt_prefix_hash [
    | none ↦ recompute
    | some _ ↦
        let latency = unwrap_or req.observed_transfer_latency_ms u64_max in
        let network = unwrap_or req.observed_network_cost max_float in
        if latency == u64_max || network ==ᶠ max_float
        then recompute
        else (decide (record {
          compatible = true;
          kv_size_mb = unwrap_or req.observed_kv_size_mb 0;
          transfer_latency_ms = latency;
          network_cost = network;
          recomputation_ms = unwrap_or req.observed_recomputation_ms 0;
          expected_reuse = lit 8 10;
          failure_risk = lit 1 100;
          confidence = lit 9 10;
        })).0
  ]

  unfoldable pub predicted_value : PredictionEngine → Text → ℕ → ℕ → OperationalValue ℕ
  predicted_value e key revision now = elim (predict_metric e key revision now) [
    | err _ ↦ unavailable
    | ok p ↦ predicted (to_u64 p.value)
  ]

  unfoldable pub estimate :
      PredictionEngine
      → PipelineRequest
      → ℕ
      → ℕ
      → Text
      → ComputeNode
      → KvStrategy
      → CounterfactualEstimate
  unfolding predicted_value
  estimate e req revision now backend_id node strategy = record {
    id = candidate_id backend_id node.id (strategy_text strategy);
    backend_id = backend_id;
    compute_node_id = node.id;
    model = req.model;
    strategy = strategy_text strategy;
    predicted_ttft = predicted_value e (backend_id ++ bytes "-ttft") revision now;
    predicted_tpot = unavailable;
    predicted_e2e = predicted_value e (backend_id ++ bytes "-e2e") revision now;
    predicted_cost = derived (lit 5 1000);
    predicted_failure_probability = predicted (lit 1 100);
    predicted_kv_transfer = unavailable;
    quality_risk = configured one_f;
    confidence = derived (lit 9 10);
    feasible = true;
    rejection_reason = none;
  }

  abbrev pub Raw : Type 0
  Raw = CounterfactualEstimate × KvAction

  abbrev pub all_strategies : List KvStrategy
  all_strategies = no_kv ∷ prefix_cache ∷ cached_kv ∷ cross_model_transfer ∷ []

  -- `supports(...).unwrap_or(false)`.
  abbrev pub declared : BackendRegistry → Text → ModelReference → KvStrategy → Bool
  declared backends backend_id model strategy = elim (supports backends backend_id model strategy) [
    | ok b ↦ b
    | err _ ↦ false
  ]

  abbrev pub strategies_of : BackendRegistry → PipelineRequest → Text → List KvStrategy
  strategies_of backends req backend_id =
      keep (declared backends backend_id (model_of req)) all_strategies

  -- The three nested loops.
  unfoldable pub node_candidates :
      PredictionEngine
      → BackendRegistry
      → PipelineRequest
      → ℕ
      → ℕ
      → Text
      → List ComputeNode
      → List Raw
  node_candidates e backends req revision now backend_id [] = []
  node_candidates e backends req revision now backend_id (node ∷ nodes) =
      map (λ s. (estimate e req revision now backend_id node s, kv_action_of req))
        (strategies_of backends req backend_id)
      ++ node_candidates e backends req revision now backend_id nodes

  unfoldable pub raw_candidates :
      PredictionEngine
      → BackendRegistry
      → PipelineRequest
      → ℕ
      → ℕ
      → List Text
      → List ComputeNode
      → List Raw
  raw_candidates e backends req revision now [] nodes = []
  raw_candidates e backends req revision now (backend_id ∷ ids) nodes =
      node_candidates e backends req revision now backend_id nodes
      ++ raw_candidates e backends req revision now ids nodes

  abbrev pub sort_raw : List Raw → List Raw
  sort_raw = sort_by (by (λ c. c.0.id) list_cmp)
