-- ===== src/Intelligence/Examples.antt =====
-- An approval and a history of the world state, over decimal numbers.
use trust_system.Prelude.{◌≡◌, ◌↔◌, refl, true, false, none, [], ◌∷◌, arith, ok}
use trust_system.Prelude.Text.{bytes, text_dec, valid_identifier}
use trust_system.Prelude.HashMap
use trust_system.Prelude.Float.Fixed.{decimals, arithmetic, fin}
use trust_system.Intelligence.{InferenceObservation}
use trust_system.Intelligence
use trust_system.Intelligence.World.{WorldStateManager, new, ingest}
use trust_system.Intelligence.Candidates.{
  high, observed, predicted, unavailable, CounterfactualEstimate, UtilityConfig, DecisionFirewall,
  validate, approved, evaluate_candidate,
}
use trust_system.Intelligence.Approval.{Approvable, approved_iff}
use trust_system.Intelligence.Revisions.{Inv, start, accepted, History-Inv}

abbrev config : UtilityConfig
config = record {
  weight_latency = fin 300000;
  weight_throughput = fin 200000;
  weight_reliability = fin 200000;
  weight_quality = fin 150000;
  weight_cost = fin 100000;
  weight_kv_transfer = fin 50000;
  max_ttft = 1000;
  max_tpot = 200;
  max_e2e = 5000;
  min_quality = fin 500000;
  max_cost = fin 1000000;
  max_failure_probability = fin 200000;
}

abbrev firewall : DecisionFirewall
firewall = record { config = config; max_world_state_age = 100 }

abbrev candidate : CounterfactualEstimate
candidate = record {
  id = bytes "b:n:s";
  backend_id = bytes "b";
  compute_node_id = bytes "n";
  model = bytes "m";
  strategy = bytes "s";
  predicted_ttft = predicted 900;
  predicted_tpot = unavailable;
  predicted_e2e = unavailable;
  predicted_cost = predicted (fin 5000);
  predicted_failure_probability = predicted (fin 10000);
  predicted_kv_transfer = unavailable;
  quality_risk = observed (fin 1000000);
  confidence = predicted (fin 900000);
  feasible = true;
  rejection_reason = none;
}

approves : evaluate_candidate firewall candidate (new 100 5).state high 7 ≡ approved
unfolding evaluate_candidate validate arithmetic
approves = refl

approved_iff_example :
    (evaluate_candidate firewall candidate (new 100 5).state high 7 ≡ approved)
    ↔ Approvable firewall candidate (new 100 5).state high 7
approved_iff_example = approved_iff firewall candidate (new 100 5).state high 7

abbrev observation : InferenceObservation
observation = record {
  schema_version = 1;
  request_id = bytes "r";
  tenant = bytes "t";
  model = bytes "m";
  model_version = bytes "1";
  backend_id = bytes "b";
  backend_version = bytes "1";
  compute_node_id = bytes "n";
  accelerator = bytes "gpu";
  region = bytes "eu";
  prefill_tokens = 1;
  decode_tokens = 1;
  total_tokens = 2;
  queue_delay_ms = 0;
  ttft_ms = 1;
  tpot_ms = 1;
  e2e_latency_ms = 2;
  gpu_utilization = fin 500000;
  gpu_memory_used_mb = 1;
  gpu_memory_total_mb = 2;
  kv_hit = false;
  kv_tokens = 0;
  kv_memory_mb = 0;
  kv_transfer_ms = 0;
  network_transfer_ms = 0;
  retries = 0;
  failure_class = none;
  quality_score = fin 1000000;
  estimated_cost = fin 0;
  actual_cost = fin 0;
  timestamp = 0;
  world_revision = 0;
}

abbrev after : WorldStateManager
after = record (new 100 5) {
  state = record ((new 100 5).state) {
    revision = 1;
    observed_at = 6;
    nodes = bytes "n" ∷ [];
    backends = bytes "b" ∷ [];
    health_states = (bytes "b", bytes "observed") ∷ [];
  };
  observations_accepted = 1;
}

ingests : ingest (new 100 5) observation 6 ≡ (after, ok 1)
unfolding ingest Intelligence.validate valid_identifier text_dec HashMap.insert arithmetic
ingests = refl

History-Inv_example : Inv after ((observation, 1) ∷ [])
History-Inv_example =
    History-Inv after ((observation, 1) ∷ []) (omega arith)
      (accepted observation 6 (start 100 5) ingests)
