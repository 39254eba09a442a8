-- ===== src/Pipeline/Examples.antt =====
-- The engine of the tests of src/pipeline.rs, over decimal numbers.
use trust_system.Prelude.{◌≡◌, refl, [], ◌∷◌, true, false, none, some, arith, ok}
use trust_system.Prelude.Text.{bytes, text_dec, valid_identifier}
use trust_system.Prelude.BTreeMap
use trust_system.Prelude.HashMap
use trust_system.Prelude.Sort.{insert_sorted, sort_by}
use trust_system.Prelude.Float.Fixed.{decimals, decimals-IsIeee, arithmetic, fin}
use trust_system.Kv.{ModelReference, no_kv}
use trust_system.Kv.Select.{default_intelligence}
use trust_system.Admission
use trust_system.Admission.{AdmissionController}
use trust_system.Admission.Invariant.{new-Inv}
use trust_system.Capacity.{ComputeNode, rejection, evaluate_nodes, evaluate}
use trust_system.Backend.{BackendRegistry, mock, declares, supports, backend_ids}
use trust_system.Fabric.{transport, decide, compile}
use trust_system.Fabric.Chain
use trust_system.Fabric.Chain.{append}
use trust_system.Intelligence
use trust_system.Intelligence.World
use trust_system.Intelligence.Memory
use trust_system.Intelligence.Errors
use trust_system.Intelligence.Prediction
use trust_system.Intelligence.Prediction.{predict, predict_metric}
use trust_system.Intelligence.Errors.{compute, record_error}
use trust_system.Intelligence.Candidates
use trust_system.Intelligence.Candidates.{score, evaluate_candidate}
use trust_system.Pipeline.{
  PipelineRequest, PipelineOutcome, PipelineEngine, new_request, new_engine, local_store,
  default_firewall,
}
use trust_system.Pipeline.Candidates.{
  unwrap_or, kv_action_of, predicted_value, estimate, node_candidates, raw_candidates,
}
use trust_system.Pipeline.Screen.{screen_one, screen_rejected, screen_valid}
use trust_system.Pipeline.Stages.{
  is_reuse, is_transfer, refused, kv_of, plan_of, transport_request_of, execution_result_of,
  observation_of, prediction_error_of,
}
use trust_system.Pipeline.Choose.{
  Surroundings, sorted_candidates, select_from, choose_among, choose,
}
use trust_system.Pipeline.Run.{
  bad_key, transfer_failure, feed_back, run_selected, run_chosen, run_admitted, leave,
  process_request,
}
use trust_system.Pipeline.Returns.{process_request-answers}
use trust_system.Pipeline.Served.{IsServed, process_request-IsServed}

program : Unit {0}
unfolding arithmetic text_dec valid_identifier BTreeMap.get BTreeMap.insert BTreeMap.remove
    HashMap.insert HashMap.lookup insert_sorted sort_by Admission.validate Admission.new
    Admission.admit_locked Admission.admit Admission.release rejection evaluate_nodes evaluate
    declares supports backend_ids decide compile append Intelligence.validate World.snapshot
    World.ingest predict predict_metric compute record_error Candidates.validate Candidates.evaluate
    score evaluate_candidate new_engine kv_action_of predicted_value estimate node_candidates
    raw_candidates screen_one screen_rejected screen_valid is_reuse is_transfer kv_of plan_of
    transport_request_of execution_result_of observation_of prediction_error_of bad_key
    sorted_candidates select_from choose_among choose transfer_failure feed_back run_selected
    run_chosen run_admitted leave process_request
program = tt

abbrev model : ModelReference
model = record { model_id = bytes "m"; model_version = bytes "1" }

abbrev node : ComputeNode
node = record {
  id = bytes "n";
  region = bytes "us";
  accelerator = bytes "a100";
  total_memory_mb = 80000;
  available_memory_mb = 70000;
  utilization = fin 100000;
  active_requests = 0;
  queue_depth = 0;
  healthy = true;
  resident_models = (model, tt) ∷ [];
}

abbrev registry : BackendRegistry
registry = record {
  entries =
      (
        bytes "b",
        record {
          descriptor = record {
            id = bytes "b";
            version = bytes "1";
            capabilities = (model, (no_kv, tt) ∷ []) ∷ [];
          };
          backend = mock (record {
            name = bytes "b";
            model = model;
            supported = no_kv ∷ [];
            result = record {
              backend = bytes "b";
              success = true;
              latency_ms = some 150;
              estimated_cost = some (fin 10000);
              failure = none;
            };
          });
        },
      )
      ∷ [];
  revision = 1;
}

abbrev controller : AdmissionController
controller = record {
  policy = record { global_in_flight = 1000; per_tenant_in_flight = 100 };
  state = record { total_in_flight = 0; tenant_in_flight = [] };
}

news : Admission.new controller.policy ≡ ok controller
unfolding program
news = refl

abbrev request : PipelineRequest
request = new_request (bytes "r") (bytes "t") (bytes "m")

abbrev surroundings : Surroundings
surroundings = record {
  printer = record { admission_text = λ e. bytes "refused"; float_text = λ x. bytes "x" };
  digest = λ t. t;
  transport = transport (record { healthy = true; latency_ms = 100; capabilities = [] });
  kv_transport = none;
  times = record {
    snapshot_at = 1;
    predicted_at = 2;
    screened_at = λ c. 3;
    audited_at = 4;
    observed_at = 5;
    ingested_at = 6;
  };
}

abbrev unused : PipelineOutcome
unused = refused request [] [] [] 0

abbrev engine : PipelineEngine
engine = record {
  state_store = local_store registry (record { nodes = (bytes "n", node) ∷ []; revision = 1 });
  world_state_manager = World.new 300 0;
  kv_intelligence = default_intelligence;
  admission_controller = controller;
  firewall = default_firewall;
  audit_chain = Chain.new 1000;
  decision_memory = Memory.new 500;
  prediction_tracker = Errors.new 500;
  prediction_engine = Prediction.new_engine (fin 300000) 5;
}

makes_engine :
    new_engine engine.world_state_manager engine.state_store default_intelligence ≡ some engine
unfolding program
makes_engine = refl

abbrev result : PipelineEngine × PipelineOutcome
result = unwrap_or (process_request surroundings engine request) (engine, unused)

runs : process_request surroundings engine request ≡ some result
unfolding program
runs = refl

succeeds : result.1.success ≡ true
unfolding program
succeeds = refl

on_the_node : result.1.selected_node ≡ some (bytes "n")
unfolding program
on_the_node = refl

process_request-IsServed_example : IsServed surroundings engine request result.0 result.1
process_request-IsServed_example =
    process_request-IsServed surroundings decimals-IsIeee engine request result.0 result.1 runs
      succeeds

process_request-answers_example :
    (e' : PipelineEngine) × (o : PipelineOutcome) × (process_request surroundings engine request
      ≡ some (e', o))
    × (e'.admission_controller ≡ engine.admission_controller)
    × (o.success ≡ false → e' ≡ engine)
process_request-answers_example =
    process_request-answers surroundings engine request []
      (new-Inv controller.policy (omega arith) news)
