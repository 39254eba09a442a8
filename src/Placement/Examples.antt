-- ===== src/Placement/Examples.antt =====
-- One candidate, one node and one backend, over decimal numbers.
use trust_system.Prelude.{◌≡◌, refl, [], ◌∷◌, true, none, some, ok}
use trust_system.Prelude.Text.{bytes, text_dec, valid_identifier}
use trust_system.Prelude.BTreeMap
use trust_system.Prelude.Sort.{insert_sorted, sort_by}
use trust_system.Prelude.Float.Fixed.{decimals, decimals-IsIeee, arithmetic, fin}
use trust_system.Kv.{ModelReference, cached_kv}
use trust_system.Capacity.{
  CapacityRequirement, ComputeNode, CapacitySnapshot, empty, rejection, evaluate_nodes, evaluate,
}
use trust_system.Capacity
use trust_system.Capacity.Nodes.{start, more}
use trust_system.Backend.{BackendDescriptor, InferenceBackend, mock, declares, supports}
use trust_system.Inference.{
  InferenceCandidate, default_constraints, default_weights, validate_constraints, validate_weights,
  normalized, score_of, rejected_of, feasible_of, fallback, try_decide,
}
use trust_system.Inference
use trust_system.Placement.{
  PlacementCandidate, PlacementSelection, SystemPlanner, estimate_eq, gate, gate_rejected,
  gate_feasible, rejected_for, find_placement, select_placement, decide,
}
use trust_system.Placement.Collect.{collect_into}
use trust_system.Placement.Selection.{IsSystemDecision, decide-IsSystemDecision}

program : Unit {0}
unfolding arithmetic text_dec valid_identifier BTreeMap.get BTreeMap.insert insert_sorted sort_by
    Capacity.register Capacity.validate rejection evaluate_nodes evaluate declares supports
    validate_constraints validate_weights normalized score_of rejected_of feasible_of fallback
    Inference.rejection try_decide estimate_eq gate gate_rejected gate_feasible rejected_for
    find_placement select_placement decide collect_into
program = tt

abbrev model : ModelReference
model = record { model_id = bytes "m"; model_version = bytes "1" }

abbrev node : ComputeNode
node = record {
  id = bytes "n";
  region = bytes "eu";
  accelerator = bytes "gpu";
  total_memory_mb = 100;
  available_memory_mb = 50;
  utilization = fin 500000;
  active_requests = 1;
  queue_depth = 2;
  healthy = true;
  resident_models = (model, tt) ∷ [];
}

abbrev snapshot : CapacitySnapshot
snapshot = record { nodes = (bytes "n", node) ∷ []; revision = 1 }

registers : Capacity.register empty node ≡ ok snapshot
unfolding program
registers = refl

abbrev descriptor : BackendDescriptor
descriptor = record {
  id = bytes "b";
  version = bytes "1";
  capabilities = (model, (cached_kv, tt) ∷ []) ∷ [];
}

abbrev backend : InferenceBackend
backend = mock (record {
  name = bytes "b";
  model = model;
  supported = cached_kv ∷ [];
  result = record {
    backend = bytes "b";
    success = true;
    latency_ms = some 1;
    estimated_cost = none;
    failure = none;
  };
})

abbrev planner : SystemPlanner
planner = record {
  backends = record {
    entries = (bytes "b", record { descriptor = descriptor; backend = backend }) ∷ [];
    revision = 1;
  };
  capacity = snapshot;
}

abbrev requirement : CapacityRequirement
requirement = record {
  model = model;
  region = none;
  min_available_memory_mb = 10;
  max_queue_depth = 5;
}

abbrev estimate : InferenceCandidate
estimate = record {
  model = model;
  strategy = cached_kv;
  latency_ms = fin 100000000;
  cost = fin 500000;
  failure_rate = fin 0;
  quality = fin 1000000;
}

abbrev candidate : PlacementCandidate
candidate = record { backend_id = bytes "b"; compute_node_id = bytes "n"; estimate = estimate }

abbrev selection : PlacementSelection
selection = record {
  backend_id = bytes "b";
  compute_node_id = bytes "n";
  scored = record { candidate = estimate; score = fin 600000 };
  fallbacks = fallback cached_kv;
}

selects :
    (decide planner (candidate ∷ []) requirement default_constraints default_weights).selected
    ≡ some selection
unfolding program
selects = refl

decide-IsSystemDecision_example :
    IsSystemDecision planner requirement default_constraints default_weights
      (candidate ∷ [])
      (decide planner (candidate ∷ []) requirement default_constraints default_weights)
decide-IsSystemDecision_example =
    decide-IsSystemDecision planner requirement default_constraints default_weights decimals-IsIeee
      (more start node registers) (candidate ∷ [])
