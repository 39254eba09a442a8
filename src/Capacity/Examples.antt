-- ===== src/Capacity/Examples.antt =====
-- A snapshot of one node, over decimal numbers.
use trust_system.Prelude.{◌≡◌, refl, [], ◌∷◌, true, none, ok}
use trust_system.Prelude.Text.{bytes, valid_identifier}
use trust_system.Prelude.BTreeMap
use trust_system.Prelude.Float.Fixed.{decimals, arithmetic, fin}
use trust_system.Kv.{ModelReference}
use trust_system.Capacity.{
  CapacityRequirement, ComputeNode, validate, CapacitySnapshot, empty, register, evaluate,
}
use trust_system.Capacity.Nodes.{start, more, IsEvaluation, evaluate-IsEvaluation}

abbrev model : ModelReference
model = record { model_id = bytes "m"; model_version = bytes "1" }

abbrev node : ComputeNode
node = record {
  id = bytes "n";
  region = bytes "eu";
  accelerator = bytes "gpu";
  total_memory_mb = 100;
  available_memory_mb = 50;
  utilization = fin 500000;
  active_requests = 1;
  queue_depth = 2;
  healthy = true;
  resident_models = (model, tt) ∷ [];
}

abbrev snapshot : CapacitySnapshot
snapshot = record { nodes = (bytes "n", node) ∷ []; revision = 1 }

registers : register empty node ≡ ok snapshot
unfolding arithmetic register validate valid_identifier BTreeMap.get BTreeMap.insert
registers = refl

abbrev requirement : CapacityRequirement
requirement = record {
  model = model;
  region = none;
  min_available_memory_mb = 60;
  max_queue_depth = 5;
}

evaluate-IsEvaluation_example :
    IsEvaluation requirement snapshot.nodes (evaluate snapshot requirement)
evaluate-IsEvaluation_example =
    evaluate-IsEvaluation snapshot requirement (more start node registers)
