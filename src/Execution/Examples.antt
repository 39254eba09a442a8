-- ===== src/Execution/Examples.antt =====
-- An execution by a mock backend, and its report.
use trust_system.Prelude.{◌≡◌, refl, [], ◌∷◌, true, none, some, ok}
use trust_system.Prelude.Text.{bytes, text_dec, valid_identifier}
use trust_system.Prelude.BTreeMap
use trust_system.Prelude.Float.Fixed.{decimals}
use trust_system.Kv.{ModelReference, cached_kv}
use trust_system.Backend.{
  BackendDescriptor, BackendResult, InferenceBackend, BackendRegistry, mock, mock_supports,
  mock_execute, empty_registry, declares,
}
use trust_system.Backend
use trust_system.Backend.Registry.{empty, more}
use trust_system.Monitor.{report}
use trust_system.Monitor.Listed.{push, listed}
use trust_system.Execution.{ExecutionRequest, ExecutionCoordinator, observe, execute}
use trust_system.Execution.Outcome.{outcome_of, IsExecution, execute-IsExecution}

program : Unit {0}
unfolding text_dec valid_identifier BTreeMap.get BTreeMap.insert declares Backend.validate
    mock_supports mock_execute Backend.register Backend.execute push report observe execute
program = tt

abbrev model : ModelReference
model = record { model_id = bytes "m"; model_version = bytes "1" }

abbrev answer : BackendResult
answer = record {
  backend = bytes "b";
  success = true;
  latency_ms = some 1;
  estimated_cost = none;
  failure = none;
}

abbrev backend : InferenceBackend
backend =
    mock (record { name = bytes "b"; model = model; supported = cached_kv ∷ []; result = answer })

abbrev descriptor : BackendDescriptor
descriptor = record {
  id = bytes "b";
  version = bytes "1";
  capabilities = (model, (cached_kv, tt) ∷ []) ∷ [];
}

abbrev registry : BackendRegistry
registry = record {
  entries = (bytes "b", record { descriptor = descriptor; backend = backend }) ∷ [];
  revision = 1;
}

registers : Backend.register empty_registry descriptor backend ≡ ok registry
unfolding program
registers = refl

abbrev coordinator : ExecutionCoordinator
coordinator = record { backends = registry; monitor = record { sender = (1, []) } }

abbrev request : ExecutionRequest
request = record {
  request_id = bytes "r";
  tenant = bytes "t";
  node = bytes "n";
  backend_id = bytes "b";
  model = model;
  strategy = cached_kv;
}

executes : execute coordinator request ≡ (
  record coordinator { monitor = record { sender = (1, outcome_of request answer 1 ∷ []) } },
  ok answer,
)
unfolding program
executes = refl

execute-IsExecution_example : IsExecution coordinator request (execute coordinator request)
execute-IsExecution_example =
    execute-IsExecution coordinator request (more descriptor backend empty registers)
