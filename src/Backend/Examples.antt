-- ===== src/Backend/Examples.antt =====
-- A registry with one mock backend, over decimal numbers.
use trust_system.Prelude.{◌≡◌, ◌≢◌, refl, [], ◌∷◌, true, none, some, ok, err, In}
use trust_system.Prelude.Text.{Text, bytes, text_dec, valid_identifier}
use trust_system.Prelude.BTreeMap
use trust_system.Prelude.Order.{list_cmp}
use trust_system.Prelude.Float.Fixed.{decimals}
use trust_system.Kv.{ModelReference, KvStrategy, cached_kv}
use trust_system.Backend.{
  BackendRequest, BackendDescriptor, declares, unknown_backend, validate, BackendResult,
  InferenceBackend, mock_supports, mock_execute, mock, RegisteredBackend, BackendRegistry,
  empty_registry, register, supports, execute, backend_ids,
}
use trust_system.Backend.Registry.{Named, empty, more, execute-Declared, register-supports}

program : Unit {0}
unfolding text_dec valid_identifier BTreeMap.get BTreeMap.insert declares validate mock_supports
    mock_execute register supports execute backend_ids
program = tt

abbrev model : ModelReference
model = record { model_id = bytes "m"; model_version = bytes "1" }

abbrev answer : BackendResult
answer = record {
  backend = bytes "b";
  success = true;
  latency_ms = some 1;
  estimated_cost = none;
  failure = none;
}

abbrev backend : InferenceBackend
backend =
    mock (record { name = bytes "b"; model = model; supported = cached_kv ∷ []; result = answer })

abbrev descriptor : BackendDescriptor
descriptor = record {
  id = bytes "b";
  version = bytes "1";
  capabilities = (model, (cached_kv, tt) ∷ []) ∷ [];
}

abbrev registry : BackendRegistry
registry = record {
  entries = (bytes "b", record { descriptor = descriptor; backend = backend }) ∷ [];
  revision = 1;
}

abbrev request : BackendRequest
request = record { request_id = bytes "r"; model = model; strategy = cached_kv }

registers : register empty_registry descriptor backend ≡ ok registry
unfolding program
registers = refl

executes : execute registry (bytes "b") request ≡ ok answer
unfolding program
executes = refl

lists : backend_ids registry ≡ bytes "b" ∷ []
unfolding program
lists = refl

execute-Declared_example :
    (x : RegisteredBackend) × In (bytes "b", x) registry.entries
    × (BTreeMap.get list_cmp (bytes "b") registry.entries ≡ some x)
    × Named (bytes "b") x
    × (declares x.descriptor model cached_kv ≡ true)
    × (answer ≡ x.backend.execute request)
    × (supports registry (bytes "b") model cached_kv ≡ ok true)
execute-Declared_example =
    execute-Declared registry (bytes "b") request answer (more descriptor backend empty registers)
      executes

register-supports_example :
    ((m : ModelReference) (s : KvStrategy)
      → (supports empty_registry (bytes "b") m s ≡ err (unknown_backend (bytes "b")))
        × (supports registry (bytes "b") m s ≡ ok (declares descriptor m s)))
    × ((j : Text) (m : ModelReference) (s : KvStrategy)
        → j ≢ bytes "b"
        → supports registry j m s ≡ supports empty_registry j m s)
register-supports_example = register-supports empty_registry registry descriptor backend registers
