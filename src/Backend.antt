-- ===== src/Backend.antt =====
-- src/backend.rs and src/backend_registry.rs: the boundary to inference backends, the mock backend,
-- and the registry of the backends with the capabilities they declare.
pub mod Registry
mod Examples
use trust_system.Prelude.{
  ℕ, ◌≡◌, Bool, true, false, not, ◌&&◌, ◌||◌, Option, none, some, List, [], ◌∷◌, map, if◌then◌else◌,
  any, holds, Result, ok, err, ◌>>=◌, ◌>>◌, reject_if, ok_or,
}
use trust_system.Prelude.Text.{Text, text_dec, valid_identifier}
use trust_system.Prelude.Words.{inc64}
use trust_system.Prelude.Order.{list_cmp}
use trust_system.Prelude.BTreeMap
use trust_system.Prelude.Float.{Floats, Num}
use trust_system.Kv.{ModelReference, model_cmp, model_eq, KvStrategy, strategy_cmp, strategy_eq}

pub record BackendRequest : Type 0 where
  pub request_id : Text
  pub model : ModelReference
  pub strategy : KvStrategy

pub data BackendFailure : Type 0 where
  timeout overloaded out_of_memory unavailable_model kv_transfer_failed : BackendFailure
  capacity_exhausted quality_violation : BackendFailure

abbrev pub is_empty_map : {A : Type 0} → List A → Bool
is_empty_map [] = true
is_empty_map (x ∷ xs) = false

pub record BackendDescriptor : Type 0 where
  pub id : Text
  pub version : Text
  pub capabilities : List (ModelReference × List (KvStrategy × Unit {0}))

unfoldable pub declares : BackendDescriptor → ModelReference → KvStrategy → Bool
declares d model strategy = elim (BTreeMap.get model_cmp model d.capabilities) [
  | none ↦ false
  | some strategies ↦ BTreeMap.contains_key strategy_cmp strategy strategies
]

pub data BackendRegistryError : Type 0 where
  invalid_descriptor : BackendRegistryError
  duplicate_backend unknown_backend : Text → BackendRegistryError
  unsupported_capability : Text → ModelReference → KvStrategy → BackendRegistryError

abbrev pub bad_capability : ModelReference × List (KvStrategy × Unit {0}) → Bool
bad_capability (model, strategies) =
    not (valid_identifier model.model_id)
    || not (valid_identifier model.model_version)
    || is_empty_map strategies

unfoldable pub validate : BackendDescriptor → Result BackendRegistryError (Unit {0})
validate d = do
  reject_if
      (not (valid_identifier d.id)
        || not (valid_identifier d.version)
        || is_empty_map d.capabilities)
      invalid_descriptor
  reject_if (any bad_capability d.capabilities) invalid_descriptor

module _ ⦃f : Floats⦄ where
  pub record BackendResult : Type 0 where
    pub backend : Text
    pub success : Bool
    pub latency_ms : Option ℕ
    pub estimated_cost : Option Num
    pub failure : Option BackendFailure

  -- The trait: an implementation is a value of it. A call answers with a result and is otherwise
  -- not seen by the registry.
  pub record InferenceBackend : Type 0 where
    pub name : Text
    pub supports : ModelReference → KvStrategy → Bool
    pub execute : BackendRequest → BackendResult

  pub record MockBackend : Type 0 where
    pub name : Text
    pub model : ModelReference
    pub supported : List KvStrategy
    pub result : BackendResult

  unfoldable pub mock_supports : MockBackend → ModelReference → KvStrategy → Bool
  mock_supports b m s = model_eq b.model m && any (λ x. strategy_eq x s) b.supported

  unfoldable pub mock_execute : MockBackend → BackendRequest → BackendResult
  unfolding mock_supports
  mock_execute b r =
      if not (mock_supports b r.model r.strategy)
      then record {
        backend = b.name;
        success = false;
        latency_ms = none;
        estimated_cost = none;
        failure = some unavailable_model;
      }
      else b.result

  abbrev pub mock : MockBackend → InferenceBackend
  mock b = record { name = b.name; supports = mock_supports b; execute = mock_execute b }

  pub record RegisteredBackend : Type 0 where
    pub descriptor : BackendDescriptor
    pub backend : InferenceBackend

  pub record BackendRegistry : Type 0 where
    pub entries : List (Text × RegisteredBackend)
    pub revision : ℕ

  abbrev pub empty_registry : BackendRegistry
  empty_registry = record { entries = []; revision = 0 }

  unfoldable pub register :
      BackendRegistry
      → BackendDescriptor
      → InferenceBackend
      → Result BackendRegistryError BackendRegistry
  register r d b = do
    validate d
    reject_if (not (holds (text_dec d.id b.name))) invalid_descriptor
    reject_if (BTreeMap.contains_key list_cmp d.id r.entries) (duplicate_backend d.id)
    ok (record {
      entries = BTreeMap.insert list_cmp d.id (record { descriptor = d; backend = b }) r.entries;
      revision = inc64 r.revision;
    })

  unfoldable pub supports :
      BackendRegistry → Text → ModelReference → KvStrategy → Result BackendRegistryError Bool
  supports r id model strategy =
      ok_or (BTreeMap.get list_cmp id r.entries) (unknown_backend id) >>= λ entry.
      ok (declares entry.descriptor model strategy)

  unfoldable pub execute :
      BackendRegistry → Text → BackendRequest → Result BackendRegistryError BackendResult
  execute r id request =
      ok_or (BTreeMap.get list_cmp id r.entries) (unknown_backend id) >>= λ entry.
      if not (declares entry.descriptor request.model request.strategy)
      then err (unsupported_capability id request.model request.strategy)
      else ok (entry.backend.execute request)

  unfoldable pub backend_ids : BackendRegistry → List Text
  backend_ids r = map (λ e. e.0) r.entries
