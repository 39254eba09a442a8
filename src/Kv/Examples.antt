-- ===== src/Kv/Examples.antt =====
-- Key-value strategies on small inputs, over decimal numbers.
use trust_system.Prelude.{◌≡◌, ◌≢◌, refl, [], ◌∷◌, true, some, ok}
use trust_system.Prelude.Text.{bytes, valid_identifier, text_dec}
use trust_system.Prelude.BTreeMap
use trust_system.Prelude.Float.Fixed.{decimals, arithmetic, fin}
use trust_system.Kv.{
  ModelReference, cross_model_transfer, ModelMetadata, ModelRegistry, register_model, lookup_model,
  KvCompatibilityRecord, KvCompatibilityRegistry, validate_record, register_record, with_kv,
  supports,
}
use trust_system.Kv.Select.{
  KvPlanningContext, KvIntelligence, default_policy, validate_policy, transfer_mapping,
  select_transfer, select,
}
use trust_system.Kv.Registry.{register_model-lookup_model}
use trust_system.Kv.Transfer.{Backed, select-Backed}

program : Unit {0}
unfolding arithmetic valid_identifier text_dec BTreeMap.get BTreeMap.insert register_model
    lookup_model validate_record register_record with_kv supports validate_policy transfer_mapping
    select_transfer select
program = tt

abbrev small : ModelReference
small = record { model_id = bytes "m"; model_version = bytes "1" }

abbrev large : ModelReference
large = record { model_id = bytes "m"; model_version = bytes "2" }

abbrev described : ModelReference → ModelMetadata
described m = record {
  model = m;
  kv_layout = bytes "l";
  capabilities = record { kv_strategies = (cross_model_transfer, tt) ∷ [] };
}

abbrev one_model : ModelRegistry
one_model = record { models = (small, described small) ∷ []; revision = 1 }

abbrev two_models : ModelRegistry
two_models = record {
  models = (small, described small) ∷ (large, described large) ∷ [];
  revision = 2;
}

registers : register_model one_model (described large) ≡ ok two_models
unfolding program
registers = refl

register_model-lookup_model_example :
    (lookup_model two_models large ≡ ok (described large))
    × ((x : ModelMetadata) → lookup_model one_model large ≢ ok x)
    × ((j : ModelReference) (x : ModelMetadata)
        → lookup_model one_model j ≡ ok x
        → lookup_model two_models j ≡ ok x)
register_model-lookup_model_example =
    register_model-lookup_model one_model two_models (described large) registers

abbrev measured : KvCompatibilityRecord
measured = record {
  source = small;
  target = large;
  supported = true;
  mapping_version = some (bytes "v");
  quality_retention = some (fin 990000);
  quality_variance = some (fin 1000);
  transfer_latency_p50_ms = some (fin 10);
  transfer_latency_p95_ms = some (fin 20);
  failure_rate = some (fin 100);
  sample_count = some 50;
  confidence = some (fin 990000);
}

abbrev no_records : KvCompatibilityRegistry
no_records = record { records = []; revision = 0 }

abbrev one_record : KvCompatibilityRegistry
one_record = record { records = ((small, large), measured) ∷ []; revision = 1 }

records : register_record no_records measured ≡ ok one_record
unfolding program
records = refl

abbrev known : KvIntelligence
known = record { models = two_models; compatibility = one_record; policy = default_policy }

abbrev request : KvPlanningContext
request = record { target = large; source = some small; requested = cross_model_transfer }

transfers : (select known request).strategy ≡ cross_model_transfer
unfolding program
transfers = refl

select-Backed_example : Backed known request
select-Backed_example = select-Backed known request transfers
