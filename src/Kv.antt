-- ===== src/Kv.antt =====
-- src/kv.rs: models, what is measured of a transfer of key-value state between two of them, and the
-- registries of both.
pub mod Select
pub mod Registry
pub mod Transfer
mod Examples
use trust_system.Prelude.{
  ℕ, ◌≡◌, Bool, true, false, not, ◌&&◌, ◌||◌, Option, none, some, List, [], ◌∷◌, ◌==◌,
  if◌then◌else◌, any, holds, Result, ok, err, ◌>>=◌, ◌>>◌, reject_if, Ordering,
}
use Prim.Native.Nat.{compare}
use trust_system.Prelude.Text.{Text, text_dec, valid_identifier}
use trust_system.Prelude.Words.{inc64}
use trust_system.Prelude.Order.{by, lex, list_cmp}
use trust_system.Prelude.BTreeMap
use trust_system.Prelude.Float.{Floats, Num, ◌<ᶠ◌, is_finite, within, zero_f, one_f}

pub record ModelReference : Type 0 where
  pub model_id : Text
  pub model_version : Text

-- The derived order, and the derived equality.
abbrev pub model_cmp : ModelReference → ModelReference → Ordering
model_cmp = lex (by (λ m. m.model_id) list_cmp) (by (λ m. m.model_version) list_cmp)

abbrev pub model_eq : ModelReference → ModelReference → Bool
model_eq a b = elim (model_cmp a b) [ Ordering.eq ↦ true | _ ↦ false ]

pub data InferenceStrategy : Type 0 where
  normal_prefill : InferenceStrategy

pub data KvStrategy : Type 0 where
  no_kv prefix_cache cached_kv cross_model_transfer : KvStrategy

-- The place of a strategy in the declaration, which orders the derived `Ord`.
abbrev pub rank : KvStrategy → ℕ
rank no_kv = 0
rank prefix_cache = 1
rank cached_kv = 2
rank cross_model_transfer = 3

abbrev pub strategy_cmp : KvStrategy → KvStrategy → Ordering
strategy_cmp = by rank compare

abbrev pub strategy_eq : KvStrategy → KvStrategy → Bool
strategy_eq a b = rank a == rank b

pub record ModelCapabilities : Type 0 where
  pub kv_strategies : List (KvStrategy × Unit {0})

abbrev pub normal_capabilities : ModelCapabilities
normal_capabilities = record { kv_strategies = [] }

unfoldable pub with_kv : ModelCapabilities → KvStrategy → ModelCapabilities
with_kv c value =
    if not (strategy_eq value no_kv)
    then record { kv_strategies = BTreeMap.insert strategy_cmp value tt c.kv_strategies }
    else c

unfoldable pub supports : ModelCapabilities → KvStrategy → Bool
supports c value =
    strategy_eq value no_kv || BTreeMap.contains_key strategy_cmp value c.kv_strategies

pub record ModelMetadata : Type 0 where
  pub model : ModelReference
  pub kv_layout : Text
  pub capabilities : ModelCapabilities

-- The messages of `Invalid`.
pub data Fault : Type 0 where
  bad_metadata bad_models no_mapping bad_mapping bad_ratio negative_measurement : Fault
  no_samples p95_below_p50 bad_policy : Fault

pub data KvError : Type 0 where
  invalid : Fault → KvError
  duplicate_model : ModelReference → KvError
  unknown_model : Text → KvError
  unknown_version : ModelReference → KvError
  duplicate_compatibility : KvError

pub record ModelRegistry : Type 0 where
  pub models : List (ModelReference × ModelMetadata)
  pub revision : ℕ

unfoldable pub register_model : ModelRegistry → ModelMetadata → Result KvError ModelRegistry
register_model r m = do
  reject_if
      (not (valid_identifier m.model.model_id)
        || not (valid_identifier m.model.model_version)
        || not (valid_identifier m.kv_layout)
        || BTreeMap.contains_key strategy_cmp no_kv m.capabilities.kv_strategies)
      (invalid bad_metadata)
  reject_if (BTreeMap.contains_key model_cmp m.model r.models) (duplicate_model m.model)
  ok (record { models = BTreeMap.insert model_cmp m.model m r.models; revision = inc64 r.revision })

unfoldable pub lookup_model : ModelRegistry → ModelReference → Result KvError ModelMetadata
lookup_model r m = elim (BTreeMap.get model_cmp m r.models) [
  | some found ↦ ok found
  | none ↦
      if any (λ e. holds (text_dec e.0.model_id m.model_id)) r.models
      then err (unknown_version m)
      else err (unknown_model m.model_id)
]

-- The measurements that are there: `into_iter().flatten()`.
abbrev pub present {ℓ} : {A : Type ℓ} → List (Option A) → List A
present [] = []
present (none ∷ xs) = present xs
present (some a ∷ xs) = a ∷ present xs

module _ ⦃f : Floats⦄ where
  pub record KvCompatibilityRecord : Type 0 where
    pub source : ModelReference
    pub target : ModelReference
    pub supported : Bool
    pub mapping_version : Option Text
    pub quality_retention : Option Num
    pub quality_variance : Option Num
    pub transfer_latency_p50_ms : Option Num
    pub transfer_latency_p95_ms : Option Num
    pub failure_rate : Option Num
    pub sample_count : Option ℕ
    pub confidence : Option Num

  abbrev pub unknown : ModelReference → ModelReference → KvCompatibilityRecord
  unknown source target = record {
    source = source;
    target = target;
    supported = false;
    mapping_version = none;
    quality_retention = none;
    quality_variance = none;
    transfer_latency_p50_ms = none;
    transfer_latency_p95_ms = none;
    failure_rate = none;
    sample_count = none;
    confidence = none;
  }

  abbrev pub bad_ratio_value : Num → Bool
  bad_ratio_value v = not (is_finite v) || not (within zero_f one_f v)

  unfoldable pub validate_record : KvCompatibilityRecord → Result KvError (Unit {0})
  validate_record r = do
    reject_if
        (model_eq r.source r.target
          || not (valid_identifier r.source.model_id)
          || not (valid_identifier r.source.model_version)
          || not (valid_identifier r.target.model_id)
          || not (valid_identifier r.target.model_version))
        (invalid bad_models)
    reject_if (r.supported && elim r.mapping_version [ none ↦ true | some _ ↦ false ])
        (invalid no_mapping)
    reject_if (any (λ v. not (valid_identifier v)) (present (r.mapping_version ∷ [])))
        (invalid bad_mapping)
    reject_if
        (any bad_ratio_value (present (r.quality_retention ∷ r.failure_rate ∷ r.confidence ∷ [])))
        (invalid bad_ratio)
    reject_if
        (any (λ v. not (is_finite v) || v <ᶠ zero_f)
          (present
            (r.quality_variance ∷ r.transfer_latency_p50_ms ∷ r.transfer_latency_p95_ms ∷ [])))
        (invalid negative_measurement)
    reject_if (elim r.sample_count [ none ↦ false | some n ↦ n == 0 ]) (invalid no_samples)
    reject_if
        (elim r.transfer_latency_p50_ms [
          | none ↦ false
          | some p50 ↦ elim r.transfer_latency_p95_ms [ none ↦ false | some p95 ↦ p95 <ᶠ p50 ]
        ])
        (invalid p95_below_p50)
    ok tt

  -- The order of a pair of keys.
  abbrev pub pair_cmp : ModelReference × ModelReference → ModelReference × ModelReference → Ordering
  pair_cmp = lex (by (λ p. p.0) model_cmp) (by (λ p. p.1) model_cmp)

  pub record KvCompatibilityRegistry : Type 0 where
    pub records : List ((ModelReference × ModelReference) × KvCompatibilityRecord)
    pub revision : ℕ

  unfoldable pub register_record :
      KvCompatibilityRegistry → KvCompatibilityRecord → Result KvError KvCompatibilityRegistry
  unfolding validate_record
  register_record r c = do
    validate_record c
    reject_if (BTreeMap.contains_key pair_cmp (c.source, c.target) r.records)
        duplicate_compatibility
    ok (record {
      records = BTreeMap.insert pair_cmp (c.source, c.target) c r.records;
      revision = inc64 r.revision;
    })

  abbrev pub lookup_record :
      KvCompatibilityRegistry → ModelReference → ModelReference → Option KvCompatibilityRecord
  lookup_record r s t = BTreeMap.get pair_cmp (s, t) r.records
