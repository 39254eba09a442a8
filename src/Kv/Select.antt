-- ===== src/Kv/Select.antt =====
-- src/kv.rs, `KvPolicy` and `KvIntelligence`: the strategy of a request, or why it falls back to a
-- normal prefill.
use trust_system.Prelude.{
  ℕ, not, Option, none, some, [], ◌∷◌, ◌==◌, if◌then◌else◌, any, Result, ok, err, reject_if, is_err,
}
use trust_system.Prelude.Text.{Text}
use trust_system.Prelude.Float.{Floats, Num, ◌<ᶠ◌, lit}
use trust_system.Kv.{
  ModelReference, InferenceStrategy, normal_prefill, KvStrategy, no_kv, cross_model_transfer,
  strategy_eq, supports, KvError, invalid, bad_policy, unknown_version, ModelRegistry, lookup_model,
  KvCompatibilityRecord, bad_ratio_value, KvCompatibilityRegistry, lookup_record,
}

pub data KvFallbackReason : Type 0 where
  model_unknown version_unknown source_model_unknown source_version_unknown : KvFallbackReason
  unsupported_strategy missing_source compatibility_unknown : KvFallbackReason
  compatibility_not_supported measurements_unknown insufficient_quality : KvFallbackReason
  excess_quality_variance insufficient_confidence unreliable_transfer : KvFallbackReason
  invalid_policy : KvFallbackReason

pub record KvPlanningContext : Type 0 where
  pub target : ModelReference
  pub source : Option ModelReference
  pub requested : KvStrategy

pub record KvPlanMetadata : Type 0 where
  pub inference_strategy : InferenceStrategy
  pub strategy : KvStrategy
  pub target : Option ModelReference
  pub source : Option ModelReference
  pub mapping_version : Option Text
  pub model_revision : ℕ
  pub compatibility_revision : ℕ
  pub fallback_reason : Option KvFallbackReason

-- The reason for a model that `lookup` does not find.
unfoldable pub lookup_reason : KvError → KvFallbackReason → KvFallbackReason → KvFallbackReason
lookup_reason (unknown_version _) version model = version
lookup_reason _ version model = model

module _ ⦃f : Floats⦄ where
  pub record KvPolicy : Type 0 where
    pub min_quality_retention : Num
    pub max_quality_variance : Num
    pub min_confidence : Num
    pub max_failure_rate : Num

  abbrev pub default_policy : KvPolicy
  default_policy = record {
    min_quality_retention = lit 95 100;
    max_quality_variance = lit 2 100;
    min_confidence = lit 95 100;
    max_failure_rate = lit 1 100;
  }

  unfoldable pub validate_policy : KvPolicy → Result KvError (Unit {0})
  validate_policy p =
      reject_if
        (any bad_ratio_value (
          p.min_quality_retention ∷ p.max_quality_variance ∷ p.min_confidence ∷ p.max_failure_rate
          ∷ []))
        (invalid bad_policy)

  pub record KvIntelligence : Type 0 where
    pub models : ModelRegistry
    pub compatibility : KvCompatibilityRegistry
    pub policy : KvPolicy

  abbrev pub default_intelligence : KvIntelligence
  default_intelligence = record {
    models = record { models = []; revision = 0 };
    compatibility = record { records = []; revision = 0 };
    policy = default_policy;
  }

  abbrev pub normal : KvIntelligence → KvPlanMetadata
  normal k = record {
    inference_strategy = normal_prefill;
    strategy = no_kv;
    target = none;
    source = none;
    mapping_version = none;
    model_revision = k.models.revision;
    compatibility_revision = k.compatibility.revision;
    fallback_reason = none;
  }

  abbrev pub fallback : KvIntelligence → KvPlanningContext → KvFallbackReason → KvPlanMetadata
  fallback k c reason = record (normal k) {
    target = some c.target;
    source = c.source;
    fallback_reason = some reason;
  }

  -- A request that is granted.
  abbrev pub granted :
      KvIntelligence → KvPlanningContext → Option ModelReference → Option Text → KvPlanMetadata
  granted k c source mapping = record (normal k) {
    strategy = c.requested;
    target = some c.target;
    source = source;
    mapping_version = mapping;
  }

  -- What a record says of a transfer: its mapping version, or why it does not serve.
  unfoldable pub transfer_mapping : KvPolicy → KvCompatibilityRecord → Result KvFallbackReason Text
  transfer_mapping p r =
      if not r.supported then err compatibility_not_supported else elim r.mapping_version [
        | none ↦ err measurements_unknown
        | some mapping ↦ elim r.quality_retention [
          | none ↦ err measurements_unknown
          | some q ↦ elim r.quality_variance [
            | none ↦ err measurements_unknown
            | some variance ↦ elim r.failure_rate [
              | none ↦ err measurements_unknown
              | some rate ↦ elim r.sample_count [
                | none ↦ err measurements_unknown
                | some n ↦ elim r.confidence [
                  | none ↦ err measurements_unknown
                  | some conf ↦ elim r.transfer_latency_p50_ms [
                    | none ↦ err measurements_unknown
                    | some _ ↦ elim r.transfer_latency_p95_ms [
                      | none ↦ err measurements_unknown
                      | some _ ↦
                          if n == 0
                          then err measurements_unknown
                          else if q <ᶠ p.min_quality_retention
                          then err insufficient_quality
                          else if p.max_quality_variance <ᶠ variance
                          then err excess_quality_variance
                          else if conf <ᶠ p.min_confidence
                          then err insufficient_confidence
                          else if p.max_failure_rate <ᶠ rate
                          then err unreliable_transfer
                          else ok mapping
                    ]
                  ]
                ]
              ]
            ]
          ]
        ]
      ]

  -- The part of `select` for a transfer from a source model.
  unfoldable pub select_transfer :
      KvIntelligence → KvPlanningContext → Option ModelReference → KvPlanMetadata
  select_transfer k c none = fallback k c missing_source
  select_transfer k c (some source) = elim (lookup_model k.models source) [
    | err e ↦ fallback k c (lookup_reason e source_version_unknown source_model_unknown)
    | ok found ↦
        if not (supports found.capabilities c.requested)
        then fallback k c unsupported_strategy
        else elim (lookup_record k.compatibility source c.target) [
          | none ↦ fallback k c compatibility_unknown
          | some r ↦ elim (transfer_mapping k.policy r) [
            | err reason ↦ fallback k c reason
            | ok mapping ↦ granted k c (some source) (some mapping)
          ]
        ]
  ]

  unfoldable pub select : KvIntelligence → KvPlanningContext → KvPlanMetadata
  select k c =
      if is_err (validate_policy k.policy)
      then fallback k c invalid_policy
      else elim (lookup_model k.models c.target) [
        | err e ↦ fallback k c (lookup_reason e version_unknown model_unknown)
        | ok found ↦
            if strategy_eq c.requested no_kv
            then normal k
            else if not (supports found.capabilities c.requested)
            then fallback k c unsupported_strategy
            else if not (strategy_eq c.requested cross_model_transfer)
            then granted k c c.source none
            else select_transfer k c c.source
      ]
