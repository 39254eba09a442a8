-- ===== src/Intelligence/Candidates.antt =====
-- src/intelligence.rs: estimated candidates, their ranking, and the firewall.
use trust_system.Prelude.{
  ℕ, Bool, true, false, not, ◌||◌, Option, none, some, List, [], ◌∷◌, ◌++◌, if◌then◌else◌, keep,
  any, ltb, Ordering, Result, ◌>>◌, reject_if, is_err,
}
use trust_system.Prelude.Text.{Text, bytes}
use trust_system.Prelude.Words.{u64_max}
use trust_system.Prelude.Order.{by, lex, list_cmp}
use trust_system.Prelude.Sort.{sort_by}
use trust_system.Prelude.Float.{
  Floats, Num, ◌<ᶠ◌, ◌≤ᶠ◌, ◌+ᶠ◌, ◌-ᶠ◌, ◌/ᶠ◌, is_finite, within, of_nat, lit, zero_f, one_f,
  infinity, clamp, abs, total_cmp,
}
use trust_system.Intelligence.{IntelligenceError, invalid_configuration}
use trust_system.Intelligence.World.{WorldState, is_stale}

pub data DecisionConfidence : Type 0 where
  high medium low unknown : DecisionConfidence

abbrev pub is_safe_for_optimization : DecisionConfidence → Bool
is_safe_for_optimization high = true
is_safe_for_optimization medium = true
is_safe_for_optimization _ = false

pub data OperationalValue (A : Type 0) : Type 0 where
  observed predicted derived configured : A → OperationalValue A
  not_known unavailable : OperationalValue A

abbrev pub value : {A : Type 0} → OperationalValue A → Option A
value (observed v) = some v
value (predicted v) = some v
value (derived v) = some v
value (configured v) = some v
value not_known = none
value unavailable = none

abbrev pub value_or : {A : Type 0} → OperationalValue A → A → A
value_or v d = elim (value v) [ none ↦ d | some x ↦ x ]

-- `value().is_some_and(test)`.
abbrev pub some_and : {A : Type 0} → (A → Bool) → OperationalValue A → Bool
some_and test v = elim (value v) [ none ↦ false | some x ↦ test x ]

abbrev pub candidate_id : Text → Text → Text → Text
candidate_id backend_id compute_node_id strategy =
    backend_id ++ bytes ":" ++ compute_node_id ++ bytes ":" ++ strategy

pub data FirewallDecision : Type 0 where
  approved : FirewallDecision
  rejected : Text → FirewallDecision

module _ ⦃f : Floats⦄ where
  unfoldable pub from_score : Num → ℕ → DecisionConfidence
  from_score confidence sample_count =
      if ltb sample_count 5
      then unknown
      else if lit 8 10 ≤ᶠ confidence
      then high
      else if lit 5 10 ≤ᶠ confidence
      then medium
      else low

  pub record CounterfactualEstimate : Type 0 where
    pub id : Text
    pub backend_id : Text
    pub compute_node_id : Text
    pub model : Text
    pub strategy : Text
    pub predicted_ttft : OperationalValue ℕ
    pub predicted_tpot : OperationalValue ℕ
    pub predicted_e2e : OperationalValue ℕ
    pub predicted_cost : OperationalValue Num
    pub predicted_failure_probability : OperationalValue Num
    pub predicted_kv_transfer : OperationalValue ℕ
    pub quality_risk : OperationalValue Num
    pub confidence : OperationalValue Num
    pub feasible : Bool
    pub rejection_reason : Option Text

  unfoldable pub score : CounterfactualEstimate → Num
  score c =
      let latency = of_nat (value_or c.predicted_e2e u64_max) /ᶠ lit 1000 1 in
      let cost = value_or c.predicted_cost infinity in
      let risk = value_or c.predicted_failure_probability one_f in
      let quality = value_or c.quality_risk one_f in
      latency +ᶠ cost +ᶠ risk +ᶠ (one_f -ᶠ clamp zero_f one_f quality)

  abbrev pub estimate_order : CounterfactualEstimate → CounterfactualEstimate → Ordering
  estimate_order = lex (by score total_cmp) (by (λ c. c.id) list_cmp)

  unfoldable pub evaluate : List CounterfactualEstimate → List CounterfactualEstimate
  evaluate candidates = sort_by estimate_order (keep (λ c. c.feasible) candidates)

  unfoldable pub are_indistinguishable : CounterfactualEstimate → CounterfactualEstimate → Bool
  are_indistinguishable a b = abs (score a -ᶠ score b) <ᶠ lit 1 100

  pub record UtilityConfig : Type 0 where
    pub weight_latency : Num
    pub weight_throughput : Num
    pub weight_reliability : Num
    pub weight_quality : Num
    pub weight_cost : Num
    pub weight_kv_transfer : Num
    pub max_ttft : ℕ
    pub max_tpot : ℕ
    pub max_e2e : ℕ
    pub min_quality : Num
    pub max_cost : Num
    pub max_failure_probability : Num

  abbrev pub weights_of : UtilityConfig → List Num
  weights_of c =
      c.weight_latency ∷ c.weight_throughput ∷ c.weight_reliability ∷ c.weight_quality
      ∷ c.weight_cost ∷ c.weight_kv_transfer ∷ []

  unfoldable pub validate : UtilityConfig → Result IntelligenceError (Unit {0})
  validate c = do
    reject_if (any (λ w. not (is_finite w) || w <ᶠ zero_f) (weights_of c))
        (invalid_configuration (bytes "weights must be finite and non-negative"))
    reject_if (not (is_finite c.min_quality) || not (within zero_f one_f c.min_quality))
        (invalid_configuration (bytes "min_quality must be 0.0..=1.0"))
    reject_if (not (is_finite c.max_cost) || c.max_cost <ᶠ zero_f)
        (invalid_configuration (bytes "max_cost must be finite and non-negative"))
    reject_if
        (not (is_finite c.max_failure_probability)
          || not (within zero_f one_f c.max_failure_probability))
        (invalid_configuration (bytes "max_failure_probability must be 0.0..=1.0"))

  pub record DecisionFirewall : Type 0 where
    pub config : UtilityConfig
    pub max_world_state_age : ℕ

  -- `is_none_or(|v| v < bound)`.
  abbrev pub none_or_below : Num → OperationalValue Num → Bool
  none_or_below bound v = elim (value v) [ none ↦ true | some x ↦ x <ᶠ bound ]

  unfoldable pub evaluate_candidate :
      DecisionFirewall
      → CounterfactualEstimate
      → WorldState
      → DecisionConfidence
      → ℕ
      → FirewallDecision
  evaluate_candidate w c world confidence now =
      if is_err (validate w.config)
      then rejected (bytes "INVALID_CONFIGURATION")
      else if is_stale world w.max_world_state_age now
      then rejected (bytes "STALE_WORLD_STATE")
      else if not c.feasible
      then rejected (bytes "INFEASIBLE_CANDIDATE")
      else if some_and (λ v. ltb w.config.max_ttft v) c.predicted_ttft
      then rejected (bytes "SLO_VIOLATION_TTFT")
      else if some_and (λ v. ltb w.config.max_tpot v) c.predicted_tpot
      then rejected (bytes "SLO_VIOLATION_TPOT")
      else if some_and (λ v. ltb w.config.max_e2e v) c.predicted_e2e
      then rejected (bytes "SLO_VIOLATION_E2E")
      else if none_or_below w.config.min_quality c.quality_risk
      then rejected (bytes "SLO_VIOLATION_QUALITY")
      else if some_and (λ v. w.config.max_cost <ᶠ v) c.predicted_cost
      then rejected (bytes "SLO_VIOLATION_COST")
      else if some_and (λ v. w.config.max_failure_probability <ᶠ v) c.predicted_failure_probability
      then rejected (bytes "SLO_VIOLATION_RELIABILITY")
      else if not (is_safe_for_optimization confidence)
      then rejected (bytes "LOW_CONFIDENCE")
      else approved
