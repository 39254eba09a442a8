-- ===== src/Inference.antt =====
-- src/inference.rs: the candidate that a request is served with, and what it falls back to.
pub mod Choice
pub mod Feasible
pub mod Decision
mod Examples
use trust_system.Prelude.{
  ℕ, ◌≡◌, Bool, true, false, not, ◌&&◌, ◌||◌, Option, none, some, List, [], ◌∷◌, map, ◌==◌,
  if◌then◌else◌, any, all, first?, Result, ok, err, ◌>>=◌, ◌>>◌, reject_if, Ordering,
}
use Prim.Native.Nat.{compare}
use trust_system.Prelude.Order.{by, lex}
use trust_system.Prelude.Sort.{sort_by}
use trust_system.Prelude.Float.{
  Floats, Num, ◌<ᶠ◌, ◌≤ᶠ◌, ◌==ᶠ◌, ◌+ᶠ◌, ◌-ᶠ◌, ◌*ᶠ◌, ◌/ᶠ◌, is_finite, within, zero_f, one_f, lit,
  total_cmp,
}
use trust_system.Kv.{
  ModelReference, model_cmp, KvStrategy, no_kv, prefix_cache, cached_kv, cross_model_transfer,
  strategy_cmp,
}

pub data DecisionError : Type 0 where
  invalid_constraints invalid_objective : DecisionError

pub data RejectionReason : Type 0 where
  invalid_estimate latency_constraint cost_constraint quality_constraint : RejectionReason
  invalid_planning_config : RejectionReason

abbrev pub reason_rank : RejectionReason → ℕ
reason_rank invalid_estimate = 0
reason_rank latency_constraint = 1
reason_rank cost_constraint = 2
reason_rank quality_constraint = 3
reason_rank invalid_planning_config = 4

unfoldable pub fallback : KvStrategy → List KvStrategy
fallback cross_model_transfer = cached_kv ∷ prefix_cache ∷ no_kv ∷ []
fallback cached_kv = prefix_cache ∷ no_kv ∷ []
fallback prefix_cache = no_kv ∷ []
fallback no_kv = []

module _ ⦃f : Floats⦄ where
  pub record InferenceCandidate : Type 0 where
    pub model : ModelReference
    pub strategy : KvStrategy
    pub latency_ms : Num
    pub cost : Num
    pub failure_rate : Num
    pub quality : Num

  pub record InferenceConstraints : Type 0 where
    pub max_latency_ms : Num
    pub max_cost : Num
    pub min_quality : Num

  abbrev pub default_constraints : InferenceConstraints
  default_constraints = record {
    max_latency_ms = lit 1000 1;
    max_cost = one_f;
    min_quality = zero_f;
  }

  unfoldable pub validate_constraints : InferenceConstraints → Result DecisionError (Unit {0})
  validate_constraints c =
      reject_if
        (not (is_finite c.max_latency_ms)
          || c.max_latency_ms <ᶠ zero_f
          || not (is_finite c.max_cost)
          || c.max_cost <ᶠ zero_f
          || not (is_finite c.min_quality)
          || not (within zero_f one_f c.min_quality))
        invalid_constraints

  pub record ObjectiveWeights : Type 0 where
    pub latency : Num
    pub cost : Num
    pub reliability : Num
    pub quality : Num

  abbrev pub default_weights : ObjectiveWeights
  default_weights = record { latency = one_f; cost = one_f; reliability = one_f; quality = one_f }

  unfoldable pub validate_weights : ObjectiveWeights → Result DecisionError (Unit {0})
  validate_weights w =
      let ws = w.latency ∷ w.cost ∷ w.reliability ∷ w.quality ∷ [] in
      reject_if (any (λ v. not (is_finite v) || v <ᶠ zero_f) ws || all (λ v. v ==ᶠ zero_f) ws)
        invalid_objective

  pub record ScoredCandidate : Type 0 where
    pub candidate : InferenceCandidate
    pub score : Num

  pub record DecisionExplanation : Type 0 where
    pub selected : Option ScoredCandidate
    pub rejected : List (InferenceCandidate × RejectionReason)
    pub fallbacks : List KvStrategy
    pub config_error : Option DecisionError

  abbrev pub valid : Num → Bool
  valid v = is_finite v && zero_f ≤ᶠ v

  unfoldable pub normalized : Num → Num → Num
  normalized value ceiling = if ceiling ==ᶠ zero_f then zero_f else value /ᶠ ceiling

  abbrev pub candidate_order : InferenceCandidate → InferenceCandidate → Ordering
  candidate_order = lex (by (λ c. c.model) model_cmp) (
      lex (by (λ c. c.strategy) strategy_cmp) (
        lex (by (λ c. c.latency_ms) total_cmp) (
          lex (by (λ c. c.cost) total_cmp)
            (lex (by (λ c. c.failure_rate) total_cmp) (by (λ c. c.quality) total_cmp)))))

  -- Why a candidate is not feasible.
  unfoldable pub rejection : InferenceConstraints → InferenceCandidate → Option RejectionReason
  rejection constraints c =
      if not (all valid (c.latency_ms ∷ c.cost ∷ c.failure_rate ∷ c.quality ∷ []))
        || one_f <ᶠ c.failure_rate
        || one_f <ᶠ c.quality
      then some invalid_estimate
      else if constraints.max_latency_ms <ᶠ c.latency_ms
      then some latency_constraint
      else if constraints.max_cost <ᶠ c.cost
      then some cost_constraint
      else if c.quality <ᶠ constraints.min_quality
      then some quality_constraint
      else none

  unfoldable pub score_of : InferenceConstraints → ObjectiveWeights → InferenceCandidate → Num
  unfolding normalized
  score_of constraints w c =
      w.latency *ᶠ normalized c.latency_ms constraints.max_latency_ms
      +ᶠ w.cost *ᶠ normalized c.cost constraints.max_cost
      +ᶠ w.reliability *ᶠ c.failure_rate
      +ᶠ w.quality *ᶠ (one_f -ᶠ c.quality)

  -- The two vectors that the loop over the candidates fills.
  unfoldable pub rejected_of :
      InferenceConstraints → List InferenceCandidate → List (InferenceCandidate × RejectionReason)
  rejected_of constraints [] = []
  rejected_of constraints (c ∷ cs) = elim (rejection constraints c) [
    | some reason ↦ (c, reason) ∷ rejected_of constraints cs
    | none ↦ rejected_of constraints cs
  ]

  unfoldable pub feasible_of :
      InferenceConstraints → ObjectiveWeights → List InferenceCandidate → List ScoredCandidate
  feasible_of constraints w [] = []
  feasible_of constraints w (c ∷ cs) = elim (rejection constraints c) [
    | some reason ↦ feasible_of constraints w cs
    | none ↦
        record { candidate = c; score = score_of constraints w c } ∷ feasible_of constraints w cs
  ]

  abbrev pub rejected_order :
      InferenceCandidate × RejectionReason → InferenceCandidate × RejectionReason → Ordering
  rejected_order = lex (by (λ r. r.0) candidate_order) (by (λ r. reason_rank r.1) compare)

  abbrev pub scored_order : ScoredCandidate → ScoredCandidate → Ordering
  scored_order = lex (by (λ s. s.score) total_cmp) (by (λ s. s.candidate) candidate_order)

  unfoldable pub try_decide :
      List InferenceCandidate
      → InferenceConstraints
      → ObjectiveWeights
      → Result DecisionError DecisionExplanation
  try_decide candidates constraints w = do
    validate_constraints constraints
    validate_weights w
    let selected = first? (sort_by scored_order (feasible_of constraints w candidates))
    ok (record {
      selected = selected;
      rejected = sort_by rejected_order (rejected_of constraints candidates);
      fallbacks = elim selected [ none ↦ [] | some s ↦ fallback s.candidate.strategy ];
      config_error = none;
    })

  unfoldable pub decide :
      List InferenceCandidate → InferenceConstraints → ObjectiveWeights → DecisionExplanation
  decide candidates constraints w = elim (try_decide candidates constraints w) [
    | ok decision ↦ decision
    | err error ↦ record {
      selected = none;
      rejected =
          sort_by (by (λ r. r.0) candidate_order)
            (map (λ c. (c, invalid_planning_config)) candidates);
      fallbacks = [];
      config_error = some error;
    }
  ]
