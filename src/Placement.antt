-- ===== src/Placement.antt =====
-- src/system_planning.rs: the placement of a request, where the capacity of the nodes, the declared
-- capabilities of the backends and the scores of the estimates meet.
pub mod Collect
pub mod Gates
pub mod Find
pub mod Selection
mod Examples
use trust_system.Prelude.{
  ℕ, ◌≡◌, Bool, true, false, not, ◌&&◌, ◌||◌, Option, none, some, List, [], ◌∷◌, ◌++◌, map,
  if◌then◌else◌, holds, keep, Result, ok, err, Ordering,
}
use Prim.Native.Nat.{compare}
use trust_system.Prelude.Text.{Text, text_dec, valid_identifier}
use trust_system.Prelude.Order.{by, lex, list_cmp}
use trust_system.Prelude.BTreeMap
use trust_system.Prelude.Sort.{sort_by}
use trust_system.Prelude.Float.{Floats, ◌==ᶠ◌, total_cmp}
use trust_system.Kv.{KvStrategy, model_cmp, model_eq, strategy_cmp, strategy_eq}
use trust_system.Capacity.{
  CapacityRejection, unhealthy, region_mismatch, model_not_resident, insufficient_memory,
  queue_limit, CapacityRequirement, CapacitySnapshot, ComputeNode, evaluate,
}
use trust_system.Backend
use trust_system.Backend.{BackendRegistry, supports}
use trust_system.Inference.{
  DecisionError, RejectionReason, invalid_planning_config, reason_rank, InferenceCandidate,
  InferenceConstraints, ObjectiveWeights, ScoredCandidate, DecisionExplanation, try_decide,
}
use trust_system.Placement.Collect.{collect}

pub data PlacementRejection : Type 0 where
  invalid_candidate model_mismatch unknown_compute_node : PlacementRejection
  capacity : CapacityRejection → PlacementRejection
  unknown_backend unsupported_backend_capability : PlacementRejection
  inference : RejectionReason → PlacementRejection

abbrev pub capacity_rank : CapacityRejection → ℕ
capacity_rank unhealthy = 0
capacity_rank region_mismatch = 1
capacity_rank model_not_resident = 2
capacity_rank insufficient_memory = 3
capacity_rank queue_limit = 4

-- The derived order: by the place of the constructor, then by what it holds.
abbrev pub rejection_rank : PlacementRejection → ℕ × ℕ
rejection_rank invalid_candidate = (0, 0)
rejection_rank model_mismatch = (1, 0)
rejection_rank unknown_compute_node = (2, 0)
rejection_rank (capacity reason) = (3, capacity_rank reason)
rejection_rank PlacementRejection.unknown_backend = (4, 0)
rejection_rank unsupported_backend_capability = (5, 0)
rejection_rank (inference reason) = (6, reason_rank reason)

module _ ⦃f : Floats⦄ where
  pub record PlacementCandidate : Type 0 where
    pub backend_id : Text
    pub compute_node_id : Text
    pub estimate : InferenceCandidate

  pub record PlacementSelection : Type 0 where
    pub backend_id : Text
    pub compute_node_id : Text
    pub scored : ScoredCandidate
    pub fallbacks : List KvStrategy

  pub record SystemDecision : Type 0 where
    pub selected : Option PlacementSelection
    pub rejected : List (PlacementCandidate × PlacementRejection)
    pub unavailable_nodes : List (Text × CapacityRejection)
    pub config_error : Option DecisionError

  pub record SystemPlanner : Type 0 where
    pub backends : BackendRegistry
    pub capacity : CapacitySnapshot

  -- The derived equality of estimates, which compares floats by `==`.
  unfoldable pub estimate_eq : InferenceCandidate → InferenceCandidate → Bool
  estimate_eq a b =
      model_eq a.model b.model
      && strategy_eq a.strategy b.strategy
      && a.latency_ms ==ᶠ b.latency_ms
      && a.cost ==ᶠ b.cost
      && a.failure_rate ==ᶠ b.failure_rate
      && a.quality ==ᶠ b.quality

  abbrev pub candidate_order : PlacementCandidate → PlacementCandidate → Ordering
  candidate_order = lex (by (λ c. c.backend_id) list_cmp) (
      lex (by (λ c. c.compute_node_id) list_cmp) (
        lex (by (λ c. c.estimate.model) model_cmp) (
          lex (by (λ c. c.estimate.strategy) strategy_cmp) (
            lex (by (λ c. c.estimate.latency_ms) total_cmp) (
              lex (by (λ c. c.estimate.cost) total_cmp) (
                lex (by (λ c. c.estimate.failure_rate) total_cmp)
                  (by (λ c. c.estimate.quality) total_cmp)))))))

  abbrev pub rejection_order :
      PlacementCandidate × PlacementRejection → PlacementCandidate × PlacementRejection → Ordering
  rejection_order =
      lex (by (λ r. r.0) candidate_order)
        (lex (by (λ r. (rejection_rank r.1).0) compare) (by (λ r. (rejection_rank r.1).1) compare))

  -- Why a candidate does not pass the gates, with the ids of the eligible nodes and the reasons of
  -- the others at hand.
  unfoldable pub gate :
      SystemPlanner
      → CapacityRequirement
      → List (Text × Unit {0})
      → List (Text × CapacityRejection)
      → PlacementCandidate
      → Option PlacementRejection
  gate p requirement eligible unavailable c =
      if not (valid_identifier c.backend_id) || not (valid_identifier c.compute_node_id)
      then some invalid_candidate
      else if not (model_eq c.estimate.model requirement.model)
      then some model_mismatch
      else if not (BTreeMap.contains_key list_cmp c.compute_node_id eligible)
      then elim (BTreeMap.get list_cmp c.compute_node_id unavailable) [
        | none ↦ some unknown_compute_node
        | some reason ↦ some (capacity reason)
      ]
      else elim (supports p.backends c.backend_id c.estimate.model c.estimate.strategy) [
        | ok true ↦ none
        | ok false ↦ some unsupported_backend_capability
        | err (Backend.unknown_backend _) ↦ some PlacementRejection.unknown_backend
        | err _ ↦ some invalid_candidate
      ]

  abbrev pub unit_entry : ComputeNode → Text × Unit {0}
  unit_entry n = (n.id, tt)

  -- The gate of one decision: the snapshot is evaluated once for all candidates.
  abbrev pub gate_of :
      SystemPlanner → CapacityRequirement → PlacementCandidate → Option PlacementRejection
  gate_of p requirement =
      let out = evaluate p.capacity requirement in
      gate p requirement (collect list_cmp (map unit_entry out.0)) (collect list_cmp out.1)

  -- The two vectors that the loop over the candidates fills.
  unfoldable pub gate_rejected :
      (PlacementCandidate → Option PlacementRejection)
      → List PlacementCandidate
      → List (PlacementCandidate × PlacementRejection)
  gate_rejected g [] = []
  gate_rejected g (c ∷ cs) = elim (g c) [
    | some reason ↦ (c, reason) ∷ gate_rejected g cs
    | none ↦ gate_rejected g cs
  ]

  unfoldable pub gate_feasible :
      (PlacementCandidate → Option PlacementRejection)
      → List PlacementCandidate
      → List PlacementCandidate
  gate_feasible g [] = []
  gate_feasible g (c ∷ cs) = elim (g c) [
    | some reason ↦ gate_feasible g cs
    | none ↦ c ∷ gate_feasible g cs
  ]

  -- The candidates that a rejected estimate stands for.
  unfoldable pub rejected_for :
      List PlacementCandidate
      → List (InferenceCandidate × RejectionReason)
      → List (PlacementCandidate × PlacementRejection)
  rejected_for feasible [] = []
  rejected_for feasible ((e, reason) ∷ es) =
      map (λ c. (c, inference reason)) (keep (λ c. estimate_eq c.estimate e) feasible)
      ++ rejected_for feasible es

  unfoldable pub find_placement :
      ScoredCandidate → List PlacementCandidate → Option PlacementCandidate
  find_placement s [] = none
  find_placement s (c ∷ cs) =
      let later = find_placement s cs in
      if estimate_eq c.estimate s.candidate then some c else later

  unfoldable pub select_placement :
      List PlacementCandidate → DecisionExplanation → Option PlacementSelection
  select_placement feasible d = elim d.selected [
    | none ↦ none
    | some scored ↦ elim (find_placement scored feasible) [
      | none ↦ none
      | some c ↦ some (record {
        backend_id = c.backend_id;
        compute_node_id = c.compute_node_id;
        scored = scored;
        fallbacks = d.fallbacks;
      })
    ]
  ]

  unfoldable pub decide :
      SystemPlanner
      → List PlacementCandidate
      → CapacityRequirement
      → InferenceConstraints
      → ObjectiveWeights
      → SystemDecision
  decide p candidates requirement constraints weights =
      let unavailable = (evaluate p.capacity requirement).1 in
      let ordered = sort_by candidate_order candidates in
      let rejected = gate_rejected (gate_of p requirement) ordered in
      let feasible = gate_feasible (gate_of p requirement) ordered in
      elim (try_decide (map (λ c. c.estimate) feasible) constraints weights) [
        | err error ↦ record {
          selected = none;
          rejected =
              sort_by rejection_order
                (rejected ++ map (λ c. (c, inference invalid_planning_config)) feasible);
          unavailable_nodes = unavailable;
          config_error = some error;
        }
        | ok d ↦ record {
          selected = select_placement feasible d;
          rejected = sort_by rejection_order (rejected ++ rejected_for feasible d.rejected);
          unavailable_nodes = unavailable;
          config_error = none;
        }
      ]
