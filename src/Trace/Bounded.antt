-- ===== src/Trace/Bounded.antt =====
-- src/decision_trace.rs: a trace is bounded, says when it left something out, and its reasons tell
-- the rejections apart.
use trust_system.Prelude.{
  ℕ, zero, suc, ◌≤◌, ◌<◌, ◌≡◌, ◌∙◌, refl, sym, ap, true, false, Option, none, some, List, [], ◌∷◌,
  map, arith, ok, length, take, length-take, length-map,
}
use mathlib.Core.Option.{some-injective}
use Prim.Native.Nat.{max}
use trust_system.Prelude.Text.{Text, text_dec, valid_identifier}
use trust_system.Prelude.Words.{clamp_nat}
use trust_system.Prelude.Float.{Floats}
use trust_system.Capacity.{
  unhealthy, region_mismatch, model_not_resident, insufficient_memory, queue_limit,
}
use trust_system.Inference.{
  invalid_estimate, latency_constraint, cost_constraint, quality_constraint,
  invalid_planning_config,
}
use trust_system.Placement.{
  PlacementRejection, invalid_candidate, model_mismatch, unknown_compute_node, capacity,
  unknown_backend, unsupported_backend_capability, inference, SystemDecision,
}
use trust_system.Trace.{
  max_trace_rejections, capacity_reason, rejection_reason, trace_rejection, DecisionTrace,
  from_system_decision,
}

abbrev rejections : List PlacementRejection
rejections =
    invalid_candidate
    ∷ model_mismatch
    ∷ unknown_compute_node
    ∷ capacity unhealthy
    ∷ capacity region_mismatch
    ∷ capacity model_not_resident
    ∷ capacity insufficient_memory
    ∷ capacity queue_limit
    ∷ unknown_backend
    ∷ unsupported_backend_capability
    ∷ inference invalid_estimate
    ∷ inference latency_constraint
    ∷ inference cost_constraint
    ∷ inference quality_constraint
    ∷ inference invalid_planning_config
    ∷ []

-- The first rejection of a list that has this reason.
abbrev named : Text → List PlacementRejection → Option PlacementRejection
named reason [] = none
named reason (r ∷ rs) = elim (text_dec (rejection_reason r) reason) [
  | yes _ ↦ some r
  | no _ ↦ named reason rs
]

named-rejection_reason : (r : PlacementRejection) → named (rejection_reason r) rejections ≡ some r
unfolding rejection_reason capacity_reason text_dec
named-rejection_reason invalid_candidate = refl
named-rejection_reason model_mismatch = refl
named-rejection_reason unknown_compute_node = refl
named-rejection_reason (capacity unhealthy) = refl
named-rejection_reason (capacity region_mismatch) = refl
named-rejection_reason (capacity model_not_resident) = refl
named-rejection_reason (capacity insufficient_memory) = refl
named-rejection_reason (capacity queue_limit) = refl
named-rejection_reason unknown_backend = refl
named-rejection_reason unsupported_backend_capability = refl
named-rejection_reason (inference invalid_estimate) = refl
named-rejection_reason (inference latency_constraint) = refl
named-rejection_reason (inference cost_constraint) = refl
named-rejection_reason (inference quality_constraint) = refl
named-rejection_reason (inference invalid_planning_config) = refl

-- Two rejections with the same reason are the same.
pub rejection_reason-injective :
    (r s : PlacementRejection) → rejection_reason r ≡ rejection_reason s → r ≡ s
rejection_reason-injective r s e =
    some-injective r s
      (sym (named-rejection_reason r) ∙ ap (λ t. named t rejections) e ∙ named-rejection_reason s)

take-all : {A : Type 0} (n : ℕ) (xs : List A) → length xs ≤ n → take n xs ≡ xs
take-all zero [] h = refl
take-all (suc n) [] h = refl
take-all zero (x ∷ xs) h = absurd (omega arith)
take-all (suc n) (x ∷ xs) h = ap (λ ys. x ∷ ys) (take-all n xs (omega arith))

module _ ⦃f : Floats⦄ where
  -- For a well-formed request id a decision has a trace. It holds at most `max_trace_rejections`
  -- rejections, and at most as many as asked for, or one. It says that it is truncated exactly when
  -- the decision has more rejections than the trace; where it does not, it holds all of them, in
  -- their order.
  pub from_system_decision-length :
      (request_id : Text) (d : SystemDecision) (capacity_revision backend_revision limit : ℕ)
      → valid_identifier request_id ≡ true
      → (t : DecisionTrace) × (from_system_decision request_id d capacity_revision backend_revision
            limit
          ≡ ok t)
        × (length t.rejected ≤ max_trace_rejections)
        × (length t.rejected ≤ max 1 limit)
        × (t.rejected_truncated ≡ true → length t.rejected < length d.rejected)
        × (t.rejected_truncated ≡ false → t.rejected ≡ map trace_rejection d.rejected)
  unfolding from_system_decision
  from_system_decision-length request_id d capacity_revision backend_revision limit v =
      let n = clamp_nat 1 max_trace_rejections limit in
      let taken = take n d.rejected in
      let e = length-map trace_rejection taken in
      let l = length-take n d.rejected in
      rw v (
        _,
        refl,
        omega (arith, e, l),
        omega (arith, e, l),
        (λ h. ground (arith, e, l)),
        (λ h.
            let few : length d.rejected ≤ n = ground arith in
            ap (map trace_rejection) (take-all n d.rejected few)),
      )
