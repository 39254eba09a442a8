-- ===== src/Pipeline/Screen.antt =====
-- src/pipeline.rs, stage 6: which candidates of a request are left.
use trust_system.Prelude.{
  ℕ, Bool, false, Option, none, some, List, [], ◌∷◌, ◌++◌, if◌then◌else◌, ltb,
}
use trust_system.Prelude.Text.{Text, bytes}
use trust_system.Prelude.Float.{Floats, ◌<ᶠ◌, lit}
use trust_system.Trace.{TraceRejection}
use trust_system.Intelligence.World.{WorldState}
use trust_system.Intelligence.Candidates.{
  high, OperationalValue, observed, predicted, derived, configured, not_known, unavailable,
  some_and, CounterfactualEstimate, DecisionFirewall, approved, rejected, evaluate_candidate,
}
use trust_system.Pipeline.{PipelineRequest, Printer}
use trust_system.Pipeline.Texts.{show_u64}
use trust_system.Pipeline.Candidates.{unwrap_or, Raw}

-- `if let Some(limit) = limit && value.is_some_and(|v| exceeds(limit, v))`.
abbrev pub breaks_limit : {A : Type 0} → (A → A → Bool) → Option A → OperationalValue A → Bool
breaks_limit exceeds none v = false
breaks_limit exceeds (some limit) v = some_and (exceeds limit) v

-- The derived `Debug` of an `OperationalValue<u64>`.
abbrev pub value_text : {A : Type 0} → (A → Text) → OperationalValue A → Text
value_text show (observed v) = bytes "Observed(" ++ show v ++ bytes ")"
value_text show (predicted v) = bytes "Predicted(" ++ show v ++ bytes ")"
value_text show (derived v) = bytes "Derived(" ++ show v ++ bytes ")"
value_text show (configured v) = bytes "Configured(" ++ show v ++ bytes ")"
value_text show not_known = bytes "Unknown"
value_text show unavailable = bytes "Unavailable"

module _ ⦃f : Floats⦄ where
  abbrev pub rejection_of : CounterfactualEstimate → Text → TraceRejection
  rejection_of c reason = record {
    backend_id = c.backend_id;
    compute_node_id = c.compute_node_id;
    reason = reason;
  }

  -- Why a candidate is left out: a hard limit of the request, or the firewall.
  unfoldable pub screen_one :
      Printer
      → DecisionFirewall
      → PipelineRequest
      → WorldState
      → ℕ
      → CounterfactualEstimate
      → Option TraceRejection
  screen_one p firewall req world now c =
      if breaks_limit ltb req.max_ttft_ms c.predicted_ttft
      then some (
          rejection_of c (
            bytes "TTFT "
            ++ value_text show_u64 c.predicted_ttft
            ++ bytes " exceeds max "
            ++ show_u64 (unwrap_or req.max_ttft_ms 0)
            ++ bytes "ms"))
      else if breaks_limit ltb req.max_e2e_ms c.predicted_e2e
      then some (
          rejection_of c (
            bytes "E2E "
            ++ value_text show_u64 c.predicted_e2e
            ++ bytes " exceeds max "
            ++ show_u64 (unwrap_or req.max_e2e_ms 0)
            ++ bytes "ms"))
      else if breaks_limit (λ limit v. limit <ᶠ v) req.max_cost c.predicted_cost
      then some (
          rejection_of c (
            bytes "Cost "
            ++ value_text p.float_text c.predicted_cost
            ++ bytes " exceeds max "
            ++ p.float_text (unwrap_or req.max_cost (lit 0 1))))
      else elim (evaluate_candidate firewall c world high now) [
        | approved ↦ none
        | rejected _ ↦ some (rejection_of c (bytes "Rejected by DecisionFirewall"))
      ]

  -- The two vectors that the loop over the candidates fills. The clock is read for each of them.
  unfoldable pub screen_rejected :
      (CounterfactualEstimate → Option TraceRejection) → List Raw → List TraceRejection
  screen_rejected g [] = []
  screen_rejected g ((c, kv) ∷ cs) = elim (g c) [
    | some r ↦ r ∷ screen_rejected g cs
    | none ↦ screen_rejected g cs
  ]

  unfoldable pub screen_valid :
      (CounterfactualEstimate → Option TraceRejection) → List Raw → List Raw
  screen_valid g [] = []
  screen_valid g ((c, kv) ∷ cs) = elim (g c) [
    | some r ↦ screen_valid g cs
    | none ↦ (c, kv) ∷ screen_valid g cs
  ]
