-- ===== src/Intelligence/Approval.antt =====
-- src/intelligence.rs: what the firewall approves.
use trust_system.Prelude.{
  ℕ, ◌-◌, ◌≤◌, ◌≡◌, refl, ◌⊎◌, inl, inr, true, false, some, arith, ok, ◌↔◌, ltb, Option-cases,
}
use trust_system.Prelude.Float.{Floats, Num, ◌<ᶠ◌}
use trust_system.Intelligence.World.{WorldState}
use trust_system.Intelligence.Candidates.{
  DecisionConfidence, high, medium, OperationalValue, observed, predicted, derived, configured,
  not_known, unavailable, value, CounterfactualEstimate, validate, DecisionFirewall, approved,
  evaluate_candidate, some_and, none_or_below, is_safe_for_optimization,
}

module _ ⦃f : Floats⦄ where
  -- What is known of a value is at most a limit: nothing is asked where nothing is known.
  abbrev pub AtMost : ℕ → OperationalValue ℕ → Type 0
  AtMost limit v = (x : ℕ) → value v ≡ some x → x ≤ limit

  abbrev pub NotAbove : Num → OperationalValue Num → Type 0
  NotAbove limit v = (x : Num) → value v ≡ some x → (limit <ᶠ x) ≡ false

  pub record Approvable (w : DecisionFirewall) (c : CounterfactualEstimate) (world : WorldState)
      (confidence : DecisionConfidence) (now : ℕ) : Type 0 where
    pub configured_well : validate w.config ≡ ok tt
    pub past : world.observed_at ≤ now
    pub fresh : now - world.observed_at ≤ w.max_world_state_age
    pub feasible : c.feasible ≡ true
    pub ttft : AtMost w.config.max_ttft c.predicted_ttft
    pub tpot : AtMost w.config.max_tpot c.predicted_tpot
    pub e2e : AtMost w.config.max_e2e c.predicted_e2e
    pub quality :
        (q : Num) × (value c.quality_risk ≡ some q) × ((q <ᶠ w.config.min_quality) ≡ false)
    pub cost : NotAbove w.config.max_cost c.predicted_cost
    pub reliability : NotAbove w.config.max_failure_probability c.predicted_failure_probability
    pub confident : (confidence ≡ high) ⊎ (confidence ≡ medium)

  AtMost-some_and :
      (limit : ℕ) (v : OperationalValue ℕ) → AtMost limit v → some_and (λ x. ltb limit x) v ≡ false
  AtMost-some_and limit v h = elim (Option-cases (value v)) [
    | inl e ↦ rw (some_and, e) refl
    | inr (x, e) ↦ let b = h x e in rw (some_and, e) (ground arith)
  ]

  NotAbove-some_and :
      (limit : Num) (v : OperationalValue Num)
      → NotAbove limit v
      → some_and (λ x. limit <ᶠ x) v ≡ false
  NotAbove-some_and limit v h = elim (Option-cases (value v)) [
    | inl e ↦ rw (some_and, e) refl
    | inr (x, e) ↦ rw (some_and, e) (h x e)
  ]

  none_or_below-known :
      (bound q : Num) (v : OperationalValue Num)
      → value v ≡ some q
      → (q <ᶠ bound) ≡ false
      → none_or_below bound v ≡ false
  none_or_below-known bound q v e h = rw (none_or_below, e) h

  module _ (w : DecisionFirewall) (c : CounterfactualEstimate) (world : WorldState)
      (confidence : DecisionConfidence) (now : ℕ) where
    quality_known :
        (v : OperationalValue Num)
        → evaluate_candidate w (record c { quality_risk = v }) world confidence now ≡ approved
        → (q : Num) × (value v ≡ some q) × ((q <ᶠ w.config.min_quality) ≡ false)
    unfolding evaluate_candidate
    quality_known (observed q) e = (q, refl, ground arith)
    quality_known (predicted q) e = (q, refl, ground arith)
    quality_known (derived q) e = (q, refl, ground arith)
    quality_known (configured q) e = (q, refl, ground arith)
    quality_known not_known e = absurd (ground arith)
    quality_known unavailable e = absurd (ground arith)

    approved-Approvable :
        evaluate_candidate w c world confidence now ≡ approved → Approvable w c world confidence now
    unfolding evaluate_candidate
    approved-Approvable e = record {
      configured_well = ground arith;
      past = ground arith;
      fresh = ground arith;
      feasible = ground arith;
      ttft = λ x h. ground arith;
      tpot = λ x h. ground arith;
      e2e = λ x h. ground arith;
      quality = quality_known c.quality_risk e;
      cost = λ x h. ground arith;
      reliability = λ x h. ground arith;
      confident = ground arith;
    }

    Approvable-approved :
        Approvable w c world confidence now → evaluate_candidate w c world confidence now ≡ approved
    unfolding evaluate_candidate
    Approvable-approved h =
        let (q, known, above) = h.quality in
        let safe : is_safe_for_optimization confidence ≡ true = elim h.confident [
          | inl e ↦ rw e refl
          | inr e ↦ rw e refl
        ] in
        ground (
          arith,
          h.configured_well,
          h.past,
          h.fresh,
          h.feasible,
          AtMost-some_and w.config.max_ttft c.predicted_ttft h.ttft,
          AtMost-some_and w.config.max_tpot c.predicted_tpot h.tpot,
          AtMost-some_and w.config.max_e2e c.predicted_e2e h.e2e,
          none_or_below-known w.config.min_quality q c.quality_risk known above,
          NotAbove-some_and w.config.max_cost c.predicted_cost h.cost,
          NotAbove-some_and w.config.max_failure_probability c.predicted_failure_probability
              h.reliability,
        )

    -- The firewall approves a candidate exactly when its own configuration is valid, the world state
    -- is not older than allowed nor from the future, the candidate is feasible, what is known of its
    -- latencies, its cost and its failure probability is within the limits, its quality is known and
    -- not below the limit, and the confidence is high or medium.
    pub approved_iff :
        (evaluate_candidate w c world confidence now ≡ approved)
        ↔ Approvable w c world confidence now
    approved_iff = (approved-Approvable, Approvable-approved)
