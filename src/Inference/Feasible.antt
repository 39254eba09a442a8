-- ===== src/Inference/Feasible.antt =====
-- src/inference.rs: which candidates are feasible, why the others are not, and what a score is, written
-- out from the meaning of the configuration.
use trust_system.Prelude.{
  ◌≡◌, refl, sym, ◌⊎◌, inl, inr, Bool, true, false, not, ◌||◌, none, some, List, [], ◌∷◌, arith, In,
  all, if◌then◌else◌, Option-cases,
}
use trust_system.Prelude.Float.{
  Floats, Num, ◌<ᶠ◌, ◌≤ᶠ◌, ◌==ᶠ◌, ◌+ᶠ◌, ◌-ᶠ◌, ◌*ᶠ◌, ◌/ᶠ◌, is_finite, zero_f, one_f,
}
use trust_system.Inference.{
  RejectionReason, invalid_estimate, latency_constraint, cost_constraint, quality_constraint,
  invalid_planning_config, InferenceCandidate, InferenceConstraints, ObjectiveWeights, valid,
  normalized, rejection, score_of, rejected_of,
}

module _ ⦃f : Floats⦄ where
  abbrev pub IsAmount : Num → Type 0
  IsAmount v = (is_finite v ≡ true) × (zero_f ≤ᶠ v ≡ true)

  -- Four finite amounts of at least 0, the failure rate and the quality at most 1.
  pub record Estimated (c : InferenceCandidate) : Type 0 where
    pub latency : IsAmount c.latency_ms
    pub cost : IsAmount c.cost
    pub failure : IsAmount c.failure_rate
    pub quality : IsAmount c.quality
    pub failure_most : one_f <ᶠ c.failure_rate ≡ false
    pub quality_most : one_f <ᶠ c.quality ≡ false

  module _ (k : InferenceConstraints) where
    pub record Feasible (c : InferenceCandidate) : Type 0 where
      pub estimated : Estimated c
      pub latency : k.max_latency_ms <ᶠ c.latency_ms ≡ false
      pub cost : k.max_cost <ᶠ c.cost ≡ false
      pub quality : c.quality <ᶠ k.min_quality ≡ false

    -- The reason is the first of the four that holds.
    abbrev pub Rejects : InferenceCandidate → RejectionReason → Type 0
    Rejects c invalid_estimate = ¬ Estimated c
    Rejects c latency_constraint = Estimated c × (k.max_latency_ms <ᶠ c.latency_ms ≡ true)
    Rejects c cost_constraint =
        Estimated c × (k.max_latency_ms <ᶠ c.latency_ms ≡ false) × (k.max_cost <ᶠ c.cost ≡ true)
    Rejects c quality_constraint =
        Estimated c
        × (k.max_latency_ms <ᶠ c.latency_ms ≡ false)
        × (k.max_cost <ᶠ c.cost ≡ false)
        × (c.quality <ᶠ k.min_quality ≡ true)
    Rejects c invalid_planning_config = ⊥

  -- A share of the ceiling, and none of a ceiling of 0.
  abbrev pub share : Num → Num → Num
  share v ceiling = if ceiling ==ᶠ zero_f then zero_f else v /ᶠ ceiling

  -- The weighted sum of the latency and the cost, as shares of what is allowed, of the failure rate,
  -- and of what the quality lacks of 1.
  abbrev pub objective : InferenceConstraints → ObjectiveWeights → InferenceCandidate → Num
  objective k w c =
      w.latency *ᶠ share c.latency_ms k.max_latency_ms
      +ᶠ w.cost *ᶠ share c.cost k.max_cost
      +ᶠ w.reliability *ᶠ c.failure_rate
      +ᶠ w.quality *ᶠ (one_f -ᶠ c.quality)

  pub score_of-objective :
      (k : InferenceConstraints) (w : ObjectiveWeights) (c : InferenceCandidate)
      → score_of k w c ≡ objective k w c
  unfolding score_of normalized
  score_of-objective k w c = refl

  abbrev unsound : InferenceCandidate → Bool
  unsound c =
      not (all valid (c.latency_ms ∷ c.cost ∷ c.failure_rate ∷ c.quality ∷ []))
      || one_f <ᶠ c.failure_rate
      || one_f <ᶠ c.quality

  unsound-Estimated : (c : InferenceCandidate) → unsound c ≡ false → Estimated c
  unsound-Estimated c h = record {
    latency = (ground arith, ground arith);
    cost = (ground arith, ground arith);
    failure = (ground arith, ground arith);
    quality = (ground arith, ground arith);
    failure_most = ground arith;
    quality_most = ground arith;
  }

  Estimated-unsound : (c : InferenceCandidate) → Estimated c → unsound c ≡ false
  Estimated-unsound c h = ground (
    arith, h.latency.0, h.latency.1, h.cost.0, h.cost.1, h.failure.0, h.failure.1, h.quality.0,
    h.quality.1, h.failure_most, h.quality_most,
  )

  module _ (k : InferenceConstraints) where
    pub rejection-Feasible : (c : InferenceCandidate) → rejection k c ≡ none → Feasible k c
    unfolding rejection
    rejection-Feasible c e = record {
      estimated = unsound-Estimated c (ground arith);
      latency = ground arith;
      cost = ground arith;
      quality = ground arith;
    }

    pub Feasible-rejection : (c : InferenceCandidate) → Feasible k c → rejection k c ≡ none
    unfolding rejection
    Feasible-rejection c h = rw (Estimated-unsound c h.estimated, h.latency, h.cost, h.quality) refl

    pub rejection-Rejects :
        (c : InferenceCandidate) (x : RejectionReason) → rejection k c ≡ some x → Rejects k c x
    unfolding rejection
    rejection-Rejects c invalid_estimate e =
        λ h. let u = Estimated-unsound c h in absurd (ground arith)
    rejection-Rejects c latency_constraint e = (unsound-Estimated c (ground arith), ground arith)
    rejection-Rejects c cost_constraint e =
        (unsound-Estimated c (ground arith), ground arith, ground arith)
    rejection-Rejects c quality_constraint e =
        (unsound-Estimated c (ground arith), ground arith, ground arith, ground arith)
    rejection-Rejects c invalid_planning_config e = absurd (ground arith)

    -- A candidate that is rejected is in the vector of those.
    In-rejected_of :
        (c : InferenceCandidate) (x : RejectionReason) (cs : List InferenceCandidate)
        → rejection k c ≡ some x
        → In c cs
        → In (c, x) (rejected_of k cs)
    unfolding rejected_of
    In-rejected_of c x [] r i = absurd i
    In-rejected_of c x (y ∷ cs) r (inl e) =
        let ry : rejection k y ≡ some x = rw (sym e) r in rw (In, ry, e) (inl refl)
    In-rejected_of c x (y ∷ cs) r (inr i) = elim (Option-cases (rejection k y)) [
      | inl e ↦ rw (In, e) (In-rejected_of c x cs r i)
      | inr (z, e) ↦ rw (In, e) (inr (In-rejected_of c x cs r i))
    ]

    pub classified :
        (c : InferenceCandidate) (cs : List InferenceCandidate)
        → In c cs
        → Feasible k c ⊎ ((x : RejectionReason) × In (c, x) (rejected_of k cs) × Rejects k c x)
    classified c cs i = elim (Option-cases (rejection k c)) [
      | inl e ↦ inl (rejection-Feasible c e)
      | inr (x, e) ↦ inr (x, In-rejected_of c x cs e i, rejection-Rejects c x e)
    ]
