-- ===== src/Placement/Find.antt =====
-- src/system_planning.rs: the candidate that a scored estimate is traced back to.
use trust_system.Prelude.{
  ◌≡◌, refl, sym, ap, ◌≢◌, inl, inr, true, none, some, List, [], ◌∷◌, map, arith, In, Bool-cases,
}
use trust_system.Prelude.Float.{Floats, IsIeee}
use trust_system.Kv.Registry.{model_cmp-IsKeyOrder}
use trust_system.Inference.{InferenceCandidate, InferenceConstraints, ScoredCandidate, rejection}
use trust_system.Placement.{PlacementCandidate, estimate_eq, find_placement}

module _ ⦃f : Floats⦄ where
  -- A feasible estimate is not NaN in any field, so that it equals itself.
  pub estimate_eq_refl :
      IsIeee
      → (constraints : InferenceConstraints) (e : InferenceCandidate)
      → rejection constraints e ≡ none
      → estimate_eq e e ≡ true
  unfolding estimate_eq rejection
  estimate_eq_refl ieee constraints e h = ground (
    arith,
    model_cmp-IsKeyOrder.eq_iff e.model e.model,
    ieee.finite_number e.latency_ms,
    ieee.finite_number e.cost,
    ieee.finite_number e.failure_rate,
    ieee.finite_number e.quality,
  )

  pub find_placement_found :
      (s : ScoredCandidate) (cs : List PlacementCandidate) (c : PlacementCandidate)
      → find_placement s cs ≡ some c
      → In c cs × (estimate_eq c.estimate s.candidate ≡ true)
  unfolding find_placement
  find_placement_found s [] c h = absurd (ground arith)
  find_placement_found s (x ∷ cs) c h = elim (Bool-cases (estimate_eq x.estimate s.candidate)) [
    | inl e ↦ let q : c ≡ x = ground arith in (inl q, rw q e)
    | inr e ↦
        let later : find_placement s cs ≡ some c = ground arith in
        let (i, q) = find_placement_found s cs c later in (inr i, q)
  ]

  pub find_placement_finds :
      (s : ScoredCandidate) (cs : List PlacementCandidate) (c : PlacementCandidate)
      → In c cs
      → estimate_eq c.estimate s.candidate ≡ true
      → find_placement s cs ≢ none
  unfolding find_placement
  find_placement_finds s [] c i h = absurd i
  find_placement_finds s (x ∷ cs) c (inl e) h =
      let hx : estimate_eq x.estimate s.candidate ≡ true = rw (sym e) h in ground arith
  find_placement_finds s (x ∷ cs) c (inr i) h = ground (arith, find_placement_finds s cs c i h)

  pub estimate-In :
      (e : InferenceCandidate) (cs : List PlacementCandidate)
      → In e (map (λ c. c.estimate) cs)
      → (c : PlacementCandidate) × In c cs × (e ≡ c.estimate)
  estimate-In e [] i = absurd i
  estimate-In e (c ∷ cs) (inl q) = (c, inl refl, q)
  estimate-In e (c ∷ cs) (inr i) = let (d, j, q) = estimate-In e cs i in (d, inr j, q)

  pub In-estimate :
      (c : PlacementCandidate) (cs : List PlacementCandidate)
      → In c cs
      → In c.estimate (map (λ c. c.estimate) cs)
  In-estimate c [] i = absurd i
  In-estimate c (x ∷ cs) (inl e) = inl (ap (λ c. c.estimate) e)
  In-estimate c (x ∷ cs) (inr i) = inr (In-estimate c cs i)
