-- ===== src/Placement/Selection.antt =====
-- src/system_planning.rs: what `SystemPlanner::decide` selects.
use trust_system.Prelude.{
  ◌≡◌, ◌∙◌, refl, sym, ◌≢◌, ◌⊎◌, inl, inr, true, none, some, List, map, In, All-In, ok, err,
  Option-cases, Result-cases, Ordering,
}
use trust_system.Prelude.Sort.{sort_by, In-sort_by, All-sort_by}
use trust_system.Prelude.Distinct.{In-All}
use trust_system.Prelude.Float.{Floats, total_cmp, IsIeee}
use trust_system.Capacity.{CapacityRequirement}
use trust_system.Capacity.Nodes.{Registered}
use trust_system.Inference.{
  DecisionError, InferenceCandidate, InferenceConstraints, ObjectiveWeights, ScoredCandidate,
  DecisionExplanation, rejection, score_of, fallback, try_decide,
}
use trust_system.Inference.Choice.{IsChoice}
use mathlib.Core.Option.{none-ne-some}
use trust_system.Inference.Decision.{try_decide_chooses}
use trust_system.Placement.{
  PlacementCandidate, PlacementSelection, SystemPlanner, SystemDecision, estimate_eq,
  candidate_order, gate_of, gate_feasible, find_placement, select_placement, decide,
}
use trust_system.Placement.Gates.{
  CanPlace, gate_of-CanPlace, CanPlace-gate_of, gate_feasible-All, In-gate_feasible,
}
use trust_system.Placement.Find.{
  estimate_eq_refl, find_placement_found, find_placement_finds, estimate-In, In-estimate,
}

module _ ⦃f : Floats⦄ where
  module _ (p : SystemPlanner) (q : CapacityRequirement) (k : InferenceConstraints)
      (w : ObjectiveWeights) where
    -- What a selection says: it names a candidate that can be placed, whose estimate is feasible and
    -- scores no worse than the feasible estimate of any candidate that can be placed; the fallbacks
    -- are those of its strategy.
    pub record IsPlacement (cs : List PlacementCandidate) (s : PlacementSelection) : Type 0 where
      pub candidate : PlacementCandidate
      pub given : In candidate cs
      pub can_place : CanPlace p q candidate
      pub backend : s.backend_id ≡ candidate.backend_id
      pub node : s.compute_node_id ≡ candidate.compute_node_id
      pub estimate : estimate_eq candidate.estimate s.scored.candidate ≡ true
      pub feasible : rejection k s.scored.candidate ≡ none
      pub scored : s.scored.score ≡ score_of k w s.scored.candidate
      pub best :
          (c : PlacementCandidate)
          → In c cs
          → CanPlace p q c
          → rejection k c.estimate ≡ none
          → total_cmp s.scored.score (score_of k w c.estimate) ≢ Ordering.gt
      pub degrades : s.fallbacks ≡ fallback s.scored.candidate.strategy

    abbrev pub IsSystemDecision : List PlacementCandidate → SystemDecision → Type 0
    IsSystemDecision cs d =
        ((d.config_error ≢ none) × (d.selected ≡ none))
        ⊎ ((d.config_error ≡ none)
            × (d.selected ≡ none)
            × ((c : PlacementCandidate) → In c cs → CanPlace p q c → rejection k c.estimate ≢ none))
        ⊎ ((s : PlacementSelection) × (d.config_error ≡ none)
            × (d.selected ≡ some s)
            × IsPlacement cs s)

    abbrev passed : List PlacementCandidate → List PlacementCandidate
    passed cs = gate_feasible (gate_of p q) (sort_by candidate_order cs)

    abbrev estimates : List PlacementCandidate → List InferenceCandidate
    estimates cs = map (λ c. c.estimate) (passed cs)

    passed-In :
        Registered p.capacity
        → (cs : List PlacementCandidate) (c : PlacementCandidate) → In c (passed cs)
        → In c cs × CanPlace p q c
    passed-In r cs c i =
        let ordered = sort_by candidate_order cs in
        let (j, n) = All-In _ c (passed cs) (gate_feasible-All (gate_of p q) ordered) i in
        (
          All-In _ c ordered (All-sort_by candidate_order (λ x. In x cs) cs (In-All cs (λ a i. i)))
              j,
          gate_of-CanPlace p q c r n,
        )

    In-passed :
        (cs : List PlacementCandidate) (c : PlacementCandidate)
        → In c cs
        → CanPlace p q c
        → In c (passed cs)
    In-passed cs c i h =
        In-gate_feasible (gate_of p q) c _ (CanPlace-gate_of p q c h)
          (In-sort_by candidate_order c cs i)

    decide_err :
        (cs : List PlacementCandidate) (x : DecisionError)
        → try_decide (estimates cs) k w ≡ err x
        → ((decide p cs q k w).config_error ≡ some x) × ((decide p cs q k w).selected ≡ none)
    unfolding decide
    decide_err cs x e = (rw (decide, e) refl, rw (decide, e) refl)

    decide_ok :
        (cs : List PlacementCandidate) (d : DecisionExplanation)
        → try_decide (estimates cs) k w ≡ ok d
        → ((decide p cs q k w).config_error ≡ none)
          × ((decide p cs q k w).selected ≡ select_placement (passed cs) d)
    unfolding decide
    decide_ok cs d e = (rw (decide, e) refl, rw (decide, e) refl)

    select_steps :
        (feasible : List PlacementCandidate) (d : DecisionExplanation) (s : ScoredCandidate)
        (c : PlacementCandidate)
        → d.selected ≡ some s
        → find_placement s feasible ≡ some c
        → select_placement feasible d
          ≡ some (record {
            backend_id = c.backend_id;
            compute_node_id = c.compute_node_id;
            scored = s;
            fallbacks = d.fallbacks;
          })
    unfolding select_placement
    select_steps feasible d s c e h = rw (select_placement, e, h) refl

    select_none :
        (feasible : List PlacementCandidate) (d : DecisionExplanation)
        → d.selected ≡ none
        → select_placement feasible d ≡ none
    unfolding select_placement
    select_none feasible d e = rw (select_placement, e) refl

    module _ (ieee : IsIeee) (r : Registered p.capacity) (cs : List PlacementCandidate) where
      choice-IsPlacement :
          (d : DecisionExplanation) (s : ScoredCandidate)
          → d.selected ≡ some s
          → d.fallbacks ≡ fallback s.candidate.strategy
          → IsChoice k w (estimates cs) s
          → (x : PlacementSelection) × (select_placement (passed cs) d ≡ some x) × IsPlacement cs x
      choice-IsPlacement d s e fb (given, (feasible, score), best) =
          let (c₀, i₀, q₀) = estimate-In s.candidate (passed cs) given in
          let same : estimate_eq c₀.estimate s.candidate ≡ true =
            rw (sym q₀) (estimate_eq_refl ieee k s.candidate feasible) in
          elim (Option-cases (find_placement s (passed cs))) [
            | inl n ↦ absurd (find_placement_finds s (passed cs) c₀ i₀ same n)
            | inr (c, h) ↦
                let (i, eq) = find_placement_found s (passed cs) c h in
                let (j, can) = passed-In r cs c i in
                (
                  _,
                  select_steps (passed cs) d s c e h,
                  record {
                    candidate = c;
                    given = j;
                    can_place = can;
                    backend = refl;
                    node = refl;
                    estimate = eq;
                    feasible = feasible;
                    scored = score;
                    best = λ c' i' can' f'.
                        best c'.estimate (In-estimate c' (passed cs) (In-passed cs c' i' can')) f';
                    degrades = fb;
                  },
                )
          ]

      -- On IEEE floats and a snapshot that registrations made: a decision of the planner either
      -- reports a configuration error and selects nothing; or selects nothing because no candidate
      -- that can be placed has a feasible estimate; or selects a candidate that can be placed, of a
      -- feasible estimate that scores no worse than that of any other such candidate, with the
      -- fallbacks of its strategy.
      pub decide-IsSystemDecision : IsSystemDecision cs (decide p cs q k w)
      decide-IsSystemDecision = elim (Result-cases (try_decide (estimates cs) k w)) [
        | inl (x, e) ↦ let (a, b) = decide_err cs x e in inl ((λ n. none-ne-some x (sym n ∙ a)), b)
        | inr (d, e) ↦
            let (a, b) = decide_ok cs d e in
            elim (try_decide_chooses ieee (estimates cs) k w d e) [
              | inl (n, _, h) ↦ inr (
                  inl (
                    a,
                    b ∙ select_none (passed cs) d n,
                    λ c i can. h c.estimate (In-estimate c (passed cs) (In-passed cs c i can)),
                  ))
              | inr (s, n, fb, ch) ↦
                  let (x, t, found) = choice-IsPlacement d s n fb ch in
                  inr (inr (x, a, b ∙ t, found))
            ]
      ]
