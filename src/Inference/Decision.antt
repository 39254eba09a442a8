-- ===== src/Inference/Decision.antt =====
-- src/inference.rs: what a decision of `try_decide` and of `decide` says of the candidates.
use trust_system.Prelude.{
  ◌+◌, ◌≡◌, refl, ◌∙◌, ◌≢◌, ◌⊎◌, inl, inr, none, some, List, [], ◌∷◌, map, arith, length,
  length-map, All, All-map, In, Ordering, subst, ok, err, Result-cases,
}
use trust_system.Prelude.Order.{by}
use trust_system.Prelude.Sort.{sort_by, All-sort_by, length-sort_by, In-sort_by}
use trust_system.Prelude.Float.{Floats, IsIeee, total_cmp}
use trust_system.Inference.{
  DecisionError, RejectionReason, invalid_planning_config, fallback, InferenceCandidate,
  InferenceConstraints, validate_constraints, ObjectiveWeights, validate_weights, ScoredCandidate,
  DecisionExplanation, candidate_order, rejection, rejected_of, feasible_of, rejected_order,
  try_decide, decide,
}
use trust_system.Inference.Choice.{
  IsChoice, choice, choice-IsChoice, rejected_of-All, length-rejected_of,
}
use trust_system.Inference.Feasible.{
  Feasible, Rejects, objective, score_of-objective, rejection-Feasible, Feasible-rejection,
  rejection-Rejects, classified,
}

module _ ⦃f : Floats⦄ where
  -- The selection among the candidates, and what becomes of the others.
  pub record IsDecision (cs : List InferenceCandidate) (constraints : InferenceConstraints)
      (w : ObjectiveWeights) (d : DecisionExplanation) : Type 0 where
    pub chosen :
        ((d.selected ≡ none)
          × (d.fallbacks ≡ [])
          × ((c : InferenceCandidate) → In c cs → ¬ Feasible constraints c))
        ⊎ ((s : ScoredCandidate) × (d.selected ≡ some s)
            × (d.fallbacks ≡ fallback s.candidate.strategy)
            × In s.candidate cs
            × Feasible constraints s.candidate
            × (s.score ≡ objective constraints w s.candidate)
            × ((c : InferenceCandidate)
                → In c cs
                → Feasible constraints c
                → total_cmp s.score (objective constraints w c) ≢ Ordering.gt))
    pub reasons : All (λ e. In e.0 cs × Rejects constraints e.0 e.1) d.rejected
    pub judged :
        (c : InferenceCandidate)
        → In c cs
        → Feasible constraints c
          ⊎ ((x : RejectionReason) × In (c, x) d.rejected × Rejects constraints c x)
    pub counted : length d.rejected + length (feasible_of constraints w cs) ≡ length cs
    pub no_error : d.config_error ≡ none

  try_decide_steps :
      (cs : List InferenceCandidate) (constraints : InferenceConstraints) (w : ObjectiveWeights)
      (d : DecisionExplanation)
      → try_decide cs constraints w ≡ ok d
      → (d.selected ≡ choice constraints w cs)
        × (d.rejected ≡ sort_by rejected_order (rejected_of constraints cs))
        × (d.fallbacks ≡ elim d.selected [ none ↦ [] | some s ↦ fallback s.candidate.strategy ])
        × (d.config_error ≡ none)
  unfolding try_decide
  try_decide_steps cs constraints w d e = elim (Result-cases (validate_constraints constraints)) [
    | inl (_, v) ↦ absurd (ground arith)
    | inr (tt, v) ↦ elim (Result-cases (validate_weights w)) [
      | inl (_, u) ↦ absurd (ground arith)
      | inr (tt, u) ↦ (ground arith, ground arith, ground arith, ground arith)
    ]
  ]

  -- The selection in the terms of the code's own test and score.
  pub try_decide_chooses :
      IsIeee
      → (cs : List InferenceCandidate) (constraints : InferenceConstraints) (w : ObjectiveWeights)
        (d : DecisionExplanation)
      → try_decide cs constraints w ≡ ok d
      → ((d.selected ≡ none)
          × (d.fallbacks ≡ [])
          × ((c : InferenceCandidate) → In c cs → rejection constraints c ≢ none))
        ⊎ ((s : ScoredCandidate) × (d.selected ≡ some s)
            × (d.fallbacks ≡ fallback s.candidate.strategy)
            × IsChoice constraints w cs s)
  try_decide_chooses ieee cs constraints w d e =
      let (p, q, r, n) = try_decide_steps cs constraints w d e in
      elim (choice-IsChoice constraints w ieee cs) [
        | inl (o, h) ↦ inl (p ∙ o, r ∙ rw (p, o) refl, h)
        | inr (s, o, h) ↦ inr (s, p ∙ o, r ∙ rw (p, o) refl, h)
      ]

  -- On IEEE floats, of whatever `try_decide` answers without an error. A candidate is feasible where
  -- its latency, cost, failure rate and quality are finite and at least 0, the last two at most 1,
  -- latency and cost at most what the constraints allow, and the quality at least what they ask.
  -- Either nothing is selected, no candidate is feasible and there are no fallbacks; or a feasible
  -- candidate is selected, with the fallbacks of its strategy, its score is the weighted sum of the
  -- objective, and no feasible candidate has a lesser one. Every candidate is feasible, or is listed
  -- as rejected for the first reason that holds of it; nothing else is listed, and the
  -- entries are as many as the candidates that were not scored; and no configuration error is named.
  pub try_decide-IsDecision :
      IsIeee
      → (cs : List InferenceCandidate) (constraints : InferenceConstraints) (w : ObjectiveWeights)
        (d : DecisionExplanation)
      → try_decide cs constraints w ≡ ok d
      → IsDecision cs constraints w d
  try_decide-IsDecision ieee cs constraints w d e =
      let (p, q, r, n) = try_decide_steps cs constraints w d e in
      let rs = rejected_of constraints cs in
      record {
        chosen = elim (try_decide_chooses ieee cs constraints w d e) [
          | inl (o, b, h) ↦ inl (o, b, λ c i k. h c i (Feasible-rejection constraints c k))
          | inr (s, o, b, (i, (k, score), best)) ↦ inr (
            s,
            o,
            b,
            i,
            rejection-Feasible constraints s.candidate k,
            score ∙ score_of-objective constraints w s.candidate,
            λ c j l.
                subst (λ x. total_cmp s.score x ≢ Ordering.gt) (score_of-objective constraints w c)
                  (best c j (Feasible-rejection constraints c l)),
          )
        ];
        reasons = rw q (
            All-sort_by rejected_order _ rs (
              All-map (λ x h. (h.0, rejection-Rejects constraints x.0 x.1 h.1)) rs
                (rejected_of-All constraints w cs)));
        judged = λ c i. elim (classified constraints c cs i) [
          | inl k ↦ inl k
          | inr (x, j, k) ↦ inr (x, rw q (In-sort_by rejected_order (c, x) rs j), k)
        ];
        counted =
            rw q (
              omega (arith, length-sort_by rejected_order rs, length-rejected_of constraints w cs));
        no_error = n;
      }

  rejected_all : List InferenceCandidate → List (InferenceCandidate × RejectionReason)
  rejected_all cs = map (λ c. (c, invalid_planning_config)) cs

  rejected_all-All :
      (cs : List InferenceCandidate) → All (λ e. e.1 ≡ invalid_planning_config) (rejected_all cs)
  unfolding rejected_all
  rejected_all-All [] = tt
  rejected_all-All (c ∷ cs) = (refl, rejected_all-All cs)

  decide_err :
      (cs : List InferenceCandidate) (constraints : InferenceConstraints) (w : ObjectiveWeights)
      (x : DecisionError)
      → try_decide cs constraints w ≡ err x
      → decide cs constraints w ≡ record {
        selected = none;
        rejected = sort_by (by (λ r. r.0) candidate_order) (rejected_all cs);
        fallbacks = [];
        config_error = some x;
      }
  unfolding decide rejected_all
  decide_err cs constraints w x e = rw (decide, e) refl

  -- A configuration that does not validate selects nothing: `decide` then rejects every candidate
  -- for it and names the error.
  pub decide_fails_closed :
      (cs : List InferenceCandidate) (constraints : InferenceConstraints) (w : ObjectiveWeights)
      (x : DecisionError)
      → try_decide cs constraints w ≡ err x
      → ((decide cs constraints w).selected ≡ none)
        × ((decide cs constraints w).fallbacks ≡ [])
        × ((decide cs constraints w).config_error ≡ some x)
        × (length (decide cs constraints w).rejected ≡ length cs)
        × All (λ e. e.1 ≡ invalid_planning_config) (decide cs constraints w).rejected
  unfolding rejected_all
  decide_fails_closed cs constraints w x e =
      let order = by (λ r. r.0) candidate_order in
      rw (decide_err cs constraints w x e) (
        refl,
        refl,
        refl,
        (length-sort_by order (rejected_all cs) ∙ length-map _ cs),
        All-sort_by order _ (rejected_all cs) (rejected_all-All cs),
      )
