-- ===== src/Inference/Choice.antt =====
-- src/inference.rs: what `try_decide` selects, and what becomes of every candidate.
use trust_system.Prelude.{
  ◌+◌, ◌≡◌, refl, sym, ap, subst, ◌≢◌, ◌⊎◌, inl, inr, Option, none, some, List, [], ◌∷◌, arith,
  length, All, All-map, In, All-In, first?, Option-cases, Ordering,
}
use trust_system.Prelude.Order.{
  IsTotalOrder, by-IsTotalOrder, lex-IsTotalOrder, compare-IsTotalOrder,
}
use trust_system.Prelude.BTreeMap.{key-IsTotalOrder}
use trust_system.Prelude.Sort.{sort_by, sort_by-IsSorted, All-sort_by, In-sort_by}
use trust_system.Prelude.Float.{Floats, Num, total_cmp, IsIeee}
use trust_system.Kv.{rank}
use trust_system.Kv.Registry.{model_cmp-IsKeyOrder}
use trust_system.Inference.{
  InferenceCandidate, InferenceConstraints, ObjectiveWeights, ScoredCandidate, candidate_order,
  rejection, score_of, rejected_of, feasible_of, scored_order,
}

module _ ⦃f : Floats⦄ where
  candidate_order-IsTotalOrder : IsIeee → IsTotalOrder candidate_order
  candidate_order-IsTotalOrder ieee =
      let t = ieee.total_order in
      lex-IsTotalOrder (by-IsTotalOrder (λ c. c.model) (key-IsTotalOrder model_cmp-IsKeyOrder)) (
        lex-IsTotalOrder
          (by-IsTotalOrder (λ c. c.strategy) (by-IsTotalOrder rank compare-IsTotalOrder))
          (lex-IsTotalOrder (by-IsTotalOrder (λ c. c.latency_ms) t) (
            lex-IsTotalOrder (by-IsTotalOrder (λ c. c.cost) t) (
              lex-IsTotalOrder (by-IsTotalOrder (λ c. c.failure_rate) t)
                (by-IsTotalOrder (λ c. c.quality) t)))))

  scored_order-IsTotalOrder : IsIeee → IsTotalOrder scored_order
  scored_order-IsTotalOrder ieee =
      lex-IsTotalOrder (by-IsTotalOrder (λ s. s.score) ieee.total_order)
        (by-IsTotalOrder (λ s. s.candidate) (candidate_order-IsTotalOrder ieee))

  module _ (constraints : InferenceConstraints) (w : ObjectiveWeights) where
    -- A scored candidate of the vector is feasible and scored by the code's formula.
    abbrev pub IsFeasible : ScoredCandidate → Type 0
    IsFeasible s =
        (rejection constraints s.candidate ≡ none) × (s.score ≡ score_of constraints w s.candidate)

    feasible_of-IsFeasible :
        (cs : List InferenceCandidate) → All IsFeasible (feasible_of constraints w cs)
    unfolding feasible_of
    feasible_of-IsFeasible [] = tt
    feasible_of-IsFeasible (c ∷ cs) = elim (Option-cases (rejection constraints c)) [
      | inl e ↦ rw (All, e) ((e, refl), feasible_of-IsFeasible cs)
      | inr (reason, e) ↦ rw (All, e) (feasible_of-IsFeasible cs)
    ]

    feasible_of-In :
        (cs : List InferenceCandidate) → All (λ s. In s.candidate cs) (feasible_of constraints w cs)
    unfolding feasible_of
    feasible_of-In [] = tt
    feasible_of-In (c ∷ cs) =
        let later = All-map (λ s i. inr i) (feasible_of constraints w cs) (feasible_of-In cs) in
        elim (Option-cases (rejection constraints c)) [
          | inl e ↦ rw (All, e) (inl refl, later)
          | inr (reason, e) ↦ rw (All, e) later
        ]

    In-feasible_of :
        (c : InferenceCandidate) (cs : List InferenceCandidate)
        → rejection constraints c ≡ none
        → In c cs
        → In
            (record { candidate = c; score = score_of constraints w c })
            (feasible_of constraints w cs)
    unfolding feasible_of
    In-feasible_of c [] r i = absurd i
    In-feasible_of c (x ∷ cs) r (inl e) =
        let rx : rejection constraints x ≡ none = rw (sym e) r in rw (In, rx, e) (inl refl)
    In-feasible_of c (x ∷ cs) r (inr i) = elim (Option-cases (rejection constraints x)) [
      | inl e ↦ rw (In, e) (inr (In-feasible_of c cs r i))
      | inr (reason, e) ↦ rw (In, e) (In-feasible_of c cs r i)
    ]

    pub rejected_of-All :
        (cs : List InferenceCandidate)
        → All (λ e. In e.0 cs × (rejection constraints e.0 ≡ some e.1)) (rejected_of constraints cs)
    unfolding rejected_of
    rejected_of-All [] = tt
    rejected_of-All (c ∷ cs) =
        let later =
          All-map (λ e h. (inr h.0, h.1)) (rejected_of constraints cs) (rejected_of-All cs) in
        elim (Option-cases (rejection constraints c)) [
          | inl e ↦ rw (All, e) later
          | inr (reason, e) ↦ rw (All, e) ((inl refl, e), later)
        ]

    pub length-rejected_of :
        (cs : List InferenceCandidate)
        → length (rejected_of constraints cs) + length (feasible_of constraints w cs) ≡ length cs
    unfolding rejected_of feasible_of
    length-rejected_of [] = refl
    length-rejected_of (c ∷ cs) = ground (arith, length-rejected_of cs)

    first_of :
        (xs : List ScoredCandidate)
        → ((xs ≡ []) × (first? xs ≡ none))
          ⊎ ((s : ScoredCandidate) × (ys : List ScoredCandidate) × (xs ≡ s ∷ ys)
              × (first? xs ≡ some s))
    first_of [] = inl (refl, refl)
    first_of (s ∷ ys) = inr (s, ys, refl, refl)

    -- The candidate that is selected: one of those given, feasible, scored by the formula, and not
    -- above any other feasible candidate in the order of scores.
    abbrev pub IsChoice : List InferenceCandidate → ScoredCandidate → Type 0
    IsChoice cs s =
        In s.candidate cs
        × IsFeasible s
        × ((c : InferenceCandidate)
            → In c cs
            → rejection constraints c ≡ none
            → total_cmp s.score (score_of constraints w c) ≢ Ordering.gt)

    abbrev pub choice : List InferenceCandidate → Option ScoredCandidate
    choice cs = first? (sort_by scored_order (feasible_of constraints w cs))

    score_le :
        (s t : ScoredCandidate)
        → scored_order s t ≢ Ordering.gt
        → total_cmp s.score t.score ≢ Ordering.gt
    score_le s t h = ground arith

    score_refl :
        IsIeee → (s : ScoredCandidate) (x : Num) → s.score ≡ x → total_cmp s.score x ≢ Ordering.gt
    score_refl ieee s x e = ground (arith, ieee.total_order.swapped x x)

    pub choice-IsChoice :
        IsIeee
        → (cs : List InferenceCandidate)
        → ((choice cs ≡ none)
            × ((c : InferenceCandidate) → In c cs → rejection constraints c ≢ none))
          ⊎ ((s : ScoredCandidate) × (choice cs ≡ some s) × IsChoice cs s)
    choice-IsChoice ieee cs =
        let found = feasible_of constraints w cs in
        let sorted = sort_by-IsSorted (scored_order-IsTotalOrder ieee) found in
        let member = In-sort_by scored_order in
        let feasible = All-sort_by scored_order IsFeasible found (feasible_of-IsFeasible cs) in
        let given = All-sort_by scored_order (λ s. In s.candidate cs) found (feasible_of-In cs) in
        elim (first_of (sort_by scored_order found)) [
          | inl (e, n) ↦ inl (n, λ c i r. subst (In _) e (member _ found (In-feasible_of c cs r i)))
          | inr (s, ys, e, n) ↦ inr (
            s,
            n,
            (
              (rw e at given).0,
              (rw e at feasible).0,
              λ c i r. elim (subst (In _) e (member _ found (In-feasible_of c cs r i))) [
                | inl q ↦ score_refl ieee s _ (sym (ap (λ t. t.score) q))
                | inr j ↦ score_le s _ (All-In _ _ ys (rw e at sorted).0 j)
              ],
            ),
          )
        ]
