-- ===== src/Intelligence/Ranking.antt =====
-- src/intelligence.rs: the candidates that the counterfactual engine returns, and their order.
use trust_system.Prelude.{◌≡◌, ◌↔◌, true, List, In, All-In, keep}
use trust_system.Prelude.Order.{IsTotalOrder, by-IsTotalOrder, lex-IsTotalOrder}
use trust_system.Prelude.BTreeMap.{key-IsTotalOrder, list_cmp-IsKeyOrder}
use trust_system.Prelude.Sort.{sort_by, sort_by-IsSorted, IsSorted, In-sort_by, All-sort_by}
use trust_system.Prelude.Distinct.{In-keep, keep-In, In-All}
use trust_system.Prelude.Float.{Floats, IsIeee}
use trust_system.Intelligence.Candidates.{CounterfactualEstimate, score, estimate_order, evaluate}

module _ ⦃f : Floats⦄ where
  pub estimate_order-IsTotalOrder : IsIeee → IsTotalOrder estimate_order
  estimate_order-IsTotalOrder ieee =
      lex-IsTotalOrder (by-IsTotalOrder score ieee.total_order)
        (by-IsTotalOrder (λ c. c.id) (key-IsTotalOrder list_cmp-IsKeyOrder))

  pub evaluate-In :
      (cs : List CounterfactualEstimate) (c : CounterfactualEstimate)
      → In c (evaluate cs) ↔ (In c cs × (c.feasible ≡ true))
  unfolding evaluate
  evaluate-In cs c =
      let kept = keep (λ c. c.feasible) cs in
      (
        (λ i.
            keep-In (λ c. c.feasible) c cs
              (All-In (λ x. In x kept) c (sort_by estimate_order kept)
                (All-sort_by estimate_order (λ x. In x kept) kept (In-All kept (λ a j. j))) i)),
        (λ h. In-sort_by estimate_order c kept (In-keep (λ c. c.feasible) c cs h.1 h.0)),
      )

  pub evaluate-IsSorted :
      IsIeee → (cs : List CounterfactualEstimate) → IsSorted estimate_order (evaluate cs)
  unfolding evaluate
  evaluate-IsSorted ieee cs = sort_by-IsSorted (estimate_order-IsTotalOrder ieee) _
