-- ===== src/Graph/Weigh.antt =====
-- src/lib.rs: an edge that the search uses costs 0 or more, so that the condition of the search holds
-- of every graph, health and cost model.
use trust_system.Prelude.{◌≤◌, ◌≡◌, ◌⊎◌, inl, inr, true, false, some, arith, Option-cases, subst}
use trust_system.Prelude.Text.{Text, text_dec}
use trust_system.Prelude.Words.{u64_max}
use trust_system.Prelude.HashMap
use trust_system.Prelude.HashMap.{Map}
use trust_system.Prelude.Float.{Floats, Num, ◌≤ᶠ◌, ◌+ᶠ◌, zero_f, is_nan, IsIeee}
use trust_system.Health.{HealthTracker}
use trust_system.Health.Penalty.{penalty-cases}
use trust_system.Cost.{TenantCostModel, IndexedEdge, weight}
use trust_system.Cost.Bounds.{add_nonneg, weight-nonneg}
use trust_system.Graph.{ToolGraph, health_penalty, edge_cost, shortest_path}
use trust_system.Graph.Answer.{IsInterned, IsAnswer, shortest_path-IsAnswer}

module _ ⦃f : Floats⦄ (ieee : IsIeee) (g : ToolGraph) (health : Map Text HealthTracker)
    (m : TenantCostModel) where
  health_penalty-cases :
      (name : Text)
      → ((zero_f ≤ᶠ health_penalty g health m name) ≡ true)
        ⊎ (is_nan (health_penalty g health m name) ≡ true)
  health_penalty-cases name = elim (Option-cases (HashMap.lookup text_dec name health)) [
    | inl n ↦ rw (health_penalty, n) (inl ieee.zero_le_zero)
    | inr (t, n) ↦ rw (health_penalty, n) (penalty-cases ieee t)
  ]

  taken :
      (e : IndexedEdge) (name : Text) (w : Num)
      → edge_cost g health m e name ≡ some w
      → (weight e m +ᶠ health_penalty g health m name ≡ w)
        × (is_nan (weight e m +ᶠ health_penalty g health m name) ≡ false)
  unfolding edge_cost
  taken e name w h = (ground arith, ground arith)

  edge_cost-nonneg :
      (e : IndexedEdge) (name : Text) (w : Num)
      → m.ceilings.max_latency_ms ≤ u64_max
      → edge_cost g health m e name ≡ some w
      → (zero_f ≤ᶠ w) ≡ true
  edge_cost-nonneg e name w b h = elim (health_penalty-cases name) [
    | inl p ↦
        let sum =
          add_nonneg ieee (weight e m) (health_penalty g health m name) (weight-nonneg ieee e m b)
            p in
        subst (λ x. (zero_f ≤ᶠ x) ≡ true) (taken e name w h).0 sum
    | inr p ↦ absurd (
        ground (
          arith,
          ieee.add_nan (weight e m) (health_penalty g health m name) p,
          (taken e name w h).1,
        ))
  ]

  -- On IEEE floats, on a graph whose names are interned, the search returns without a panic and
  -- within its fuel: the start alone if it is the goal, no path if either name is unknown, and else
  -- a walk from the start to the goal spelled in order, with its cost, which no walk undercuts; or
  -- no path, and then every walk to the goal costs infinity. The ceiling of the latency is a u64.
  pub shortest_path-answers :
      IsInterned g
      → m.ceilings.max_latency_ms ≤ u64_max
      → (start goal : Text)
      → IsAnswer ieee g health m start goal (shortest_path g health m start goal)
  shortest_path-answers i b start goal =
      shortest_path-IsAnswer ieee g health m i
        (λ u v w x. edge_cost-nonneg x.edge x.name w b x.costs) start goal
