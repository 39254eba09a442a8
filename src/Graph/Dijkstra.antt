-- ===== src/Graph/Dijkstra.antt =====
-- src/lib.rs, `ToolGraph::shortest_path`: it returns, and its route is a walk of least cost.
use trust_system.Prelude.{
  ℕ, zero, suc, ◌<◌, ◌≡◌, refl, sym, subst, ◌≢◌, ◌⊎◌, inl, inr, true, false, none, some, List, [],
  arith, ◌==◌, length, get_elem?, All, All-In, Bool-cases, Option-cases,
}
use trust_system.Prelude.Text.{Text}
use trust_system.Prelude.HashMap.{Map}
use trust_system.Prelude.Float.{Floats, Num, ◌<ᶠ◌, ◌≤ᶠ◌, zero_f, infinity, IsIeee}
use trust_system.Health.{HealthTracker}
use trust_system.Cost.{TenantCostModel, IndexedEdge}
use trust_system.Graph.{
  ToolGraph, Route, SearchState, pop, Search, Outcome, found, no_path, search, relax_all,
}
use trust_system.Graph.Walk.{EdgeTo, IsIndexed, Walk}
use trust_system.Graph.Heap.{pop-All, pop-none, pop-least, le_refl}
use trust_system.Graph.Potential.{Flags, mark}
use trust_system.Graph.Links.{get-some}
use trust_system.Graph.Trace.{spell, goal-Traced}
use trust_system.Graph.Bound.{pop-In, Walk-Beaten}
use trust_system.Graph.Relax.{Core}
use trust_system.Graph.Turn.{measure, skip-Core, expand-Core}
use trust_system.Prelude.Distinct.{In-All}

module _ ⦃f : Floats⦄ (g : ToolGraph) (health : Map Text HealthTracker) (m : TenantCostModel)
    (ieee : IsIeee) (start goal : ℕ) where
  -- A route is the names of a walk to the goal, and no walk there costs less; where there is none,
  -- every walk to the goal has an infinite cost.
  abbrev pub IsBest : Route → Type 0
  IsBest r =
      ((walk : List ℕ) × Walk g health m start goal r.total_cost walk
        × (r.nodes ≡ spell g health m start walk []))
      × ((d : Num) (walk : List ℕ) → Walk g health m start goal d walk → (r.total_cost ≤ᶠ d) ≡ true)

  abbrev pub Answers : Outcome → Type 0
  Answers o =
      ((r : Route) × (o ≡ found r) × IsBest r)
      ⊎ ((o ≡ no_path)
          × ((d : Num) (walk : List ℕ)
              → Walk g health m start goal d walk
              → (infinity ≤ᶠ d) ≡ true))

  module _ (ix : IsIndexed g)
      (nonneg : (a b : ℕ) (w : Num) → EdgeTo g health m a b w → (zero_f ≤ᶠ w) ≡ true)
      (inside : goal < length g.id_to_node) (apart : goal ≢ start) where
    -- What no entry of the heap undercuts, no walk to the goal does.
    lower :
        (s : Search) (settled : Flags) (level : ℕ → ℕ) (c : Num)
        → Core g health m ieee start s settled settled level
        → settled goal ≡ false
        → (zero_f ≤ᶠ c) ≡ true
        → All (λ x. (c ≤ᶠ x.cost) ≡ true) s.heap
        → (d : Num) (walk : List ℕ) → Walk g health m start goal d walk
        → (c ≤ᶠ d) ≡ true
    lower s settled level c i open_goal z least d walk w =
        elim (Walk-Beaten ieee g health m start s.distances s.heap settled c nonneg
          i.distances_length z least i.links.start_zero (λ v d e. (i.order.node v d e).nonneg)
          i.bound w) [ inl (k, _, _, _) ↦ absurd (ground arith) | inr l ↦ l ]

    -- The popped entry of the goal has its distance.
    goal_exact :
        (s : Search) (settled : Flags) (level : ℕ → ℕ) (t : SearchState) (o : List SearchState)
        (d : Num)
        → Core g health m ieee start s settled settled level
        → settled goal ≡ false
        → pop s.heap ≡ some (t, o)
        → t.node ≡ goal
        → get_elem? s.distances goal ≡ some d
        → All (λ x. (t.cost ≤ᶠ x.cost) ≡ true) s.heap
        → t.cost ≡ d
    goal_exact s settled level t o d i k e q h least =
        elim ((pop-All _ s.heap t o e i.order.exact).0 d (rw q h)) [
          | inl p ↦ p
          | inr p ↦ elim (i.bound.live goal d h k) [
            | inl far ↦
                let z = (pop-All _ s.heap t o e i.order.positive).0 in
                absurd (ground (arith, ieee.not_le_of_lt d t.cost p, ieee.le_infinity t.cost z))
            | inr (x, j, _, xd) ↦
                let b = subst (λ y. (t.cost ≤ᶠ y) ≡ true) xd (All-In _ x s.heap least j) in
                absurd (ground (arith, ieee.not_le_of_lt d t.cost p, b))
          ]
        ]

    all_above :
        (s : Search) (settled : Flags) (level : ℕ → ℕ) (t : SearchState) (o : List SearchState)
        → Core g health m ieee start s settled settled level
        → pop s.heap ≡ some (t, o)
        → All (λ x. (t.cost ≤ᶠ x.cost) ≡ true) s.heap
    all_above s settled level t o i e =
        let z = (pop-All _ s.heap t o e i.order.positive).0 in
        let rest_above = pop-least ieee s.heap t o e i.order.positive in
        In-All s.heap (λ x j. elim (pop-In s.heap t o x e j) [
          | inl q ↦ rw q (le_refl ieee t.cost z)
          | inr k ↦ All-In _ x o rest_above k
        ])

    at_goal :
        (fuel : ℕ) (s : Search) (settled : Flags) (level : ℕ → ℕ) (t : SearchState)
        (o : List SearchState)
        → Core g health m ieee start s settled settled level
        → settled goal ≡ false
        → pop s.heap ≡ some (t, o)
        → t.node ≡ goal
        → Answers (search g health m (suc fuel) start goal s)
    unfolding search
    at_goal fuel s settled level t o i k e q =
        let waits : ¬ All (λ x. x.node ≢ goal) s.heap =
          λ h. (pop-All (λ x. x.node ≢ goal) s.heap t o e h).0 q in
        let (walk, d, h, w, back) =
          goal-Traced g health m start s.distances s.previous s.heap settled level ix.small i.links
            goal inside apart k waits in
        let least = all_above s settled level t o i e in
        let same = goal_exact s settled level t o d i k e q h least in
        let z = (pop-All _ s.heap t o e i.order.positive).0 in
        let b : (t.node == goal) ≡ true = ground arith in
        inl (
          record { nodes = spell g health m start walk []; total_cost = t.cost; cache_hit = false },
          rw (search, e, b, back) refl,
          (
            (walk, subst (λ x. Walk g health m start goal x walk) (sym same) w, refl),
            λ x p v. lower s settled level t.cost i k z least x p v,
          ),
        )

    nowhere :
        (fuel : ℕ) (s : Search) (settled : Flags) (level : ℕ → ℕ)
        → Core g health m ieee start s settled settled level
        → settled goal ≡ false
        → pop s.heap ≡ none
        → Answers (search g health m (suc fuel) start goal s)
    unfolding search
    nowhere fuel s settled level i k n =
        let empty : All (λ x. (infinity ≤ᶠ x.cost) ≡ true) s.heap =
          subst (All (λ x. (infinity ≤ᶠ x.cost) ≡ true)) (sym (pop-none s.heap n)) tt in
        inr (
          rw (search, n) refl,
          λ d walk w.
              lower s settled level infinity i k (ieee.le_infinity zero_f ieee.zero_le_zero) empty d
                walk w,
        )

    skip_turn :
        (fuel : ℕ) (s : Search) (t : SearchState) (o : List SearchState) (best : Num)
        → pop s.heap ≡ some (t, o)
        → (t.node == goal) ≡ false
        → get_elem? s.distances t.node ≡ some best
        → (best <ᶠ t.cost) ≡ true
        → search g health m (suc fuel) start goal s
          ≡ search g health m fuel start goal (record s { heap = o })
    unfolding search
    skip_turn fuel s t o best e q d l = rw (search, e, q, d, l) refl

    expand_turn :
        (fuel : ℕ) (s : Search) (t : SearchState) (o : List SearchState) (best : Num)
        (es : List IndexedEdge) (s' : Search)
        → pop s.heap ≡ some (t, o)
        → (t.node == goal) ≡ false
        → get_elem? s.distances t.node ≡ some best
        → (best <ᶠ t.cost) ≡ false
        → get_elem? g.adjacency t.node ≡ some es
        → relax_all g health m t.node t.cost es (record s { heap = o }) ≡ some s'
        → search g health m (suc fuel) start goal s ≡ search g health m fuel start goal s'
    unfolding search
    expand_turn fuel s t o best es s' e q d l a r = rw (search, e, q, d, l, a, r) refl

    -- The search returns, whatever the turn, if the fuel exceeds the measure.
    pub search-Answers :
        (fuel : ℕ) (s : Search) (settled : Flags) (level : ℕ → ℕ)
        → Core g health m ieee start s settled settled level
        → settled goal ≡ false
        → measure g health m ieee start ix nonneg s settled < fuel
        → Answers (search g health m fuel start goal s)
    search-Answers zero s settled level i k b = absurd (omega arith)
    search-Answers (suc fuel) s settled level i k b = elim (Option-cases (pop s.heap)) [
      | inl n ↦ nowhere fuel s settled level i k n
      | inr ((t, o), e) ↦ elim (Bool-cases (t.node == goal)) [
        | inl q ↦ at_goal fuel s settled level t o i k e (ground arith)
        | inr q ↦
            let room = (pop-All _ s.heap t o e i.inside).0 in
            let (best, d) =
              get-some s.distances t.node (subst (λ n. t.node < n) (sym i.distances_length) room) in
            elim (Bool-cases (best <ᶠ t.cost)) [
              | inl l ↦
                  let (i', less) =
                    skip-Core g health m ieee start ix nonneg s settled level t o best e d l i in
                  subst Answers (sym (skip_turn fuel s t o best e q d l)) (
                    search-Answers fuel (record s { heap = o }) settled level i' k
                      (omega (arith, less, b)))
              | inr l ↦
                  let (es, a) =
                    get-some g.adjacency t.node (subst (λ n. t.node < n) (sym ix.rows) room) in
                  let (s', r, i', less) =
                    expand-Core g health m ieee start ix nonneg s settled level t o best es e d l a
                      i in
                  subst Answers (sym (expand_turn fuel s t o best es s' e q d l a r)) (
                    search-Answers fuel s' (mark t.node settled) _ i' (ground arith)
                      (omega (arith, less, b)))
            ]
      ]
    ]
