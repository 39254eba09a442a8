-- ===== src/Graph/Turn.antt =====
-- The turns of the search loop: an entry is skipped, or its node is settled and expanded.
use trust_system.Prelude.{
  ℕ, zero, suc, ◌+◌, ◌<◌, ◌≡◌, refl, sym, subst, ◌∙◌, inl, inr, true, false, some, List, [], ◌∷◌,
  arith, ◌==◌, length, get_elem?, All, All-In, In, Bool-cases,
}
use mathlib.Core.Option.{some-injective}
use trust_system.Prelude.Text.{Text}
use trust_system.Prelude.HashMap.{Map}
use trust_system.Prelude.Float.{Floats, Num, ◌<ᶠ◌, ◌≤ᶠ◌, zero_f, IsIeee}
use trust_system.Health.{HealthTracker}
use trust_system.Cost.{TenantCostModel, IndexedEdge}
use trust_system.Graph.{ToolGraph, SearchState, Search, pop, relax_all}
use trust_system.Graph.Walk.{EdgeTo, IsIndexed}
use trust_system.Graph.Heap.{pop-All, pop-size}
use trust_system.Graph.Potential.{Flags, mark, unset_sum, unset_sum-mark}
use trust_system.Graph.Order.{pop-Order, settle-Order}
use trust_system.Graph.Links.{pop-Links, settle-Links, level_after}
use trust_system.Graph.Bound.{skip-Bound, settle-Bound}
use trust_system.Graph.Relax.{Core, relax_all-During}

-- The out-degrees of the nodes.
abbrev pub degrees : ⦃f : Floats⦄ → List (List IndexedEdge) → List ℕ
degrees [] = []
degrees (es ∷ adj) = length es ∷ degrees adj

pub get-degrees :
    ⦃f : Floats⦄
    → (adj : List (List IndexedEdge)) (u : ℕ) (es : List IndexedEdge) → get_elem? adj u ≡ some es
    → get_elem? (degrees adj) u ≡ some (length es)
get-degrees [] u es e = absurd (cc)
get-degrees (x ∷ adj) zero es e = ground arith
get-degrees (x ∷ adj) (suc u) es e = get-degrees adj u es e

All-at :
    {A : Type 0} (P : A → Type 0) (xs : List A) (i : ℕ) (a : A)
    → All P xs
    → get_elem? xs i ≡ some a
    → P a
All-at P [] i a h e = absurd (cc)
All-at P (x ∷ xs) zero a h e = subst P (some-injective x a e) h.0
All-at P (x ∷ xs) (suc i) a h e = All-at P xs i a h.1 e

with_In :
    {A : Type 0} (P : A → Type 0) (whole xs : List A)
    → ((a : A) → In a xs → In a whole)
    → All P xs
    → All (λ a. In a whole × P a) xs
with_In P whole [] k h = tt
with_In P whole (x ∷ xs) k h = ((k x (inl refl), h.0), with_In P whole xs (λ a i. k a (inr i)) h.1)

module _ ⦃f : Floats⦄ (g : ToolGraph) (health : Map Text HealthTracker) (m : TenantCostModel)
    (ieee : IsIeee) (start : ℕ) (ix : IsIndexed g)
    (nonneg : (a b : ℕ) (w : Num) → EdgeTo g health m a b w → (zero_f ≤ᶠ w) ≡ true) where
  -- What the fuel must exceed.
  abbrev pub measure : Search → Flags → ℕ
  measure s settled = length s.heap + unset_sum settled (degrees g.adjacency)

  pub skip-Core :
      (s : Search) (settled : Flags) (level : ℕ → ℕ) (t : SearchState) (o : List SearchState)
      (best : Num)
      → pop s.heap ≡ some (t, o)
      → get_elem? s.distances t.node ≡ some best
      → (best <ᶠ t.cost) ≡ true
      → Core g health m ieee start s settled settled level
      → Core g health m ieee start (record s { heap = o }) settled settled level
        × (measure (record s { heap = o }) settled < measure s settled)
  skip-Core s settled level t o best e d b i = (
    record {
      distances_length = i.distances_length;
      previous_length = i.previous_length;
      inside = (pop-All _ s.heap t o e i.inside).1;
      order = pop-Order s.distances s.heap settled t o e i.order;
      links = pop-Links g health m start s.distances s.previous s.heap settled level t o e i.links;
      bound =
          skip-Bound ieee g health m s.distances s.heap settled settled t o best e d b
            (i.order.node t.node best d).nonneg i.bound;
    },
    omega (arith, pop-size s.heap t o e),
  )

  pub expand-Core :
      (s : Search) (settled : Flags) (level : ℕ → ℕ) (t : SearchState) (o : List SearchState)
      (best : Num) (es : List IndexedEdge)
      → pop s.heap ≡ some (t, o)
      → get_elem? s.distances t.node ≡ some best
      → (best <ᶠ t.cost) ≡ false
      → get_elem? g.adjacency t.node ≡ some es
      → Core g health m ieee start s settled settled level
      → (s' : Search) × (relax_all g health m t.node t.cost es (record s { heap = o }) ≡ some s')
        × Core g health m ieee start s'
            (mark t.node settled)
            (mark t.node settled)
            (level_after g health m start settled level t.node)
        × (measure s' (mark t.node settled) < measure s settled)
  expand-Core s settled level t o best es e d b a i =
      let u = t.node in
      let flags = mark u settled in
      let (same, away, order, below) =
        settle-Order ieee s.distances s.heap settled t o best e d b i.order in
      let z = (pop-All _ s.heap t o e i.order.positive).0 in
      let room = (pop-All _ s.heap t o e i.inside).0 in
      let opened : Search = record s { heap = o } in
      let level' = level_after g health m start settled level u in
      let core : Core g health m ieee start opened flags settled level' = record {
        distances_length = i.distances_length;
        previous_length = i.previous_length;
        inside = (pop-All _ s.heap t o e i.inside).1;
        order = order;
        links =
            settle-Links g health m start s.distances s.previous s.heap settled level t o e room
              away i.links;
        bound = settle-Bound ieee g health m s.distances s.heap settled t o e i.bound;
      } in
      let su : flags u ≡ true = ground arith in
      let targets = with_In _ es es (λ x j. j) (All-at _ g.adjacency u es ix.targets a) in
      let (s', r, during, _, done, size) =
        relax_all-During g health m ieee start u t.cost es flags settled level' z su a nonneg es
          opened targets (record { core = core; below = below; here = d ∙ rw same refl }) in
      let c = during.core in
      (
        s',
        r,
        record {
          distances_length = c.distances_length;
          previous_length = c.previous_length;
          inside = c.inside;
          order = c.order;
          links = c.links;
          bound = record {
            expanded_settled = λ x h. h;
            closed = λ x v w h edge du dv ex ev. elim (Bool-cases (x == u)) [
              | inr p ↦ c.bound.closed x v w (ground arith) edge du dv ex ev
              | inl p ↦
                  let q : x ≡ u = ground arith in
                  let rows : es ≡ edge.row =
                    some-injective es edge.row (sym a ∙ rw (← q) edge.row_of) in
                  let far : du ≡ t.cost = some-injective du t.cost (sym ex ∙ rw q during.here) in
                  rw far (
                    All-In _ edge.edge es done (rw rows edge.edge_in) edge.name w dv edge.enabled
                      (rw edge.target edge.name_of) edge.costs (rw edge.target ev))
            ];
            live = c.bound.live;
          };
        },
        omega (
          arith,
          size,
          pop-size s.heap t o e,
          unset_sum-mark settled (degrees g.adjacency) u (length es)
              (get-degrees g.adjacency u es a) away,
        ),
      )
