-- ===== src/Graph/Relax.antt =====
-- The loop over the edges out of a node: it never panics, keeps the search in order, and leaves each
-- of the edges accounted for.
use trust_system.Prelude.{
  ℕ, ◌+◌, ◌≤◌, ◌<◌, ◌≡◌, refl, sym, subst, ◌∙◌, ◌≢◌, inl, inr, true, some, List, [], ◌∷◌, arith,
  ◌==◌, length, length-set, get_elem?, set, All, In, Bool-cases,
}
use mathlib.Core.Option.{some-injective}
use trust_system.Prelude.Text.{Text}
use trust_system.Prelude.HashMap.{Map}
use trust_system.Prelude.Float.{Floats, Num, ◌<ᶠ◌, ◌≤ᶠ◌, ◌+ᶠ◌, zero_f, IsIeee}
use trust_system.Health.{HealthTracker}
use trust_system.Cost.{TenantCostModel, IndexedEdge}
use trust_system.Graph.{ToolGraph, Search, edge_cost, relax_all}
use trust_system.Graph.Walk.{EdgeTo}
use trust_system.Graph.Heap.{le_refl}
use trust_system.Graph.Potential.{Flags}
use trust_system.Graph.Order.{Order, Below, get-set_self, get-set_ne}
use trust_system.Graph.Improve.{improve_unsettled, improve-Below, improve-Order}
use trust_system.Graph.Links.{get-lt, Links, improve-Links}
use trust_system.Graph.Bound.{Bound, improve-Bound}
use trust_system.Graph.OneEdge.{Relaxed, unusable, kept, better, relax-Relaxed}

module _ ⦃f : Floats⦄ (g : ToolGraph) (health : Map Text HealthTracker) (m : TenantCostModel) where
  module _ (ieee : IsIeee) (start : ℕ) where
    pub record Core (s : Search) (settled expanded : Flags) (level : ℕ → ℕ) : Type 0 where
      pub distances_length : length s.distances ≡ length g.id_to_node
      pub previous_length : length s.previous ≡ length g.id_to_node
      pub inside : All (λ x. x.node < length g.id_to_node) s.heap
      pub order : Order s.distances s.heap settled
      pub links : Links g health m start s.distances s.previous s.heap settled level
      pub bound : Bound ieee g health m s.distances s.heap settled expanded

    -- The edge does not shorten the distance of its target any more.
    abbrev pub Done : Num → List Num → IndexedEdge → Type 0
    Done cost ds e =
        (name : Text) (w dv : Num)
        → e.enabled ≡ true
        → get_elem? g.id_to_node e.target ≡ some name
        → edge_cost g health m e name ≡ some w
        → get_elem? ds e.target ≡ some dv
        → (dv ≤ᶠ cost +ᶠ w) ≡ true

    -- Distances only fall.
    abbrev pub Later : List Num → List Num → Type 0
    Later ds ds' =
        (v : ℕ) (d' : Num)
        → get_elem? ds' v ≡ some d'
        → (d : Num) × (get_elem? ds v ≡ some d) × ((d' ≤ᶠ d) ≡ true)

    -- The search while the edges of `u` are looked at.
    pub record During (u : ℕ) (cost : Num) (s : Search) (settled expanded : Flags) (level : ℕ → ℕ)
        : Type 0 where
      pub core : Core s settled expanded level
      pub below : Below s.distances settled cost
      pub here : get_elem? s.distances u ≡ some cost

    module _ (u : ℕ) (cost : Num) (row : List IndexedEdge) (settled expanded : Flags)
        (level : ℕ → ℕ) (z : (zero_f ≤ᶠ cost) ≡ true) (su : settled u ≡ true)
        (row_of : get_elem? g.adjacency u ≡ some row)
        (nonneg : (a b : ℕ) (w : Num) → EdgeTo g health m a b w → (zero_f ≤ᶠ w) ≡ true) where
      edge_of :
          (e : IndexedEdge) (name : Text) (w : Num)
          → In e row
          → e.enabled ≡ true
          → get_elem? g.id_to_node e.target ≡ some name
          → edge_cost g health m e name ≡ some w
          → EdgeTo g health m u e.target w
      edge_of e name w j on n c = record {
        row = row;
        edge = e;
        name = name;
        row_of = row_of;
        edge_in = j;
        enabled = on;
        target = refl;
        name_of = n;
        costs = c;
      }

      unmoved :
          (s : Search) (settled' : Flags) (i : Order s.distances s.heap settled')
          → Later s.distances s.distances
      unmoved s settled' i v d e = (d, e, le_refl ieee d (i.node v d e).nonneg)

      -- The improved search.
      better-During :
          (s s' : Search) (e : IndexedEdge) (name : Text) (w old : Num)
          → In e row
          → During u cost s settled expanded level
          → e.enabled ≡ true
          → get_elem? g.id_to_node e.target ≡ some name
          → edge_cost g health m e name ≡ some w
          → get_elem? s.distances e.target ≡ some old
          → (cost +ᶠ w <ᶠ old) ≡ true
          → s' ≡ record {
            distances = set s.distances e.target (cost +ᶠ w);
            previous = set s.previous e.target u;
            heap = record { node = e.target; cost = cost +ᶠ w } ∷ s.heap;
          }
          → During u cost s' settled expanded level × Later s.distances s'.distances
      better-During s s' e name w old j i on n c d l q =
          let edge = edge_of e name w j on n c in
          let zw = nonneg u e.target w edge in
          let order = i.core.order in
          let ds = s.distances in
          let away =
            improve_unsettled ieee ds s.heap settled e.target cost w old z zw d l order i.below in
          let up = ieee.le_trans zero_f cost (cost +ᶠ w) z (ieee.le-add cost w z zw) in
          let ns : e.target ≢ start = λ r.
            let r0 : old ≡ zero_f =
              some-injective old zero_f (sym d ∙ rw r i.core.links.start_zero) in
            ground (arith, ieee.not_le_of_lt (cost +ᶠ w) old l, up) in
          let nu : u ≢ e.target = λ r. ground arith in
          subst (λ x. During u cost x settled expanded level × Later ds x.distances) (sym q)
            (
              record {
                core = record {
                  distances_length = length-set ds e.target (cost +ᶠ w) ∙ i.core.distances_length;
                  previous_length = length-set s.previous e.target u ∙ i.core.previous_length;
                  inside = (get-lt g.id_to_node e.target name n, i.core.inside);
                  order =
                      improve-Order ieee ds s.heap settled e.target cost w old z zw d l order
                        i.below;
                  links =
                      improve-Links g health m start ds s.previous s.heap settled level u e.target
                        cost w old i.core.distances_length i.core.previous_length d ns away su
                        i.here edge i.core.links;
                  bound =
                      improve-Bound ieee g health m ds s.heap settled expanded e.target (cost +ᶠ w)
                        old d l away i.core.bound;
                };
                below =
                    improve-Below ieee ds s.heap settled e.target cost w old z zw d l order i.below;
                here = get-set_ne ds e.target u (cost +ᶠ w) nu ∙ i.here;
              },
              λ v d' k. elim (Bool-cases (v == e.target)) [
                | inl p ↦
                    let r : v ≡ e.target = ground arith in
                    let new : d' ≡ cost +ᶠ w =
                      get-set_self ds e.target (cost +ᶠ w) d'
                        (subst (λ x. get_elem? (set ds e.target (cost +ᶠ w)) x ≡ some d') r k) in
                    (old, rw r d, rw new (ieee.le_of_lt (cost +ᶠ w) old l))
                | inr p ↦
                    let nv : v ≢ e.target = λ r. ground arith in
                    let k' = sym (get-set_ne ds e.target v (cost +ᶠ w) nv) ∙ k in
                    (d', k', le_refl ieee d' (order.node v d' k').nonneg)
              ],
            )

      -- One edge: the search goes on, and the edge is done.
      relax-During :
          (s s' : Search) (e : IndexedEdge)
          → In e row
          → During u cost s settled expanded level
          → Relaxed g health m u cost e s s'
          → During u cost s' settled expanded level
            × Later s.distances s'.distances
            × Done cost s'.distances e
            × (length s'.heap ≤ length s.heap + 1)
      relax-During s s' e j i (unusable q never) =
          subst
            (λ x.
              During u cost x settled expanded level
              × Later s.distances x.distances
              × Done cost x.distances e
              × (length x.heap ≤ length s.heap + 1))
            (sym q)
            (
              i,
              unmoved s settled i.core.order,
              (λ name w dv on n c k. absurd (never name w on n c)),
              omega arith,
            )
      relax-During s s' e j i (kept name w old n c d l q) =
          subst
            (λ x.
              During u cost x settled expanded level
              × Later s.distances x.distances
              × Done cost x.distances e
              × (length x.heap ≤ length s.heap + 1))
            (sym q)
            (
              i,
              unmoved s settled i.core.order,
              (λ name' w' dv on n' c' k.
                  let sn : name ≡ name' = some-injective name name' (sym n ∙ n') in
                  let sw : w ≡ w' = some-injective w w' (sym c ∙ rw sn c') in
                  let sd : old ≡ dv = some-injective old dv (sym d ∙ k) in
                  let zw = nonneg u e.target w' (edge_of e name' w' j on n' c') in
                  let up = ieee.le_trans zero_f cost (cost +ᶠ w') z (ieee.le-add cost w' z zw) in
                  ieee.le_of_not_lt (cost +ᶠ w') dv up (i.core.order.node e.target dv k).nonneg
                    (rw (sw, sd) at l)),
              omega arith,
            )
      relax-During s s' e j i (better name w old on n c d l q) =
          let (during, later) = better-During s s' e name w old j i on n c d l q in
          (
            during,
            later,
            (λ name' w' dv on' n' c' k.
                let sn : name ≡ name' = some-injective name name' (sym n ∙ n') in
                let sw : w ≡ w' = some-injective w w' (sym c ∙ rw sn c') in
                let new : dv ≡ cost +ᶠ w =
                  get-set_self s.distances e.target (cost +ᶠ w) dv
                    (subst (λ x. get_elem? x.distances e.target ≡ some dv) q k) in
                subst (λ y. (dv ≤ᶠ cost +ᶠ y) ≡ true) sw
                  (subst (λ y. (dv ≤ᶠ y) ≡ true) new
                    (le_refl ieee dv (during.core.order.node e.target dv k).nonneg))),
            rw q (omega arith),
          )

      Done-Later :
          (ds ds' : List Num) (e : IndexedEdge) → Later ds ds' → Done cost ds e → Done cost ds' e
      Done-Later ds ds' e later h name w dv on n c k =
          let (d, k', l) = later e.target dv k in
          ieee.le_trans dv d (cost +ᶠ w) l (h name w d on n c k')

      Later-trans : (a b c : List Num) → Later a b → Later b c → Later a c
      Later-trans a b c p q v d k =
          let (x, kx, lx) = q v d k in
          let (y, ky, ly) = p v x kx in (y, ky, ieee.le_trans d x y lx ly)

      -- The loop returns, with every edge of the list done.
      pub relax_all-During :
          (es : List IndexedEdge) (s : Search)
          → All (λ e. In e row × (e.target < length g.id_to_node)) es
          → During u cost s settled expanded level
          → (s' : Search) × (relax_all g health m u cost es s ≡ some s')
            × During u cost s' settled expanded level
            × Later s.distances s'.distances
            × All (Done cost s'.distances) es
            × (length s'.heap ≤ length s.heap + length es)
      unfolding relax_all
      relax_all-During [] s h i = (s, refl, i, unmoved s settled i.core.order, tt, omega arith)
      relax_all-During (e ∷ es) s h i =
          let (s1, r1, rel) = relax-Relaxed g health m u cost e s h.0.1 i.core.distances_length in
          let (i1, later1, done1, size1) = relax-During s s1 e h.0.0 i rel in
          let (s2, r2, i2, later2, done2, size2) = relax_all-During es s1 h.1 i1 in
          (
            s2,
            rw (relax_all, r1) r2,
            i2,
            Later-trans s.distances s1.distances s2.distances later1 later2,
            (Done-Later s1.distances s2.distances e later2 done1, done2),
            omega (arith, size1, size2),
          )
