-- ===== src/Graph/Routable.antt =====
-- src/lib.rs, `ToolGraph::shortest_path`: a route does not pass through a node whose circuit is open.
use trust_system.Prelude.{
  ℕ, zero, suc, ◌+◌, ◌≡◌, refl, sym, subst, ◌∙◌, ◌⊎◌, inl, inr, Bool, false, none, some, List, [],
  ◌∷◌, arith, ◌==◌, length, get_elem?, set, replicate, rest, All, All-rest, Option-cases,
  Bool-cases,
}
use mathlib.Core.Logic.{if_neg}
use mathlib.Core.Option.{none-ne-some, some-injective}
use trust_system.Prelude.Text.{Text, text_dec}
use trust_system.Prelude.Words.{u32_max}
use trust_system.Prelude.HashMap
use trust_system.Prelude.HashMap.{Map}
use trust_system.Prelude.Float.{Floats, Num, ◌+ᶠ◌, ◌<ᶠ◌, IsIeee, infinity}
use trust_system.Health.{HealthTracker, is_open, penalty}
use trust_system.Cost.{TenantCostModel, IndexedEdge, weight}
use trust_system.Graph.{
  ToolGraph, Route, pop, Search, found, edge_cost, improve, relax, relax_all, walk_back, search,
  initial, shortest_path,
}
use trust_system.Graph.Heap.{pop-All}

All-set :
    {A : Type 0} (P : A → Type 0) (xs : List A) (i : ℕ) (v : A)
    → All P xs
    → P v
    → All P (set xs i v)
All-set P [] i v h p = tt
All-set P (x ∷ xs) zero v h p = (p, h.1)
All-set P (x ∷ xs) (suc i) v h p = (h.0, All-set P xs i v h.1 p)

All-get :
    {A : Type 0} (P : A → Type 0) (xs : List A) (i : ℕ) (v : A)
    → All P xs
    → get_elem? xs i ≡ some v
    → P v
All-get P [] i v h e = absurd (none-ne-some v e)
All-get P (x ∷ xs) zero v h e = subst P (some-injective x v e) h.0
All-get P (x ∷ xs) (suc i) v h e = All-get P xs i v h.1 e

module _ ⦃f : Floats⦄ where
  abbrev pub open_in : Map Text HealthTracker → Text → Bool
  open_in health name = elim (HashMap.lookup text_dec name health) [
    | none ↦ false
    | some t ↦ is_open t.state
  ]

  abbrev pub Routable : Map Text HealthTracker → Text → Type 0
  Routable health name = open_in health name ≡ false

  module _ (ieee : IsIeee) (g : ToolGraph) (health : Map Text HealthTracker)
      (m : TenantCostModel) where
    edge_cost-Routable :
        (e : IndexedEdge) (name : Text) (w : Num)
        → edge_cost g health m e name ≡ some w
        → Routable health name
    unfolding edge_cost penalty
    edge_cost-Routable e name w h = ground (arith, ieee.add-infinity (weight e m))

    relax-cases :
        (node : ℕ) (cost : Num) (e : IndexedEdge) (s s' : Search)
        → relax g health m node cost e s ≡ some s'
        → (s' ≡ s)
          ⊎ ((name : Text) × (w : Num) × (old : Num) × (get_elem? g.id_to_node e.target ≡ some name)
              × (edge_cost g health m e name ≡ some w)
              × (s' ≡ improve g health m node (cost +ᶠ w) e.target old s))
    unfolding relax
    relax-cases node cost e s s' h = elim (Bool-cases e.enabled) [
      | inr off ↦ inl (ground arith)
      | inl on ↦ elim (Option-cases (get_elem? g.id_to_node e.target)) [
        | inl n ↦ absurd (ground arith)
        | inr (name, n) ↦ elim (Option-cases (edge_cost g health m e name)) [
          | inl c ↦ inl (ground arith)
          | inr (w, c) ↦ elim (Option-cases (get_elem? s.distances e.target)) [
            | inl d ↦ absurd (ground arith)
            | inr (old, d) ↦ inr (name, w, old, n, c, ground arith)
          ]
        ]
      ]
    ]

    module _ (start : ℕ) where
      -- A node that may stand on a route: the start, or one that is routable.
      abbrev Good : ℕ → Type 0
      Good v =
          (v ≡ start)
          ⊎ ((name : Text) → get_elem? g.id_to_node v ≡ some name → Routable health name)

      abbrev Before : ℕ → Type 0
      Before v = (v ≡ u32_max) ⊎ Good v

      record Inv (s : Search) : Type 0 where
        heap : All (λ x. Good x.node) s.heap
        previous : All Before s.previous

      improve-Inv :
          (node : ℕ) (next : Num) (target : ℕ) (old : Num) (s : Search)
          → Good node
          → Good target
          → Inv s
          → Inv (improve g health m node next target old s)
      improve-Inv node next target old s gn gt i = elim (Bool-cases (next <ᶠ old)) [
        | inl e ↦
            unfold improve in
            rw e (record {
              heap = (gt, i.heap);
              previous = All-set Before s.previous target node i.previous (inr gn);
            })
        | inr e ↦ unfold improve in rw e i
      ]

      relax-Inv :
          (node : ℕ) (cost : Num) (e : IndexedEdge) (s s' : Search)
          → Good node
          → Inv s
          → relax g health m node cost e s ≡ some s'
          → Inv s'
      relax-Inv node cost e s s' gn i h = elim (relax-cases node cost e s s' h) [
        | inl same ↦ subst Inv (sym same) i
        | inr (name, w, old, named, costs, moved) ↦ subst Inv (sym moved) (
            improve-Inv node (cost +ᶠ w) e.target old s gn
              (inr (λ n q.
                subst (Routable health) (some-injective name n (sym named ∙ q))
                  (edge_cost-Routable e name w costs)))
              i)
      ]

      relax_all-Inv :
          (node : ℕ) (cost : Num) (es : List IndexedEdge) (s s' : Search)
          → Good node
          → Inv s
          → relax_all g health m node cost es s ≡ some s'
          → Inv s'
      unfolding relax_all
      relax_all-Inv node cost [] s s' gn i h = subst Inv (some-injective s s' h) i
      relax_all-Inv node cost (e ∷ es) s s' gn i h =
          elim (Option-cases (relax g health m node cost e s)) [
            | inl n ↦ absurd (ground arith)
            | inr (t, n) ↦
                relax_all-Inv node cost es t s' gn (relax-Inv node cost e s t gn i n)
                  (rw (relax_all, n) at h)
          ]

      inner-Routable :
          (v : ℕ) (name : Text)
          → Before v
          → (v == u32_max) ≡ false
          → (v == start) ≡ false
          → get_elem? g.id_to_node v ≡ some name
          → Routable health name
      inner-Routable v name (inl k) e q n = absurd (ground arith)
      inner-Routable v name (inr (inl k)) e q n = absurd (ground arith)
      inner-Routable v name (inr (inr k)) e q n = k name n

      walk_back-Routable :
          (fuel curr : ℕ) (previous : List ℕ) (path nodes : List Text)
          → All Before previous
          → Before curr
          → All (Routable health) path
          → walk_back g health m fuel start curr previous path ≡ some nodes
          → All (Routable health) (rest nodes)
      unfolding walk_back
      walk_back-Routable zero curr previous path nodes b c a h = absurd (none-ne-some nodes h)
      walk_back-Routable (suc fuel) curr previous path nodes b c a h =
          elim (Bool-cases (curr == u32_max)) [
            | inl e ↦
                subst (λ p. All (Routable health) (rest p))
                  (some-injective path nodes (rw (walk_back, e) at h)) (All-rest _ path a)
            | inr e ↦ elim (Option-cases (get_elem? g.id_to_node curr)) [
              | inl n ↦ absurd (ground arith)
              | inr (name, n) ↦ elim (Bool-cases (curr == start)) [
                | inl q ↦
                    subst (λ p. All (Routable health) (rest p))
                      (some-injective _ nodes (rw (walk_back, e, n, q) at h)) a
                | inr q ↦ elim (Option-cases (get_elem? previous curr)) [
                  | inl l ↦ absurd (ground arith)
                  | inr (before, l) ↦
                      walk_back-Routable fuel before previous (name ∷ path) nodes b
                        (All-get Before previous curr before b l)
                        (inner-Routable curr name c e q n, a) (rw (walk_back, e, n, q, l) at h)
                ]
              ]
            ]
          ]

      search-Routable :
          (fuel goal : ℕ) (s : Search) (r : Route)
          → Inv s
          → search g health m fuel start goal s ≡ found r
          → All (Routable health) (rest r.nodes)
      unfolding search
      search-Routable zero goal s r i h = absurd (cc)
      search-Routable (suc fuel) goal s r i h = elim (Option-cases (pop s.heap)) [
        | inl n ↦ absurd (ground arith)
        | inr ((top, others), n) ↦
            let (top_good, others_good) = pop-All (λ x. Good x.node) s.heap top others n i.heap in
            let opened : Search = record s { heap = others } in
            let j : Inv opened = record { heap = others_good; previous = i.previous } in
            elim (Bool-cases (top.node == goal)) [
              | inl e ↦
                  elim (Option-cases
                    (walk_back g health m (length g.id_to_node + 1) start goal s.previous [])) [
                      | inl w ↦ absurd (ground arith)
                      | inr (nodes, w) ↦
                          let q : nodes ≡ r.nodes = ground arith in
                          subst (λ p. All (Routable health) (rest p)) q
                            (walk_back-Routable _ goal s.previous [] nodes i.previous
                              (inr (subst Good (ground arith) top_good)) tt w)
                    ]
              | inr e ↦ elim (Option-cases (get_elem? s.distances top.node)) [
                | inl d ↦ absurd (ground arith)
                | inr (best, d) ↦ elim (Bool-cases (best <ᶠ top.cost)) [
                  | inl b ↦ search-Routable fuel goal opened r j (rw (search, n, e, d, b) at h)
                  | inr b ↦ elim (Option-cases (get_elem? g.adjacency top.node)) [
                    | inl a ↦ absurd (ground arith)
                    | inr (es, a) ↦
                        elim (Option-cases (relax_all g health m top.node top.cost es opened)) [
                          | inl x ↦ absurd (ground arith)
                          | inr (t, x) ↦
                              search-Routable fuel goal t r
                                (relax_all-Inv top.node top.cost es opened t top_good j x)
                                (rw (search, n, e, d, b, a, x) at h)
                        ]
                  ]
                ]
              ]
            ]
      ]

      All-replicate : (n : ℕ) → All Before (replicate n u32_max)
      All-replicate zero = tt
      All-replicate (suc n) = (inl refl, All-replicate n)

      initial-Inv : Inv (initial g health m start)
      initial-Inv = record { heap = (inl refl, tt); previous = All-replicate (length g.id_to_node) }

    -- No route passes through a node whose circuit is open, but that it may start there: every node
    -- behind the first has no tracker, or one that is not open.
    pub shortest_path-Routable :
        (start goal : Text) (r : Route)
        → shortest_path g health m start goal ≡ found r
        → All (Routable health) (rest r.nodes)
    unfolding shortest_path
    shortest_path-Routable start goal r h = elim (text_dec start goal) [
      | yes q ↦
          let e : start ∷ [] ≡ r.nodes = ground arith in
          subst (λ p. All (Routable health) (rest p)) e tt
      | no n ↦ elim (Option-cases (HashMap.lookup text_dec start g.node_to_id)) [
        | inl a ↦ absurd (ground arith)
        | inr (start_id, a) ↦ elim (Option-cases (HashMap.lookup text_dec goal g.node_to_id)) [
          | inl b ↦ absurd (ground arith)
          | inr (goal_id, b) ↦
              elim (Option-cases (get_elem? (replicate (length g.id_to_node) infinity) start_id)) [
                | inl c ↦ absurd (ground arith)
                | inr (x, c) ↦
                    search-Routable start_id _ goal_id (initial g health m start_id) r
                      (initial-Inv start_id) (rw (shortest_path, if_neg _ n, a, b, c) at h)
              ]
        ]
      ]
    ]
