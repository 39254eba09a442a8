-- ===== src/Placement/Gates.antt =====
-- src/system_planning.rs: what a candidate that passes the gates of the planner meets.
use trust_system.Prelude.{
  ◌≡◌, refl, sym, ap, subst, ◌≢◌, inl, inr, true, Option, none, some, List, [], ◌∷◌, map, arith, In,
  All, All-In, All-map, ok, Option-cases,
}
use trust_system.Prelude.Text.{Text, text_dec, valid_identifier}
use trust_system.Prelude.Order.{list_cmp}
use trust_system.Prelude.BTreeMap
use trust_system.Prelude.BTreeMap.{IsKeyOrder, list_cmp-IsKeyOrder}
use trust_system.Prelude.Float.{Floats}
use trust_system.Kv.{ModelReference, model_eq}
use trust_system.Kv.Registry.{model_cmp-IsKeyOrder}
use trust_system.Capacity.{CapacityRequirement, CapacityRejection, ComputeNode, evaluate}
use trust_system.Capacity.Nodes.{Registered, Suits, evaluate-IsEvaluation}
use trust_system.Backend.{supports}
use trust_system.Placement.{
  PlacementCandidate, PlacementRejection, SystemPlanner, gate, gate_of, gate_feasible, unit_entry,
}
use trust_system.Placement.Collect.{collect, collect-In, collect-finds}

model_eq-≡ : (a b : ModelReference) → model_eq a b ≡ true → a ≡ b
model_eq-≡ a b h = ground (arith, model_cmp-IsKeyOrder.eq_iff a b)

≡-model_eq : (a b : ModelReference) → a ≡ b → model_eq a b ≡ true
≡-model_eq a b h = ground (arith, model_cmp-IsKeyOrder.eq_iff a b)

module _ ⦃f : Floats⦄ where
  -- A candidate that can be placed: its names are well formed, its model is the one asked for, its
  -- node is in the snapshot and meets the requirement, and its backend declares the capability.
  pub record CanPlace (p : SystemPlanner) (q : CapacityRequirement) (c : PlacementCandidate)
      : Type 0 where
    pub backend_name : valid_identifier c.backend_id ≡ true
    pub node_name : valid_identifier c.compute_node_id ≡ true
    pub model : c.estimate.model ≡ q.model
    pub node : ComputeNode
    pub listed : In node (evaluate p.capacity q).0
    pub named : node.id ≡ c.compute_node_id
    pub suits : Suits q node
    pub declared : supports p.backends c.backend_id c.estimate.model c.estimate.strategy ≡ ok true

  gate_steps :
      (p : SystemPlanner) (q : CapacityRequirement) (eligible : List (Text × Unit {0}))
      (unavailable : List (Text × CapacityRejection)) (c : PlacementCandidate)
      → gate p q eligible unavailable c ≡ none
      → (valid_identifier c.backend_id ≡ true)
        × (valid_identifier c.compute_node_id ≡ true)
        × (model_eq c.estimate.model q.model ≡ true)
        × (BTreeMap.get list_cmp c.compute_node_id eligible ≡ some tt)
        × (supports p.backends c.backend_id c.estimate.model c.estimate.strategy ≡ ok true)
  unfolding gate
  gate_steps p q eligible unavailable c h =
      (ground arith, ground arith, ground arith, ground arith, ground arith)

  unit_entry-In :
      (id : Text) (ns : List ComputeNode)
      → In (id, tt) (map unit_entry ns)
      → (n : ComputeNode) × In n ns × (n.id ≡ id)
  unit_entry-In id [] i = absurd i
  unit_entry-In id (n ∷ ns) (inl e) = (n, inl refl, sym (ap (λ x. x.0) e))
  unit_entry-In id (n ∷ ns) (inr i) = let (m, j, e) = unit_entry-In id ns i in (m, inr j, e)

  pub gate_of-CanPlace :
      (p : SystemPlanner) (q : CapacityRequirement) (c : PlacementCandidate)
      → Registered p.capacity
      → gate_of p q c ≡ none
      → CanPlace p q c
  gate_of-CanPlace p q c r h =
      let ns = (evaluate p.capacity q).0 in
      let (vb, vn, m, g, s) = gate_steps p q _ _ c h in
      let (n, i, e) = unit_entry-In c.compute_node_id ns (
        collect-In list_cmp text_dec list_cmp-IsKeyOrder c.compute_node_id tt (map unit_entry ns)
          g) in
      record {
        backend_name = vb;
        node_name = vn;
        model = model_eq-≡ _ _ m;
        node = n;
        listed = i;
        named = e;
        suits = All-In (Suits q) n ns (evaluate-IsEvaluation p.capacity q r).0 i;
        declared = s;
      }

  unit_entry-listed :
      (n : ComputeNode) (ns : List ComputeNode) → In n ns → In (n.id, tt) (map unit_entry ns)
  unit_entry-listed n [] i = absurd i
  unit_entry-listed n (m ∷ ns) (inl e) = inl (ap unit_entry e)
  unit_entry-listed n (m ∷ ns) (inr i) = inr (unit_entry-listed n ns i)

  gate_opens :
      (p : SystemPlanner) (q : CapacityRequirement) (eligible : List (Text × Unit {0}))
      (unavailable : List (Text × CapacityRejection)) (c : PlacementCandidate)
      → valid_identifier c.backend_id ≡ true
      → valid_identifier c.compute_node_id ≡ true
      → model_eq c.estimate.model q.model ≡ true
      → BTreeMap.get list_cmp c.compute_node_id eligible ≢ none
      → supports p.backends c.backend_id c.estimate.model c.estimate.strategy ≡ ok true
      → gate p q eligible unavailable c ≡ none
  unfolding gate
  gate_opens p q eligible unavailable c vb vn m g s = ground arith

  pub CanPlace-gate_of :
      (p : SystemPlanner) (q : CapacityRequirement) (c : PlacementCandidate)
      → CanPlace p q c
      → gate_of p q c ≡ none
  CanPlace-gate_of p q c h =
      let ns = (evaluate p.capacity q).0 in
      gate_opens p q _ _ c h.backend_name h.node_name (≡-model_eq _ _ h.model)
        (subst (λ id. BTreeMap.get list_cmp id (collect list_cmp (map unit_entry ns)) ≢ none)
          h.named
          (collect-finds list_cmp text_dec list_cmp-IsKeyOrder h.node.id tt (map unit_entry ns)
            (unit_entry-listed h.node ns h.listed)))
        h.declared

  -- The vectors of the loop.
  module _ (g : PlacementCandidate → Option PlacementRejection) where
    pub gate_feasible-All :
        (cs : List PlacementCandidate) → All (λ c. In c cs × (g c ≡ none)) (gate_feasible g cs)
    unfolding gate_feasible
    gate_feasible-All [] = tt
    gate_feasible-All (c ∷ cs) =
        let later = All-map (λ x h. (inr h.0, h.1)) (gate_feasible g cs) (gate_feasible-All cs) in
        elim (Option-cases (g c)) [
          | inl e ↦ rw (All, e) ((inl refl, e), later)
          | inr (_, e) ↦ rw (All, e) later
        ]

    pub In-gate_feasible :
        (c : PlacementCandidate) (cs : List PlacementCandidate)
        → g c ≡ none
        → In c cs
        → In c (gate_feasible g cs)
    unfolding gate_feasible
    In-gate_feasible c [] n i = absurd i
    In-gate_feasible c (x ∷ cs) n (inl e) =
        let nx : g x ≡ none = rw (sym e) n in rw (In, nx, e) (inl refl)
    In-gate_feasible c (x ∷ cs) n (inr i) = elim (Option-cases (g x)) [
      | inl e ↦ rw (In, e) (inr (In-gate_feasible c cs n i))
      | inr (_, e) ↦ rw (In, e) (In-gate_feasible c cs n i)
    ]
