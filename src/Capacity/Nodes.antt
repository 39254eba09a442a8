-- ===== src/Capacity/Nodes.antt =====
-- src/capacity.rs: the nodes that `evaluate` finds eligible, over the snapshots that `register`
-- makes.
use trust_system.Prelude.{
  ◌+◌, ◌≤◌, ◌<◌, ◌≡◌, ◌≢◌, refl, sym, subst, ◌⊎◌, inl, inr, true, false, none, some, List, [], ◌∷◌,
  arith, length, All, All-map, In, ok, Result-cases, Option-cases,
}
use trust_system.Prelude.Text.{Text, text_dec}
use trust_system.Prelude.Order.{list_cmp}
use trust_system.Prelude.BTreeMap
use trust_system.Prelude.BTreeMap.{list_cmp-IsKeyOrder, Sorted, insert-Sorted}
use trust_system.Prelude.Keys.{All-insert}
use trust_system.Prelude.Float.{Floats}
use trust_system.Kv.{model_cmp}
use trust_system.Capacity.{
  CapacityRequirement, CapacityRejection, unhealthy, region_mismatch, model_not_resident,
  insufficient_memory, queue_limit, ComputeNode, validate, CapacitySnapshot, empty, register,
  rejection, evaluate_nodes, evaluate,
}

module _ ⦃f : Floats⦄ where
  abbrev pub Entry : Text → ComputeNode → Type 0
  Entry id n = (n.id ≡ id) × (validate n ≡ ok tt)

  -- Every node of a snapshot is valid and stands under its own name, in order.
  abbrev pub Inv : CapacitySnapshot → Type 0
  Inv s = All (λ e. Entry e.0 e.1) s.nodes × Sorted list_cmp s.nodes

  -- The snapshots that registrations make of the empty one, those that fail included.
  pub data Registered : CapacitySnapshot → Type 0 where
    start : Registered empty
    more :
        {s s' : CapacitySnapshot}
        → Registered s
        → (n : ComputeNode) → register s n ≡ ok s'
        → Registered s'

  register_steps :
      (s s' : CapacitySnapshot) (n : ComputeNode)
      → register s n ≡ ok s'
      → (validate n ≡ ok tt) × (s'.nodes ≡ BTreeMap.insert list_cmp n.id n s.nodes)
  unfolding register
  register_steps s s' n e = elim (Result-cases (validate n)) [
    | inl (_, v) ↦ absurd (ground arith)
    | inr (tt, v) ↦ (v, ground arith)
  ]

  pub Registered-Inv : (s : CapacitySnapshot) → Registered s → Inv s
  Registered-Inv s start = (tt, tt)
  Registered-Inv s' (more {s} r n e) =
      let (v, q) = register_steps s s' n e in
      let i = Registered-Inv s r in
      rw q (
        All-insert list_cmp-IsKeyOrder Entry n.id n s.nodes (refl, v) i.0,
        insert-Sorted list_cmp-IsKeyOrder n.id n s.nodes i.1,
      )

  abbrev pub InRegion : CapacityRequirement → ComputeNode → Type 0
  InRegion q n = (r : Text) → q.region ≡ some r → r ≡ n.region

  -- What makes a node eligible.
  pub record Suits (q : CapacityRequirement) (n : ComputeNode) : Type 0 where
    pub valid : validate n ≡ ok tt
    pub healthy : n.healthy ≡ true
    pub in_region : (r : Text) → q.region ≡ some r → r ≡ n.region
    pub resident : BTreeMap.contains_key model_cmp q.model n.resident_models ≡ true
    pub memory : q.min_available_memory_mb ≤ n.available_memory_mb
    pub queue : n.queue_depth ≤ q.max_queue_depth

  -- What is wrong with a node that is rejected, by the reason, and that nothing was wrong before it.
  pub data Lacks (q : CapacityRequirement) (n : ComputeNode) : CapacityRejection → Type 0 where
    not_healthy : n.healthy ≡ false → Lacks q n unhealthy
    elsewhere :
        (r : Text) → n.healthy ≡ true → q.region ≡ some r → r ≢ n.region → Lacks q n region_mismatch
    not_resident :
        n.healthy ≡ true
        → InRegion q n
        → BTreeMap.get model_cmp q.model n.resident_models ≡ none
        → Lacks q n model_not_resident
    short_of_memory :
        n.healthy ≡ true
        → InRegion q n
        → BTreeMap.get model_cmp q.model n.resident_models ≡ some tt
        → n.available_memory_mb < q.min_available_memory_mb
        → Lacks q n insufficient_memory
    queued_up :
        n.healthy ≡ true
        → InRegion q n
        → BTreeMap.get model_cmp q.model n.resident_models ≡ some tt
        → q.min_available_memory_mb ≤ n.available_memory_mb
        → q.max_queue_depth < n.queue_depth
        → Lacks q n queue_limit

  rejection-Lacks :
      (q : CapacityRequirement) (n : ComputeNode) (r : CapacityRejection)
      → rejection q n ≡ some r
      → Lacks q n r
  unfolding rejection
  rejection-Lacks q n unhealthy e = not_healthy (ground arith)
  rejection-Lacks q n region_mismatch e = elim (Option-cases q.region) [
    | inl p ↦ absurd (ground arith)
    | inr (r, p) ↦ elim (text_dec r n.region) [
      | yes same ↦ absurd (ground arith)
      | no other ↦ elsewhere r (ground arith) p other
    ]
  ]
  rejection-Lacks q n model_not_resident e =
      not_resident (ground arith) (λ r h. ground arith) (ground arith)
  rejection-Lacks q n insufficient_memory e =
      short_of_memory (ground arith) (λ r h. ground arith) (ground arith) (ground arith)
  rejection-Lacks q n queue_limit e =
      queued_up (ground arith) (λ r h. ground arith) (ground arith) (ground arith) (ground arith)

  rejection-Suits :
      (q : CapacityRequirement) (n : ComputeNode)
      → validate n ≡ ok tt
      → rejection q n ≡ none
      → Suits q n
  unfolding rejection
  rejection-Suits q n v e = record {
    valid = v;
    healthy = ground arith;
    in_region = λ r h. ground arith;
    resident = ground arith;
    memory = ground arith;
    queue = ground arith;
  }

  -- What becomes of an entry.
  abbrev pub Judged :
      CapacityRequirement
      → List ComputeNode × List (Text × CapacityRejection)
      → Text × ComputeNode
      → Type 0
  Judged q out e =
      (Suits q e.1 × In e.1 out.0) ⊎ ((r : CapacityRejection) × Lacks q e.1 r × In (e.0, r) out.1)

  Judged-eligible :
      (q : CapacityRequirement) (n : ComputeNode)
      (out : List ComputeNode × List (Text × CapacityRejection)) (e : Text × ComputeNode)
      → Judged q out e
      → Judged q (n ∷ out.0, out.1) e
  Judged-eligible q n out e (inl (p, i)) = inl (p, inr i)
  Judged-eligible q n out e (inr (r, p, i)) = inr (r, p, i)

  Judged-rejected :
      (q : CapacityRequirement) (x : Text × CapacityRejection)
      (out : List ComputeNode × List (Text × CapacityRejection)) (e : Text × ComputeNode)
      → Judged q out e
      → Judged q (out.0, x ∷ out.1) e
  Judged-rejected q x out e (inl (p, i)) = inl (p, i)
  Judged-rejected q x out e (inr (r, p, i)) = inr (r, p, inr i)

  eligible_step :
      (q : CapacityRequirement) (id : Text) (n : ComputeNode) (ns : List (Text × ComputeNode))
      → rejection q n ≡ none
      → evaluate_nodes q ((id, n) ∷ ns) ≡ (n ∷ (evaluate_nodes q ns).0, (evaluate_nodes q ns).1)
  unfolding evaluate_nodes
  eligible_step q id n ns e = rw (evaluate_nodes, e) refl

  rejected_step :
      (q : CapacityRequirement) (id : Text) (n : ComputeNode) (ns : List (Text × ComputeNode))
      (r : CapacityRejection)
      → rejection q n ≡ some r
      → evaluate_nodes q ((id, n) ∷ ns)
        ≡ ((evaluate_nodes q ns).0, (id, r) ∷ (evaluate_nodes q ns).1)
  unfolding evaluate_nodes
  rejected_step q id n ns r e = rw (evaluate_nodes, e) refl

  -- What the two vectors say of the entries that were looked at.
  abbrev pub IsEvaluation :
      CapacityRequirement
      → List (Text × ComputeNode)
      → List ComputeNode × List (Text × CapacityRejection)
      → Type 0
  IsEvaluation q ns out =
      All (Suits q) out.0 × All (Judged q out) ns × (length out.0 + length out.1 ≡ length ns)

  evaluate_nodes-IsEvaluation :
      (q : CapacityRequirement) (ns : List (Text × ComputeNode))
      → All (λ e. Entry e.0 e.1) ns
      → IsEvaluation q ns (evaluate_nodes q ns)
  evaluate_nodes-IsEvaluation q [] h = unfold evaluate_nodes in (tt, tt, refl)
  evaluate_nodes-IsEvaluation q ((id, n) ∷ ns) h =
      let (suits, judged, count) = evaluate_nodes-IsEvaluation q ns h.1 in
      elim (Option-cases (rejection q n)) [
        | inl e ↦ subst (IsEvaluation q ((id, n) ∷ ns)) (sym (eligible_step q id n ns e)) (
          (rejection-Suits q n h.0.1 e, suits),
          (inl (rejection-Suits q n h.0.1 e, inl refl), All-map (Judged-eligible q n _) ns judged),
          omega (arith, count),
        )
        | inr (r, e) ↦ subst (IsEvaluation q ((id, n) ∷ ns)) (sym (rejected_step q id n ns r e)) (
          suits,
          (
            inr (r, rejection-Lacks q n r e, inl refl),
            All-map (Judged-rejected q (id, r) _) ns judged,
          ),
          omega (arith, count),
        )
      ]

  -- On a snapshot made by registrations, every node that `evaluate` finds eligible is valid and meets
  -- each part of the requirement; every node either meets it and is among the eligible ones, or is
  -- rejected under its name for the first of the reasons that holds of it: unhealthy, another region
  -- than the one asked for, the model not resident, less memory than asked for, a longer queue than
  -- allowed; and no node is counted twice.
  pub evaluate-IsEvaluation :
      (s : CapacitySnapshot) (q : CapacityRequirement)
      → Registered s
      → IsEvaluation q s.nodes (evaluate s q)
  unfolding evaluate
  evaluate-IsEvaluation s q r = evaluate_nodes-IsEvaluation q s.nodes (Registered-Inv s r).0
