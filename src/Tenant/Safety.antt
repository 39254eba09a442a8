-- ===== src/Tenant/Safety.antt =====
-- src/lib.rs, `TenantState`: no cached route passes through a node whose circuit is open, whatever
-- happens to the health of the nodes.
use trust_system.Prelude.{
  ℕ, ◌≡◌, refl, subst, inl, inr, Bool, true, false, not, List, [], ◌∷◌, arith, rest, holds, any,
  All, All-map, All-In, In, Bool-cases, ite,
}
use trust_system.Prelude.Text.{Text, text_dec}
use trust_system.Prelude.HashMap
use trust_system.Prelude.HashMap.{Map, get_or_default, lookup-insert, All-insert, All-remove}
use trust_system.Prelude.Entries.{All-retain}
use trust_system.Prelude.Distinct.{In-All}
use trust_system.Prelude.Float.{Floats}
use trust_system.Health.{
  HealthTracker, HealthPolicy, NodeState, is_open, state_ne, default_tracker,
  record_result_with_policy,
}
use trust_system.Graph.Routable.{open_in, Routable}
use trust_system.Tenant.Cache.{Inv, evict-cases, invalidate_for_node-Inv}
use trust_system.Tenant.{
  RouteKey, key_dec, CachedPath, TenantState, touches, invalidate_for_node, evict, insert_cache,
  record_in_tenant,
}

module _ ⦃f : Floats⦄ where
  -- A cached route touches the nodes of its path, and passes through no open one.
  abbrev pub IsOpenFree : Map Text HealthTracker → CachedPath → Type 0
  IsOpenFree health c = (c.touched_nodes ≡ c.path) × All (Routable health) (rest c.path)

  abbrev pub Safe : TenantState → Type 0
  Safe t = All (λ e. IsOpenFree t.health e.1) t.cache

  In-rest : (x : Text) (xs : List Text) → In x (rest xs) → In x xs
  In-rest x [] i = i
  In-rest x (y ∷ xs) i = inr i

  touched : (x : Text) (xs : List Text) → In x xs → any (λ y. holds (text_dec y x)) xs ≡ true
  touched x [] i = absurd i
  touched x (y ∷ xs) (inl e) = ground arith
  touched x (y ∷ xs) (inr i) = ground (arith, touched x xs i)

  open_in-insert :
      (node n : Text) (tr : HealthTracker) (h : Map Text HealthTracker)
      → open_in (HashMap.insert text_dec node tr h) n
        ≡ ite (text_dec node n) (is_open tr.state) (open_in h n)
  open_in-insert node n tr h = ground (arith, lookup-insert text_dec node n tr h)

  -- A node's tracker replaced: what is routable stays so, unless it is that node and now open.
  insert-Routable :
      (node n : Text) (tr : HealthTracker) (h : Map Text HealthTracker)
      → Routable h n
      → (n ≡ node → is_open tr.state ≡ false)
      → Routable (HashMap.insert text_dec node tr h) n
  insert-Routable node n tr h r k = ground (arith, open_in-insert node n tr h)

  pub invalidate_for_node-Safe :
      (t : TenantState) (node : Text) (tr : HealthTracker)
      → Safe t
      → Safe (
          invalidate_for_node (record t { health = HashMap.insert text_dec node tr t.health }) node)
  unfolding invalidate_for_node
  invalidate_for_node-Safe t node tr s =
      All-map
        (λ e h. (
          h.0.0,
          In-All (rest e.1.path) (λ n i.
              insert-Routable node n tr t.health
                (All-In (Routable t.health) n (rest e.1.path) h.0.1 i)
                (λ q. absurd (
                  ground (
                    arith,
                    touched node e.1.path
                        (In-rest node e.1.path (subst (λ x. In x (rest e.1.path)) q i)),
                  )))),
        ))
        _ (All-retain (λ _ c. not (touches node c)) _ t.cache s)

  -- The same without the invalidation, where the node is as open as before.
  pub insert-Safe :
      (t : TenantState) (node : Text) (tr : HealthTracker)
      → (open_in t.health node ≡ false → is_open tr.state ≡ false)
      → Safe t
      → Safe (record t { health = HashMap.insert text_dec node tr t.health })
  insert-Safe t node tr k s =
      All-map
        (λ e h. (
          h.0,
          In-All (rest e.1.path) (λ n i.
              let r = All-In (Routable t.health) n (rest e.1.path) h.1 i in
              insert-Routable node n tr t.health r (λ q. k (subst (Routable t.health) q r))),
        ))
        t.cache s

  evict-Safe :
      (t : TenantState) (k : RouteKey) → Safe t → Safe (evict t k) × ((evict t k).health ≡ t.health)
  evict-Safe t k s = elim (evict-cases t k) [
    | inl (e, _) ↦ rw e (s, refl)
    | inr (x, order, _, e) ↦ rw e (All-remove key_dec (IsOpenFree t.health) x t.cache s, refl)
  ]

  pub insert_cache-Safe :
      (t : TenantState) (k : RouteKey) (c : CachedPath)
      → IsOpenFree t.health c
      → Safe t
      → Safe (insert_cache t k c) × ((insert_cache t k c).health ≡ t.health)
  unfolding insert_cache
  insert_cache-Safe t k c h s =
      let t' = evict t k in
      let (s', same) = evict-Safe t k s in
      (All-insert key_dec (IsOpenFree t'.health) k t'.cache c s' (rw same h), same)

  state_ne→≡ : (a b : NodeState) → state_ne a b ≡ false → a ≡ b
  state_ne→≡ a b e = ground arith

  unchanged :
      (tr : HealthTracker) (state : NodeState) (success : Bool) (latency_ms : ℕ) (p : HealthPolicy)
      (now : ℕ)
      → (record_result_with_policy tr success latency_ms p now).0.state ≡ state
      → (record_result_with_policy tr success latency_ms p now).1 ≡ false
      → is_open tr.state ≡ false
      → is_open state ≡ false
  unfolding record_result_with_policy
  unchanged tr state success latency_ms p now e c o =
      let same = state_ne→≡ tr.state _ c in rw (← e, ← same) o

  -- Recording a result keeps a cache in order, and free of routes through open nodes if it was: a
  -- node that opens here takes every route through it out of the cache.
  pub record_in_tenant-Sound :
      (t : TenantState) (node : Text) (success : Bool) (latency_ms now : ℕ)
      → Inv t
      → Safe t
      → Inv (record_in_tenant t node success latency_ms now).0
        × Safe (record_in_tenant t node success latency_ms now).0
  unfolding record_in_tenant
  record_in_tenant-Sound t node success latency_ms now i s =
      let tracker = get_or_default text_dec node default_tracker t.health in
      let after = record_result_with_policy tracker success latency_ms t.health_policy now in
      let t' : TenantState = record t { health = HashMap.insert text_dec node after.0 t.health } in
      let j : Inv t' = record {
        ordered = i.ordered;
        known = i.known;
        distinct = i.distinct;
        bounded = i.bounded;
      } in
      elim (Bool-cases after.1) [
        | inl e ↦
            rw e (invalidate_for_node-Inv t' node j, invalidate_for_node-Safe t node after.0 s)
        | inr e ↦ rw e (
          j,
          insert-Safe t node after.0
              (λ q.
                unchanged tracker after.0.state success latency_ms t.health_policy now refl e
                  (ground arith))
              s,
        )
      ]

  pub shrink-Safe : (t : TenantState) (node : Text) → Safe t → Safe (invalidate_for_node t node)
  unfolding invalidate_for_node
  shrink-Safe t node s =
      All-map (λ e h. h.0) _ (All-retain (λ _ c. not (touches node c)) _ t.cache s)

  -- Any change of the health under which what is routable stays so.
  pub health-Safe :
      (t : TenantState) (h : Map Text HealthTracker)
      → ((n : Text) → Routable t.health n → Routable h n)
      → Safe t
      → Safe (record t { health = h })
  health-Safe t h k s = All-map (λ e p. (p.0, All-map k (rest e.1.path) p.1)) t.cache s
