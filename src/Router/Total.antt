-- ===== src/Router/Total.antt =====
-- src/lib.rs, `Router`: `route` and `add_edge` return, and do not panic.
use trust_system.Prelude.{
  ◌+◌, ◌≤◌, ◌≡◌, refl, sym, subst, ◌⊎◌, inl, inr, some, arith, length, All, Option-cases,
}
use trust_system.Prelude.Text.{Text, text_dec}
use trust_system.Prelude.Words.{u32_max, u64_max}
use trust_system.Prelude.HashMap
use trust_system.Prelude.HashMap.{Map, All-lookup, All-insert, get_or_default}
use trust_system.Prelude.Float.{Floats, IsIeee}
use trust_system.Cost.{Edge}
use trust_system.Graph.{Route, found, no_path, shortest_path}
use trust_system.Graph.Answer.{IsInterned}
use trust_system.Graph.Intern.{empty-IsInterned, add_edge-IsInterned}
use trust_system.Graph.Weigh.{shortest_path-answers}
use trust_system.Audit.{RouteDecision}
use trust_system.Tenant.{RouteKey, TenantState, default_tenant, invalidate_all_cache, get_cached}
use trust_system.Router.{
  Router, tenant_of, put_tenant, add_edge, route_fast, route_miss, route_locked, route,
}

module _ ⦃f : Floats⦄ where
  -- A graph whose names are interned, and a latency ceiling that is a u64.
  abbrev pub IsReady : TenantState → Type 0
  IsReady t = IsInterned t.graph × (t.cost_model.ceilings.max_latency_ms ≤ u64_max)

  abbrev pub AllReady : Map Text TenantState → Type 0
  AllReady m = All (λ e. IsReady e.1) m

  default-IsReady : IsReady default_tenant
  default-IsReady = (empty-IsInterned, omega arith)

  tenant_of-IsReady : (r : Router) (id : Text) → AllReady r.tenants → IsReady (tenant_of r id)
  tenant_of-IsReady r id s = elim (Option-cases (HashMap.lookup text_dec id r.tenants)) [
    | inl n ↦
        let e : tenant_of r id ≡ default_tenant = rw (get_or_default, n) refl in
        subst IsReady (sym e) default-IsReady
    | inr (t, n) ↦
        let e : tenant_of r id ≡ t = rw (get_or_default, n) refl in
        subst IsReady (sym e) (All-lookup text_dec IsReady id r.tenants t s n)
  ]

  -- With room for two node names in the tenant's graph, adding an edge does not panic, and leaves
  -- every tenant with interned names.
  pub add_edge-AllReady :
      (r : Router) (id : Text) (e : Edge)
      → AllReady r.tenants
      → length (tenant_of r id).graph.id_to_node + 2 ≤ u32_max
      → (r' : Router) × (add_edge r id e ≡ some r') × AllReady r'.tenants
  unfolding add_edge invalidate_all_cache
  add_edge-AllReady r id e s b =
      let (i, c) = tenant_of-IsReady r id s in
      let (graph, h, i', _) = add_edge-IsInterned (tenant_of r id).graph e i b in
      let t : TenantState = invalidate_all_cache (record (tenant_of r id) { graph = graph }) in
      (
        put_tenant r id t,
        rw (add_edge, h) refl,
        All-insert text_dec IsReady id r.tenants t s (i', c),
      )

  -- A search that neither panics nor runs out of fuel.
  search_returns :
      IsIeee
      → (t : TenantState) (begin goal : Text) → IsReady t
      → ((rt : Route) × (shortest_path t.graph t.health t.cost_model begin goal ≡ found rt))
        ⊎ (shortest_path t.graph t.health t.cost_model begin goal ≡ no_path)
  search_returns ieee t begin goal (i, b) =
      elim (shortest_path-answers ieee t.graph t.health t.cost_model i b begin goal) [
        | inl (_, o) ↦ inl (_, o)
        | inr (inl (o, _)) ↦ inr o
        | inr (inr (_, _, _, _, inl (rt, o, _))) ↦ inl (rt, o)
        | inr (inr (_, _, _, _, inr (o, _))) ↦ inr o
      ]

  miss_returns :
      IsIeee
      → (r : Router) (id : Text) (t : TenantState) (key : RouteKey) → IsReady t
      → (r' : Router) × (d : RouteDecision) × (route_miss r id t key ≡ some (r', d))
  unfolding route_miss
  miss_returns ieee r id t key s = elim (search_returns ieee t key.start key.goal s) [
    | inl (_, o) ↦ rw (route_miss, o) (_, _, refl)
    | inr o ↦ rw (route_miss, o) (_, _, refl)
  ]

  locked_returns :
      IsIeee
      → (r : Router) (id : Text) (key : RouteKey) → AllReady r.tenants
      → (r' : Router) × (d : RouteDecision) × (route_locked r id key ≡ some (r', d))
  unfolding route_locked
  locked_returns ieee r id key s = elim (Option-cases (HashMap.lookup text_dec id r.tenants)) [
    | inl n ↦ rw (route_locked, n) (_, _, refl)
    | inr (t, n) ↦ elim (Option-cases (get_cached t key)) [
      | inr (_, c) ↦ rw (route_locked, n, c) (_, _, refl)
      | inl c ↦
          rw (route_locked, n, c)
            (miss_returns ieee r id t key (All-lookup text_dec IsReady id r.tenants t s n))
    ]
  ]

  -- On IEEE floats, when every tenant's graph has interned names and its latency ceiling is a u64,
  -- a request is answered, by a route or an escalation: nothing panics, and no search runs out of
  -- fuel.
  pub route_returns :
      IsIeee
      → (r : Router) (id : Text) (key : RouteKey) → AllReady r.tenants
      → (r' : Router) × (d : RouteDecision) × (route r id key ≡ some (r', d))
  unfolding route
  route_returns ieee r id key s = elim (Option-cases (route_fast r id key)) [
    | inr (_, h) ↦ rw (route, h) (_, _, refl)
    | inl h ↦ rw (route, h) (locked_returns ieee r id key s)
  ]
