-- ===== src/Router/Reach.antt =====
-- src/lib.rs, `Router`: whatever methods run in whatever order, no route that is answered passes
-- through a node whose circuit is open, from the cache or from a search.
use trust_system.Prelude.{
  ℕ, ◌≡◌, refl, sym, subst, inl, inr, Bool, some, rest, All, Option-cases, ok, ◌∙◌,
}
use trust_system.Prelude.Text.{Text, text_dec}
use trust_system.Prelude.HashMap
use trust_system.Prelude.HashMap.{All-lookup}
use trust_system.Prelude.Float.{Floats, IsIeee}
use trust_system.Health.{HealthPolicy}
use trust_system.Cost.{TenantCostModel, Edge}
use trust_system.Graph.{Route}
use trust_system.Graph.Routable.{Routable}
use trust_system.Audit.{RouteDecision, routed}
use trust_system.Tenant.{RouteKey, TenantState}
use trust_system.Router.{
  Router, empty_router, add_tenant, try_set_cost_model, try_set_health_policy, add_edge,
  record_result, force_half_open_node, run_recovery_probe_once, route_fast, route_locked, route,
}
use trust_system.Router.Routes.{fast-Sound, locked-Sound}
use trust_system.Router.Safety.{
  AllSound, tenant_of-Sound, put-Sound, record_result-Sound, force-Sound, probe-Sound,
  add_edge-Sound, try_set_cost_model-Sound, try_set_health_policy-Sound,
}

module _ ⦃f : Floats⦄ where
  -- One method call that returns; a rejected configuration changes nothing and is no step. The fast
  -- and the slow path of `route` are steps of their own, since other calls may run between them.
  pub data Step (r : Router) : Router → Type 0 where
    adding_tenant : {r' : Router} → (id : Text) → r' ≡ add_tenant r id → Step r r'
    setting_cost_model :
        {r' : Router}
        → (id : Text) → (m : TenantCostModel) → try_set_cost_model r id m ≡ ok r'
        → Step r r'
    setting_health_policy :
        {r' : Router}
        → (id : Text) → (p : HealthPolicy) → try_set_health_policy r id p ≡ ok r'
        → Step r r'
    adding_edge : {r' : Router} → (id : Text) → (e : Edge) → add_edge r id e ≡ some r' → Step r r'
    recording :
        {r' : Router}
        → (id node : Text) → (success : Bool) → (latency_ms now : ℕ)
        → r' ≡ record_result r id node success latency_ms now
        → Step r r'
    forcing : {r' : Router} → (id node : Text) → r' ≡ (force_half_open_node r id node).0 → Step r r'
    probing :
        {r' : Router}
        → (cooldown now : ℕ) → r' ≡ (run_recovery_probe_once r cooldown now).0
        → Step r r'
    routing_fast :
        {r' : Router} {d : RouteDecision}
        → (id : Text) → (key : RouteKey) → route_fast r id key ≡ some (r', d)
        → Step r r'
    routing_locked :
        {r' : Router} {d : RouteDecision}
        → (id : Text) → (key : RouteKey) → route_locked r id key ≡ some (r', d)
        → Step r r'

  pub data Reach : Router → Type 0 where
    start : Reach empty_router
    next : {r r' : Router} → Reach r → Step r r' → Reach r'

  Step-Sound : IsIeee → (r r' : Router) → Step r r' → AllSound r.tenants → AllSound r'.tenants
  Step-Sound ieee r r' (adding_tenant id e) s =
      subst (λ x. AllSound x.tenants) (sym e)
        (unfold add_tenant in put-Sound r id _ s (tenant_of-Sound r id s))
  Step-Sound ieee r r' (setting_cost_model id m e) s = try_set_cost_model-Sound r r' id m s e
  Step-Sound ieee r r' (setting_health_policy id p e) s = try_set_health_policy-Sound r r' id p s e
  Step-Sound ieee r r' (adding_edge id x e) s = add_edge-Sound r r' id x s e
  Step-Sound ieee r r' (recording id node success latency_ms now e) s =
      subst (λ x. AllSound x.tenants) (sym e)
        (record_result-Sound r id node success latency_ms now s)
  Step-Sound ieee r r' (forcing id node e) s =
      subst (λ x. AllSound x.tenants) (sym e) (force-Sound r id node s)
  Step-Sound ieee r r' (probing cooldown now e) s =
      subst (λ x. AllSound x.tenants) (sym e) (probe-Sound r cooldown now s)
  Step-Sound ieee r r' (routing_fast {d} id key e) s =
      subst AllSound (sym (fast-Sound r r' d id key s e).0) s
  Step-Sound ieee r r' (routing_locked {d} id key e) s = (locked-Sound ieee r r' d id key s e).0

  -- On IEEE floats, every router that method calls make has caches that are in order, within their
  -- limit, and without a route that passes behind its start through an open node.
  pub Reach-Sound : IsIeee → (r : Router) → Reach r → AllSound r.tenants
  Reach-Sound ieee r start = tt
  Reach-Sound ieee r (next {r = r0} h e) = Step-Sound ieee r0 r e (Reach-Sound ieee r0 h)

  -- On IEEE floats, in every router that method calls make, a route that `route` answers, from the
  -- cache or from a search, passes behind its start through no node whose circuit is open.
  pub route_avoids_open :
      IsIeee
      → (r r' : Router) (id : Text) (key : RouteKey) (rt : Route) → Reach r
      → route r id key ≡ some (r', routed rt)
      → (t : TenantState) → HashMap.lookup text_dec id r.tenants ≡ some t
      → All (Routable t.health) (rest rt.nodes)
  unfolding route
  route_avoids_open ieee r r' id key rt h e =
      let s = Reach-Sound ieee r h in
      elim (Option-cases (route_fast r id key)) [
        | inl n ↦ (locked-Sound ieee r r' (routed rt) id key s (rw (route, n) at e)).1 rt refl
        | inr (out, n) ↦ (fast-Sound r r' (routed rt) id key s (n ∙ rw (route, n) at e)).1 rt refl
      ]
