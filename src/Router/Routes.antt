-- ===== src/Router/Routes.antt =====
-- src/lib.rs, `Router::route`: the answer of the fast path, of the slow path and of a search, on a
-- router whose caches are in order.
use trust_system.Prelude.{
  ◌≡◌, refl, sym, subst, ◌⊎◌, inl, inr, some, List, arith, rest, All, Option-cases, ◌∙◌,
}
use mathlib.Core.Option.{some-injective}
use trust_system.Prelude.Text.{Text, text_dec}
use trust_system.Prelude.HashMap
use trust_system.Prelude.HashMap.{All-lookup}
use trust_system.Prelude.Float.{Floats, IsIeee}
use trust_system.Graph.{Route, Outcome, found, no_path, panicked, out_of_fuel, shortest_path}
use trust_system.Graph.Routable.{Routable, shortest_path-Routable}
use trust_system.Audit.{RouteDecision, routed}
use trust_system.Tenant.{RouteKey, key_dec, CachedPath, TenantState, get_cached, insert_cache}
use trust_system.Tenant.Cache.{get_cached-Inv, insert_cache-Inv, hit}
use trust_system.Tenant.Safety.{insert_cache-Safe, IsOpenFree, Safe}
use trust_system.Router.{Router, put_tenant, route_fast, route_miss, route_locked}
use trust_system.Router.Safety.{Sound, AllSound, put-Sound}

module _ ⦃f : Floats⦄ where
  -- The trackers of a tenant, none if there is no such tenant.
  abbrev pub OpenFree : Router → Text → Route → Type 0
  OpenFree r id rt =
      (t : TenantState)
      → HashMap.lookup text_dec id r.tenants ≡ some t
      → All (Routable t.health) (rest rt.nodes)

  freed :
      (t u : TenantState) (p : List Text) (rt : Route)
      → t ≡ u
      → p ≡ rt.nodes
      → All (Routable t.health) (rest p)
      → All (Routable u.health) (rest rt.nodes)
  freed t u p rt e q h =
      subst (λ x. All (Routable u.health) (rest x)) q
        (subst (λ x. All (Routable x.health) (rest p)) e h)

  pub fast-Sound :
      (r r' : Router) (d : RouteDecision) (id : Text) (key : RouteKey)
      → AllSound r.tenants
      → route_fast r id key ≡ some (r', d)
      → (r'.tenants ≡ r.tenants) × ((rt : Route) → d ≡ routed rt → OpenFree r id rt)
  unfolding route_fast
  fast-Sound r r' d id key s h = elim (Option-cases (HashMap.lookup text_dec id r.tenants)) [
    | inl n ↦ absurd (ground arith)
    | inr (t, n) ↦ elim (Option-cases (HashMap.lookup key_dec key t.cache)) [
      | inl k ↦ absurd (ground arith)
      | inr (c, k) ↦
          let free =
            All-lookup key_dec (IsOpenFree t.health) key t.cache c
              (All-lookup text_dec Sound id r.tenants t s n).1 k in
          (
            ground arith,
            λ rt e u q. freed t u c.path rt (some-injective t u (sym n ∙ q)) (ground arith) free.1,
          )
    ]
  ]

  Outcome-cases :
      (o : Outcome)
      → ((r : Route) × (o ≡ found r)) ⊎ ((o ≡ no_path) ⊎ ((o ≡ panicked) ⊎ (o ≡ out_of_fuel)))
  Outcome-cases (found r) = inl (r, refl)
  Outcome-cases no_path = inr (inl refl)
  Outcome-cases panicked = inr (inr (inl refl))
  Outcome-cases out_of_fuel = inr (inr (inr refl))

  miss-Sound :
      IsIeee
      → (r r' : Router) (d : RouteDecision) (id : Text) (t : TenantState) (key : RouteKey)
      → AllSound r.tenants
      → Sound t
      → route_miss r id t key ≡ some (r', d)
      → AllSound r'.tenants
        × ((rt : Route) → d ≡ routed rt → All (Routable t.health) (rest rt.nodes))
  unfolding route_miss
  miss-Sound ieee r r' d id t key s h e =
      elim (Outcome-cases (shortest_path t.graph t.health t.cost_model key.start key.goal)) [
        | inl (rt, o) ↦
            let free =
              shortest_path-Routable ieee t.graph t.health t.cost_model key.start key.goal rt o in
            let c : CachedPath = record {
              path = rt.nodes;
              weight = rt.total_cost;
              touched_nodes = rt.nodes;
            } in
            let (safe, _) = insert_cache-Safe t key c (refl, free) h.1 in
            let q : r'.tenants ≡ (put_tenant r id (insert_cache t key c)).tenants = ground arith in
            (
              subst AllSound (sym q) (put-Sound r id _ s (insert_cache-Inv t key c h.0, safe)),
              λ ru eu.
                  let w : rt.nodes ≡ ru.nodes = ground arith in freed t t rt.nodes ru refl w free,
            )
        | inr (inl o) ↦
            let q : r'.tenants ≡ r.tenants = ground arith in
            (subst AllSound (sym q) s, λ ru eu. absurd (ground arith))
        | inr (inr (inl o)) ↦ absurd (ground arith)
        | inr (inr (inr o)) ↦ absurd (ground arith)
      ]

  pub locked-Sound :
      IsIeee
      → (r r' : Router) (d : RouteDecision) (id : Text) (key : RouteKey) → AllSound r.tenants
      → route_locked r id key ≡ some (r', d)
      → AllSound r'.tenants × ((rt : Route) → d ≡ routed rt → OpenFree r id rt)
  unfolding route_locked
  locked-Sound ieee r r' d id key s h = elim (Option-cases (HashMap.lookup text_dec id r.tenants)) [
    | inl n ↦
        let q : r'.tenants ≡ r.tenants = ground arith in
        (subst AllSound (sym q) s, λ ru eu. absurd (ground arith))
    | inr (t, n) ↦
        let (i, safe) = All-lookup text_dec Sound id r.tenants t s n in
        elim (Option-cases (get_cached t key)) [
          | inr ((t', c), k) ↦
              let (_, same, _, health, looked) = hit t t' key c k in
              let free = All-lookup key_dec (IsOpenFree t.health) key t.cache c safe looked in
              let q : r'.tenants ≡ (put_tenant r id t').tenants = ground arith in
              let safe' : Safe t' = rw (same, health) safe in
              (
                subst AllSound (sym q)
                    (put-Sound r id t' s ((get_cached-Inv t t' key c i k).0, safe')),
                λ rt e u g.
                    freed t u c.path rt (some-injective t u (sym n ∙ g)) (ground arith) free.1,
              )
          | inl k ↦
              let m = miss-Sound ieee r r' d id t key s (i, safe) (rw (route_locked, n, k) at h) in
              (
                m.0,
                λ rt e u g. freed t u rt.nodes rt (some-injective t u (sym n ∙ g)) refl (m.1 rt e),
              )
        ]
  ]
