-- ===== src/Router/Safety.antt =====
-- src/lib.rs, `Router`: each method keeps the caches in order and free of open nodes.
use trust_system.Prelude.{
  ℕ, ◌≡◌, refl, sym, subst, inl, inr, Bool, some, List, [], ◌∷◌, arith, All, Bool-cases,
  Option-cases, ok, Result-cases,
}
use mathlib.Core.Option.{some-injective}
use trust_system.Prelude.Text.{Text, text_dec}
use trust_system.Prelude.HashMap
use trust_system.Prelude.HashMap.{Map, get_or_default, All-insert, All-lookup, lookup}
use trust_system.Prelude.Float.{Floats}
use trust_system.Health.{
  HealthPolicy, HealthTracker, is_open, default_tracker, force_half_open,
  transition_to_half_open_if_ready,
}
use trust_system.Health
use trust_system.Cost.{TenantCostModel, Edge}
use trust_system.Cost
use trust_system.Graph.{Route, found, no_path, panicked, out_of_fuel, shortest_path}
use trust_system.Graph
use trust_system.Graph.Routable.{Routable}
use trust_system.Tenant.{TenantState, default_tenant, invalidate_all_cache, invalidate_for_node}
use trust_system.Tenant.Cache.{Inv, invalidate_all_cache-Inv, invalidate_for_node-Inv}
use trust_system.Tenant.Safety.{
  Safe, invalidate_for_node-Safe, record_in_tenant-Sound, shrink-Safe, health-Safe,
}
use trust_system.Router.{
  Router, tenant_of, put_tenant, try_set_cost_model, try_set_health_policy, add_edge, record_result,
  force_half_open_node, probe_health, probe_tenants, note_probes, run_recovery_probe_once,
}

module _ ⦃f : Floats⦄ where
  -- The cache of a tenant is in order and free of open nodes.
  abbrev pub Sound : TenantState → Type 0
  Sound t = Inv t × Safe t

  abbrev pub AllSound : Map Text TenantState → Type 0
  AllSound m = All (λ e. Sound e.1) m

  default-Sound : Sound default_tenant
  default-Sound = (record { ordered = tt; known = tt; distinct = tt; bounded = omega arith }, tt)

  pub tenant_of-Sound : (r : Router) (id : Text) → AllSound r.tenants → Sound (tenant_of r id)
  tenant_of-Sound r id s = elim (Option-cases (HashMap.lookup text_dec id r.tenants)) [
    | inl n ↦
        let e : tenant_of r id ≡ default_tenant = rw (get_or_default, n) refl in
        subst Sound (sym e) default-Sound
    | inr (t, n) ↦
        let e : tenant_of r id ≡ t = rw (get_or_default, n) refl in
        subst Sound (sym e) (All-lookup text_dec Sound id r.tenants t s n)
  ]

  pub put-Sound :
      (r : Router) (id : Text) (t : TenantState)
      → AllSound r.tenants
      → Sound t
      → AllSound (put_tenant r id t).tenants
  put-Sound r id t s h = All-insert text_dec Sound id r.tenants t s h

  cleared-Sound : (t : TenantState) → Sound (invalidate_all_cache t)
  cleared-Sound t = (invalidate_all_cache-Inv t, unfold invalidate_all_cache in tt)

  pub record_result-Sound :
      (r : Router) (id node : Text) (success : Bool) (latency_ms now : ℕ)
      → AllSound r.tenants
      → AllSound (record_result r id node success latency_ms now).tenants
  unfolding record_result
  record_result-Sound r id node success latency_ms now s =
      let (i, h) = tenant_of-Sound r id s in
      put-Sound r id _ s (record_in_tenant-Sound (tenant_of r id) node success latency_ms now i h)

  moved-Sound :
      (t : TenantState) (node : Text) (tr : HealthTracker)
      → Sound t
      → Sound (
          invalidate_for_node (record t { health = HashMap.insert text_dec node tr t.health }) node)
  moved-Sound t node tr (i, h) = (
    invalidate_for_node-Inv _ node (record {
      ordered = i.ordered;
      known = i.known;
      distinct = i.distinct;
      bounded = i.bounded;
    }),
    invalidate_for_node-Safe t node tr h,
  )

  pub force-Sound :
      (r : Router) (id node : Text)
      → AllSound r.tenants
      → AllSound (force_half_open_node r id node).0.tenants
  unfolding force_half_open_node
  force-Sound r id node s = elim (Option-cases (HashMap.lookup text_dec id r.tenants)) [
    | inl n ↦ rw (force_half_open_node, n) s
    | inr (t, n) ↦ elim (Option-cases (HashMap.lookup text_dec node t.health)) [
      | inl k ↦ rw (force_half_open_node, n, k) s
      | inr (w, k) ↦ elim (Bool-cases (force_half_open w).1) [
        | inr e ↦ rw (force_half_open_node, n, k, e) s
        | inl e ↦
            rw (force_half_open_node, n, k, e)
              (put-Sound r id _ s (
                moved-Sound t node (force_half_open w).0
                  (All-lookup text_dec Sound id r.tenants t s n)))
      ]
    ]
  ]

  probe_health-Routable :
      (h : Map Text HealthTracker) (cooldown now : ℕ) (n : Text)
      → Routable h n
      → Routable (probe_health h cooldown now).0 n
  unfolding probe_health lookup transition_to_half_open_if_ready
  probe_health-Routable [] cooldown now n p = p
  probe_health-Routable ((k, tr) ∷ h) cooldown now n p =
      ground (arith, probe_health-Routable h cooldown now n)

  probe_tenants-Sound :
      (m : Map Text TenantState) (cooldown now : ℕ)
      → AllSound m
      → AllSound (probe_tenants m cooldown now).0
  unfolding probe_tenants
  probe_tenants-Sound [] cooldown now s = tt
  probe_tenants-Sound ((id, t) ∷ m) cooldown now s =
      let i = s.0.0 in
      (
        (
          record {
            ordered = i.ordered;
            known = i.known;
            distinct = i.distinct;
            bounded = i.bounded;
          },
          health-Safe t (probe_health t.health cooldown now).0
              (probe_health-Routable t.health cooldown now) s.0.1,
        ),
        probe_tenants-Sound m cooldown now s.1,
      )

  note_probes-Sound :
      (opened : List (Text × Text)) (r : Router)
      → AllSound r.tenants
      → AllSound (note_probes r opened).tenants
  unfolding note_probes
  note_probes-Sound [] r s = s
  note_probes-Sound ((id, node) ∷ opened) r s =
      elim (Option-cases (HashMap.lookup text_dec id r.tenants)) [
        | inl n ↦ rw (note_probes, n) (note_probes-Sound opened _ s)
        | inr (t, n) ↦
            let (i, h) = All-lookup text_dec Sound id r.tenants t s n in
            rw (note_probes, n)
              (note_probes-Sound opened _ (
                put-Sound r id (invalidate_for_node t node) s
                  (invalidate_for_node-Inv t node i, shrink-Safe t node h)))
      ]

  pub probe-Sound :
      (r : Router) (cooldown now : ℕ)
      → AllSound r.tenants
      → AllSound (run_recovery_probe_once r cooldown now).0.tenants
  unfolding run_recovery_probe_once
  probe-Sound r cooldown now s =
      note_probes-Sound (probe_tenants r.tenants cooldown now).1 _
        (probe_tenants-Sound r.tenants cooldown now s)

  pub add_edge-Sound :
      (r r' : Router) (id : Text) (e : Edge)
      → AllSound r.tenants
      → add_edge r id e ≡ some r'
      → AllSound r'.tenants
  unfolding add_edge
  add_edge-Sound r r' id e s h = elim (Option-cases (Graph.add_edge (tenant_of r id).graph e)) [
    | inl n ↦ absurd (ground arith)
    | inr (g, n) ↦
        let q = some-injective _ r' (rw (add_edge, n) at h) in
        subst (λ x. AllSound x.tenants) q (put-Sound r id _ s (cleared-Sound _))
  ]

  pub try_set_cost_model-Sound :
      (r r' : Router) (id : Text) (m : TenantCostModel)
      → AllSound r.tenants
      → try_set_cost_model r id m ≡ ok r'
      → AllSound r'.tenants
  unfolding try_set_cost_model
  try_set_cost_model-Sound r r' id m s h = elim (Result-cases (Cost.validate m)) [
    | inl (_, n) ↦ absurd (ground arith)
    | inr (tt, n) ↦
        let q : put_tenant r id (invalidate_all_cache (record (tenant_of r id) { cost_model = m }))
            ≡ r' =
          ground arith in
        subst (λ x. AllSound x.tenants) q (put-Sound r id _ s (cleared-Sound _))
  ]

  pub try_set_health_policy-Sound :
      (r r' : Router) (id : Text) (p : HealthPolicy)
      → AllSound r.tenants
      → try_set_health_policy r id p ≡ ok r'
      → AllSound r'.tenants
  unfolding try_set_health_policy
  try_set_health_policy-Sound r r' id p s h = elim (Result-cases (Health.validate p)) [
    | inl (_, n) ↦ absurd (ground arith)
    | inr (tt, n) ↦
        let q : put_tenant r id
              (invalidate_all_cache (record (tenant_of r id) { health_policy = p }))
            ≡ r' =
          ground arith in
        subst (λ x. AllSound x.tenants) q (put-Sound r id _ s (cleared-Sound _))
  ]
