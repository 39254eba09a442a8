-- ===== src/Router.antt =====
-- src/lib.rs, `Router`: each method takes the lock of the tenants and reports to the audit ring, so
-- a method is one step on both. A panic, which the graph's indexing could raise, is `none`; time is
-- an argument. The fuel of the search is its own (see Graph), so that it may run out is an outcome
-- that `route_locked` also answers with `none`.
pub mod Safety
pub mod Routes
pub mod Reach
pub mod Total
pub mod Examples
use trust_system.Prelude.{
  ℕ, ◌≡◌, Bool, true, false, not, Option, none, some, List, [], ◌∷◌, ◌++◌, if◌then◌else◌, length,
  Result, ok, err, ◌>>=◌, map_err,
}
use trust_system.Prelude.Text.{Text, text_dec}
use trust_system.Prelude.HashMap
use trust_system.Prelude.HashMap.{Map, get_or_default}
use trust_system.Prelude.Float.{Floats}
use trust_system.Health.{
  HealthPolicy, HealthTracker, NodeState, default_tracker, record_result_with_policy,
  transition_to_half_open_if_ready, force_half_open,
}
use trust_system.Health
use trust_system.Cost.{TenantCostModel, Edge, CostFault}
use trust_system.Cost
use trust_system.Graph.{Route, Outcome, found, no_path, panicked, out_of_fuel, shortest_path}
use trust_system.Graph
use trust_system.Audit.{
  audit_event_memory_limit, EscalationContext, no_feasible_path, tenant_not_found, RouteDecision,
  routed, escalate, AuditEvent, reroute, explicit_escalation, health_changed, recovery_probe_opened,
  AuditPipeline, new, push, last_event,
}
use trust_system.Tenant.{
  RouteKey, key_dec, CachedPath, TenantState, default_tenant, invalidate_all_cache,
  invalidate_for_node, record_in_tenant, get_cached, insert_cache, blocked_nodes,
}

pub data RouterError : Type 0 where
  invalid_cost_model : CostFault → RouterError
  invalid_health_policy : Health.PolicyFault → RouterError

module _ ⦃f : Floats⦄ where
  pub record Router : Type 0 where
    pub tenants : Map Text TenantState
    pub audit : AuditPipeline AuditEvent

  abbrev pub empty_router : Router
  empty_router = record { tenants = []; audit = new audit_event_memory_limit }

  abbrev pub report : Router → AuditEvent → Router
  report r event = record r { audit = push r.audit event }

  -- `tenants.entry(id).or_default()`, and the tenant put back.
  abbrev pub tenant_of : Router → Text → TenantState
  tenant_of r id = get_or_default text_dec id default_tenant r.tenants

  abbrev pub put_tenant : Router → Text → TenantState → Router
  put_tenant r id t = record r { tenants = HashMap.insert text_dec id t r.tenants }

  unfoldable pub add_tenant : Router → Text → Router
  add_tenant r id = put_tenant r id (tenant_of r id)

  unfoldable pub try_set_cost_model : Router → Text → TenantCostModel → Result RouterError Router
  try_set_cost_model r id m = map_err invalid_cost_model (Cost.validate m) >>= λ _.
      ok (put_tenant r id (invalidate_all_cache (record (tenant_of r id) { cost_model = m })))

  unfoldable pub try_set_health_policy : Router → Text → HealthPolicy → Result RouterError Router
  try_set_health_policy r id p = map_err invalid_health_policy (Health.validate p) >>= λ _.
      ok (put_tenant r id (invalidate_all_cache (record (tenant_of r id) { health_policy = p })))

  unfoldable pub add_edge : Router → Text → Edge → Option Router
  add_edge r id edge =
      let t = tenant_of r id in
      elim (Graph.add_edge t.graph edge) [
        | none ↦ none
        | some graph ↦ some (put_tenant r id (invalidate_all_cache (record t { graph = graph })))
      ]

  unfoldable pub record_result : Router → Text → Text → Bool → ℕ → ℕ → Router
  unfolding record_in_tenant
  record_result r id node success latency_ms now =
      let (t, (state, changed)) = record_in_tenant (tenant_of r id) node success latency_ms now in
      report (put_tenant r id t) (health_changed id node state changed)

  unfoldable pub force_half_open_node : Router → Text → Text → Router × Bool
  force_half_open_node r id node = elim (HashMap.lookup text_dec id r.tenants) [
    | none ↦ (r, false)
    | some t ↦ elim (HashMap.lookup text_dec node t.health) [
      | none ↦ (r, false)
      | some tracker ↦
          let (tracker', opened) = force_half_open tracker in
          if not opened
          then (r, false)
          else (let t' = record t { health = HashMap.insert text_dec node tracker' t.health } in
              (
                report (put_tenant r id (invalidate_for_node t' node))
                    (recovery_probe_opened id node),
                true,
              ))
    ]
  ]

  -- The scan of the recovery loop: the trackers of a tenant, and the nodes that are probed.
  unfoldable pub probe_health : Map Text HealthTracker → ℕ → ℕ → Map Text HealthTracker × List Text
  probe_health [] cooldown now = ([], [])
  probe_health ((node, tracker) ∷ m) cooldown now =
      let (m', nodes) = probe_health m cooldown now in
      let (tracker', opened) = transition_to_half_open_if_ready tracker cooldown now in
      ((node, tracker') ∷ m', if opened then node ∷ nodes else nodes)

  abbrev pub tag : Text → List Text → List (Text × Text)
  tag id [] = []
  tag id (node ∷ nodes) = (id, node) ∷ tag id nodes

  unfoldable pub probe_tenants :
      Map Text TenantState → ℕ → ℕ → Map Text TenantState × List (Text × Text)
  unfolding probe_health
  probe_tenants [] cooldown now = ([], [])
  probe_tenants ((id, t) ∷ m) cooldown now =
      let (health, nodes) = probe_health t.health cooldown now in
      let (m', opened) = probe_tenants m cooldown now in
      ((id, record t { health = health }) ∷ m', tag id nodes ++ opened)

  unfoldable pub note_probes : Router → List (Text × Text) → Router
  note_probes r [] = r
  note_probes r ((id, node) ∷ opened) =
      let r' : Router = elim (HashMap.lookup text_dec id r.tenants) [
        | none ↦ r
        | some t ↦ put_tenant r id (invalidate_for_node t node)
      ] in
      note_probes (report r' (recovery_probe_opened id node)) opened

  unfoldable pub run_recovery_probe_once : Router → ℕ → ℕ → Router × ℕ
  unfolding probe_tenants note_probes
  run_recovery_probe_once r cooldown now =
      let (tenants, opened) = probe_tenants r.tenants cooldown now in
      (note_probes (record r { tenants = tenants }) opened, length opened)

  abbrev pub hit : Router → Text → RouteKey → CachedPath → Router × RouteDecision
  hit r id key cached = (
    report r (reroute id key.start key.goal cached.path cached.weight true),
    routed (record { nodes = cached.path; total_cost = cached.weight; cache_hit = true }),
  )

  -- The fast path, under the read lock: a hit does not touch the queue of the cache.
  unfoldable pub route_fast : Router → Text → RouteKey → Option (Router × RouteDecision)
  route_fast r id key = elim (HashMap.lookup text_dec id r.tenants) [
    | none ↦ none
    | some t ↦ elim (HashMap.lookup key_dec key t.cache) [
      | none ↦ none
      | some cached ↦ some (hit r id key cached)
    ]
  ]

  -- A miss: the search, and its route noted in the cache.
  unfoldable pub route_miss :
      Router → Text → TenantState → RouteKey → Option (Router × RouteDecision)
  route_miss r id t key = elim (shortest_path t.graph t.health t.cost_model key.start key.goal) [
    | found route ↦
        let cached : CachedPath = record {
          path = route.nodes;
          weight = route.total_cost;
          touched_nodes = route.nodes;
        } in
        some (
          report (put_tenant r id (insert_cache t key cached))
              (reroute id key.start key.goal route.nodes route.total_cost false),
          routed route,
        )
    | no_path ↦
        let context : EscalationContext = record {
          tenant_id = id;
          start = key.start;
          goal = key.goal;
          reason = no_feasible_path;
          failed_or_blocked_nodes = blocked_nodes t;
        } in
        some (report r (explicit_escalation context), escalate context)
    | panicked ↦ none
    | out_of_fuel ↦ none
  ]

  -- The slow path, under the write lock, which looks into the cache again.
  unfoldable pub route_locked : Router → Text → RouteKey → Option (Router × RouteDecision)
  route_locked r id key = elim (HashMap.lookup text_dec id r.tenants) [
    | none ↦
        let context : EscalationContext = record {
          tenant_id = id;
          start = key.start;
          goal = key.goal;
          reason = tenant_not_found;
          failed_or_blocked_nodes = [];
        } in
        some (report r (explicit_escalation context), escalate context)
    | some t ↦ elim (get_cached t key) [
      | some (t', cached) ↦ some (hit (put_tenant r id t') id key cached)
      | none ↦ route_miss r id t key
    ]
  ]

  -- Both paths on one state; between them other threads may take steps of their own.
  unfoldable pub route : Router → Text → RouteKey → Option (Router × RouteDecision)
  unfolding route_fast route_locked
  route r id key = elim (route_fast r id key) [ some out ↦ some out | none ↦ route_locked r id key ]

  unfoldable pub node_state : Router → Text → Text → Option NodeState
  node_state r id node = elim (HashMap.lookup text_dec id r.tenants) [
    | none ↦ none
    | some t ↦ elim (HashMap.lookup text_dec node t.health) [
      | none ↦ none
      | some tracker ↦ some tracker.state
    ]
  ]
