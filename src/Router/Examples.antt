-- ===== src/Router/Examples.antt =====
-- A router with one tenant, over decimal numbers.
use trust_system.Prelude.{
  ◌≡◌, ◌∙◌, ◌≤◌, ◌+◌, refl, sym, subst, arith, length, [], ◌∷◌, true, false, some, rest, All,
}
use mathlib.Core.Option.{some-injective}
use trust_system.Prelude.Text.{Text, bytes, text_dec}
use trust_system.Prelude.HashMap
use trust_system.Prelude.Words.{u32_max}
use trust_system.Prelude.Float.Fixed.{decimals, decimals-IsIeee, arithmetic, fin}
use trust_system.Health.{penalty}
use trust_system.Cost.{new_edge, IndexedEdge, weight, is_valid, normalize}
use trust_system.Cost
use trust_system.Graph.{
  add_edge, get_or_insert_node, push_at, Route, state_cmp, pop, edge_cost, improve, relax,
  relax_all, walk_back, search, shortest_path,
}
use trust_system.Graph.Routable.{Routable}
use trust_system.Audit.{RouteDecision, audit_event_memory_limit, reroute, push, new, routed}
use trust_system.Tenant.{
  RouteKey, CachedPath, TenantState, default_tenant, key_dec, invalidate_all_cache, get_cached,
  evict, insert_cache,
}
use trust_system.Router
use trust_system.Router.{
  Router, tenant_of, empty_router, route_fast, route_miss, route_locked, route,
}
use trust_system.Router.Safety.{AllSound}
use trust_system.Router.Total.{AllReady, add_edge-AllReady, route_returns}
use trust_system.Router.Reach.{Reach, start, next, adding_edge, Reach-Sound, route_avoids_open}

program : Unit {0}
unfolding arithmetic text_dec key_dec HashMap.lookup HashMap.insert HashMap.remove penalty weight
    is_valid normalize Cost.validate add_edge get_or_insert_node push_at state_cmp pop edge_cost
    improve relax relax_all walk_back search shortest_path push invalidate_all_cache get_cached
    evict insert_cache Router.add_edge route_fast route_miss route_locked route
program = tt

abbrev pub a : Text
a = bytes "a"

abbrev pub b : Text
b = bytes "b"

abbrev pub link : IndexedEdge
link = record {
  target = 1;
  base_cost = fin 1000000;
  dollar_cost = fin 0;
  latency_ms = 0;
  risk = fin 0;
  enabled = true;
}

abbrev pub linked : TenantState
linked = record default_tenant {
  graph = record {
    node_to_id = (a, 0) ∷ (b, 1) ∷ [];
    id_to_node = a ∷ b ∷ [];
    adjacency = (link ∷ []) ∷ [] ∷ [];
  };
}

abbrev pub with_edge : Router
with_edge = record { tenants = (a, linked) ∷ []; audit = new audit_event_memory_limit }

pub adds : Router.add_edge empty_router a (new_edge a b) ≡ some with_edge
unfolding program
adds = refl

abbrev pub key : RouteKey
key = record { start = a; goal = b }

abbrev pub best : Route
best = record { nodes = a ∷ b ∷ []; total_cost = fin 10000; cache_hit = false }

abbrev pub cached : CachedPath
cached = record { path = best.nodes; weight = best.total_cost; touched_nodes = best.nodes }

abbrev pub after : Router
after = record {
  tenants = (a, record linked { cache = (key, cached) ∷ []; cache_order = key ∷ [] }) ∷ [];
  audit = record (new audit_event_memory_limit) {
    events = reroute a a b best.nodes best.total_cost false ∷ [];
  };
}

pub routes : route with_edge a key ≡ some (after, routed best)
unfolding program
routes = refl

pub reached : Reach with_edge
reached = next start (adding_edge a (new_edge a b) adds)

looks_up : HashMap.lookup text_dec a with_edge.tenants ≡ some linked
unfolding program
looks_up = refl

Reach-Sound_example : AllSound with_edge.tenants
Reach-Sound_example = Reach-Sound decimals-IsIeee with_edge reached

route_avoids_open_example : All (Routable linked.health) (rest best.nodes)
route_avoids_open_example =
    route_avoids_open decimals-IsIeee with_edge after a key best reached routes linked looks_up

has_room : length (tenant_of empty_router a).graph.id_to_node + 2 ≤ u32_max
unfolding program
has_room = omega arith

pub ready : AllReady with_edge.tenants
ready =
    let (r, e, h) = add_edge-AllReady empty_router a (new_edge a b) tt has_room in
    subst (λ x. AllReady x.tenants) (some-injective r with_edge (sym e ∙ adds)) h

route_returns_example : (r : Router) × (d : RouteDecision) × (route with_edge a key ≡ some (r, d))
route_returns_example = route_returns decimals-IsIeee with_edge a key ready
