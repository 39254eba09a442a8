-- ===== src/Tenant.antt =====
-- src/lib.rs, `TenantState`: the graph of a tenant, the health of its nodes and its cache of routes.
pub mod Queue
pub mod Cache
pub mod Safety
mod Examples
use trust_system.Prelude.{
  ℕ, ◌≡◌, Bool, true, false, not, ◌&&◌, Option, none, some, List, [], ◌∷◌, ◌++◌, ◌==◌,
  if◌then◌else◌, any, keep, holds, length, rest,
}
use trust_system.Prelude.Text.{Text, text_dec}
use trust_system.Prelude.Order.{list_cmp}
use trust_system.Prelude.Sort.{sort_by}
use trust_system.Prelude.HashMap
use trust_system.Prelude.HashMap.{Map, contains_key, get_or_default}
use trust_system.Prelude.Float.{Floats, Num}
use trust_system.Health.{
  HealthPolicy, HealthTracker, NodeState, is_open, default_tracker, record_result_with_policy,
}
use trust_system.Health
use trust_system.Cost.{TenantCostModel, default_cost_model}
use trust_system.Graph.{ToolGraph, empty_graph, Route}

abbrev pub route_cache_limit : ℕ
route_cache_limit = 1024

pub record RouteKey : Type 0 where
  pub start : Text
  pub goal : Text

unfoldable pub key_dec : Discrete RouteKey
key_dec a b = elim (text_dec a.start b.start) [
  | no n ↦ no (λ e. n (cc))
  | yes p ↦ elim (text_dec a.goal b.goal) [ no n ↦ no (λ e. n (cc)) | yes q ↦ yes (cc) ]
]

module _ ⦃f : Floats⦄ where
  -- `touched_nodes` is a set, as the list of its elements.
  pub record CachedPath : Type 0 where
    pub path : List Text
    pub weight : Num
    pub touched_nodes : List Text

  pub record TenantState : Type 0 where
    pub graph : ToolGraph
    pub health : Map Text HealthTracker
    pub cache : Map RouteKey CachedPath
    pub cache_order : List RouteKey
    pub cost_model : TenantCostModel
    pub health_policy : HealthPolicy

  abbrev pub default_tenant : TenantState
  default_tenant = record {
    graph = empty_graph;
    health = [];
    cache = [];
    cache_order = [];
    cost_model = default_cost_model;
    health_policy = Health.default_policy;
  }

  unfoldable pub invalidate_all_cache : TenantState → TenantState
  invalidate_all_cache t = record t { cache = []; cache_order = [] }

  abbrev pub touches : Text → CachedPath → Bool
  touches node cached = any (λ x. holds (text_dec x node)) cached.touched_nodes

  unfoldable pub invalidate_for_node : TenantState → Text → TenantState
  invalidate_for_node t node =
      let cache = HashMap.retain (λ _ cached. not (touches node cached)) t.cache in
      record t {
        cache = cache;
        cache_order = keep (λ key. contains_key key_dec key cache) t.cache_order;
      }

  abbrev pub without : RouteKey → List RouteKey → List RouteKey
  without key = keep (λ existing. not (holds (key_dec existing key)))

  unfoldable pub get_cached : TenantState → RouteKey → Option (TenantState × CachedPath)
  get_cached t key = elim (HashMap.lookup key_dec key t.cache) [
    | none ↦ none
    | some cached ↦ some (record t { cache_order = without key t.cache_order ++ key ∷ [] }, cached)
  ]

  -- The entry that gives way to a new key, if the cache is full.
  unfoldable pub evict : TenantState → RouteKey → TenantState
  evict t key =
      if not (contains_key key_dec key t.cache) && length t.cache == route_cache_limit
      then elim t.cache_order [
        | [] ↦ t
        | evicted ∷ order ↦ record t {
          cache = HashMap.remove key_dec evicted t.cache;
          cache_order = order;
        }
      ]
      else t

  unfoldable pub insert_cache : TenantState → RouteKey → CachedPath → TenantState
  unfolding evict
  insert_cache t key cached =
      let t' = evict t key in
      record t' {
        cache = HashMap.insert key_dec key cached t'.cache;
        cache_order = without key t'.cache_order ++ key ∷ [];
      }

  unfoldable pub open_names : Map Text HealthTracker → List Text
  open_names [] = []
  open_names ((node, health) ∷ m) =
      if is_open health.state then node ∷ open_names m else open_names m

  unfoldable pub blocked_nodes : TenantState → List Text
  unfolding open_names
  blocked_nodes t = sort_by list_cmp (open_names t.health)

  -- The part of `record_result` on its tenant: the tenant, and the node's state and whether it
  -- changed.
  unfoldable pub record_in_tenant :
      TenantState → Text → Bool → ℕ → ℕ → TenantState × (NodeState × Bool)
  record_in_tenant t node success latency_ms now =
      let tracker = get_or_default text_dec node default_tracker t.health in
      let (tracker', changed) =
        record_result_with_policy tracker success latency_ms t.health_policy now in
      let t' = record t { health = HashMap.insert text_dec node tracker' t.health } in
      ((if changed then invalidate_for_node t' node else t'), (tracker'.state, changed))
