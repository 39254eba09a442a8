-- ===== src/Graph.antt =====
-- src/lib.rs, `ToolGraph`: node names interned as indices, and the search for a cheapest path.
-- A panic by an index out of range is an outcome of its own. The program's loops are bounded by
-- the heap and by the `previous` links; the model's take fuel, which `shortest_path` gives.
pub mod Walk
pub mod Potential
pub mod Order
pub mod Improve
pub mod Links
pub mod Trace
pub mod Bound
pub mod OneEdge
pub mod Relax
pub mod Turn
pub mod Dijkstra
pub mod Answer
pub mod Intern
pub mod Added
pub mod Weigh
pub mod Heap
pub mod Routable
mod Examples
use trust_system.Prelude.{
  ℕ, zero, suc, ◌+◌, ◌%◌, ◌^◌, ◌≡◌, Bool, true, false, not, ◌&&◌, ◌||◌, Option, none, some, List,
  [], ◌∷◌, ◌++◌, arith, ltb, leb, ◌==◌, if◌then◌else◌, length, get_elem?, set, replicate, Ordering,
  ite,
}
use mathlib.Core.List.{reverse}
use Prim.Native.Nat.{compare}
use trust_system.Prelude.Text.{Text, text_dec}
use trust_system.Prelude.Words.{u32_max}
use trust_system.Prelude.Order.{then_with}
use trust_system.Prelude.HashMap
use trust_system.Prelude.HashMap.{Map}
use trust_system.Prelude.Float.{
  Floats, Num, ◌<ᶠ◌, ◌+ᶠ◌, zero_f, infinity, partial_cmp, is_nan, is_infinite,
}
use trust_system.Health.{HealthTracker, penalty}
use trust_system.Cost.{TenantCostModel, Edge, IndexedEdge, is_valid, weight}

-- `xs[i].push(x)`, or a panic.
unfoldable pub push_at {ℓ} : {A : Type ℓ} → ℕ → A → List (List A) → Option (List (List A))
push_at i x [] = none
push_at zero x (r ∷ rs) = some ((r ++ x ∷ []) ∷ rs)
push_at (suc i) x (r ∷ rs) = elim (push_at i x rs) [ none ↦ none | some rs' ↦ some (r ∷ rs') ]

module _ ⦃f : Floats⦄ where
  pub record ToolGraph : Type 0 where
    pub node_to_id : Map Text ℕ
    pub id_to_node : List Text
    pub adjacency : List (List IndexedEdge)

  abbrev pub empty_graph : ToolGraph
  empty_graph = record { node_to_id = []; id_to_node = []; adjacency = [] }

  unfoldable pub get_or_insert_node : ToolGraph → Text → ToolGraph × ℕ
  get_or_insert_node g name = elim (HashMap.lookup text_dec name g.node_to_id) [
    | some id ↦ (g, id)
    | none ↦
        let id = length g.id_to_node % 2 ^ 32 in
        (
          record {
            node_to_id = HashMap.insert text_dec name id g.node_to_id;
            id_to_node = g.id_to_node ++ name ∷ [];
            adjacency = g.adjacency ++ [] ∷ [];
          },
          id,
        )
  ]

  -- `none` is a panic.
  unfoldable pub add_edge : ToolGraph → Edge → Option ToolGraph
  add_edge g edge =
      let (g', from_id) = get_or_insert_node g edge.from in
      let (g'', to_id) = get_or_insert_node g' edge.to in
      let indexed : IndexedEdge = record {
        target = to_id;
        base_cost = edge.base_cost;
        dollar_cost = edge.dollar_cost;
        latency_ms = edge.latency_ms;
        risk = edge.risk;
        enabled = edge.enabled;
      } in
      elim (push_at from_id indexed g''.adjacency) [
        | none ↦ none
        | some adjacency ↦ some (record g'' { adjacency = adjacency })
      ]

  pub record Route : Type 0 where
    pub nodes : List Text
    pub total_cost : Num
    pub cache_hit : Bool

  pub record SearchState : Type 0 where
    pub node : ℕ
    pub cost : Num

  -- `Ord for SearchState`: the greatest state has the least cost, then the greatest index.
  unfoldable pub state_cmp : SearchState → SearchState → Ordering
  state_cmp a b =
      then_with (elim (partial_cmp b.cost a.cost) [ none ↦ Ordering.eq | some o ↦ o ])
        (compare a.node b.node)

  -- `BinaryHeap::pop`: a greatest state, and the others.
  unfoldable pub pop : List SearchState → Option (SearchState × List SearchState)
  pop [] = none
  pop (x ∷ xs) = elim (pop xs) [
    | none ↦ some (x, [])
    | some (y, ys) ↦ elim (state_cmp x y) [ Ordering.lt ↦ some (y, x ∷ ys) | _ ↦ some (x, y ∷ ys) ]
  ]

  pub record Search : Type 0 where
    pub distances : List Num
    pub previous : List ℕ
    pub heap : List SearchState

  pub data Outcome : Type 0 where
    found : Route → Outcome
    no_path : Outcome
    panicked : Outcome
    out_of_fuel : Outcome

  module _ (g : ToolGraph) (health : Map Text HealthTracker) (cost_model : TenantCostModel) where
    abbrev pub health_penalty : Text → Num
    health_penalty name = elim (HashMap.lookup text_dec name health) [
      | none ↦ zero_f
      | some t ↦ penalty t
    ]

    -- The cost of an edge to the node of that name, unless the search skips it.
    unfoldable pub edge_cost : IndexedEdge → Text → Option Num
    edge_cost e name =
        if not (is_valid e)
        then none
        else (let cost = weight e cost_model +ᶠ health_penalty name in
            if is_infinite cost || is_nan cost then none else some cost)

    -- A cheaper way to `target` is noted and pushed.
    unfoldable pub improve : ℕ → Num → ℕ → Num → Search → Search
    improve node next target old s =
        if next <ᶠ old
        then record {
          distances = set s.distances target next;
          previous = set s.previous target node;
          heap = record { node = target; cost = next } ∷ s.heap;
        }
        else s

    -- One edge out of `node`, which was reached at `cost`; `none` is a panic.
    unfoldable pub relax : ℕ → Num → IndexedEdge → Search → Option Search
    relax node cost e s = if not e.enabled then some s else elim (get_elem? g.id_to_node e.target) [
      | none ↦ none
      | some name ↦ elim (edge_cost e name) [
        | none ↦ some s
        | some w ↦ elim (get_elem? s.distances e.target) [
          | none ↦ none
          | some old ↦ some (improve node (cost +ᶠ w) e.target old s)
        ]
      ]
    ]

    unfoldable pub relax_all : ℕ → Num → List IndexedEdge → Search → Option Search
    relax_all node cost [] s = some s
    relax_all node cost (e ∷ es) s = elim (relax node cost e s) [
      | none ↦ none
      | some s' ↦ relax_all node cost es s'
    ]

    -- The names from `curr` back to the start, pushed in front: the reverse of the program's push.
    unfoldable pub walk_back : ℕ → ℕ → ℕ → List ℕ → List Text → Option (List Text)
    walk_back zero start curr previous path = none
    walk_back (suc fuel) start curr previous path =
        if curr == u32_max then some path else elim (get_elem? g.id_to_node curr) [
          | none ↦ none
          | some name ↦
              if curr == start then some (name ∷ path) else elim (get_elem? previous curr) [
                | none ↦ none
                | some before ↦ walk_back fuel start before previous (name ∷ path)
              ]
        ]

    unfoldable pub search : ℕ → ℕ → ℕ → Search → Outcome
    search zero start goal s = out_of_fuel
    search (suc fuel) start goal s = elim (pop s.heap) [
      | none ↦ no_path
      | some (top, others) ↦
          let opened = record s { heap = others } in
          if top.node == goal
          then elim (walk_back (length g.id_to_node + 1) start goal s.previous []) [
            | none ↦ panicked
            | some nodes ↦
                found (record { nodes = nodes; total_cost = top.cost; cache_hit = false })
          ]
          else elim (get_elem? s.distances top.node) [
            | none ↦ panicked
            | some best ↦ elim (best <ᶠ top.cost) [
              | true ↦ search fuel start goal opened
              | false ↦ elim (get_elem? g.adjacency top.node) [
                | none ↦ panicked
                | some es ↦ elim (relax_all top.node top.cost es opened) [
                  | none ↦ panicked
                  | some s' ↦ search fuel start goal s'
                ]
              ]
            ]
          ]
    ]

    abbrev pub edge_count : List (List IndexedEdge) → ℕ
    edge_count [] = 0
    edge_count (es ∷ adj) = length es + edge_count adj

    abbrev pub initial : ℕ → Search
    initial start = record {
      distances = set (replicate (length g.id_to_node) infinity) start zero_f;
      previous = replicate (length g.id_to_node) u32_max;
      heap = record { node = start; cost = zero_f } ∷ [];
    }

    unfoldable pub shortest_path : Text → Text → Outcome
    shortest_path start goal =
        ite (text_dec start goal)
          (found (record { nodes = start ∷ []; total_cost = zero_f; cache_hit = false }))
          (elim (HashMap.lookup text_dec start g.node_to_id) [
            | none ↦ no_path
            | some start_id ↦ elim (HashMap.lookup text_dec goal g.node_to_id) [
              | none ↦ no_path
              | some goal_id ↦
                  elim (get_elem? (replicate (length g.id_to_node) infinity) start_id) [
                    | none ↦ panicked
                    | some _ ↦
                        search (edge_count g.adjacency + 2) start_id goal_id (initial start_id)
                  ]
            ]
          ])
