-- ===== src/Graph/Examples.antt =====
-- The search on a graph of three nodes, over decimal numbers.
use mathlib.Core.Option.{some-injective}
use trust_system.Prelude.{
  ℕ, zero, suc, ◌≡◌, ◌≤◌, refl, [], ◌∷◌, true, false, some, rest, All, arith, length,
}
use trust_system.Prelude.Text.{Text, bytes, text_dec}
use trust_system.Prelude.HashMap
use trust_system.Prelude.HashMap.{Map}
use trust_system.Prelude.Float.Fixed.{decimals, decimals-IsIeee, arithmetic, fin}
use trust_system.Health.{HealthTracker, default_tracker, open_circuit, penalty}
use trust_system.Cost.{default_cost_model, new_edge, Edge, IndexedEdge, weight, is_valid, normalize}
use trust_system.Cost
use trust_system.Graph.{
  ToolGraph, add_edge, get_or_insert_node, push_at, Route, found, no_path, state_cmp, pop,
  edge_cost, improve, relax, relax_all, walk_back, search, shortest_path,
}
use trust_system.Graph.Answer.{IsInterned, IsAnswer}
use trust_system.Graph.Weigh.{shortest_path-answers}
use trust_system.Graph.Added.{IsStored, IsAdded, add_edge-IsAdded}
use trust_system.Graph.Routable.{Routable, shortest_path-Routable}

program : Unit {0}
unfolding arithmetic text_dec HashMap.lookup HashMap.insert penalty weight is_valid normalize
    Cost.validate add_edge get_or_insert_node push_at state_cmp pop edge_cost improve relax
    relax_all walk_back search shortest_path
program = tt

abbrev a : Text
a = bytes "a"

abbrev b : Text
b = bytes "b"

abbrev c : Text
c = bytes "c"

abbrev plain : ℕ → IndexedEdge
plain target = record {
  target = target;
  base_cost = fin 1000000;
  dollar_cost = fin 0;
  latency_ms = 0;
  risk = fin 0;
  enabled = true;
}

abbrev chain : ToolGraph
chain = record {
  node_to_id = (a, 0) ∷ (b, 1) ∷ (c, 2) ∷ [];
  id_to_node = a ∷ b ∷ c ∷ [];
  adjacency = (plain 1 ∷ []) ∷ (plain 2 ∷ []) ∷ [] ∷ [];
}

abbrev one_link : ToolGraph
one_link = record {
  node_to_id = (a, 0) ∷ (b, 1) ∷ [];
  id_to_node = a ∷ b ∷ [];
  adjacency = (plain 1 ∷ []) ∷ [] ∷ [];
}

builds : add_edge one_link (new_edge b c) ≡ some chain
unfolding program
builds = refl

abbrev best : Route
best = record { nodes = a ∷ b ∷ c ∷ []; total_cost = fin 20000; cache_hit = false }

routes : shortest_path chain [] default_cost_model a c ≡ found best
unfolding program
routes = refl

abbrev blocked : Map Text HealthTracker
blocked = (b, record default_tracker { state = open_circuit }) ∷ []

blocks : shortest_path chain blocked default_cost_model a c ≡ no_path
unfolding program
blocks = refl

shortest_path-Routable_example : All (Routable []) (rest best.nodes)
shortest_path-Routable_example =
    shortest_path-Routable decimals-IsIeee chain [] default_cost_model a c best routes

chain-IsInterned : IsInterned chain
unfolding HashMap.lookup text_dec
chain-IsInterned = record {
  indexed = record {
    rows = refl;
    targets = ((omega arith, tt), ((omega arith, tt), (tt, tt)));
    small = omega arith;
  };
  named = λ name id e. ground arith;
}

shortest_path-answers_example :
    IsAnswer decimals-IsIeee chain [] default_cost_model a c
      (shortest_path chain [] default_cost_model a c)
shortest_path-answers_example =
    shortest_path-answers decimals-IsIeee chain [] default_cost_model chain-IsInterned (omega arith)
      a c

chain-IsStored : IsStored chain
unfolding HashMap.lookup text_dec
chain-IsStored name zero e = rw (← some-injective a name e) refl
chain-IsStored name (suc zero) e = rw (← some-injective b name e) refl
chain-IsStored name (suc (suc zero)) e = rw (← some-injective c name e) refl
chain-IsStored name (suc (suc (suc id))) e = absurd (cc)

add_edge-IsAdded_example :
    (g : ToolGraph) × (add_edge chain (new_edge c a) ≡ some g)
    × IsInterned g
    × IsStored g
    × (length g.id_to_node ≤ 5)
    × IsAdded chain g (new_edge c a)
add_edge-IsAdded_example =
    add_edge-IsAdded chain (new_edge c a) chain-IsInterned chain-IsStored (omega arith)
