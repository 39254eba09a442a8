-- ===== src/Cost/Examples.antt =====
-- The weight of an edge, over decimal numbers.
use trust_system.Prelude.{◌≡◌, refl}
use trust_system.Prelude.Text.{bytes}
use trust_system.Prelude.Float.Fixed.{decimals, arithmetic, fin}
use trust_system.Cost.{
  Edge, new_edge, with_costs, default_cost_model, validate, edge_is_valid, edge_weight, normalize,
  weight,
}
use trust_system.Cost.Bounds.{index_edge, edge_weight-weight}

abbrev dear : Edge
dear = with_costs (new_edge (bytes "a") (bytes "b")) (fin 5000000) (fin 5000) 100 (fin 500000)

weighs : edge_weight dear default_cost_model ≡ fin 380000
unfolding arithmetic validate edge_is_valid edge_weight normalize
weighs = refl

edge_weight-weight_example :
    edge_weight dear default_cost_model ≡ weight (index_edge dear 7) default_cost_model
edge_weight-weight_example = edge_weight-weight dear 7 default_cost_model refl refl
