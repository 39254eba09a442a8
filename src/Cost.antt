-- ===== src/Cost.antt =====
-- src/lib.rs, what an edge costs: `TenantCostModel`, `Edge`, `IndexedEdge` and `normalize`.
pub mod Bounds
mod Examples
use trust_system.Prelude.{
  ℕ, Bool, true, not, ◌&&◌, ◌||◌, List, [], ◌∷◌, ◌==◌, if◌then◌else◌, any, all, Result, ok, ◌>>◌,
  reject_if, is_err,
}
use trust_system.Prelude.Text.{Text, is_empty}
use trust_system.Prelude.Float.{
  Floats, Num, ◌<ᶠ◌, ◌≤ᶠ◌, ◌==ᶠ◌, ◌+ᶠ◌, ◌*ᶠ◌, ◌/ᶠ◌, of_nat, lit, zero_f, one_f, infinity, clamp,
  is_finite,
}

-- The messages of `InvalidCostModel`.
pub data CostFault : Type 0 where
  bad_weight no_weight bad_ceiling : CostFault

module _ ⦃f : Floats⦄ where
  pub record CostWeights : Type 0 where
    pub w_dollar : Num
    pub w_latency : Num
    pub w_risk : Num
    pub w_base : Num

  pub record CostCeilings : Type 0 where
    pub max_dollar : Num
    pub max_latency_ms : ℕ
    pub max_base : Num

  pub record TenantCostModel : Type 0 where
    pub weights : CostWeights
    pub ceilings : CostCeilings

  abbrev pub default_cost_model : TenantCostModel
  default_cost_model = record {
    weights = record {
      w_dollar = lit 4 10;
      w_latency = lit 3 10;
      w_risk = lit 2 10;
      w_base = lit 1 10;
    };
    ceilings = record { max_dollar = lit 1 100; max_latency_ms = 1000; max_base = lit 10 1 };
  }

  abbrev pub weight_list : CostWeights → List Num
  weight_list w = w.w_dollar ∷ w.w_latency ∷ w.w_risk ∷ w.w_base ∷ []

  unfoldable pub validate : TenantCostModel → Result CostFault (Unit {0})
  validate m = do
    reject_if (any (λ w. not (is_finite w) || w <ᶠ zero_f) (weight_list m.weights)) bad_weight
    reject_if (all (λ w. w ==ᶠ zero_f) (weight_list m.weights)) no_weight
    reject_if
        (not (is_finite m.ceilings.max_dollar)
          || not (is_finite m.ceilings.max_base)
          || m.ceilings.max_dollar ≤ᶠ zero_f
          || m.ceilings.max_base ≤ᶠ zero_f
          || m.ceilings.max_latency_ms == 0)
        bad_ceiling
    ok tt

  pub record Edge : Type 0 where
    pub from : Text
    pub to : Text
    pub base_cost : Num
    pub dollar_cost : Num
    pub latency_ms : ℕ
    pub risk : Num
    pub enabled : Bool

  abbrev pub new_edge : Text → Text → Edge
  new_edge from to = record {
    from = from;
    to = to;
    base_cost = one_f;
    dollar_cost = zero_f;
    latency_ms = 0;
    risk = zero_f;
    enabled = true;
  }

  abbrev pub with_costs : Edge → Num → Num → ℕ → Num → Edge
  with_costs e base_cost dollar_cost latency_ms risk = record e {
    base_cost = base_cost;
    dollar_cost = dollar_cost;
    latency_ms = latency_ms;
    risk = risk;
  }

  unfoldable pub normalize : Num → Num → Num
  normalize value ceiling =
      if ceiling ≤ᶠ zero_f then one_f else clamp zero_f one_f (value /ᶠ ceiling)

  unfoldable pub edge_is_valid : Edge → Bool
  edge_is_valid e =
      not (is_empty e.from)
      && not (is_empty e.to)
      && is_finite e.base_cost
      && is_finite e.dollar_cost
      && is_finite e.risk
      && zero_f ≤ᶠ e.base_cost
      && zero_f ≤ᶠ e.dollar_cost
      && zero_f ≤ᶠ e.risk

  unfoldable pub edge_weight : Edge → TenantCostModel → Num
  unfolding edge_is_valid
  edge_weight e m =
      if not (edge_is_valid e) || is_err (validate m)
      then infinity
      else (let dollar = normalize e.dollar_cost m.ceilings.max_dollar in
          let latency = normalize (of_nat e.latency_ms) (of_nat m.ceilings.max_latency_ms) in
          let risk = clamp zero_f one_f e.risk in
          let base = normalize e.base_cost m.ceilings.max_base in
          m.weights.w_dollar *ᶠ dollar
          +ᶠ m.weights.w_latency *ᶠ latency
          +ᶠ m.weights.w_risk *ᶠ risk
          +ᶠ m.weights.w_base *ᶠ base)

  -- An edge of the graph, whose target is an index.
  pub record IndexedEdge : Type 0 where
    pub target : ℕ
    pub base_cost : Num
    pub dollar_cost : Num
    pub latency_ms : ℕ
    pub risk : Num
    pub enabled : Bool

  unfoldable pub is_valid : IndexedEdge → Bool
  is_valid e =
      is_finite e.base_cost
      && is_finite e.dollar_cost
      && is_finite e.risk
      && zero_f ≤ᶠ e.base_cost
      && zero_f ≤ᶠ e.dollar_cost
      && zero_f ≤ᶠ e.risk

  unfoldable pub weight : IndexedEdge → TenantCostModel → Num
  unfolding is_valid
  weight e m =
      if not (is_valid e) || is_err (validate m)
      then infinity
      else (let dollar = normalize e.dollar_cost m.ceilings.max_dollar in
          let latency = normalize (of_nat e.latency_ms) (of_nat m.ceilings.max_latency_ms) in
          let risk = clamp zero_f one_f e.risk in
          let base = normalize e.base_cost m.ceilings.max_base in
          m.weights.w_dollar *ᶠ dollar
          +ᶠ m.weights.w_latency *ᶠ latency
          +ᶠ m.weights.w_risk *ᶠ risk
          +ᶠ m.weights.w_base *ᶠ base)
