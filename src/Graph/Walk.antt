-- ===== src/Graph/Walk.antt =====
-- The declarative side of the search: the edges that may be taken, the walks that they make up, and
-- what a walk costs, summed from the start as the program sums it.
use trust_system.Prelude.{ℕ, ◌<◌, ◌≤◌, ◌≡◌, true, some, List, [], ◌∷◌, length, get_elem?, All, In}
use trust_system.Prelude.Text.{Text}
use trust_system.Prelude.Words.{u32_max}
use trust_system.Prelude.HashMap.{Map}
use trust_system.Prelude.Float.{Floats, Num, ◌+ᶠ◌, zero_f}
use trust_system.Health.{HealthTracker}
use trust_system.Cost.{TenantCostModel, IndexedEdge}
use trust_system.Graph.{ToolGraph, edge_cost}

module _ ⦃f : Floats⦄ where
  -- Every index of the graph is in range, and below the sentinel of `previous`.
  pub record IsIndexed (g : ToolGraph) : Type 0 where
    pub rows : length g.adjacency ≡ length g.id_to_node
    pub targets : All (λ es. All (λ e. e.target < length g.id_to_node) es) g.adjacency
    pub small : length g.id_to_node ≤ u32_max

  module _ (g : ToolGraph) (health : Map Text HealthTracker) (cost_model : TenantCostModel) where
    -- An enabled edge from `u` to `v` that the search does not skip, and its cost.
    pub record EdgeTo (u v : ℕ) (w : Num) : Type 0 where
      pub row : List IndexedEdge
      pub edge : IndexedEdge
      pub name : Text
      pub row_of : get_elem? g.adjacency u ≡ some row
      pub edge_in : In edge row
      pub enabled : edge.enabled ≡ true
      pub target : edge.target ≡ v
      pub name_of : get_elem? g.id_to_node v ≡ some name
      pub costs : edge_cost g health cost_model edge name ≡ some w

    -- The nodes of a walk are listed from its end back to the start.
    pub data Walk (start : ℕ) : ℕ → Num → List ℕ → Type 0 where
      begin :
          {v : ℕ} {d : Num} {path : List ℕ}
          → v ≡ start
          → d ≡ zero_f
          → path ≡ start ∷ []
          → Walk start v d path
      go :
          {u v : ℕ} {c d w : Num} {before path : List ℕ}
          → Walk start u c before
          → EdgeTo u v w
          → d ≡ c +ᶠ w
          → path ≡ v ∷ before
          → Walk start v d path
