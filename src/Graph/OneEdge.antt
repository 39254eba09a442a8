-- ===== src/Graph/OneEdge.antt =====
-- What one turn of the loop over the edges does, case by case.
use trust_system.Prelude.{
  ℕ, ◌<◌, ◌≡◌, refl, inl, inr, true, false, some, ◌∷◌, arith, length, get_elem?, set, Bool-cases,
  Option-cases,
}
use trust_system.Prelude.Text.{Text}
use trust_system.Prelude.HashMap.{Map}
use trust_system.Prelude.Float.{Floats, Num, ◌<ᶠ◌, ◌+ᶠ◌}
use trust_system.Health.{HealthTracker}
use trust_system.Cost.{TenantCostModel, IndexedEdge}
use trust_system.Graph.{ToolGraph, Search, edge_cost, improve, relax}
use trust_system.Graph.Links.{get-some}

module _ ⦃f : Floats⦄ (g : ToolGraph) (health : Map Text HealthTracker) (m : TenantCostModel) where
  -- What one edge does.
  pub data Relaxed (u : ℕ) (cost : Num) (e : IndexedEdge) (s s' : Search) : Type 0 where
    unusable :
        s' ≡ s
        → ((name : Text) (w : Num)
            → e.enabled ≡ true
            → get_elem? g.id_to_node e.target ≡ some name
            → edge_cost g health m e name ≡ some w
            → ⊥)
        → Relaxed u cost e s s'
    kept :
        (name : Text) (w old : Num)
        → get_elem? g.id_to_node e.target ≡ some name
        → edge_cost g health m e name ≡ some w
        → get_elem? s.distances e.target ≡ some old
        → (cost +ᶠ w <ᶠ old) ≡ false
        → s' ≡ s
        → Relaxed u cost e s s'
    better :
        (name : Text) (w old : Num)
        → e.enabled ≡ true
        → get_elem? g.id_to_node e.target ≡ some name
        → edge_cost g health m e name ≡ some w
        → get_elem? s.distances e.target ≡ some old
        → (cost +ᶠ w <ᶠ old) ≡ true
        → s' ≡ record {
          distances = set s.distances e.target (cost +ᶠ w);
          previous = set s.previous e.target u;
          heap = record { node = e.target; cost = cost +ᶠ w } ∷ s.heap;
        }
        → Relaxed u cost e s s'

  pub relax-Relaxed :
      (u : ℕ) (cost : Num) (e : IndexedEdge) (s : Search)
      → e.target < length g.id_to_node
      → length s.distances ≡ length g.id_to_node
      → (s' : Search) × (relax g health m u cost e s ≡ some s') × Relaxed u cost e s s'
  unfolding relax improve
  relax-Relaxed u cost e s h dl = elim (Bool-cases e.enabled) [
    | inr off ↦ (s, rw (relax, off) refl, unusable refl (λ name w on n c. ground arith))
    | inl on ↦
        let (name, n) = get-some g.id_to_node e.target h in
        let (old, d) = get-some s.distances e.target (omega (arith, h, dl)) in
        elim (Option-cases (edge_cost g health m e name)) [
          | inl c ↦ (s, rw (relax, on, n, c) refl, unusable refl (λ name' w _ n' c'. ground arith))
          | inr (w, c) ↦ elim (Bool-cases (cost +ᶠ w <ᶠ old)) [
            | inr l ↦ (s, rw (relax, on, n, c, d, improve, l) refl, kept name w old n c d l refl)
            | inl l ↦
                (_, rw (relax, on, n, c, d, improve, l) refl, better name w old on n c d l refl)
          ]
        ]
  ]
