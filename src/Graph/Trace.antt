-- ===== src/Graph/Trace.antt =====
-- The way back over the `previous` links spells a walk from the start, with the cost of its end.
use trust_system.Prelude.{
  ℕ, zero, suc, ◌+◌, ◌≤◌, ◌<◌, ◌≡◌, refl, subst, ◌∙◌, ◌≢◌, inl, inr, true, false, none, some, List,
  [], ◌∷◌, arith, ◌==◌, length, get_elem?, All, Bool-cases,
}
use trust_system.Prelude.Text.{Text}
use trust_system.Prelude.Words.{u32_max}
use trust_system.Prelude.HashMap.{Map}
use trust_system.Prelude.Float.{Floats, Num, zero_f}
use trust_system.Health.{HealthTracker}
use trust_system.Cost.{TenantCostModel}
use trust_system.Graph.{ToolGraph, SearchState, walk_back}
use trust_system.Graph.Walk.{Walk, begin, go}
use trust_system.Graph.Potential.{Flags}
use trust_system.Graph.Links.{get-some, count-mark, Linked, Links}

module _ ⦃f : Floats⦄ (g : ToolGraph) (health : Map Text HealthTracker) (m : TenantCostModel)
    (start : ℕ) where
  abbrev pub name_at : ℕ → Text
  name_at v = elim (get_elem? g.id_to_node v) [ none ↦ [] | some name ↦ name ]

  -- The names of a walk that is listed from its end, in the order of travel, before `path`.
  abbrev pub spell : List ℕ → List Text → List Text
  spell [] path = path
  spell (v ∷ walk) path = spell walk (name_at v ∷ path)

  back_start :
      (fuel v : ℕ) (previous : List ℕ) (path : List Text)
      → v < length g.id_to_node
      → length g.id_to_node ≤ u32_max
      → v ≡ start
      → walk_back g health m (suc fuel) start v previous path ≡ some (name_at v ∷ path)
  unfolding walk_back
  back_start fuel v previous path h b e =
      let (name, n) = get-some g.id_to_node v h in
      let named : name_at v ≡ name = rw (name_at, n) refl in
      let k : (v == u32_max) ≡ false = ground arith in
      let q : (v == start) ≡ true = ground arith in rw (named, walk_back, k, n, q) refl

  back_step :
      (fuel v before : ℕ) (previous : List ℕ) (path : List Text)
      → v < length g.id_to_node
      → length g.id_to_node ≤ u32_max
      → v ≢ start
      → get_elem? previous v ≡ some before
      → walk_back g health m (suc fuel) start v previous path
        ≡ walk_back g health m fuel start before previous (name_at v ∷ path)
  unfolding walk_back
  back_step fuel v before previous path h b e p =
      let (name, n) = get-some g.id_to_node v h in
      let named : name_at v ≡ name = rw (name_at, n) refl in
      let k : (v == u32_max) ≡ false = ground arith in
      let q : (v == start) ≡ false = ground arith in rw (named, walk_back, k, n, q, p) refl

  -- A walk to a node, its cost, and the way back that spells it.
  abbrev pub Traced : ℕ → ℕ → List Num → List ℕ → List Text → Type 0
  Traced fuel v ds previous path =
      (walk : List ℕ) × (d : Num) × (get_elem? ds v ≡ some d)
      × Walk g health m start v d walk
      × (walk_back g health m fuel start v previous path ≡ some (spell walk path))

  module _ (ds : List Num) (previous : List ℕ) (heap : List SearchState) (settled : Flags)
      (level : ℕ → ℕ) (small : length g.id_to_node ≤ u32_max)
      (i : Links g health m start ds previous heap settled level) where
    from_start :
        (fuel v : ℕ) (path : List Text)
        → v < length g.id_to_node
        → v ≡ start
        → Traced (suc fuel) v ds previous path
    from_start fuel v path h e = (
      start ∷ [],
      zero_f,
      rw e i.start_zero,
      begin e refl refl,
      back_start fuel v previous path h small e ∙ rw e refl,
    )

    onward :
        (fuel v : ℕ) (path : List Text) (l : Linked g health m start ds previous settled level v)
        → v < length g.id_to_node
        → v ≢ start
        → Traced fuel l.before ds previous (name_at v ∷ path)
        → Traced (suc fuel) v ds previous path
    onward fuel v path l h n (walk, d, q, w, back) = (
      v ∷ walk,
      l.far,
      l.dist,
      go (subst (λ x. Walk g health m start l.before x walk) (ground (arith, l.dist_before)) w)
          l.edge l.sum refl,
      back_step fuel v l.before previous path h small n l.previous_of ∙ back,
    )

    settled-Traced :
        (fuel v : ℕ) (path : List Text)
        → v < length g.id_to_node
        → settled v ≡ true
        → length g.id_to_node < fuel + level v
        → Traced fuel v ds previous path
    settled-Traced zero v path h s b = absurd (omega (arith, (i.levels v s).2))
    settled-Traced (suc fuel) v path h s b = elim (Bool-cases (v == start)) [
      | inl e ↦ from_start fuel v path h (ground arith)
      | inr e ↦
          let n : v ≢ start = λ q. ground arith in
          elim (i.link v h n) [
            | inl (_, k, _) ↦ absurd (ground arith)
            | inr l ↦ onward fuel v path l h n (
                settled-Traced fuel l.before (name_at v ∷ path)
                  (i.levels l.before l.settled_before).0 l.settled_before
                  (omega (arith, l.lower s, b)))
          ]
    ]

    -- The goal, which is not settled, but has an entry.
    pub goal-Traced :
        (v : ℕ)
        → v < length g.id_to_node
        → v ≢ start
        → settled v ≡ false
        → ¬ All (λ x. x.node ≢ v) heap
        → Traced (length g.id_to_node + 1) v ds previous []
    goal-Traced v h n s a = elim (i.link v h n) [
      | inl (_, _, b) ↦ absurd (a b)
      | inr l ↦
          let n' = length g.id_to_node in
          let (x, y, _) = i.levels l.before l.settled_before in
          let one_more : suc n' ≡ n' + 1 = omega arith in
          subst (λ k. Traced k v ds previous []) one_more
            (onward n' v [] l h n (
              settled-Traced n' l.before (name_at v ∷ []) x l.settled_before
                (omega (arith, y, count-mark settled n' v h s))))
    ]
