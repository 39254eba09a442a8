-- ===== src/Graph/Heap.antt =====
-- The binary heap: `pop` takes out an entry of least cost and keeps the others.
use trust_system.Prelude.{
  ℕ, suc, ◌+◌, ◌≡◌, refl, ◌⊎◌, inl, inr, true, not, ◌&&◌, none, some, List, [], ◌∷◌, arith, length,
  All, All-map, ◌==◌, if◌then◌else◌, Ordering, Option-cases,
}
use trust_system.Prelude.Float.{Floats, Num, ◌<ᶠ◌, ◌≤ᶠ◌, zero_f, IsIeee}
use mathlib.Core.Option.{none-ne-some}
use trust_system.Graph.{SearchState, state_cmp, pop}

module _ ⦃f : Floats⦄ where
  -- Entries of node `v` that are not stale at distance `d`.
  abbrev pub fresh : ℕ → Num → List SearchState → ℕ
  fresh v d [] = 0
  fresh v d (x ∷ h) = (if x.node == v && not (d <ᶠ x.cost) then 1 else 0) + fresh v d h

  is_lt : (o : Ordering) → (o ≡ Ordering.lt) ⊎ (¬ (o ≡ Ordering.lt))
  is_lt Ordering.lt = inl refl
  is_lt Ordering.eq = inr (λ e. cc)
  is_lt Ordering.gt = inr (λ e. cc)

  -- The three ways to come by the popped entry.
  pub pop_shape :
      (x : SearchState) (h : List SearchState) (t : SearchState) (o : List SearchState)
      → pop (x ∷ h) ≡ some (t, o)
      → ((pop h ≡ none) × (t ≡ x) × (o ≡ []))
        ⊎ ((y : SearchState) × (ys : List SearchState) × (pop h ≡ some (y, ys))
            × (((state_cmp x y ≡ Ordering.lt) × (t ≡ y) × (o ≡ x ∷ ys))
                ⊎ ((¬ (state_cmp x y ≡ Ordering.lt)) × (t ≡ x) × (o ≡ y ∷ ys))))
  unfolding pop
  pop_shape x h t o e = elim (Option-cases (pop h)) [
    | inl n ↦ inl (n, ground arith, ground arith)
    | inr ((y, ys), n) ↦ elim (is_lt (state_cmp x y)) [
      | inl c ↦ inr (y, ys, n, inl (c, ground arith, ground arith))
      | inr c ↦ inr (y, ys, n, inr (c, ground arith, ground arith))
    ]
  ]

  pub pop-none : (h : List SearchState) → pop h ≡ none → h ≡ []
  unfolding pop
  pop-none [] e = refl
  pop-none (x ∷ h) e = ground arith

  pub pop-All :
      (P : SearchState → Type 0) (h : List SearchState) (t : SearchState) (o : List SearchState)
      → pop h ≡ some (t, o)
      → All P h
      → P t × All P o
  pop-All P [] t o e a = unfold pop in absurd (none-ne-some (t, o) e)
  pop-All P (x ∷ h) t o e a = elim (pop_shape x h t o e) [
    | inl (_, p, q) ↦ rw (p, q) (a.0, tt)
    | inr (y, ys, r, inl (_, p, q)) ↦ let b = pop-All P h y ys r a.1 in rw (p, q) (b.0, (a.0, b.1))
    | inr (y, ys, r, inr (_, p, q)) ↦ let b = pop-All P h y ys r a.1 in rw (p, q) (a.0, (b.0, b.1))
  ]

  pub pop-size :
      (h : List SearchState) (t : SearchState) (o : List SearchState)
      → pop h ≡ some (t, o)
      → length h ≡ suc (length o)
  pop-size [] t o e = unfold pop in absurd (none-ne-some (t, o) e)
  pop-size (x ∷ h) t o e = elim (pop_shape x h t o e) [
    | inl (n, p, q) ↦ ground (arith, pop-none h n)
    | inr (y, ys, r, inl (_, p, q)) ↦ ground (arith, pop-size h y ys r)
    | inr (y, ys, r, inr (_, p, q)) ↦ ground (arith, pop-size h y ys r)
  ]

  pub pop-fresh :
      (v : ℕ) (d : Num) (h : List SearchState) (t : SearchState) (o : List SearchState)
      → pop h ≡ some (t, o)
      → fresh v d h ≡ fresh v d (t ∷ o)
  pop-fresh v d [] t o e = unfold pop in absurd (none-ne-some (t, o) e)
  pop-fresh v d (x ∷ h) t o e = elim (pop_shape x h t o e) [
    | inl (n, p, q) ↦ rw (p, q, pop-none h n)
    | inr (y, ys, r, inl (_, p, q)) ↦ rw (p, q) (omega (arith, pop-fresh v d h y ys r))
    | inr (y, ys, r, inr (_, p, q)) ↦ rw (p, q) (omega (arith, pop-fresh v d h y ys r))
  ]

  module _ (ieee : IsIeee) where
    pub le_refl : (a : Num) → (zero_f ≤ᶠ a) ≡ true → (a ≤ᶠ a) ≡ true
    le_refl a h = ground (arith, ieee.le_of_not_lt a a, ieee.le_of_lt a a, ieee.not_le_of_lt a a)

    pub lt_of_lt_of_le :
        (a b c : Num)
        → (zero_f ≤ᶠ a) ≡ true
        → (zero_f ≤ᶠ c) ≡ true
        → (a <ᶠ b) ≡ true
        → (b ≤ᶠ c) ≡ true
        → (a <ᶠ c) ≡ true
    lt_of_lt_of_le a b c p q h k =
        ground (arith, ieee.le_of_not_lt a c, ieee.le_trans b c a, ieee.not_le_of_lt a b)

    -- The order of the heap is that of the costs.
    cmp_lt :
        (x y : SearchState)
        → (zero_f ≤ᶠ x.cost) ≡ true
        → (zero_f ≤ᶠ y.cost) ≡ true
        → state_cmp x y ≡ Ordering.lt
        → (y.cost ≤ᶠ x.cost) ≡ true
    unfolding state_cmp
    cmp_lt x y p q e = ground (
      arith,
      ieee.le_of_lt y.cost x.cost,
      ieee.le_of_not_lt x.cost y.cost,
      ieee.le_of_not_lt y.cost x.cost,
    )

    cmp_not_lt :
        (x y : SearchState)
        → (zero_f ≤ᶠ x.cost) ≡ true
        → (zero_f ≤ᶠ y.cost) ≡ true
        → ¬ (state_cmp x y ≡ Ordering.lt)
        → (x.cost ≤ᶠ y.cost) ≡ true
    unfolding state_cmp
    cmp_not_lt x y p q e = ground (
      arith,
      ieee.le_of_lt y.cost x.cost,
      ieee.le_of_lt x.cost y.cost,
      ieee.le_of_not_lt x.cost y.cost,
      ieee.le_of_not_lt y.cost x.cost,
    )

    -- The popped entry costs no more than any other.
    pub pop-least :
        (h : List SearchState) (t : SearchState) (o : List SearchState)
        → pop h ≡ some (t, o)
        → All (λ x. (zero_f ≤ᶠ x.cost) ≡ true) h
        → All (λ x. (t.cost ≤ᶠ x.cost) ≡ true) o
    pop-least [] t o e a = unfold pop in absurd (none-ne-some (t, o) e)
    pop-least (x ∷ h) t o e a = elim (pop_shape x h t o e) [
      | inl (n, p, q) ↦ rw q tt
      | inr (y, ys, r, inl (c, p, q)) ↦
          let b = pop-All (λ z. (zero_f ≤ᶠ z.cost) ≡ true) h y ys r a.1 in
          rw (p, q) (cmp_lt x y a.0 b.0 c, pop-least h y ys r a.1)
      | inr (y, ys, r, inr (c, p, q)) ↦
          let b = pop-All (λ z. (zero_f ≤ᶠ z.cost) ≡ true) h y ys r a.1 in
          let xy = cmp_not_lt x y a.0 b.0 c in
          rw (p, q)
            (
              xy,
              All-map (λ z k. ieee.le_trans x.cost y.cost z.cost xy k) ys (pop-least h y ys r a.1),
            )
    ]
