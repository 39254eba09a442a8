-- ===== src/Graph/Improve.antt =====
-- The search: a cheaper way to a node keeps the distances and the heap in order.
use trust_system.Prelude.{
  ℕ, ◌≡◌, refl, sym, subst, ◌∙◌, ◌≢◌, inl, inr, true, false, some, List, [], ◌∷◌, arith, ◌==◌,
  get_elem?, set, All, Bool-cases,
}
use trust_system.Prelude.Float.{Floats, Num, ◌<ᶠ◌, ◌≤ᶠ◌, ◌+ᶠ◌, zero_f, IsIeee}
use trust_system.Graph.{SearchState}
use trust_system.Graph.Heap.{fresh, lt_of_lt_of_le}
use trust_system.Graph.Potential.{Flags}
use trust_system.Graph.Order.{Exact, Order, Below, get-set_self, get-set_ne}

module _ ⦃f : Floats⦄ (ieee : IsIeee) where
  -- Entries of a node whose distance falls are stale.
  stale :
      (ds : List Num) (v : ℕ) (old next : Num) (x : SearchState)
      → (zero_f ≤ᶠ next) ≡ true
      → (next <ᶠ old) ≡ true
      → get_elem? ds v ≡ some old
      → (zero_f ≤ᶠ x.cost) ≡ true
      → Exact ds x
      → x.node ≡ v
      → (next <ᶠ x.cost) ≡ true
  stale ds v old next x z l g p h q = elim (h old (rw q g)) [
    | inl e ↦ rw e l
    | inr e ↦ lt_of_lt_of_le ieee next old x.cost z p l (ieee.le_of_lt old x.cost e)
  ]

  no_fresh :
      (ds : List Num) (v : ℕ) (old next : Num) (heap : List SearchState)
      → (zero_f ≤ᶠ next) ≡ true
      → (next <ᶠ old) ≡ true
      → get_elem? ds v ≡ some old
      → All (λ x. (zero_f ≤ᶠ x.cost) ≡ true) heap
      → All (Exact ds) heap
      → fresh v next heap ≡ 0
  no_fresh ds v old next [] z l g p h = refl
  no_fresh ds v old next (x ∷ heap) z l g p h = elim (Bool-cases (x.node == v)) [
    | inl q ↦
        let s = stale ds v old next x z l g p.0 h.0 (ground arith) in
        ground (arith, no_fresh ds v old next heap z l g p.1 h.1)
    | inr q ↦ ground (arith, no_fresh ds v old next heap z l g p.1 h.1)
  ]

  module _ (ds : List Num) (heap : List SearchState) (settled : Flags) (target : ℕ)
      (cost w old : Num) (z : (zero_f ≤ᶠ cost) ≡ true) (zw : (zero_f ≤ᶠ w) ≡ true)
      (g : get_elem? ds target ≡ some old) (l : (cost +ᶠ w <ᶠ old) ≡ true)
      (i : Order ds heap settled) (below : Below ds settled cost) where
    abbrev next : Num
    next = cost +ᶠ w

    abbrev pushed : List SearchState
    pushed = record { node = target; cost = next } ∷ heap

    next_up : (cost ≤ᶠ next) ≡ true
    next_up = ieee.le-add cost w z zw

    next_positive : (zero_f ≤ᶠ next) ≡ true
    next_positive = ieee.le_trans zero_f cost next z next_up

    pub improve_unsettled : settled target ≡ false
    improve_unsettled = elim (Bool-cases (settled target)) [
      | inr p ↦ p
      | inl p ↦ absurd (
          ground (
            arith,
            ieee.le_trans old cost next (below target old g p) next_up,
            ieee.not_le_of_lt next old l,
          ))
    ]

    -- The distance of another node is as before.
    other :
        (v : ℕ) (d : Num)
        → v ≢ target
        → get_elem? (set ds target next) v ≡ some d
        → get_elem? ds v ≡ some d
    other v d n e = sym (get-set_ne ds target v next n) ∙ e

    ne_of : (v : ℕ) → (v == target) ≡ false → v ≢ target
    ne_of v p e = ground arith

    pub improve-Below : Below (set ds target next) settled cost
    improve-Below v d e s = elim (Bool-cases (v == target)) [
      | inl p ↦ absurd (ground (arith, improve_unsettled))
      | inr p ↦ below v d (other v d (ne_of v p) e) s
    ]

    keeps_place :
        (x : SearchState) → (zero_f ≤ᶠ x.cost) ≡ true → Exact ds x → Exact (set ds target next) x
    keeps_place x p h d e = elim (Bool-cases (x.node == target)) [
      | inl q ↦
          let r : x.node ≡ target = ground arith in
          let s : d ≡ next =
            get-set_self ds target next d
              (subst (λ j. get_elem? (set ds target next) j ≡ some d) r e) in
          inr (rw s (stale ds target old next x next_positive l g p h r))
      | inr q ↦ h d (other x.node d (ne_of x.node q) e)
    ]

    All-both :
        (P Q R : SearchState → Type 0)
        → ((x : SearchState) → P x → Q x → R x)
        → (xs : List SearchState) → All P xs
        → All Q xs
        → All R xs
    All-both P Q R k [] p q = tt
    All-both P Q R k (x ∷ xs) p q = (k x p.0 q.0, All-both P Q R k xs p.1 q.1)

    pub improve-Order : Order (set ds target next) pushed settled
    improve-Order = record {
      positive = (next_positive, i.positive);
      exact = (
        λ d e. inl (sym (get-set_self ds target next d e)),
        All-both _ _ _ keeps_place heap i.positive i.exact,
      );
      node = λ v d e. elim (Bool-cases (v == target)) [
        | inl p ↦
            let r : v ≡ target = ground arith in
            let s : d ≡ next =
              get-set_self ds target next d
                (subst (λ j. get_elem? (set ds target next) j ≡ some d) r e) in
            let none_left = no_fresh ds target old next heap next_positive l g i.positive i.exact in
            record {
              nonneg = rw s next_positive;
              count = rw (s, r) (ground (arith, none_left, improve_unsettled));
              least = λ t. absurd (ground (arith, improve_unsettled));
            }
        | inr p ↦
            let e' = other v d (ne_of v p) e in
            let n = i.node v d e' in
            record {
              nonneg = n.nonneg;
              count = ground (arith, n.count);
              least = λ t. (ieee.le_trans d cost next (below v d e' t) next_up, n.least t);
            }
      ];
    }
