-- ===== src/Graph/Order.antt =====
-- The distances and the heap of the search: each entry is at most as good as the distance of its
-- node, a settled node has no entry at its distance, and no entry costs less than a settled node.
use trust_system.Prelude.{
  ℕ, zero, suc, ◌+◌, ◌≤◌, ◌≡◌, refl, sym, ap, subst, ◌∙◌, ◌≢◌, ◌⊎◌, inl, inr, Bool, true, false,
  some, List, [], ◌∷◌, arith, ◌==◌, if◌then◌else◌, get_elem?, set, All, Bool-cases,
}
use mathlib.Core.Option.{some-injective}
use trust_system.Prelude.Float.{Floats, Num, ◌<ᶠ◌, ◌≤ᶠ◌, zero_f, IsIeee}
use trust_system.Graph.{SearchState, pop}
use trust_system.Graph.Heap.{fresh, pop-All, pop-fresh, pop-least, le_refl}
use trust_system.Graph.Potential.{Flags, mark}

pub get-set_self :
    {A : Type 0} (xs : List A) (i : ℕ) (v : A) (w : A) → get_elem? (set xs i v) i ≡ some w → w ≡ v
get-set_self [] i v w e = absurd (cc)
get-set_self (x ∷ xs) zero v w e = sym (some-injective v w e)
get-set_self (x ∷ xs) (suc i) v w e = get-set_self xs i v w e

pub get-set_ne :
    {A : Type 0} (xs : List A) (i j : ℕ) (v : A) → j ≢ i → get_elem? (set xs i v) j ≡ get_elem? xs j
get-set_ne [] i j v n = refl
get-set_ne (x ∷ xs) zero zero v n = absurd (n refl)
get-set_ne (x ∷ xs) zero (suc j) v n = refl
get-set_ne (x ∷ xs) (suc i) zero v n = refl
get-set_ne (x ∷ xs) (suc i) (suc j) v n = get-set_ne xs i j v (λ e. n (ap suc e))

module _ ⦃f : Floats⦄ where
  -- An entry is exact or stale.
  abbrev pub Exact : List Num → SearchState → Type 0
  Exact ds x = (d : Num) → get_elem? ds x.node ≡ some d → (x.cost ≡ d) ⊎ ((d <ᶠ x.cost) ≡ true)

  pub record Node (heap : List SearchState) (settled : Bool) (v : ℕ) (d : Num) : Type 0 where
    pub nonneg : (zero_f ≤ᶠ d) ≡ true
    pub count : fresh v d heap ≤ (if settled then 0 else 1)
    pub least : settled ≡ true → All (λ x. (d ≤ᶠ x.cost) ≡ true) heap

  pub record Order (ds : List Num) (heap : List SearchState) (settled : Flags) : Type 0 where
    pub positive : All (λ x. (zero_f ≤ᶠ x.cost) ≡ true) heap
    pub exact : All (Exact ds) heap
    pub node : (v : ℕ) (d : Num) → get_elem? ds v ≡ some d → Node heap (settled v) v d

  -- Every settled node is at most this far.
  abbrev pub Below : List Num → Flags → Num → Type 0
  Below ds settled c =
      (v : ℕ) (d : Num) → get_elem? ds v ≡ some d → settled v ≡ true → (d ≤ᶠ c) ≡ true

  fresh-cons :
      (v : ℕ) (d : Num) (t : SearchState) (o : List SearchState) → fresh v d o ≤ fresh v d (t ∷ o)
  fresh-cons v d t o = omega arith

  -- An entry is dropped.
  pub pop-Order :
      (ds : List Num) (heap : List SearchState) (settled : Flags) (t : SearchState)
      (o : List SearchState)
      → pop heap ≡ some (t, o)
      → Order ds heap settled
      → Order ds o settled
  pop-Order ds heap settled t o e i = record {
    positive = (pop-All _ heap t o e i.positive).1;
    exact = (pop-All _ heap t o e i.exact).1;
    node = λ v d g.
        let n = i.node v d g in
        record {
          nonneg = n.nonneg;
          count = omega (arith, n.count, pop-fresh v d heap t o e, fresh-cons v d t o);
          least = λ s. (pop-All _ heap t o e (n.least s)).1;
        };
  }

  module _ (ieee : IsIeee) where
    lt_irrefl : (a : Num) → (zero_f ≤ᶠ a) ≡ true → (a <ᶠ a) ≡ false
    lt_irrefl a h = ground (arith, ieee.not_le_of_lt a a, le_refl ieee a h)

    -- The popped entry of an unsettled node is exact, and its node is settled by it.
    pub settle-Order :
        (ds : List Num) (heap : List SearchState) (settled : Flags) (t : SearchState)
        (o : List SearchState) (best : Num)
        → pop heap ≡ some (t, o)
        → get_elem? ds t.node ≡ some best
        → (best <ᶠ t.cost) ≡ false
        → Order ds heap settled
        → (t.cost ≡ best)
          × (settled t.node ≡ false)
          × Order ds o (mark t.node settled)
          × Below ds (mark t.node settled) t.cost
    settle-Order ds heap settled t o best e g b i =
        let same : t.cost ≡ best = elim ((pop-All _ heap t o e i.exact).0 best g) [
          | inl p ↦ p
          | inr p ↦ absurd (ground arith)
        ] in
        let n = i.node t.node best g in
        let one : fresh t.node best heap ≡ 1 + fresh t.node best o =
          ground (arith, pop-fresh t.node best heap t o e) in
        let fresh_top : settled t.node ≡ false = elim (Bool-cases (settled t.node)) [
          | inr p ↦ p
          | inl p ↦ absurd (ground (arith, n.count))
        ] in
        (
          same,
          fresh_top,
          record {
            positive = (pop-All _ heap t o e i.positive).1;
            exact = (pop-All _ heap t o e i.exact).1;
            node = λ v d h. elim (Bool-cases (v == t.node)) [
              | inl p ↦
                  let q : v ≡ t.node = ground arith in
                  let r : d ≡ best = ground arith in
                  record {
                    nonneg = (i.node v d h).nonneg;
                    count = ground (arith, n.count);
                    least = λ s.
                        subst (λ x. All (λ y. (x ≤ᶠ y.cost) ≡ true) o) (same ∙ sym r)
                          (pop-least ieee heap t o e i.positive);
                  }
              | inr p ↦
                  let m = (pop-Order ds heap settled t o e i).node v d h in
                  record {
                    nonneg = m.nonneg;
                    count = ground (arith, m.count);
                    least = λ s. m.least (ground arith);
                  }
            ];
          },
          λ v d h s. elim (Bool-cases (v == t.node)) [
            | inl p ↦
                let q : v ≡ t.node = ground arith in
                let r : d ≡ best = ground arith in rw (r, same) (le_refl ieee best n.nonneg)
            | inr p ↦ (pop-All _ heap t o e ((i.node v d h).least (ground arith))).0
          ],
        )
