-- ===== src/Cost/Bounds.antt =====
-- src/lib.rs: the weight of an edge is never negative, and the two ways to compute it agree.
use trust_system.Prelude.{ℕ, ◌≤◌, ◌≡◌, inl, inr, true, false, not, ◌||◌, arith, is_err, Bool-cases}
use trust_system.Prelude.Text.{is_empty}
use trust_system.Prelude.Words.{u64_max}
use trust_system.Prelude.Float.{
  Floats, Num, ◌<ᶠ◌, ◌≤ᶠ◌, ◌+ᶠ◌, ◌*ᶠ◌, ◌/ᶠ◌, of_nat, zero_f, one_f, clamp, is_finite, IsIeee,
}
use trust_system.Cost.{
  TenantCostModel, validate, Edge, edge_is_valid, edge_weight, normalize, IndexedEdge, is_valid,
  weight,
}

module _ ⦃f : Floats⦄ (ieee : IsIeee) where
  pub add_nonneg :
      (a b : Num) → (zero_f ≤ᶠ a) ≡ true → (zero_f ≤ᶠ b) ≡ true → (zero_f ≤ᶠ a +ᶠ b) ≡ true
  add_nonneg a b p q = ieee.le_trans zero_f a (a +ᶠ b) p (ieee.le-add a b p q)

  -- A number that is finite and not below 0 is 0 or more.
  nonneg_of : (a : Num) → is_finite a ≡ true → (a <ᶠ zero_f) ≡ false → (zero_f ≤ᶠ a) ≡ true
  nonneg_of a h l = ieee.le_numbers a zero_f (ieee.finite_number a h) ieee.zero_le_zero l

  -- Within 0 and 1, for a number that is not NaN.
  pub clamp_unit :
      (x : Num)
      → (x ≤ᶠ x) ≡ true
      → ((zero_f ≤ᶠ clamp zero_f one_f x) ≡ true) × ((clamp zero_f one_f x ≤ᶠ one_f) ≡ true)
  clamp_unit x h =
      let one_one = ieee.finite_number one_f ieee.finite_one in
      elim (Bool-cases (x <ᶠ zero_f)) [
        | inl a ↦ elim (Bool-cases (one_f <ᶠ zero_f)) [
          | inl b ↦ rw (a, b) (ieee.zero_le_one, one_one)
          | inr b ↦ rw (a, b) (ieee.zero_le_zero, ieee.zero_le_one)
        ]
        | inr a ↦ elim (Bool-cases (one_f <ᶠ x)) [
          | inl b ↦ rw (a, b) (ieee.zero_le_one, one_one)
          | inr b ↦
              rw (a, b)
                (
                  ieee.le_numbers x zero_f h ieee.zero_le_zero a,
                  ieee.le_numbers one_f x one_one h b,
                )
        ]
      ]

  -- A number from 0 to 1.
  abbrev pub IsUnit : Num → Type 0
  IsUnit x = ((zero_f ≤ᶠ x) ≡ true) × (is_finite x ≡ true)

  clamp-IsUnit : (x : Num) → (x ≤ᶠ x) ≡ true → IsUnit (clamp zero_f one_f x)
  clamp-IsUnit x h =
      let (low, high) = clamp_unit x h in
      (low, ieee.finite_below (clamp zero_f one_f x) one_f low high ieee.finite_one)

  number_of : (a : Num) → (zero_f ≤ᶠ a) ≡ true → (a ≤ᶠ a) ≡ true
  number_of a p =
      ground (arith, ieee.le_of_not_lt a a p p, ieee.le_of_lt a a, ieee.not_le_of_lt a a)

  normalize-IsUnit :
      (value ceiling : Num)
      → (zero_f ≤ᶠ value) ≡ true
      → is_finite ceiling ≡ true
      → IsUnit (normalize value ceiling)
  unfolding normalize
  normalize-IsUnit value ceiling p h = elim (Bool-cases (ceiling ≤ᶠ zero_f)) [
    | inl e ↦ rw (normalize, e) (ieee.zero_le_one, ieee.finite_one)
    | inr e ↦
        rw (normalize, e)
          (clamp-IsUnit (value /ᶠ ceiling)
            (number_of (value /ᶠ ceiling) (ieee.div_nonneg value ceiling p h e)))
  ]

  -- What a cost model that validates is known by.
  abbrev IsWeight : Num → Type 0
  IsWeight w = (is_finite w ≡ true) × ((zero_f ≤ᶠ w) ≡ true)

  validated :
      (m : TenantCostModel)
      → is_err (validate m) ≡ false
      → IsWeight m.weights.w_dollar
        × IsWeight m.weights.w_latency
        × IsWeight m.weights.w_risk
        × IsWeight m.weights.w_base
        × (is_finite m.ceilings.max_dollar ≡ true)
        × (is_finite m.ceilings.max_base ≡ true)
  unfolding validate
  validated m h = (
    (ground arith, nonneg_of m.weights.w_dollar (ground arith) (ground arith)),
    (ground arith, nonneg_of m.weights.w_latency (ground arith) (ground arith)),
    (ground arith, nonneg_of m.weights.w_risk (ground arith) (ground arith)),
    (ground arith, nonneg_of m.weights.w_base (ground arith) (ground arith)),
    ground arith,
    ground arith,
  )

  term : (w x : Num) → IsWeight w → IsUnit x → (zero_f ≤ᶠ w *ᶠ x) ≡ true
  term w x p q = ieee.mul_nonneg w x p.1 q.0 p.0 q.1

  -- On IEEE floats the weight of an edge is 0 or more, valid or not, with any cost model whose latency
  -- ceiling is a u64.
  pub weight-nonneg :
      (e : IndexedEdge) (m : TenantCostModel)
      → m.ceilings.max_latency_ms ≤ u64_max
      → (zero_f ≤ᶠ weight e m) ≡ true
  unfolding weight is_valid
  weight-nonneg e m b = elim (Bool-cases (not (is_valid e) || is_err (validate m))) [
    | inl bad ↦ rw (weight, bad) (ieee.le_infinity zero_f ieee.zero_le_zero)
    | inr good ↦
        let (wd, wl, wr, wb, cd, cb) = validated m (ground arith) in
        let dollar : (zero_f ≤ᶠ e.dollar_cost) ≡ true = ground arith in
        let base : (zero_f ≤ᶠ e.base_cost) ≡ true = ground arith in
        let risk : is_finite e.risk ≡ true = ground arith in
        rw (weight, good)
          (add_nonneg _ _
            (add_nonneg _ _
              (add_nonneg _ _
                (term _ _ wd (normalize-IsUnit e.dollar_cost m.ceilings.max_dollar dollar cd))
                (term _ _ wl (
                  normalize-IsUnit (of_nat e.latency_ms) (of_nat m.ceilings.max_latency_ms)
                    (ieee.of_nat_nonneg e.latency_ms)
                    (ieee.of_nat_finite m.ceilings.max_latency_ms b))))
              (term _ _ wr (clamp-IsUnit e.risk (ieee.finite_number e.risk risk))))
            (term _ _ wb (normalize-IsUnit e.base_cost m.ceilings.max_base base cb)))
  ]

module _ ⦃f : Floats⦄ where
  -- The edge that `add_edge` stores.
  abbrev pub index_edge : Edge → ℕ → IndexedEdge
  index_edge e target = record {
    target = target;
    base_cost = e.base_cost;
    dollar_cost = e.dollar_cost;
    latency_ms = e.latency_ms;
    risk = e.risk;
    enabled = e.enabled;
  }

  -- `Edge::weight` of an edge with both names and `IndexedEdge::weight` of what the graph stores of it
  -- are the same, whatever the cost model and the arithmetic.
  pub edge_weight-weight :
      (e : Edge) (target : ℕ) (m : TenantCostModel)
      → is_empty e.from ≡ false
      → is_empty e.to ≡ false
      → edge_weight e m ≡ weight (index_edge e target) m
  unfolding edge_weight weight edge_is_valid is_valid
  edge_weight-weight e target m p q = simp (edge_weight, weight, p, q)
