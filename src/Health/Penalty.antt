-- ===== src/Health/Penalty.antt =====
-- src/lib.rs, `HealthTracker::penalty`: it is 0 or more, unless the success rate is NaN.
use trust_system.Prelude.{◌≡◌, refl, ◌⊎◌, inl, inr, true, false, arith, Bool-cases}
use trust_system.Prelude.Float.{
  Floats, Num, ◌<ᶠ◌, ◌≤ᶠ◌, ◌+ᶠ◌, ◌-ᶠ◌, ◌/ᶠ◌, of_nat, lit, zero_f, one_f, clamp, is_nan, IsIeee,
}
use trust_system.Health.{
  HealthTracker, NodeState, healthy, degraded, half_open, open_circuit, penalty,
}
use trust_system.Cost.Bounds.{add_nonneg, clamp_unit}

module _ ⦃f : Floats⦄ (ieee : IsIeee) where
  abbrev late : HealthTracker → Num
  late t = of_nat t.p99_latency_ms /ᶠ lit 10000 1

  abbrev failed : HealthTracker → Num
  failed t = one_f -ᶠ clamp zero_f one_f t.success_rate

  late_nonneg : (t : HealthTracker) → (zero_f ≤ᶠ late t) ≡ true
  late_nonneg t =
      ieee.div_nonneg (of_nat t.p99_latency_ms) (lit 10000 1) (ieee.of_nat_nonneg t.p99_latency_ms)
        (ieee.lit_finite 10000 (omega arith)) (ieee.lit_positive 10000 (omega arith))

  -- A comparison with NaN is false, so that clamping leaves it.
  clamp_nan :
      (t : HealthTracker)
      → (t.success_rate ≤ᶠ t.success_rate) ≡ false
      → is_nan (clamp zero_f one_f t.success_rate) ≡ true
  clamp_nan t h =
      let x = t.success_rate in
      let below : (x <ᶠ zero_f) ≡ false = elim (Bool-cases (x <ᶠ zero_f)) [
        | inl p ↦ absurd (ground (arith, ieee.lt_numbers x zero_f p))
        | inr p ↦ p
      ] in
      let above : (one_f <ᶠ x) ≡ false = elim (Bool-cases (one_f <ᶠ x)) [
        | inl p ↦ absurd (ground (arith, ieee.lt_numbers one_f x p))
        | inr p ↦ p
      ] in
      rw (below, above, h) refl

  failed_cases : (t : HealthTracker) → ((zero_f ≤ᶠ failed t) ≡ true) ⊎ (is_nan (failed t) ≡ true)
  failed_cases t = elim (Bool-cases (t.success_rate ≤ᶠ t.success_rate)) [
    | inl h ↦
        let (low, high) = clamp_unit ieee t.success_rate h in
        inl (ieee.sub_nonneg one_f (clamp zero_f one_f t.success_rate) low high ieee.finite_one)
    | inr h ↦ inr (ieee.sub_nan one_f (clamp zero_f one_f t.success_rate) (clamp_nan t h))
  ]

  state_cases :
      (s : NodeState) → (s ≡ healthy) ⊎ ((s ≡ degraded) ⊎ ((s ≡ half_open) ⊎ (s ≡ open_circuit)))
  state_cases healthy = inl refl
  state_cases degraded = inr (inl refl)
  state_cases half_open = inr (inr (inl refl))
  state_cases open_circuit = inr (inr (inr refl))

  plus_failed :
      (t : HealthTracker) (a : Num)
      → (zero_f ≤ᶠ a) ≡ true
      → ((zero_f ≤ᶠ a +ᶠ failed t) ≡ true) ⊎ (is_nan (a +ᶠ failed t) ≡ true)
  plus_failed t a p = elim (failed_cases t) [
    | inl q ↦ inl (add_nonneg ieee a (failed t) p q)
    | inr q ↦ inr (ieee.add_nan a (failed t) q)
  ]

  pub penalty-cases :
      (t : HealthTracker) → ((zero_f ≤ᶠ penalty t) ≡ true) ⊎ (is_nan (penalty t) ≡ true)
  unfolding penalty
  penalty-cases t =
      let half =
        add_nonneg ieee (lit 1 2) (late t) (ieee.lit_nonneg 1 2 (omega arith)) (late_nonneg t) in
      let third =
        add_nonneg ieee (lit 3 10) (late t) (ieee.lit_nonneg 3 10 (omega arith)) (late_nonneg t) in
      elim (state_cases t.state) [
        | inl s ↦ rw (penalty, s) (plus_failed t (late t) (late_nonneg t))
        | inr (inl s) ↦ rw (penalty, s) (plus_failed t (lit 1 2 +ᶠ late t) half)
        | inr (inr (inl s)) ↦ rw (penalty, s) (plus_failed t (lit 3 10 +ᶠ late t) third)
        | inr (inr (inr s)) ↦ rw (penalty, s) (inl (ieee.le_infinity zero_f ieee.zero_le_zero))
      ]
