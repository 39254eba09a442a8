-- ===== src/Health/Runs.antt =====
-- Runs of results: how many failures open a circuit, and how many successes close it again.
use trust_system.Prelude.{
  ℕ, ◌+◌, ◌≤◌, ◌<◌, ◌≡◌, Bool, true, false, List, [], ◌∷◌, arith, leb, if◌then◌else◌, ok, length,
}
use trust_system.Prelude.Words.{inc32, u32_max}
use trust_system.Prelude.Float.{Floats}
use trust_system.Health.{
  HealthPolicy, HealthTracker, NodeState, healthy, degraded, open_circuit, half_open, failed_state,
  validate, record_latency_sample, after_success, after_failure, record_result_with_policy,
}

-- Results of one kind, each with its latency and time.
abbrev pub Results : Type 0
Results = List (ℕ × ℕ)

validate_lem :
    (p : HealthPolicy)
    → validate p ≡ ok tt
    → (0 < p.degraded_threshold)
      × (p.degraded_threshold ≤ p.open_threshold)
      × (0 < p.half_open_success_needed)
      × (0 < p.degraded_success_needed)
      × (0 < p.cooldown)
unfolding validate
validate_lem p h = ground arith

failed_state_again :
    (p : HealthPolicy) (s : NodeState) (n : ℕ)
    → p.degraded_threshold ≤ p.open_threshold
    → failed_state p (failed_state p s n) (n + 1) ≡ failed_state p s (n + 1)
unfolding failed_state
failed_state_again p s n h = ground arith

module _ ⦃f : Floats⦄ (policy : HealthPolicy) where
  pub all_results : Bool → HealthTracker → Results → HealthTracker
  all_results b t [] = t
  all_results b t ((latency_ms, now) ∷ rs) =
      all_results b (record_result_with_policy t b latency_ms policy now).0 rs

  failures_from :
      (t : HealthTracker) (s : NodeState) (n k : ℕ) (rs : Results)
      → policy.degraded_threshold ≤ policy.open_threshold
      → t.consecutive_failures ≡ n
      → t.state ≡ failed_state policy s n
      → n + length rs ≡ k
      → k ≤ u32_max
      → (all_results false t rs).state ≡ failed_state policy s k
  unfolding all_results record_result_with_policy record_latency_sample after_failure
  failures_from t s n k [] h c e j b = ground arith
  failures_from t s n k ((l, now) ∷ rs) h c e j b =
      failures_from (after_failure (record_latency_sample t l) policy now) s (n + 1) k rs h
        (omega arith)
        (rw (e, c)
          (let i : inc32 n ≡ n + 1 = omega arith in rw i (failed_state_again policy s n h)))
        (omega arith) b

  healthy_stays :
      (t : HealthTracker) (rs : Results)
      → t.state ≡ healthy
      → (all_results true t rs).state ≡ healthy
  unfolding all_results record_result_with_policy record_latency_sample after_success
  healthy_stays t [] e = e
  healthy_stays t ((l, now) ∷ rs) e =
      healthy_stays (after_success (record_latency_sample t l) policy) rs (ground arith)

  successes_from :
      (t : HealthTracker) (n k : ℕ) (rs : Results)
      → t.state ≡ half_open
      → t.consecutive_successes ≡ n
      → n < policy.half_open_success_needed
      → n + length rs ≡ k
      → k ≤ u32_max
      → (all_results true t rs).state
        ≡ (if leb policy.half_open_success_needed k then healthy else half_open)
  unfolding all_results record_result_with_policy record_latency_sample after_success
  successes_from t n k [] e c h j b = ground arith
  successes_from t n k ((l, now) ∷ rs) e c h j b = ground (
    arith,
    successes_from (after_success (record_latency_sample t l) policy) (n + 1) k rs,
    healthy_stays (after_success (record_latency_sample t l) policy) rs,
  )

  -- Failures in a row, after a success or none at all, open the circuit at exactly the threshold:
  -- with fewer the node is degraded from the lower threshold on, and untouched below that.
  pub failures_open :
      (t : HealthTracker) (rs : Results)
      → validate policy ≡ ok tt
      → t.consecutive_failures ≡ 0
      → length rs ≤ u32_max
      → (all_results false t rs).state ≡ (
          if leb policy.open_threshold (length rs)
          then open_circuit
          else if leb policy.degraded_threshold (length rs)
          then degraded
          else t.state)
  unfolding failed_state
  failures_open t rs v z b =
      let (low, gap, _, _, _) = validate_lem policy v in
      failures_from t t.state 0 (length rs) rs gap z (ground arith) (omega arith) b

  success_leaves_open :
      (t : HealthTracker) (latency_ms now : ℕ)
      → t.state ≡ open_circuit
      → let u = (record_result_with_policy t true latency_ms policy now).0 in
        (u.state ≡ open_circuit) × (u.consecutive_failures ≡ 0)
  unfolding record_result_with_policy record_latency_sample after_success
  success_leaves_open t latency_ms now e = ground arith

  -- A half-open node is healthy after exactly as many successes in a row as the policy wants.
  pub successes_heal :
      (t : HealthTracker) (rs : Results)
      → validate policy ≡ ok tt
      → t.state ≡ half_open
      → t.consecutive_successes ≡ 0
      → length rs ≤ u32_max
      → (all_results true t rs).state
        ≡ (if leb policy.half_open_success_needed (length rs) then healthy else half_open)
  successes_heal t rs v e z b =
      let (_, _, needed, _, _) = validate_lem policy v in
      successes_from t 0 (length rs) rs e z needed (omega arith) b

  -- An open circuit that has seen a success is reopened by failures alone: with a gap between the
  -- two thresholds, as many failures as the lower one make the node degraded, which is routable,
  -- with no cooldown and no probe.
  pub open_circuit_degrades :
      (t : HealthTracker) (latency_ms now : ℕ) (rs : Results)
      → validate policy ≡ ok tt
      → t.state ≡ open_circuit
      → policy.degraded_threshold ≤ length rs
      → length rs < policy.open_threshold
      → length rs ≤ u32_max
      → (all_results false (record_result_with_policy t true latency_ms policy now).0 rs).state
        ≡ degraded
  open_circuit_degrades t latency_ms now rs v e low high b = ground (
    arith,
    success_leaves_open t latency_ms now e,
    failures_open (record_result_with_policy t true latency_ms policy now).0 rs v,
  )
