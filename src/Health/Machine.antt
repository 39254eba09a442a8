-- ===== src/Health/Machine.antt =====
-- The circuit breaker as a state machine: what each call does to the state, and when.
use trust_system.Prelude.{
  ℕ, ◌-◌, ◌≤◌, ◌<◌, ◌≡◌, refl, ap, ◌≢◌, ◌⊎◌, inl, inr, Bool, true, false, none, some, arith,
}
use trust_system.Prelude.Words.{inc32}
use trust_system.Prelude.Float.{Floats}
use trust_system.Health.{
  HealthPolicy, HealthTracker, healthy, degraded, open_circuit, half_open, default_tracker,
  record_latency_sample, after_success, after_failure, record_result_with_policy,
  transition_to_half_open_if_ready, force_half_open,
}

pub data Event : Type 0 where
  result : Bool → ℕ → ℕ → Event
  probe : ℕ → ℕ → Event
  force : Event

module _ ⦃f : Floats⦄ where
  -- An open circuit knows since when, and a healthy node has forgotten.
  pub record Inv (t : HealthTracker) : Type 0 where
    pub open_since : t.state ≡ open_circuit → t.opened_at ≢ none
    pub closed : t.state ≡ healthy → t.opened_at ≡ none

  pub default-Inv : Inv default_tracker
  default-Inv = record { open_since = λ e. absurd (cc); closed = λ e. refl }

  -- One call of a method: a result with its latency and time, a probe with its cooldown and time, or
  -- a forced probe.
  unfoldable pub step : HealthPolicy → HealthTracker → Event → HealthTracker
  step policy t (result success latency_ms now) =
      (record_result_with_policy t success latency_ms policy now).0
  step policy t (probe cooldown now) = (transition_to_half_open_if_ready t cooldown now).0
  step policy t force = (force_half_open t).0

  success-Inv : (policy : HealthPolicy) (t : HealthTracker) → Inv t → Inv (after_success t policy)
  unfolding after_success
  success-Inv policy t v = record {
    open_since = λ e. ground (arith, v.open_since);
    closed = λ e. ground (arith, v.closed);
  }

  failure-Inv :
      (policy : HealthPolicy) (t : HealthTracker) (now : ℕ)
      → Inv t
      → Inv (after_failure t policy now)
  unfolding after_failure
  failure-Inv policy t now v = record {
    open_since = λ e. ground (arith, v.open_since);
    closed = λ e. ground (arith, v.closed);
  }

  sampled-Inv :
      (t : HealthTracker) (latency_ms : ℕ) → Inv t → Inv (record_latency_sample t latency_ms)
  unfolding record_latency_sample
  sampled-Inv t latency_ms v = record { open_since = v.open_since; closed = v.closed }

  -- Every call keeps this of a tracker: an open circuit knows when it opened, and a healthy node has
  -- no such time.
  pub step-Inv :
      (policy : HealthPolicy) (t : HealthTracker) (e : Event) → Inv t → Inv (step policy t e)
  unfolding step record_result_with_policy transition_to_half_open_if_ready force_half_open
  step-Inv policy t (result true latency_ms now) v =
      success-Inv policy _ (sampled-Inv t latency_ms v)
  step-Inv policy t (result false latency_ms now) v =
      failure-Inv policy _ now (sampled-Inv t latency_ms v)
  step-Inv policy t (probe cooldown now) v = record {
    open_since = λ e. ground (arith, v.open_since);
    closed = λ e. ground (arith, v.closed);
  }
  step-Inv policy t force v = record {
    open_since = λ e. ground (arith, v.open_since);
    closed = λ e. ground (arith, v.closed);
  }

  -- What a step may do to the state: nothing, or one of the moves of the breaker with its reason.
  pub data Move (policy : HealthPolicy) (t u : HealthTracker) : Event → Type 0 where
    stay : {e : Event} → u.state ≡ t.state → Move policy t u e
    open_up :
        {latency_ms now : ℕ}
        → u.state ≡ open_circuit
        → policy.open_threshold ≤ inc32 t.consecutive_failures
        → t.state ≢ open_circuit
        → u.opened_at ≡ some now
        → Move policy t u (result false latency_ms now)
    degrade :
        {latency_ms now : ℕ}
        → u.state ≡ degraded
        → policy.degraded_threshold ≤ inc32 t.consecutive_failures
        → inc32 t.consecutive_failures < policy.open_threshold
        → Move policy t u (result false latency_ms now)
    heal_half_open :
        {latency_ms now : ℕ}
        → t.state ≡ half_open
        → u.state ≡ healthy
        → u.opened_at ≡ none
        → policy.half_open_success_needed ≤ inc32 t.consecutive_successes
        → Move policy t u (result true latency_ms now)
    heal_degraded :
        {latency_ms now : ℕ}
        → t.state ≡ degraded
        → u.state ≡ healthy
        → u.opened_at ≡ none
        → policy.degraded_success_needed ≤ inc32 t.consecutive_successes
        → Move policy t u (result true latency_ms now)
    cool :
        {cooldown now since : ℕ}
        → t.state ≡ open_circuit
        → t.opened_at ≡ some since
        → cooldown ≤ now - since
        → u.state ≡ half_open
        → u.consecutive_successes ≡ 0
        → Move policy t u (probe cooldown now)
    forced :
        t.state ≡ open_circuit
        → u.state ≡ half_open
        → u.consecutive_successes ≡ 0
        → Move policy t u force

  success_cases :
      (policy : HealthPolicy) (t : HealthTracker)
      → ((after_success t policy).state ≡ t.state)
        ⊎ ((t.state ≡ half_open)
            × ((after_success t policy).state ≡ healthy)
            × ((after_success t policy).opened_at ≡ none)
            × (policy.half_open_success_needed ≤ inc32 t.consecutive_successes))
        ⊎ ((t.state ≡ degraded)
            × ((after_success t policy).state ≡ healthy)
            × ((after_success t policy).opened_at ≡ none)
            × (policy.degraded_success_needed ≤ inc32 t.consecutive_successes))
  unfolding after_success
  success_cases policy t = ground arith

  failure_cases :
      (policy : HealthPolicy) (t : HealthTracker) (now : ℕ)
      → ((after_failure t policy now).state ≡ t.state)
        ⊎ (((after_failure t policy now).state ≡ open_circuit)
            × (policy.open_threshold ≤ inc32 t.consecutive_failures)
            × (t.state ≢ open_circuit)
            × ((after_failure t policy now).opened_at ≡ some now))
        ⊎ (((after_failure t policy now).state ≡ degraded)
            × (policy.degraded_threshold ≤ inc32 t.consecutive_failures)
            × (inc32 t.consecutive_failures < policy.open_threshold))
  unfolding after_failure
  failure_cases policy t now = ground arith

  probe_cases :
      (t : HealthTracker) (cooldown now : ℕ)
      → (transition_to_half_open_if_ready t cooldown now ≡ (t, false))
        ⊎ ((t.state ≡ open_circuit)
            × (since : ℕ) × (t.opened_at ≡ some since)
            × (cooldown ≤ now - since)
            × (transition_to_half_open_if_ready t cooldown now
                ≡ (record t { state = half_open; consecutive_successes = 0 }, true)))
  unfolding transition_to_half_open_if_ready
  probe_cases t cooldown now = ground arith

  force_cases :
      (t : HealthTracker)
      → (force_half_open t ≡ (t, false))
        ⊎ ((t.state ≡ open_circuit)
            × (force_half_open t
                ≡ (record t { state = half_open; consecutive_successes = 0 }, true)))
  unfolding force_half_open
  force_cases t = ground arith

  -- Every step of the breaker stays put or makes one of the moves above, for the reason given there:
  -- a circuit opens only at the threshold of failures, and only an open circuit turns half-open, at
  -- a probe after the cooldown or by force.
  pub step-Move :
      (policy : HealthPolicy) (t : HealthTracker) (e : Event) → Move policy t (step policy t e) e
  unfolding step record_result_with_policy record_latency_sample
  step-Move policy t (result true latency_ms now) =
      elim (success_cases policy (record_latency_sample t latency_ms)) [
        | inl same ↦ stay same
        | inr (inl (a, b, c, d)) ↦ heal_half_open a b c d
        | inr (inr (a, b, c, d)) ↦ heal_degraded a b c d
      ]
  step-Move policy t (result false latency_ms now) =
      elim (failure_cases policy (record_latency_sample t latency_ms) now) [
        | inl same ↦ stay same
        | inr (inl (a, b, c, d)) ↦ open_up a b c d
        | inr (inr (a, b, c)) ↦ degrade a b c
      ]
  step-Move policy t (probe cooldown now) = elim (probe_cases t cooldown now) [
    | inl same ↦ stay (ap (λ r. r.0.state) same)
    | inr (a, since, b, c, e) ↦
        cool a b c (ap (λ r. r.0.state) e) (ap (λ r. r.0.consecutive_successes) e)
  ]
  step-Move policy t force = elim (force_cases t) [
    | inl same ↦ stay (ap (λ r. r.0.state) same)
    | inr (a, e) ↦ forced a (ap (λ r. r.0.state) e) (ap (λ r. r.0.consecutive_successes) e)
  ]
