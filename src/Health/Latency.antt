-- ===== src/Health/Latency.antt =====
-- The latency ring of a tracker, and the percentile read from it.
use mathlib.Core.List.{Mem, foldl, mem-append_right, mem-cons_self, mem-cons_of_mem}
use mathlib.Core.Option.{none-ne-some, some-injective}
use mathlib.Core.List.Perm
use trust_system.Prelude.{
  Bool, true, false, ◌⊎◌, ℕ, zero, suc, ◌≡◌, refl, ap, ◌∙◌, List, [], ◌∷◌, ◌++◌, some, arith,
  length, get_elem?, rest, ◌==◌, if◌then◌else◌, Option-cases, inl, inr,
}
use Prim.Native.Nat.{compare}
use trust_system.Prelude.Float.{Floats}
use trust_system.Prelude.Sort.{sort_by, sort_by-perm}
use trust_system.Prelude.Window.{last_n, push_all-last_n}
use trust_system.Health.Machine.{Event, result, probe, force, step}
use trust_system.Health.{
  HealthPolicy, after_success, after_failure, record_result_with_policy,
  transition_to_half_open_if_ready, force_half_open, HealthTracker, default_tracker,
  latency_sample_limit, push_sample, percentile_index, record_latency_sample,
}

mem-get_elem? : (xs : List ℕ) (i v : ℕ) → get_elem? xs i ≡ some v → Mem v xs
mem-get_elem? [] i v e = absurd (none-ne-some v e)
mem-get_elem? (x ∷ xs) zero v e = rw (← some-injective x v e) mem-cons_self
mem-get_elem? (x ∷ xs) (suc i) v e = mem-cons_of_mem x (mem-get_elem? xs i v e)

push_sample_lem :
    (xs : List ℕ) (x : ℕ)
    → push_sample xs x ≡ (if length xs == latency_sample_limit then rest xs else xs) ++ x ∷ []
unfolding push_sample
push_sample_lem xs x = refl

newest-mem : (xs : List ℕ) (x : ℕ) → Mem x (push_sample xs x)
unfolding push_sample
newest-mem xs x = mem-append_right _ mem-cons_self

module _ ⦃f : Floats⦄ where
  abbrev pub Sampled : HealthTracker → Type 0
  Sampled t = Mem t.p99_latency_ms t.latency_samples

  -- The reported percentile is one of the latencies in the ring, whatever the index rounds to.
  pub p99-mem : (t : HealthTracker) (latency_ms : ℕ) → Sampled (record_latency_sample t latency_ms)
  unfolding record_latency_sample
  p99-mem t latency_ms =
      let samples = push_sample t.latency_samples latency_ms in
      let sorted = sort_by compare samples in
      elim (Option-cases (get_elem? sorted (percentile_index (length sorted)))) [
        | inl e ↦ rw (e, record_latency_sample) (newest-mem t.latency_samples latency_ms)
        | inr (v, e) ↦
            rw (e, record_latency_sample)
              ((Perm.mem_iff (sort_by-perm compare samples)).0 (mem-get_elem? sorted _ v e))
      ]

  -- The latencies that the calls report: those of results, and none of probes.
  abbrev pub latencies : List (HealthPolicy × Event) → List ℕ
  latencies [] = []
  latencies ((policy, result success latency_ms now) ∷ es) = latency_ms ∷ latencies es
  latencies ((policy, probe cooldown now) ∷ es) = latencies es
  latencies ((policy, force) ∷ es) = latencies es

  abbrev pub call : HealthTracker → HealthPolicy × Event → HealthTracker
  call t (policy, e) = step policy t e

  -- The ring and the percentile are those of another tracker.
  abbrev Kept : HealthTracker → HealthTracker → Type 0
  Kept t u = (u.latency_samples ≡ t.latency_samples) × (u.p99_latency_ms ≡ t.p99_latency_ms)

  Sampled-Kept : (t u : HealthTracker) → Kept t u → Sampled t → Sampled u
  Sampled-Kept t u (p, q) h = rw (p, q) h

  success-Kept : (t : HealthTracker) (policy : HealthPolicy) → Kept t (after_success t policy)
  unfolding after_success
  success-Kept t policy = ground arith

  result-Kept :
      (t : HealthTracker) (policy : HealthPolicy) (success : Bool) (latency_ms now : ℕ)
      → Kept (record_latency_sample t latency_ms) (call t (policy, result success latency_ms now))
  unfolding step record_result_with_policy after_failure
  result-Kept t policy true latency_ms now =
      success-Kept (record_latency_sample t latency_ms) policy
  result-Kept t policy false latency_ms now = (refl, refl)

  probe-Kept :
      (t : HealthTracker) (policy : HealthPolicy) (cooldown now : ℕ)
      → Kept t (call t (policy, probe cooldown now))
  unfolding step transition_to_half_open_if_ready
  probe-Kept t policy cooldown now = ground arith

  force-Kept : (t : HealthTracker) (policy : HealthPolicy) → Kept t (call t (policy, force))
  unfolding step force_half_open
  force-Kept t policy = ground arith

  call-Sampled : (t : HealthTracker) (e : HealthPolicy × Event) → Sampled t → Sampled (call t e)
  call-Sampled t (policy, result success latency_ms now) h =
      Sampled-Kept (record_latency_sample t latency_ms)
        (call t (policy, result success latency_ms now))
        (result-Kept t policy success latency_ms now) (p99-mem t latency_ms)
  call-Sampled t (policy, probe cooldown now) h =
      Sampled-Kept t (call t (policy, probe cooldown now)) (probe-Kept t policy cooldown now) h
  call-Sampled t (policy, force) h = Sampled-Kept t (call t (policy, force)) (force-Kept t policy) h

  calls-Sampled :
      (t : HealthTracker) (es : List (HealthPolicy × Event)) → Sampled t → Sampled (foldl call t es)
  calls-Sampled t [] h = h
  calls-Sampled t (e ∷ es) h = calls-Sampled (call t e) es (call-Sampled t e h)

  ring_or_none :
      (t : HealthTracker) (es : List (HealthPolicy × Event))
      → (latencies es ≡ []) ⊎ Sampled (foldl call t es)
  ring_or_none t [] = inl refl
  ring_or_none t ((policy, result success latency_ms now) ∷ es) = inr (
      calls-Sampled (call t (policy, result success latency_ms now)) es (
        Sampled-Kept (record_latency_sample t latency_ms)
          (call t (policy, result success latency_ms now))
          (result-Kept t policy success latency_ms now) (p99-mem t latency_ms)))
  ring_or_none t ((policy, probe cooldown now) ∷ es) =
      ring_or_none (call t (policy, probe cooldown now)) es
  ring_or_none t ((policy, force) ∷ es) = ring_or_none (call t (policy, force)) es

  samples-foldl :
      (t : HealthTracker) (es : List (HealthPolicy × Event))
      → (foldl call t es).latency_samples ≡ foldl push_sample t.latency_samples (latencies es)
  unfolding record_latency_sample
  samples-foldl t [] = refl
  samples-foldl t ((policy, result success latency_ms now) ∷ es) =
      samples-foldl (call t (policy, result success latency_ms now)) es
      ∙ ap (λ l. foldl push_sample l (latencies es)) (result-Kept t policy success latency_ms now).0
  samples-foldl t ((policy, probe cooldown now) ∷ es) =
      samples-foldl (call t (policy, probe cooldown now)) es
      ∙ ap (λ l. foldl push_sample l (latencies es)) (probe-Kept t policy cooldown now).0
  samples-foldl t ((policy, force) ∷ es) =
      samples-foldl (call t (policy, force)) es
      ∙ ap (λ l. foldl push_sample l (latencies es)) (force-Kept t policy).0

  -- Whatever results are recorded, successes and failures, and whatever probes come in between, each
  -- call with any policy: a tracker that began new holds the latencies of the last 128 results,
  -- oldest first; and once there was a result, its percentile is one of them.
  pub samples-last_n :
      (es : List (HealthPolicy × Event))
      → ((foldl call default_tracker es).latency_samples
          ≡ last_n latency_sample_limit (latencies es))
        × ((latencies es ≡ []) ⊎ Sampled (foldl call default_tracker es))
  samples-last_n es = (
    samples-foldl default_tracker es
        ∙ push_all-last_n latency_sample_limit push_sample (omega arith) push_sample_lem []
            (latencies es),
    ring_or_none default_tracker es,
  )
