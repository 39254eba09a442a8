-- ===== src/Health.antt =====
-- src/lib.rs, the circuit breaker: `HealthPolicy`, `NodeState` and `HealthTracker`. Times are
-- numbers on a clock that is passed to each call; the counters are u32 and wrap around.
pub mod Latency
pub mod Machine
pub mod Runs
pub mod Penalty
mod Examples
use trust_system.Prelude.{
  ℕ, suc, ◌+◌, ◌-◌, ◌<◌, ◌≡◌, Bool, true, false, not, ◌&&◌, ◌||◌, Option, none, some, List, [], ◌∷◌,
  ◌++◌, leb, ltb, ◌==◌, if◌then◌else◌, length, rest, get_elem?, holds, Result, ok, err, ◌>>=◌, ◌>>◌,
  reject_if,
}
use trust_system.Prelude.Words.{inc32}
use trust_system.Prelude.Float.{
  Floats, Num, ◌+ᶠ◌, ◌-ᶠ◌, ◌*ᶠ◌, ◌/ᶠ◌, of_nat, lit, zero_f, one_f, infinity, clamp, round,
}
use trust_system.Prelude.Sort.{sort_by}
use Prim.Native.Nat.{compare}

abbrev pub latency_sample_limit : ℕ
latency_sample_limit = 128

pub record HealthPolicy : Type 0 where
  pub open_threshold : ℕ
  pub degraded_threshold : ℕ
  pub half_open_success_needed : ℕ
  pub degraded_success_needed : ℕ
  pub cooldown : ℕ

-- The defaults; the cooldown is 30 seconds in nanoseconds.
abbrev pub default_policy : HealthPolicy
default_policy = record {
  open_threshold = 5;
  degraded_threshold = 2;
  half_open_success_needed = 3;
  degraded_success_needed = 2;
  cooldown = 30000000000;
}

-- The messages of `InvalidHealthPolicy`.
pub data PolicyFault : Type 0 where
  zero_failure_threshold degraded_exceeds_open zero_success_threshold zero_cooldown : PolicyFault

unfoldable pub validate : HealthPolicy → Result PolicyFault (Unit {0})
validate p = do
  reject_if (p.degraded_threshold == 0 || p.open_threshold == 0) zero_failure_threshold
  reject_if (ltb p.open_threshold p.degraded_threshold) degraded_exceeds_open
  reject_if (p.half_open_success_needed == 0 || p.degraded_success_needed == 0)
      zero_success_threshold
  reject_if (p.cooldown == 0) zero_cooldown
  ok tt

pub data NodeState : Type 0 where
  healthy degraded open_circuit half_open : NodeState

abbrev pub is_open : NodeState → Bool
is_open open_circuit = true
is_open healthy = false
is_open degraded = false
is_open half_open = false

-- `!=` on states.
abbrev pub state_ne : NodeState → NodeState → Bool
state_ne healthy healthy = false
state_ne degraded degraded = false
state_ne open_circuit open_circuit = false
state_ne half_open half_open = false
state_ne _ _ = true

-- The ring of samples after one more.
unfoldable pub push_sample : List ℕ → ℕ → List ℕ
push_sample samples latency_ms =
    (if length samples == latency_sample_limit then rest samples else samples) ++ latency_ms ∷ []

-- The state after a success: the guarded arms of the `match`.
unfoldable pub recovers : HealthPolicy → NodeState → ℕ → Bool
recovers policy half_open successes = leb policy.half_open_success_needed successes
recovers policy degraded successes = leb policy.degraded_success_needed successes
recovers policy healthy successes = false
recovers policy open_circuit successes = false

-- The state after that many failures in a row.
unfoldable pub failed_state : HealthPolicy → NodeState → ℕ → NodeState
failed_state policy state failures =
    if leb policy.open_threshold failures
    then open_circuit
    else if leb policy.degraded_threshold failures
    then degraded
    else state

module _ ⦃f : Floats⦄ where
  pub record HealthTracker : Type 0 where
    pub state : NodeState
    pub consecutive_failures : ℕ
    pub consecutive_successes : ℕ
    pub p99_latency_ms : ℕ
    pub success_rate : Num
    pub opened_at : Option ℕ
    pub latency_samples : List ℕ

  abbrev pub default_tracker : HealthTracker
  default_tracker = record {
    state = healthy;
    consecutive_failures = 0;
    consecutive_successes = 0;
    p99_latency_ms = 0;
    success_rate = one_f;
    opened_at = none;
    latency_samples = [];
  }

  unfoldable pub percentile_index : ℕ → ℕ
  percentile_index n = round (of_nat (n - 1) *ᶠ lit 99 100)

  unfoldable pub record_latency_sample : HealthTracker → ℕ → HealthTracker
  unfolding push_sample percentile_index
  record_latency_sample t latency_ms =
      let samples = push_sample t.latency_samples latency_ms in
      let sorted = sort_by compare samples in
      record t {
        latency_samples = samples;
        p99_latency_ms = elim (get_elem? sorted (percentile_index (length sorted))) [
          | none ↦ latency_ms
          | some v ↦ v
        ];
      }

  unfoldable pub after_success : HealthTracker → HealthPolicy → HealthTracker
  unfolding recovers
  after_success t policy =
      let successes = inc32 t.consecutive_successes in
      let counted = record t {
        consecutive_successes = successes;
        consecutive_failures = 0;
        success_rate = (t.success_rate *ᶠ lit 9 1 +ᶠ one_f) /ᶠ lit 10 1;
      } in
      if recovers policy t.state successes
      then record counted { state = healthy; opened_at = none }
      else counted

  unfoldable pub after_failure : HealthTracker → HealthPolicy → ℕ → HealthTracker
  unfolding failed_state
  after_failure t policy now =
      let failures = inc32 t.consecutive_failures in
      let state = failed_state policy t.state failures in
      record t {
        consecutive_failures = failures;
        consecutive_successes = 0;
        success_rate = t.success_rate *ᶠ lit 9 1 /ᶠ lit 10 1;
        state = state;
        opened_at =
            if is_open state && state_ne t.state open_circuit then some now else t.opened_at;
      }

  -- The tracker after a result, and whether its state changed.
  unfoldable pub record_result_with_policy :
      HealthTracker → Bool → ℕ → HealthPolicy → ℕ → HealthTracker × Bool
  unfolding after_success after_failure
  record_result_with_policy t success latency_ms policy now =
      let sampled = record_latency_sample t latency_ms in
      let t' =
        (if success then after_success sampled policy else after_failure sampled policy now) in
      (t', state_ne t.state t'.state)

  -- `now.duration_since(opened_at)` is 0 where the clock went back.
  unfoldable pub transition_to_half_open_if_ready : HealthTracker → ℕ → ℕ → HealthTracker × Bool
  transition_to_half_open_if_ready t cooldown now =
      if not (is_open t.state) then (t, false) else elim t.opened_at [
        | none ↦ (t, false)
        | some opened_at ↦
            if ltb (now - opened_at) cooldown
            then (t, false)
            else (record t { state = half_open; consecutive_successes = 0 }, true)
      ]

  unfoldable pub force_half_open : HealthTracker → HealthTracker × Bool
  force_half_open t =
      if not (is_open t.state)
      then (t, false)
      else (record t { state = half_open; consecutive_successes = 0 }, true)

  unfoldable pub penalty : HealthTracker → Num
  penalty t =
      let latency_penalty = of_nat t.p99_latency_ms /ᶠ lit 10000 1 in
      let success_penalty = one_f -ᶠ clamp zero_f one_f t.success_rate in
      elim t.state [
        | healthy ↦ latency_penalty +ᶠ success_penalty
        | degraded ↦ lit 1 2 +ᶠ latency_penalty +ᶠ success_penalty
        | half_open ↦ lit 3 10 +ᶠ latency_penalty +ᶠ success_penalty
        | open_circuit ↦ infinity
      ]
