-- ===== src/Health/Examples.antt =====
-- The circuit breaker on small inputs, over decimal numbers.
use trust_system.Prelude.{List, ◌⊎◌, ◌≡◌, refl, [], ◌∷◌, arith, ok, true, false, some}
use mathlib.Core.List.{foldl}
use trust_system.Prelude.Window.{last_n}
use trust_system.Prelude.Float.Fixed.{decimals}
use trust_system.Health.{
  HealthPolicy, HealthTracker, default_policy, validate, open_circuit, half_open, degraded,
  default_tracker, latency_sample_limit, record_result_with_policy,
}
use trust_system.Health.Machine.{
  Event, result, probe, Inv, step, Move, default-Inv, step-Inv, step-Move,
}
use trust_system.Health.Latency.{latencies, call, Sampled, samples-last_n}
use trust_system.Health.Runs.{Results, all_results, failures_open, open_circuit_degrades}

abbrev opened : HealthTracker
opened = record default_tracker {
  state = open_circuit;
  consecutive_failures = 5;
  opened_at = some 7;
}

abbrev probed : HealthTracker
probed = record opened { state = half_open }

abbrev three : Results
three = (1, 1) ∷ (2, 2) ∷ (3, 3) ∷ []

abbrev five : Results
five = (4, 4) ∷ (5, 5) ∷ three

valid : validate default_policy ≡ ok tt
unfolding validate
valid = refl

step-Move_example : Move default_policy opened (step default_policy opened (probe 1 9)) (probe 1 9)
step-Move_example = step-Move default_policy opened (probe 1 9)

step-Inv_example : Inv (step default_policy default_tracker (result false 3 4))
step-Inv_example = step-Inv default_policy default_tracker (result false 3 4) default-Inv

failures_open_example : (all_results default_policy false default_tracker five).state ≡ open_circuit
failures_open_example = failures_open default_policy default_tracker five valid refl (omega arith)

open_circuit_degrades_example :
    (all_results default_policy false
      (record_result_with_policy opened true 9 default_policy 8).0
      three).state
    ≡ degraded
open_circuit_degrades_example =
    open_circuit_degrades default_policy opened 9 8 three valid refl (omega arith) (omega arith)
      (omega arith)

abbrev results_and_probe : List (HealthPolicy × Event)
results_and_probe =
    (default_policy, result true 4 1)
    ∷ (default_policy, probe 9 2)
    ∷ (default_policy, result false 5 3)
    ∷ []

samples-last_n_example :
    ((foldl call default_tracker results_and_probe).latency_samples
      ≡ last_n latency_sample_limit (4 ∷ 5 ∷ []))
    × ((latencies results_and_probe ≡ []) ⊎ Sampled (foldl call default_tracker results_and_probe))
samples-last_n_example = samples-last_n results_and_probe
