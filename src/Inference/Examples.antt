-- ===== src/Inference/Examples.antt =====
-- The choice of a candidate on small inputs, over decimal numbers.
use trust_system.Prelude.{◌≡◌, refl, List, [], ◌∷◌, some, none, ok, err}
use trust_system.Prelude.Text.{bytes}
use trust_system.Prelude.Sort.{sort_by, insert_sorted}
use trust_system.Prelude.Float.Fixed.{decimals, decimals-IsIeee, arithmetic, fin}
use trust_system.Kv.{no_kv, prefix_cache}
use trust_system.Inference.{
  InferenceCandidate, DecisionExplanation, default_constraints, default_weights, invalid_objective,
  latency_constraint, ObjectiveWeights, fallback, validate_constraints, validate_weights,
  normalized, rejection, score_of, rejected_of, feasible_of, try_decide, decide,
}
use trust_system.Inference.Decision.{IsDecision, try_decide-IsDecision}

program : Unit {0}
unfolding arithmetic sort_by insert_sorted fallback validate_constraints validate_weights normalized
    rejection score_of rejected_of feasible_of try_decide decide
program = tt

abbrev fast : InferenceCandidate
fast = record {
  model = record { model_id = bytes "m"; model_version = bytes "1" };
  strategy = prefix_cache;
  latency_ms = fin 100000000;
  cost = fin 500000;
  failure_rate = fin 0;
  quality = fin 1000000;
}

abbrev slow : InferenceCandidate
slow = record fast { latency_ms = fin 2000000000 }

abbrev candidates : List InferenceCandidate
candidates = slow ∷ fast ∷ []

abbrev decision : DecisionExplanation
decision = record {
  selected = some (record { candidate = fast; score = fin 600000 });
  rejected = (slow, latency_constraint) ∷ [];
  fallbacks = no_kv ∷ [];
  config_error = none;
}

decides : try_decide candidates default_constraints default_weights ≡ ok decision
unfolding program
decides = refl

try_decide-IsDecision_example : IsDecision candidates default_constraints default_weights decision
try_decide-IsDecision_example =
    try_decide-IsDecision decimals-IsIeee candidates default_constraints default_weights decision
      decides

abbrev no_weights : ObjectiveWeights
no_weights = record { latency = fin 0; cost = fin 0; reliability = fin 0; quality = fin 0 }

refuses : try_decide candidates default_constraints no_weights ≡ err invalid_objective
unfolding program
refuses = refl
