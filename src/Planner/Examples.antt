-- ===== src/Planner/Examples.antt =====
-- A plan over a router with one edge, over decimal numbers.
use trust_system.Prelude.{◌≡◌, refl, [], ◌∷◌, false, some, Result, ok}
use trust_system.Prelude.Text.{identifier_byte}
use trust_system.Prelude.Float.Fixed.{decimals, decimals-IsIeee, arithmetic}
use trust_system.Kv.Select.{default_intelligence, normal}
use trust_system.Router.Examples.{a, b, with_edge, best, after, routes, reached, ready}
use trust_system.Router.Reach.{Reach}
use trust_system.Planner.{
  PlanningRequest, PlanningError, PlanOutcome, execute, Planner, new, snapshot_of,
  validate_identifier, validate, execution_plan, outcome_of, plan,
}
use trust_system.Planner.Plans.{IsAnswer, plan-IsAnswer}

abbrev request : PlanningRequest
request = record { tenant_id = a; start = a; goal = b }

accepts : validate request ≡ ok tt
unfolding validate validate_identifier identifier_byte
accepts = refl

abbrev planned : PlanOutcome
planned = execute (record {
  schema_version = 1;
  snapshot = snapshot_of request false;
  candidate = record { nodes = best.nodes; score = best.total_cost };
  steps = record { ordinal = 0; node = a } ∷ record { ordinal = 1; node = b } ∷ [];
  kv = normal default_intelligence;
})

plans : plan (new with_edge) request ≡ some (record (new with_edge) { router = after }, ok planned)
unfolding plan outcome_of execution_plan arithmetic
plans = rw (plan, accepts, routes) refl

plan-IsAnswer_example :
    (p : Planner) × (o : Result PlanningError PlanOutcome) × (plan (new with_edge) request
      ≡ some (p, o))
    × Reach p.router
    × IsAnswer (new with_edge) request o
plan-IsAnswer_example = plan-IsAnswer decimals-IsIeee (new with_edge) request reached ready
