-- ===== src/Planner.antt =====
-- src/planner.rs: a request is routed, and its route becomes an execution plan; an escalation becomes
-- a recovery plan. The router is shared: a call leaves it in the state that `route` left.
pub mod Plans
mod Examples
use trust_system.Prelude.{
  ℕ, ◌+◌, ◌≡◌, Bool, true, false, not, ◌||◌, Option, none, some, List, [], ◌∷◌, ◌++◌, if◌then◌else◌,
  length, ltb, all, Result, ok, err, ◌>>=◌, ◌>>◌, reject_if,
}
use trust_system.Prelude.Text.{Text, bytes, is_empty, identifier_byte}
use trust_system.Prelude.Words.{clamp_nat}
use trust_system.Prelude.Float.{Floats, Num, ◌<ᶠ◌, is_finite, zero_f}
use trust_system.Kv.Select.{
  KvIntelligence, KvPlanningContext, KvPlanMetadata, default_intelligence, normal, select,
}
use trust_system.Audit.{EscalationContext, RouteDecision, routed, escalate}
use trust_system.Graph.{Route}
use trust_system.Tenant.{RouteKey}
use trust_system.Recovery.{RecoveryPlan, BoundedRecoveryAdapter}
use trust_system.Recovery
use trust_system.Router.{Router, route}

abbrev pub max_execution_plan_steps : ℕ
max_execution_plan_steps = 64

pub record PlanningRequest : Type 0 where
  pub tenant_id : Text
  pub start : Text
  pub goal : Text

pub data PlanningError : Type 0 where
  invalid_request : Text → PlanningError
  route_exceeds_step_limit : (steps limit : ℕ) → PlanningError

unfoldable pub validate_identifier : Text → Text → Result PlanningError (Unit {0})
validate_identifier field value = do
  reject_if (is_empty value || ltb 128 (length value))
      (invalid_request (field ++ bytes " must be 1-128 characters"))
  reject_if (not (all identifier_byte value))
      (invalid_request (field ++ bytes " contains invalid characters"))

unfoldable pub validate : PlanningRequest → Result PlanningError (Unit {0})
validate r = do
  validate_identifier (bytes "tenant_id") r.tenant_id
  validate_identifier (bytes "start") r.start
  validate_identifier (bytes "goal") r.goal

pub record SystemSnapshot : Type 0 where
  pub tenant_id : Text
  pub start : Text
  pub goal : Text
  pub cache_hit : Bool

pub record ExecutionStep : Type 0 where
  pub ordinal : ℕ
  pub node : Text

abbrev pub steps_from : ℕ → List Text → List ExecutionStep
steps_from n [] = []
steps_from n (node ∷ nodes) = record { ordinal = n; node = node } ∷ steps_from (n + 1) nodes

module _ ⦃f : Floats⦄ where
  pub record Candidate : Type 0 where
    pub nodes : List Text
    pub score : Num

  pub record ExecutionPlan : Type 0 where
    pub schema_version : ℕ
    pub snapshot : SystemSnapshot
    pub candidate : Candidate
    pub steps : List ExecutionStep
    pub kv : KvPlanMetadata

  pub data PlanOutcome : Type 0 where
    execute : ExecutionPlan → PlanOutcome
    recover : SystemSnapshot → EscalationContext → RecoveryPlan → PlanOutcome

  pub record Planner : Type 0 where
    pub router : Router
    pub max_steps : ℕ
    pub recovery_adapter : BoundedRecoveryAdapter
    pub kv : KvIntelligence

  abbrev pub with_limits : Router → ℕ → ℕ → Planner
  with_limits router max_steps max_recovery_steps = record {
    router = router;
    max_steps = clamp_nat 1 max_execution_plan_steps max_steps;
    recovery_adapter = Recovery.new max_recovery_steps;
    kv = default_intelligence;
  }

  abbrev pub new : Router → Planner
  new router = with_limits router max_execution_plan_steps 4

  abbrev pub with_kv_intelligence : Planner → KvIntelligence → Planner
  with_kv_intelligence p kv = record p { kv = kv }

  abbrev pub snapshot_of : PlanningRequest → Bool → SystemSnapshot
  snapshot_of r hit = record {
    tenant_id = r.tenant_id;
    start = r.start;
    goal = r.goal;
    cache_hit = hit;
  }

  unfoldable pub execution_plan :
      Planner → PlanningRequest → Route → Result PlanningError PlanOutcome
  execution_plan p request route = do
    reject_if (ltb p.max_steps (length route.nodes))
        (route_exceeds_step_limit (length route.nodes) p.max_steps)
    reject_if (not (is_finite route.total_cost) || route.total_cost <ᶠ zero_f)
        (invalid_request (bytes "routing core returned an invalid candidate score"))
    ok (
        execute (record {
          schema_version = 1;
          snapshot = snapshot_of request route.cache_hit;
          candidate = record { nodes = route.nodes; score = route.total_cost };
          steps = steps_from 0 route.nodes;
          kv = normal p.kv;
        }))

  unfoldable pub outcome_of :
      Planner → PlanningRequest → RouteDecision → Result PlanningError PlanOutcome
  unfolding execution_plan
  outcome_of p request (routed route) = execution_plan p request route
  outcome_of p request (escalate escalation) =
      ok (
        recover (snapshot_of request false) escalation
          (Recovery.plan p.recovery_adapter escalation))

  -- A panic of the router is `none`.
  unfoldable pub plan :
      Planner → PlanningRequest → Option (Planner × Result PlanningError PlanOutcome)
  unfolding outcome_of
  plan p request = elim (validate request) [
    | err error ↦ some (p, err error)
    | ok _ ↦
        elim (route p.router request.tenant_id
          (record { start = request.start; goal = request.goal })) [
            | none ↦ none
            | some (router, decision) ↦
                some (record p { router = router }, outcome_of p request decision)
          ]
  ]

  abbrev pub with_kv : KvIntelligence → KvPlanningContext → PlanOutcome → PlanOutcome
  with_kv kv context (execute plan) = execute (record plan { kv = select kv context })
  with_kv kv context (recover snapshot escalation recovery) = recover snapshot escalation recovery

  unfoldable pub plan_with_kv :
      Planner
      → PlanningRequest
      → KvPlanningContext
      → Option (Planner × Result PlanningError PlanOutcome)
  unfolding plan
  plan_with_kv p request context = elim (plan p request) [
    | none ↦ none
    | some (p', outcome) ↦ some (p', outcome >>= λ o. ok (with_kv p.kv context o))
  ]
