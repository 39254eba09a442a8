-- ===== src/Planner/Plans.antt =====
-- src/planner.rs: what an answer of the planner says, over the routers that method calls make.
use trust_system.Prelude.{
  ℕ, ◌+◌, ◌≤◌, ◌<◌, ◌≡◌, ◌∙◌, refl, ◌⊎◌, inl, inr, true, false, some, List, [], ◌∷◌, arith, All,
  rest, length, Result, ok, err, Result-cases, Option-cases, Bool-cases, ltb, ltb→lt,
}
use trust_system.Prelude.Text.{Text, text_dec}
use trust_system.Prelude.HashMap
use trust_system.Prelude.Float.{Floats, IsIeee, zero_f, ◌≤ᶠ◌, ◌<ᶠ◌, is_finite}
use trust_system.Graph.{Route}
use trust_system.Graph.Routable.{Routable}
use trust_system.Audit.{RouteDecision, routed, escalate}
use trust_system.Tenant.{RouteKey, TenantState}
use trust_system.Recovery.{RecoveryPlan}
use trust_system.Recovery
use trust_system.Router.{Router, route, route_fast}
use trust_system.Router.Total.{AllReady, route_returns}
use trust_system.Router.Reach.{Reach, next, routing_fast, routing_locked, route_avoids_open}
use trust_system.Planner.{
  PlanningRequest, PlanningError, validate, ExecutionPlan, PlanOutcome, execute, recover, Planner,
  snapshot_of, steps_from, execution_plan, outcome_of, plan,
}

length-steps_from : (n : ℕ) (nodes : List Text) → length (steps_from n nodes) ≡ length nodes
length-steps_from n [] = refl
length-steps_from n (x ∷ nodes) = omega (arith, length-steps_from (n + 1) nodes)

module _ ⦃f : Floats⦄ where
  -- A step of `route` is one on the fast path, or one under the lock.
  pub route-Reach :
      (r r' : Router) (id : Text) (key : RouteKey) (d : RouteDecision)
      → Reach r
      → route r id key ≡ some (r', d)
      → Reach r'
  unfolding route
  route-Reach r r' id key d h e = elim (Option-cases (route_fast r id key)) [
    | inl n ↦ next h (routing_locked {d = d} id key (rw (route, n) at e))
    | inr (out, n) ↦ next h (routing_fast {d = d} id key (n ∙ rw (route, n) at e))
  ]

  abbrev pub key_of : PlanningRequest → RouteKey
  key_of request = record { start = request.start; goal = request.goal }

  -- What the router decided for a request.
  abbrev pub Decided : Planner → PlanningRequest → RouteDecision → Type 0
  Decided p request d =
      (r' : Router) × (route p.router request.tenant_id (key_of request) ≡ some (r', d))

  -- What a plan says: it is the route that the router decided on; its steps are the nodes of the
  -- route, numbered in order, at most as many as the planner allows; no node behind the start has an
  -- open circuit; the score is a finite number from 0.
  pub record IsPlan (p : Planner) (request : PlanningRequest) (e : ExecutionPlan) : Type 0 where
    pub route_of : Route
    pub decided : Decided p request (routed route_of)
    pub nodes : e.candidate.nodes ≡ route_of.nodes
    pub score : e.candidate.score ≡ route_of.total_cost
    pub asked : e.snapshot ≡ snapshot_of request route_of.cache_hit
    pub numbered : e.steps ≡ steps_from 0 route_of.nodes
    pub bounded : length e.steps ≤ p.max_steps
    pub avoids_open :
        (t : TenantState)
        → HashMap.lookup text_dec request.tenant_id p.router.tenants ≡ some t
        → All (Routable t.health) (rest e.candidate.nodes)
    pub finite : is_finite e.candidate.score ≡ true
    pub nonneg : (zero_f ≤ᶠ e.candidate.score) ≡ true

  -- A route that a plan cannot be made of: too long, or of a cost that is no finite number from 0.
  abbrev pub Unfit : Planner → Route → Type 0
  Unfit p rt =
      (p.max_steps < length rt.nodes)
      ⊎ (is_finite rt.total_cost ≡ false)
      ⊎ ((rt.total_cost <ᶠ zero_f) ≡ true)

  abbrev pub IsAnswer : Planner → PlanningRequest → Result PlanningError PlanOutcome → Type 0
  IsAnswer p request (err x) =
      (validate request ≡ err x) ⊎ ((rt : Route) × Decided p request (routed rt) × Unfit p rt)
  IsAnswer p request (ok (execute e)) = IsPlan p request e
  IsAnswer p request (ok (recover s context recovery)) =
      (s ≡ snapshot_of request false)
      × Decided p request (escalate context)
      × (recovery.blocked_nodes ≡ context.failed_or_blocked_nodes)
      × (length recovery.steps ≤ p.recovery_adapter.max_steps)

  module _ (ieee : IsIeee) (p : Planner) (request : PlanningRequest) (h : Reach p.router) where
    execution_plan-IsAnswer :
        (rt : Route)
        → Decided p request (routed rt)
        → IsAnswer p request (execution_plan p request rt)
    unfolding execution_plan
    execution_plan-IsAnswer rt (r', d) = elim (Bool-cases (ltb p.max_steps (length rt.nodes))) [
      | inl e ↦ rw (IsAnswer, execution_plan, e) (inr (rt, (r', d), inl (ltb→lt _ _ e)))
      | inr e ↦ elim (Bool-cases (is_finite rt.total_cost)) [
        | inr n ↦ rw (IsAnswer, execution_plan, e, n) (inr (rt, (r', d), inr (inl n)))
        | inl n ↦ elim (Bool-cases (rt.total_cost <ᶠ zero_f)) [
          | inl m ↦ rw (IsAnswer, execution_plan, e, n, m) (inr (rt, (r', d), inr (inr m)))
          | inr m ↦
              rw (IsAnswer, execution_plan, e, n, m)
                (record {
                  route_of = rt;
                  decided = (r', d);
                  nodes = refl;
                  score = refl;
                  asked = refl;
                  numbered = refl;
                  bounded = ground (arith, length-steps_from 0 rt.nodes);
                  avoids_open =
                      route_avoids_open ieee p.router r' request.tenant_id (key_of request) rt h d;
                  finite = n;
                  nonneg =
                      ieee.le_numbers rt.total_cost zero_f (ieee.finite_number rt.total_cost n)
                        ieee.zero_le_zero m;
                })
        ]
      ]
    ]

    outcome_of-IsAnswer :
        (d : RouteDecision) → Decided p request d → IsAnswer p request (outcome_of p request d)
    unfolding outcome_of
    outcome_of-IsAnswer (routed rt) e = execution_plan-IsAnswer rt e
    outcome_of-IsAnswer (escalate context) e =
        (refl, e, unfold Recovery.plan in refl, Recovery.length-plan-le p.recovery_adapter context)

    -- On IEEE floats, a router that method calls made and tenants whose graphs have interned names
    -- and whose latency ceiling is a u64, the planner answers every request, and its router is again
    -- one that method calls make. The answer is a plan of the route that the router decided on, as
    -- described by `IsPlan`; or a recovery plan of the escalation that it decided on, of no more
    -- steps than allowed; or the error of an invalid request, or of a route that is too long or of
    -- no finite cost from 0.
    pub plan-IsAnswer :
        AllReady p.router.tenants
        → (p' : Planner) × (o : Result PlanningError PlanOutcome) × (plan p request ≡ some (p', o))
          × Reach p'.router
          × IsAnswer p request o
    unfolding plan
    plan-IsAnswer ready = elim (Result-cases (validate request)) [
      | inl (x, v) ↦ rw (plan, v) (p, err x, refl, h, inl v)
      | inr (tt, v) ↦
          let (r', d, e) = route_returns ieee p.router request.tenant_id (key_of request) ready in
          rw (plan, v, e)
            (
              record p { router = r' },
              outcome_of p request d,
              refl,
              route-Reach p.router r' request.tenant_id (key_of request) d h e,
              outcome_of-IsAnswer d (r', e),
            )
    ]
