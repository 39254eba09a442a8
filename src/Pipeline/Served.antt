-- ===== src/Pipeline/Served.antt =====
-- src/pipeline.rs, `process_request`: what a request went through that was served.
use trust_system.Prelude.{
  ◌≡◌, ◌∙◌, refl, subst, ap, inl, inr, true, false, Option, none, some, arith, Bool-cases,
  Option-cases, Result-cases, ok,
}
use trust_system.Prelude.Float.{Floats, IsIeee}
use trust_system.Admission.{AdmissionController, Permit, admit, release}
use trust_system.Fabric.{TransportResponse}
use trust_system.Fabric.Chain.{append}
use trust_system.Intelligence.World.{WorldState, snapshot}
use trust_system.Pipeline.{PipelineRequest, PipelineOutcome, PipelineEngine}
use trust_system.Pipeline.Stages.{Selected, transport_request_of, execution_result_of}
use trust_system.Pipeline.Choose.{Surroundings, sorted_candidates}
use trust_system.Pipeline.Run.{
  bad_key, transfer_failure, feed_back, run_selected, run_chosen, run_admitted, with_admission,
  leave, process_request,
}
use trust_system.Pipeline.Choice.{IsChoice, choose-answers, choose-refuses, choose-IsChoice}

module _ ⦃f : Floats⦄ (u : Surroundings) where
  -- An execution that is reported as a success.
  pub record IsExecuted (e : PipelineEngine) (req : PipelineRequest) (s : Selected)
      (e' : PipelineEngine) (o : PipelineOutcome) : Type 0 where
    pub response : TransportResponse
    pub transferred : transfer_failure u req s ≡ none
    pub answered : u.transport.execute (transport_request_of req s) ≡ ok response
    pub backend : o.selected_backend ≡ some s.candidate.backend_id
    pub node : o.selected_node ≡ some s.candidate.compute_node_id
    pub result : o.execution_result ≡ some (execution_result_of s response)
    pub audited :
        e'.audit_chain
        ≡ append u.digest e.audit_chain req.request_id s.candidate.backend_id s.world.revision
            u.times.audited_at

  module _ (e : PipelineEngine) (req : PipelineRequest) where
    run_selected-IsExecuted :
        (s : Selected) (e' : PipelineEngine) (o : PipelineOutcome)
        → run_selected u e req s ≡ (e', o)
        → o.success ≡ true
        → IsExecuted e req s e' o
    unfolding run_selected feed_back
    run_selected-IsExecuted s e' o r h = elim (Option-cases (transfer_failure u req s)) [
      | inr (x, t) ↦ absurd (ground arith)
      | inl t ↦ elim (Result-cases (u.transport.execute (transport_request_of req s))) [
        | inl (x, a) ↦ absurd (ground arith)
        | inr (resp, a) ↦ record {
          response = resp;
          transferred = t;
          answered = a;
          backend = ground arith;
          node = ground arith;
          result = ground arith;
          audited = ground arith;
        }
      ]
    ]

  -- What a request goes through between its admission and its success.
  pub record IsRun (e : PipelineEngine) (req : PipelineRequest) (e' : PipelineEngine)
      (o : PipelineOutcome) : Type 0 where
    pub world : WorldState
    pub selected : Selected
    pub current : snapshot e.world_state_manager u.times.snapshot_at ≡ ok world
    pub not_forced : req.force_stale_world_state ≡ false
    pub chosen : IsChoice u e req world selected
    pub executed : IsExecuted e req selected e' o

  -- What a request went through that was served.
  pub record IsServed (e : PipelineEngine) (req : PipelineRequest) (e' : PipelineEngine)
      (o : PipelineOutcome) : Type 0 where
    pub authenticated : bad_key req ≡ false
    pub admitted :
        (c : AdmissionController) × (p : Permit) × (admit e.admission_controller req.tenant_id
          ≡ ok (c, p))
    pub run : IsRun e req e' o

  -- A choice and an execution do not depend on the admission controller.
  IsChoice-admission :
      (e : PipelineEngine) (c : AdmissionController) (req : PipelineRequest) (world : WorldState)
      (s : Selected)
      → IsChoice u (with_admission e c) req world s
      → IsChoice u e req world s
  unfolding sorted_candidates
  IsChoice-admission e c req world s h = record {
    entry = h.entry;
    member = h.member;
    left = record {
      offered = h.left.offered;
      within = h.left.within;
      approvable = h.left.approvable;
    };
    candidate = h.candidate;
    action = h.action;
    best = h.best;
    in_world = h.in_world;
  }

  IsExecuted-admission :
      (e e' : PipelineEngine) (c c' : AdmissionController) (req : PipelineRequest) (s : Selected)
      (o : PipelineOutcome)
      → IsExecuted (with_admission e c) req s e' o
      → IsExecuted e req s (with_admission e' c') o
  IsExecuted-admission e e' c c' req s o h = record {
    response = h.response;
    transferred = h.transferred;
    answered = h.answered;
    backend = h.backend;
    node = h.node;
    result = h.result;
    audited = h.audited;
  }

  IsRun-admission :
      (e e' : PipelineEngine) (c c' : AdmissionController) (req : PipelineRequest)
      (o : PipelineOutcome)
      → IsRun (with_admission e c) req e' o
      → IsRun e req (with_admission e' c') o
  IsRun-admission e e' c c' req o h = record {
    world = h.world;
    selected = h.selected;
    current = h.current;
    not_forced = h.not_forced;
    chosen = IsChoice-admission e c req h.world h.selected h.chosen;
    executed = IsExecuted-admission e e' c c' req h.selected o h.executed;
  }

  module _ (ieee : IsIeee) where
    run_admitted-IsRun :
        (e : PipelineEngine) (req : PipelineRequest) (e' : PipelineEngine) (o : PipelineOutcome)
        → run_admitted u e req ≡ some (e', o)
        → o.success ≡ true
        → IsRun e req e' o
    unfolding run_admitted run_chosen
    run_admitted-IsRun e req e' o r h =
        elim (Result-cases (snapshot e.world_state_manager u.times.snapshot_at)) [
          | inl (x, n) ↦ absurd (ground arith)
          | inr (world, n) ↦
              let (x, c) = choose-answers u e req world in
              elim (Result-cases x) [
                | inl (o', q) ↦
                    let no = choose-refuses u e req world o' (c ∙ ap some q) in
                    absurd (ground arith)
                | inr (s, q) ↦ record {
                  world = world;
                  selected = s;
                  current = n;
                  not_forced = ground arith;
                  chosen = choose-IsChoice u e req world ieee s (c ∙ ap some q);
                  executed = run_selected-IsExecuted e req s e' o (ground arith) h;
                }
              ]
        ]

    leave-IsRun :
        (e : PipelineEngine) (req : PipelineRequest) (c : AdmissionController) (p : Permit)
        (r : Option (PipelineEngine × PipelineOutcome)) (e' : PipelineEngine) (o : PipelineOutcome)
        → run_admitted u (with_admission e c) req ≡ r
        → leave p r ≡ some (e', o)
        → o.success ≡ true
        → IsRun e req e' o
    unfolding leave
    leave-IsRun e req c p none e' o q l h = absurd (ground arith)
    leave-IsRun e req c p (some (d, x)) e' o q l h =
        let same : with_admission d (release d.admission_controller p) ≡ e' = ground arith in
        let it : x ≡ o = ground arith in
        subst (λ y. IsRun e req y o) same
          (IsRun-admission e d c (release d.admission_controller p) req o (
            run_admitted-IsRun (with_admission e c) req d o
              (subst (λ y. run_admitted u (with_admission e c) req ≡ some (d, y)) it q) h))

    -- On IEEE floats, a success means that the key was not refused, that the tenant was admitted,
    -- that the world state was not stale, and that a candidate was selected and executed: an
    -- estimate of a declared backend, with a strategy that the backend declares for the model, on an
    -- eligible node; within the request's limits and approved by the firewall; not ranked behind any
    -- other candidate that is left. Any transfer asked of a key-value transport succeeded, the
    -- transport answered, the outcome carries that answer, which may be a failure, and the audit
    -- chain is what it was with the execution appended.
    pub process_request-IsServed :
        (e : PipelineEngine) (req : PipelineRequest) (e' : PipelineEngine) (o : PipelineOutcome)
        → process_request u e req ≡ some (e', o)
        → o.success ≡ true
        → IsServed e req e' o
    unfolding process_request
    process_request-IsServed e req e' o r h = elim (Bool-cases (bad_key req)) [
      | inl b ↦ absurd (ground arith)
      | inr b ↦ elim (Result-cases (admit e.admission_controller req.tenant_id)) [
        | inl (x, a) ↦ absurd (ground arith)
        | inr ((c, p), a) ↦ record {
          authenticated = b;
          admitted = (c, p, a);
          run = leave-IsRun e req c p _ e' o refl (ground arith) h;
        }
      ]
    ]
