-- ===== src/Pipeline/Returns.antt =====
-- src/pipeline.rs, `process_request`: that it returns, and what it leaves behind.
use trust_system.Prelude.{
  ◌≡◌, ◌∙◌, refl, subst, ap, inl, inr, Bool, true, false, Option, none, some, List, arith,
  if◌then◌else◌, Bool-cases, Option-cases, Result, Result-cases, ok, err,
}
use trust_system.Prelude.Float.{Floats}
use trust_system.Admission.{AdmissionController, Permit, admit, release}
use trust_system.Admission.Invariant.{Inv}
use trust_system.Admission.RoundTrip.{release-admit}
use trust_system.Intelligence.World.{snapshot}
use trust_system.Pipeline.{PipelineRequest, PipelineOutcome, PipelineEngine}
use trust_system.Pipeline.Stages.{Selected, transport_request_of}
use trust_system.Pipeline.Choose.{Surroundings}
use trust_system.Pipeline.Run.{
  bad_key, transfer_failure, feed_back, run_selected, run_chosen, run_admitted, with_admission,
  leave, process_request,
}
use trust_system.Pipeline.Choice.{choose-answers}

module _ ⦃f : Floats⦄ (u : Surroundings) where
  -- A stage leaves the admission alone, and what fails leaves the whole engine alone.
  abbrev Leaves : PipelineEngine → PipelineEngine → PipelineOutcome → Type 0
  Leaves e e' o = (e'.admission_controller ≡ e.admission_controller) × (o.success ≡ false → e' ≡ e)

  abbrev Returns : PipelineEngine → Option (PipelineEngine × PipelineOutcome) → Type 0
  Returns e none = ⊥
  Returns e (some (e', o)) = Leaves e e' o

  module _ (e : PipelineEngine) (req : PipelineRequest) where
    run_selected-Leaves :
        (s : Selected) → Leaves e (run_selected u e req s).0 (run_selected u e req s).1
    unfolding run_selected feed_back
    run_selected-Leaves s = elim (Option-cases (transfer_failure u req s)) [
      | inr (x, t) ↦ rw (run_selected, t) (refl, λ h. refl)
      | inl t ↦ elim (Result-cases (u.transport.execute (transport_request_of req s))) [
        | inl (x, a) ↦ rw (run_selected, t, a) (refl, λ h. refl)
        | inr (resp, a) ↦ rw (run_selected, t, a) (refl, λ h. absurd (ground arith))
      ]
    ]

    run_chosen-Returns :
        (r : Result PipelineOutcome Selected) → Returns e (run_chosen u e req (some r))
    unfolding run_chosen
    run_chosen-Returns (err o) = (refl, λ h. refl)
    run_chosen-Returns (ok s) = run_selected-Leaves s

    Returns-if :
        (b : Bool) (x y : Option (PipelineEngine × PipelineOutcome))
        → Returns e x
        → Returns e y
        → Returns e (if b then x else y)
    Returns-if true x y hx hy = hx
    Returns-if false x y hx hy = hy

    run_admitted-Returns : Returns e (run_admitted u e req)
    unfolding run_admitted
    run_admitted-Returns =
        elim (Result-cases (snapshot e.world_state_manager u.times.snapshot_at)) [
          | inl (x, n) ↦ rw (run_admitted, n) (refl, λ h. refl)
          | inr (world, n) ↦
              let (r, c) = choose-answers u e req world in
              rw (run_admitted, n)
                (Returns-if req.force_stale_world_state _ _ (refl, λ h. refl)
                  (rw c (run_chosen-Returns r)))
        ]

  module _ (e : PipelineEngine) (req : PipelineRequest) (out : List Permit)
      (v : Inv e.admission_controller out) where
    leave-Returns :
        (c : AdmissionController) (p : Permit) (r : Option (PipelineEngine × PipelineOutcome))
        → release c p ≡ e.admission_controller
        → Returns (with_admission e c) r
        → Returns e (leave p r)
    unfolding leave
    leave-Returns c p none q h = h
    leave-Returns c p (some (e', o)) q h =
        let back : release e'.admission_controller p ≡ e.admission_controller =
          ap (λ x. release x p) h.0 ∙ q in
        (back, λ n. (λ i. record (h.1 n i) { admission_controller = back i }))

    process_request-Returns : Returns e (process_request u e req)
    unfolding process_request
    process_request-Returns = elim (Bool-cases (bad_key req)) [
      | inl b ↦ rw (process_request, b) (refl, λ h. refl)
      | inr b ↦ elim (Result-cases (admit e.admission_controller req.tenant_id)) [
        | inl (x, a) ↦ rw (process_request, b, a) (refl, λ h. refl)
        | inr ((c, p), a) ↦
            rw (process_request, b, a)
              (leave-Returns c p _ (release-admit e.admission_controller out req.tenant_id c p v a)
                (run_admitted-Returns (with_admission e c) req))
      ]
    ]

    -- A request always gets an outcome: nothing panics, the index of the first candidate included.
    -- The call leaves the admission controller exactly as it found it, so that its permit is never
    -- lost, and if it is not a success it leaves the whole engine as it found it. The condition is
    -- the invariant of the admission controller.
    pub process_request-answers :
        (e' : PipelineEngine) × (o : PipelineOutcome) × (process_request u e req ≡ some (e', o))
        × (e'.admission_controller ≡ e.admission_controller)
        × (o.success ≡ false → e' ≡ e)
    process_request-answers = elim (Option-cases (process_request u e req)) [
      | inl q ↦ absurd (subst (Returns e) q process_request-Returns)
      | inr ((e', o), q) ↦
          let l = subst (Returns e) q process_request-Returns in (e', o, q, l.0, l.1)
    ]
