-- ===== src/Pipeline/Screening.antt =====
-- src/pipeline.rs: where the candidates of a request come from, and what the screening leaves.
use trust_system.Prelude.{
  ℕ, ◌≡◌, refl, inl, inr, Bool, true, false, Option, none, some, List, [], ◌∷◌, arith, ltb, All,
  All-append, In, Option-cases,
}
use trust_system.Prelude.Text.{Text}
use trust_system.Prelude.Sort.{All-sort_by}
use trust_system.Prelude.First.{All-map_of}
use trust_system.Prelude.Distinct.{keep-In}
use trust_system.Prelude.Float.{Floats, Num, ◌<ᶠ◌}
use trust_system.Kv.{KvStrategy}
use trust_system.Backend.{BackendRegistry}
use trust_system.Capacity.{ComputeNode}
use trust_system.Trace.{TraceRejection}
use trust_system.Intelligence.World.{WorldState}
use trust_system.Intelligence.Prediction.{PredictionEngine}
use trust_system.Intelligence.Candidates.{
  high, OperationalValue, value, some_and, CounterfactualEstimate, DecisionFirewall, approved,
  evaluate_candidate,
}
use trust_system.Intelligence.Approval.{AtMost, NotAbove, Approvable, approved_iff}
use trust_system.Pipeline.{PipelineRequest, Printer}
use trust_system.Pipeline.Candidates.{
  Raw, model_of, kv_action_of, estimate, declared, all_strategies, strategies_of, node_candidates,
  raw_candidates, sort_raw,
}
use trust_system.Pipeline.Screen.{breaks_limit, screen_one, screen_valid}

module _ ⦃f : Floats⦄ where
  -- A candidate is an estimate of a declared backend with a strategy that it declares for the model,
  -- on one of the nodes.
  pub record IsOffer (e : PredictionEngine) (backends : BackendRegistry) (req : PipelineRequest)
      (revision now : ℕ) (ids : List Text) (nodes : List ComputeNode) (r : Raw) : Type 0 where
    pub backend_id : Text
    pub node : ComputeNode
    pub strategy : KvStrategy
    pub listed : In backend_id ids
    pub eligible : In node nodes
    pub supported : declared backends backend_id (model_of req) strategy ≡ true
    pub estimated : r.0 ≡ estimate e req revision now backend_id node strategy
    pub action : r.1 ≡ kv_action_of req

  module _ (e : PredictionEngine) (backends : BackendRegistry) (req : PipelineRequest)
      (revision now : ℕ) where
    node_candidates-IsOffer :
        (id : Text) (ids : List Text) (nodes : List ComputeNode) (some_nodes : List ComputeNode)
        → In id ids
        → ((n : ComputeNode) → In n some_nodes → In n nodes)
        → All
            (IsOffer e backends req revision now ids nodes)
            (node_candidates e backends req revision now id some_nodes)
    unfolding node_candidates
    node_candidates-IsOffer id ids nodes [] i sub = tt
    node_candidates-IsOffer id ids nodes (n ∷ ns) i sub =
        All-append (IsOffer e backends req revision now ids nodes) _ _
          (All-map_of (IsOffer e backends req revision now ids nodes) _
            (strategies_of backends req id)
            (λ s j. record {
              backend_id = id;
              node = n;
              strategy = s;
              listed = i;
              eligible = sub n (inl refl);
              supported = (keep-In (declared backends id (model_of req)) s all_strategies j).1;
              estimated = refl;
              action = refl;
            }))
          (node_candidates-IsOffer id ids nodes ns i (λ m j. sub m (inr j)))

    raw_candidates-of :
        (ids nodes_ids : List Text) (nodes : List ComputeNode)
        → ((id : Text) → In id nodes_ids → In id ids)
        → All
            (IsOffer e backends req revision now ids nodes)
            (raw_candidates e backends req revision now nodes_ids nodes)
    unfolding raw_candidates
    raw_candidates-of ids [] nodes sub = tt
    raw_candidates-of ids (x ∷ xs) nodes sub =
        All-append (IsOffer e backends req revision now ids nodes) _ _
          (node_candidates-IsOffer x ids nodes nodes (sub x (inl refl)) (λ n j. j))
          (raw_candidates-of ids xs nodes (λ y j. sub y (inr j)))

    pub sort_raw-IsOffer :
        (ids : List Text) (nodes : List ComputeNode)
        → All
            (IsOffer e backends req revision now ids nodes)
            (sort_raw (raw_candidates e backends req revision now ids nodes))
    sort_raw-IsOffer ids nodes =
        All-sort_by _ (IsOffer e backends req revision now ids nodes) _
          (raw_candidates-of ids ids nodes (λ y j. j))

  -- What is left satisfied the test and was a candidate; what is rejected did not.
  pub screen_valid-All :
      (P : Raw → Type 0) (g : CounterfactualEstimate → Option TraceRejection) (cs : List Raw)
      → All P cs
      → All (λ r. P r × (g r.0 ≡ none)) (screen_valid g cs)
  unfolding screen_valid
  screen_valid-All P g [] h = tt
  screen_valid-All P g ((c, kv) ∷ cs) h = elim (Option-cases (g c)) [
    | inl e ↦ rw (screen_valid, e) ((h.0, e), screen_valid-All P g cs h.1)
    | inr (x, e) ↦ rw (screen_valid, e) (screen_valid-All P g cs h.1)
  ]

  -- What is known of a candidate is within the limits that the request sets.
  pub record IsWithin (req : PipelineRequest) (c : CounterfactualEstimate) : Type 0 where
    pub ttft : (limit : ℕ) → req.max_ttft_ms ≡ some limit → AtMost limit c.predicted_ttft
    pub e2e : (limit : ℕ) → req.max_e2e_ms ≡ some limit → AtMost limit c.predicted_e2e
    pub cost : (limit : Num) → req.max_cost ≡ some limit → NotAbove limit c.predicted_cost

  not-breaks_limit :
      {A : Type 0} (exceeds : A → A → Bool) (limit : Option A) (v : OperationalValue A)
      → breaks_limit exceeds limit v ≡ false
      → (l x : A) → limit ≡ some l
      → value v ≡ some x
      → exceeds l x ≡ false
  not-breaks_limit exceeds limit v h l x e q = rw (e, breaks_limit, some_and, q) at h

  module _ (p : Printer) (firewall : DecisionFirewall) (req : PipelineRequest) (world : WorldState)
      (now : ℕ) (c : CounterfactualEstimate) where
    pub screen_one-none :
        screen_one p firewall req world now c ≡ none
        → IsWithin req c × Approvable firewall c world high now
    unfolding screen_one
    screen_one-none h =
        let a : breaks_limit ltb req.max_ttft_ms c.predicted_ttft ≡ false = ground arith in
        let b : breaks_limit ltb req.max_e2e_ms c.predicted_e2e ≡ false = ground arith in
        let d : breaks_limit (λ limit v. limit <ᶠ v) req.max_cost c.predicted_cost ≡ false =
          ground arith in
        let passed : evaluate_candidate firewall c world high now ≡ approved = ground arith in
        (
          record {
            ttft =
                λ l e x q. let n = not-breaks_limit ltb req.max_ttft_ms _ a l x e q in ground arith;
            e2e =
                λ l e x q. let n = not-breaks_limit ltb req.max_e2e_ms _ b l x e q in ground arith;
            cost = λ l e x q. not-breaks_limit (λ limit v. limit <ᶠ v) req.max_cost _ d l x e q;
          },
          (approved_iff firewall c world high now).0 passed,
        )
