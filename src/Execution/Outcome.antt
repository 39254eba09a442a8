-- ===== src/Execution/Outcome.antt =====
-- src/execution.rs: what is returned and what is reported of an execution.
use trust_system.Prelude.{
  ℕ, ◌≡◌, ◌∙◌, refl, sym, subst, ◌≢◌, ◌⊎◌, inl, inr, Bool, true, false, not, some, arith, all,
  Result, ok, err, Result-cases, Option-cases, In,
}
use trust_system.Prelude.Text.{valid_identifier}
use trust_system.Prelude.BTreeMap
use trust_system.Prelude.Order.{list_cmp}
use trust_system.Prelude.Float.{Floats}
use trust_system.Backend.{BackendRequest, BackendResult, RegisteredBackend, declares}
use trust_system.Backend
use trust_system.Backend.Registry.{Named, Built, execute-Declared}
use trust_system.Monitor.{ToolResult, Channel, report}
use trust_system.Execution.{
  ExecutionRequest, ExecutionError, identifiers, is_some, bool_eq, ExecutionCoordinator, observe,
  execute, health_monitor_closed,
}

err-ne-ok : {E A : Type 0} {x : E} {a : A} → err x ≢ ok a
err-ne-ok e = cc

module _ ⦃f : Floats⦄ ⦃ch : Channel⦄ where
  abbrev pub request_of : ExecutionRequest → BackendRequest
  request_of r = record { request_id = r.request_id; model = r.model; strategy = r.strategy }

  abbrev pub outcome_of : ExecutionRequest → BackendResult → ℕ → ToolResult
  outcome_of r result latency_ms = record {
    tenant = r.tenant;
    node = r.node;
    success = result.success;
    latency_ms = latency_ms;
  }

  -- What is checked of a request and of the answer of its backend before anything is reported: the
  -- names are well formed, the answer bears the backend's name, it names a failure exactly when it
  -- is none, and it has a latency.
  pub record Checked (c : ExecutionCoordinator) (r : ExecutionRequest) (result : BackendResult)
      (latency_ms : ℕ) : Type 0 where
    pub names : all valid_identifier (identifiers r) ≡ true
    pub answered : Backend.execute c.backends r.backend_id (request_of r) ≡ ok result
    pub identity : result.backend ≡ r.backend_id
    pub consistent : result.success ≡ not (is_some result.failure)
    pub measured : result.latency_ms ≡ some latency_ms

  bool_eq-not : (a b : Bool) → bool_eq a b ≡ false → a ≡ not b
  bool_eq-not true b h = ground arith
  bool_eq-not false b h = ground arith

  not-bool_eq : (a b : Bool) → a ≡ not b → bool_eq a b ≡ false
  not-bool_eq true b h = ground arith
  not-bool_eq false b h = ground arith

  observe-Checked :
      (c : ExecutionCoordinator) (r : ExecutionRequest) (result : BackendResult) (t : ToolResult)
      → observe c.backends r ≡ ok (result, t)
      → (latency_ms : ℕ) × Checked c r result latency_ms × (t ≡ outcome_of r result latency_ms)
  unfolding observe
  observe-Checked c r result t e =
      elim (Result-cases (Backend.execute c.backends r.backend_id (request_of r))) [
        | inl (_, b) ↦ absurd (ground arith)
        | inr (x, b) ↦ elim (Option-cases x.latency_ms) [
          | inl l ↦ absurd (ground arith)
          | inr (ms, l) ↦
              let q : result ≡ x = ground arith in
              (
                ms,
                record {
                  names = ground arith;
                  answered = b ∙ ground arith;
                  identity = rw q (ground arith);
                  consistent = rw q (bool_eq-not _ _ (ground arith));
                  measured = rw q l;
                },
                ground arith,
              )
        ]
      ]

  Checked-observe :
      (c : ExecutionCoordinator) (r : ExecutionRequest) (result : BackendResult) (latency_ms : ℕ)
      → Checked c r result latency_ms
      → observe c.backends r ≡ ok (result, outcome_of r result latency_ms)
  unfolding observe
  Checked-observe c r result latency_ms h =
      let q = not-bool_eq _ _ h.consistent in
      ground (arith, h.names, h.answered, h.identity, h.measured)

  -- Whoever answered is the registry's entry under the name asked for, is the one of that name, and
  -- declares what it was asked.
  abbrev pub Declared : ExecutionCoordinator → ExecutionRequest → BackendResult → Type 0
  Declared c r result =
      (x : RegisteredBackend) × In (r.backend_id, x) c.backends.entries
      × (BTreeMap.get list_cmp r.backend_id c.backends.entries ≡ some x)
      × Named r.backend_id x
      × (declares x.descriptor r.model r.strategy ≡ true)
      × (result ≡ x.backend.execute (request_of r))

  abbrev pub IsExecution :
      ExecutionCoordinator
      → ExecutionRequest
      → ExecutionCoordinator × Result ExecutionError BackendResult
      → Type 0
  IsExecution c r out =
      ((result : BackendResult) × (latency_ms : ℕ) × Checked c r result latency_ms
        × Declared c r result
        × ((rest : ch.Carrier) × (ch.send c.monitor.sender (outcome_of r result latency_ms)
              ≡ ok rest)
            × (out ≡ (record c { monitor = record { sender = rest } }, ok result))))
      ⊎ ((x : ExecutionError) × (out ≡ (c, err x))
          × ((result : BackendResult) (latency_ms : ℕ)
              → Checked c r result latency_ms
              → (x ≡ health_monitor_closed)
                × ((t : ToolResult) × (ch.send c.monitor.sender (outcome_of r result latency_ms)
                      ≡ err t))))

  execute_ok :
      (c : ExecutionCoordinator) (r : ExecutionRequest) (result : BackendResult) (t : ToolResult)
      (rest : ch.Carrier)
      → observe c.backends r ≡ ok (result, t)
      → ch.send c.monitor.sender t ≡ ok rest
      → execute c r ≡ (record c { monitor = record { sender = rest } }, ok result)
  unfolding execute report
  execute_ok c r result t rest e o = simp (execute, report, e, o)

  execute_closed :
      (c : ExecutionCoordinator) (r : ExecutionRequest) (result : BackendResult) (t u : ToolResult)
      → observe c.backends r ≡ ok (result, t)
      → ch.send c.monitor.sender t ≡ err u
      → execute c r ≡ (c, err health_monitor_closed)
  unfolding execute report
  execute_closed c r result t u e o = simp (execute, report, e, o)

  execute_err :
      (c : ExecutionCoordinator) (r : ExecutionRequest) (x : ExecutionError)
      → observe c.backends r ≡ err x
      → execute c r ≡ (c, err x)
  unfolding execute
  execute_err c r x e = rw (execute, e) refl

  -- What is checked of a request has one outcome only.
  Checked-outcome :
      (c : ExecutionCoordinator) (r : ExecutionRequest) (result : BackendResult) (ms : ℕ)
      (a : BackendResult) (t : ToolResult)
      → observe c.backends r ≡ ok (a, t)
      → Checked c r result ms
      → t ≡ outcome_of r result ms
  Checked-outcome c r result ms a t e h =
      let p = sym e ∙ Checked-observe c r result ms h in ground (arith, p)

  -- Over a registry that registrations build: an execution returns a result exactly when the names of
  -- the request are well formed, the backend's answer bears its name, names a failure exactly when it
  -- is none and has a latency, and the channel accepts the outcome. Then the answer is what the
  -- registry's entry under the name asked for gave, which declares the model and the strategy, and
  -- what is left of the channel is what one send leaves, that of the outcome of the answer. In every other case an
  -- error is returned and the coordinator is unchanged; where only the channel refused, the error
  -- is that the monitor is closed.
  pub execute-IsExecution :
      (c : ExecutionCoordinator) (r : ExecutionRequest)
      → Built c.backends
      → IsExecution c r (execute c r)
  execute-IsExecution c r b = elim (Result-cases (observe c.backends r)) [
    | inl (x, e) ↦ inr (
      x,
      execute_err c r x e,
      λ result ms h. absurd (err-ne-ok (sym e ∙ Checked-observe c r result ms h)),
    )
    | inr ((result, t), e) ↦ elim (Result-cases (ch.send c.monitor.sender t)) [
      | inl (u, o) ↦ inr (
        health_monitor_closed,
        execute_closed c r result t u e o,
        λ a ms h. (
          refl,
          (
            u,
            subst (λ s. ch.send c.monitor.sender s ≡ err u) (Checked-outcome c r a ms result t e h)
                o,
          ),
        ),
      )
      | inr (m, o) ↦
          let (ms, h, q) = observe-Checked c r result t e in
          let (x, i, g, n, d, a, _) =
            execute-Declared c.backends r.backend_id (request_of r) result b h.answered in
          inl (
            result,
            ms,
            h,
            (x, i, g, n, d, a),
            (m, subst (λ s. ch.send c.monitor.sender s ≡ ok m) q o, execute_ok c r result t m e o),
          )
    ]
  ]
