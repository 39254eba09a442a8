-- ===== src/Monitor/Runs.antt =====
-- src/health_monitor.rs: runs of senders, the task and other callers of the router, against a history
-- that has no channel.
use trust_system.Prelude.{
  ℕ, ◌+◌, ◌≤◌, ◌≡◌, ◌∙◌, refl, sym, ap, subst, inl, inr, some, List, [], ◌∷◌, ◌++◌, arith, length,
  ok, Option-cases, Result-cases,
}
use mathlib.Core.List.{append-nil, append_assoc}
use trust_system.Prelude.Float.{Floats}
use trust_system.Router.{Router, record_result}
use trust_system.Router.Reach.{Step, Reach, next, recording}
use trust_system.Monitor.{
  ToolResult, Channel, HealthMonitor, report, System, start, apply, turn, consume,
}
use trust_system.Monitor.Fifo.{IsFifo}
use trust_system.Monitor.History.{
  Event, reporting, receiving, calling, sent, turns, history, unread, unread-zero, length-unread,
  readings, history-none, history-append,
}

module _ ⦃f : Floats⦄ ⦃ch : Channel⦄ where
  -- The system that is left when the events follow one another, each by the monitor's own operation
  -- or by a method of the router.
  abbrev pub Run : System → List Event → System → Type 0
  Run s [] s' = s' ≡ s
  Run s (reporting t ∷ es) s' =
      (m : HealthMonitor) × (report s.monitor t ≡ ok m) × Run (record s { monitor = m }) es s'
  Run s (receiving now ∷ es) s' = (u : System) × (turn s now ≡ some u) × Run u es s'
  Run s (calling g ∷ es) s' =
      Step s.router (g s.router) × Run (record s { router = g s.router }) es s'

  module _ (fifo : IsFifo) where
    abbrev pub pending : System → List ToolResult
    pending s = fifo.contents s.monitor.sender

    report-pending :
        (m m' : HealthMonitor) (t : ToolResult)
        → report m t ≡ ok m'
        → fifo.contents m'.sender ≡ fifo.contents m.sender ++ t ∷ []
    unfolding report
    report-pending m m' t e = elim (Result-cases (ch.send m.sender t)) [
      | inl (x, q) ↦ absurd (ground arith)
      | inr (c, q) ↦
          let same : c ≡ m'.sender = ground arith in
          subst (λ d. fifo.contents d ≡ fifo.contents m.sender ++ t ∷ []) same
            (fifo.sent m.sender c t q)
    ]

    turn-pending :
        (s u : System) (now : ℕ)
        → turn s now ≡ some u
        → (t : ToolResult) × (pending s ≡ t ∷ pending u)
          × (u.router ≡ record_result s.router t.tenant t.node t.success t.latency_ms now)
    unfolding turn apply
    turn-pending s u now e = elim (Option-cases (ch.recv s.monitor.sender)) [
      | inl q ↦ absurd (ground arith)
      | inr ((c, t), q) ↦
          let same : c ≡ u.monitor.sender = ground arith in
          (
            t,
            subst (λ d. pending s ≡ t ∷ fifo.contents d) same
                (fifo.received s.monitor.sender c t q),
            ground arith,
          )
    ]

    -- The system is the one that the history makes of what is in the channel and what is sent.
    abbrev Follows : List ToolResult → List Event → Router → System → Type 0
    Follows ts es r s' =
        (s'.router ≡ history ts es r) × (pending s' ≡ unread (turns es) ts) × Reach s'.router

    run_lem :
        (s s' : System) (es : List Event)
        → Reach s.router
        → Run s es s'
        → Follows (pending s ++ sent es) es s.router s'
    run_lem s s' [] h q =
        subst (Follows (pending s ++ []) [] s.router) (sym q)
          (refl, sym (unread-zero _ ∙ append-nil (pending s)), h)
    run_lem s s' (reporting t ∷ es) h (m, e, run) =
        subst (λ ts. Follows ts es s.router s')
          (ap (λ l. l ++ sent es) (report-pending s.monitor m t e)
            ∙ append_assoc (pending s) (t ∷ []) (sent es))
          (run_lem (record s { monitor = m }) s' es h run)
    run_lem s s' (receiving now ∷ es) h (u, e, run) =
        let (t, p, q) = turn-pending s u now e in
        let made : Reach u.router =
          next h (recording t.tenant t.node t.success t.latency_ms now q) in
        subst (λ ts. Follows (ts ++ sent es) (receiving now ∷ es) s.router s') (sym p)
          (subst (λ r. Follows (pending u ++ sent es) es r s') q (run_lem u s' es made run))
    run_lem s s' (calling k ∷ es) h (st, run) =
        run_lem (record s { router = k s.router }) s' es (next h st) run

    -- Over a first-in first-out channel, from a new monitor and a router that method calls make,
    -- however senders, the task and other callers interleave: the router is that of the history in
    -- which the turns of the task record the results in the order in which they were sent, each once
    -- and at the turn's time, between the other callers' methods; the channel holds the results that
    -- no turn has taken; and the router is still one that method calls make.
    pub run-history :
        (r : Router) (capacity : ℕ) (es : List Event) (s : System)
        → Reach r
        → Run (start r capacity) es s
        → (s.router ≡ history (sent es) es r)
          × (pending s ≡ unread (turns es) (sent es))
          × Reach s.router
    run-history r capacity es s h run =
        subst (λ ts. Follows (ts ++ sent es) es r s) (fifo.empty capacity)
          (run_lem (start r capacity) s es h run)

    consume_stops : (s : System) (nows : List ℕ) → pending s ≡ [] → consume s nows ≡ s
    unfolding consume
    consume_stops s [] e = refl
    consume_stops s (now ∷ nows) e = elim (Option-cases (turn s now)) [
      | inl q ↦ rw (consume, q) refl
      | inr (u, q) ↦ let (t, p, _) = turn-pending s u now q in absurd (cc)
    ]

    turn-ready :
        (s : System) (now : ℕ) (t : ToolResult) (ts : List ToolResult)
        → pending s ≡ t ∷ ts
        → (u : System) × (turn s now ≡ some u)
    unfolding turn
    turn-ready s now t ts e =
        let (c, x, q) = fifo.ready s.monitor.sender t ts e in
        (
          record { monitor = record { sender = c }; router = apply s.router x now },
          rw (turn, q) refl,
        )

    consumes :
        (ts : List ToolResult) (s : System) (nows : List ℕ)
        → pending s ≡ ts
        → length ts ≤ length nows
        → (pending (consume s nows) ≡ [])
          × ((consume s nows).router ≡ history ts (readings nows) s.router)
    unfolding consume
    consumes [] s nows e h = rw (consume_stops s nows e) (e, sym (history-none nows s.router))
    consumes (t ∷ ts) s [] e h = absurd (omega arith)
    consumes (t ∷ ts) s (now ∷ nows) e h =
        let (u, q) = turn-ready s now t ts e in
        let (x, p, k) = turn-pending s u now q in
        let rest : pending u ≡ ts = ground (arith, sym e ∙ p) in
        let head : t ≡ x = ground (arith, sym e ∙ p) in
        let (a, b) = consumes ts u nows rest (omega (arith, h)) in
        rw (consume, q)
          (
            a,
            b
                ∙ ap (history ts (readings nows)) k
                ∙ ap
                    (λ y.
                      history ts (readings nows)
                        (record_result s.router y.tenant y.node y.success y.latency_ms now))
                    (sym head),
          )

    -- Over a first-in first-out channel, from every system that senders, the task and other callers
    -- make of a new monitor and a router that method calls make: left alone for as many turns as
    -- there are results that were sent and not yet taken, or more, the task empties the channel, and
    -- the router is that of the history in which all results that were sent have been recorded, in
    -- their order.
    pub consume-history :
        (r : Router) (capacity : ℕ) (es : List Event) (s : System) (nows : List ℕ)
        → Reach r
        → Run (start r capacity) es s
        → length (sent es) ≤ turns es + length nows
        → (pending (consume s nows) ≡ [])
          × ((consume s nows).router ≡ history (sent es) (es ++ readings nows) r)
    consume-history r capacity es s nows h run enough =
        let (a, b, _) = run-history r capacity es s h run in
        let (p, q) =
          consumes _ s nows b (omega (arith, enough, length-unread (turns es) (sent es))) in
        (
          p,
          q
              ∙ ap (history _ (readings nows)) a
              ∙ sym (history-append (sent es) es (readings nows) r),
        )
