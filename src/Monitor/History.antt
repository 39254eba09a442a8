-- ===== src/Monitor/History.antt =====
-- src/health_monitor.rs: events of a run, and the router after them, with no channel: the
-- specification of the monitor.
use trust_system.Prelude.{ℕ, zero, suc, ◌-◌, ◌≡◌, refl, sym, ap, List, [], ◌∷◌, ◌++◌, arith, length}
use trust_system.Prelude.Float.{Floats}
use trust_system.Router.{Router, record_result}
use trust_system.Monitor.{ToolResult}

module _ ⦃f : Floats⦄ where
  -- What happens in a run: a result is accepted, the task takes its next turn, or another caller
  -- changes the router.
  pub data Event : Type 0 where
    reporting : ToolResult → Event
    receiving : ℕ → Event
    calling : (Router → Router) → Event

  abbrev pub sent : List Event → List ToolResult
  sent [] = []
  sent (reporting t ∷ es) = t ∷ sent es
  sent (receiving now ∷ es) = sent es
  sent (calling g ∷ es) = sent es

  abbrev pub turns : List Event → ℕ
  turns [] = 0
  turns (reporting t ∷ es) = turns es
  turns (receiving now ∷ es) = suc (turns es)
  turns (calling g ∷ es) = turns es

  -- The router after the events, with no channel: the turns record the results of the list one after
  -- the other.
  abbrev pub history : List ToolResult → List Event → Router → Router
  history ts [] r = r
  history ts (reporting t ∷ es) r = history ts es r
  history ts (calling g ∷ es) r = history ts es (g r)
  history [] (receiving now ∷ es) r = history [] es r
  history (t ∷ ts) (receiving now ∷ es) r =
      history ts es (record_result r t.tenant t.node t.success t.latency_ms now)

  abbrev pub unread : ℕ → List ToolResult → List ToolResult
  unread n [] = []
  unread zero (t ∷ ts) = t ∷ ts
  unread (suc n) (t ∷ ts) = unread n ts

  pub unread-zero : (ts : List ToolResult) → unread 0 ts ≡ ts
  unread-zero [] = refl
  unread-zero (t ∷ ts) = refl

  pub length-unread : (n : ℕ) (ts : List ToolResult) → length (unread n ts) ≡ length ts - n
  length-unread n [] = omega arith
  length-unread zero (t ∷ ts) = omega arith
  length-unread (suc n) (t ∷ ts) = omega (arith, length-unread n ts)

  abbrev pub readings : List ℕ → List Event
  readings [] = []
  readings (now ∷ nows) = receiving now ∷ readings nows

  pub history-none : (nows : List ℕ) (r : Router) → history [] (readings nows) r ≡ r
  history-none [] r = refl
  history-none (now ∷ nows) r = history-none nows r

  pub history-append :
      (ts : List ToolResult) (es ds : List Event) (r : Router)
      → history ts (es ++ ds) r ≡ history (unread (turns es) ts) ds (history ts es r)
  history-append ts [] ds r = ap (λ l. history l ds r) (sym (unread-zero ts))
  history-append ts (reporting t ∷ es) ds r = history-append ts es ds r
  history-append ts (calling g ∷ es) ds r = history-append ts es ds (g r)
  history-append [] (receiving now ∷ es) ds r = history-append [] es ds r
  history-append (t ∷ ts) (receiving now ∷ es) ds r =
      history-append ts es ds (record_result r t.tenant t.node t.success t.latency_ms now)
