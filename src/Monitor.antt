-- ===== src/Monitor.antt =====
-- src/health_monitor.rs: a bounded channel of tool results, and the task that applies them to the
-- router. The channel is that of tokio, and an argument of every definition here: a send is over
-- when the channel has had room or is closed, and a receive may find nothing. Other threads send
-- and call the router in between.
pub mod Fifo
pub mod History
pub mod Runs
pub mod Listed
mod Examples
use trust_system.Prelude.{ℕ, Bool, Option, none, some, List, [], ◌∷◌, Result, ok, err}
use trust_system.Prelude.Text.{Text}
use trust_system.Prelude.Float.{Floats}
use trust_system.Router.{Router, record_result}

pub record ToolResult : Type 0 where
  pub tenant : Text
  pub node : Text
  pub success : Bool
  pub latency_ms : ℕ

-- `tokio::sync::mpsc`: both halves of one channel, what a send leaves of it or gives back, and what
-- a receive leaves of it and takes.
pub record Channel : Type 1 where
  pub Carrier : Type 0
  pub channel : ℕ → Carrier
  pub send : Carrier → ToolResult → Result ToolResult Carrier
  pub recv : Carrier → Option (Carrier × ToolResult)

module _ ⦃ch : Channel⦄ where
  pub record HealthMonitor : Type 0 where
    pub sender : ch.Carrier

  unfoldable pub report : HealthMonitor → ToolResult → Result ToolResult HealthMonitor
  report m result = elim (ch.send m.sender result) [
    | err refused ↦ err refused
    | ok sender ↦ ok (record { sender = sender })
  ]

  module _ ⦃f : Floats⦄ where
    -- The monitor, and the router that its task applies the results to.
    pub record System : Type 0 where
      pub monitor : HealthMonitor
      pub router : Router

    abbrev pub start : Router → ℕ → System
    start router capacity = record {
      monitor = record { sender = ch.channel capacity };
      router = router;
    }

    unfoldable pub apply : Router → ToolResult → ℕ → Router
    apply router result now =
        record_result router result.tenant result.node result.success result.latency_ms now

    -- One turn of the loop, at the time at which the result is applied.
    unfoldable pub turn : System → ℕ → Option System
    turn s now = elim (ch.recv s.monitor.sender) [
      | none ↦ none
      | some (sender, result) ↦
          some (record { monitor = record { sender = sender }; router = apply s.router result now })
    ]

    -- The loop left alone, with the time of each of its turns, until it waits.
    unfoldable pub consume : System → List ℕ → System
    consume s [] = s
    consume s (now ∷ nows) = elim (turn s now) [ none ↦ s | some s' ↦ consume s' nows ]
