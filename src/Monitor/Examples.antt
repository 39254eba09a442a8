-- ===== src/Monitor/Examples.antt =====
-- Results that are sent through a list and then applied.
use trust_system.Prelude.{◌≡◌, refl, List, [], ◌∷◌, ◌++◌, true, false, arith}
use trust_system.Prelude.Text.{bytes}
use trust_system.Prelude.Float.Fixed.{decimals}
use trust_system.Router.{Router, empty_router, add_tenant}
use trust_system.Router.Reach.{Reach, start, adding_tenant}
use trust_system.Monitor.{ToolResult, System, report, turn, consume}
use trust_system.Monitor
use trust_system.Monitor.Listed.{push, take, listed, listed-IsFifo}
use trust_system.Monitor.History.{Event, reporting, receiving, calling, history, unread, readings}
use trust_system.Monitor.Runs.{Run, pending, run-history, consume-history}

program : Unit {0}
unfolding push take report turn consume
program = tt

abbrev first : ToolResult
first = record { tenant = bytes "a"; node = bytes "b"; success = true; latency_ms = 5 }

abbrev second : ToolResult
second = record first { success = false }

abbrev add : Router → Router
add r = add_tenant r (bytes "a")

abbrev events : List Event
events = reporting first ∷ calling add ∷ reporting second ∷ receiving 7 ∷ []

abbrev after : System
after = record {
  monitor = record { sender = (2, second ∷ []) };
  router = Monitor.apply (add empty_router) first 7;
}

runs : Run (Monitor.start empty_router 2) events after
unfolding program
runs = (
  record { sender = (2, first ∷ []) },
  refl,
  (
    adding_tenant (bytes "a") refl,
    (record { sender = (2, first ∷ second ∷ []) }, refl, (after, refl, refl)),
  ),
)

run-history_example :
    (after.router ≡ history (first ∷ second ∷ []) events empty_router)
    × (pending listed-IsFifo after ≡ unread 1 (first ∷ second ∷ []))
    × Reach after.router
run-history_example = run-history listed-IsFifo empty_router 2 events after start runs

consume-history_example :
    (pending listed-IsFifo (consume after (9 ∷ [])) ≡ [])
    × ((consume after (9 ∷ [])).router
        ≡ history (first ∷ second ∷ []) (events ++ readings (9 ∷ [])) empty_router)
consume-history_example =
    consume-history listed-IsFifo empty_router 2 events after (9 ∷ []) start runs (omega arith)
