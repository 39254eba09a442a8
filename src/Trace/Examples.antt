-- ===== src/Trace/Examples.antt =====
-- The trace of a decision with one rejection.
use trust_system.Prelude.{◌≤◌, ◌<◌, ◌≡◌, refl, [], ◌∷◌, true, false, none, ok, map, length}
use Prim.Native.Nat.{max}
use trust_system.Prelude.Text.{bytes, valid_identifier}
use trust_system.Prelude.Float.Fixed.{decimals, fin}
use trust_system.Kv.{cached_kv}
use trust_system.Placement.{capacity, PlacementCandidate, SystemDecision}
use trust_system.Capacity.{queue_limit}
use trust_system.Trace.{max_trace_rejections, trace_rejection, DecisionTrace, from_system_decision}
use trust_system.Trace.Bounded.{from_system_decision-length}

abbrev candidate : PlacementCandidate
candidate = record {
  backend_id = bytes "b";
  compute_node_id = bytes "n";
  estimate = record {
    model = record { model_id = bytes "m"; model_version = bytes "1" };
    strategy = cached_kv;
    latency_ms = fin 0;
    cost = fin 0;
    failure_rate = fin 0;
    quality = fin 0;
  };
}

abbrev decision : SystemDecision
decision = record {
  selected = none;
  rejected = (candidate, capacity queue_limit) ∷ [];
  unavailable_nodes = (bytes "n", queue_limit) ∷ [];
  config_error = none;
}

accepts : valid_identifier (bytes "r") ≡ true
unfolding valid_identifier
accepts = refl

from_system_decision-length_example :
    (t : DecisionTrace) × (from_system_decision (bytes "r") decision 1 2 0 ≡ ok t)
    × (length t.rejected ≤ max_trace_rejections)
    × (length t.rejected ≤ max 1 0)
    × (t.rejected_truncated ≡ true → length t.rejected < length decision.rejected)
    × (t.rejected_truncated ≡ false → t.rejected ≡ map trace_rejection decision.rejected)
from_system_decision-length_example = from_system_decision-length (bytes "r") decision 1 2 0 accepts
