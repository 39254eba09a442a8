-- ===== src/Fabric/Lifecycle.antt =====
-- src/fabric.rs, `NodeLifecycle`: the states of a node and the ring of its latest transitions.
pub mod Moves
pub mod Ring
pub mod Suspect
use trust_system.Prelude.{
  ℕ, ◌≡◌, Bool, true, false, not, ◌&&◌, ◌||◌, List, [], ◌∷◌, ◌++◌, if◌then◌else◌, ◌==◌, leb, length,
  rest,
}
use trust_system.Prelude.Text.{Text, bytes}
use trust_system.Prelude.Words.{inc32, inc64, clamp_nat}

pub data NodeLifecycleState : Type 0 where
  healthy degraded suspect draining failed recovering : NodeLifecycleState

abbrev pub rank : NodeLifecycleState → ℕ
rank healthy = 0
rank degraded = 1
rank suspect = 2
rank draining = 3
rank failed = 4
rank recovering = 5

abbrev pub state_eq : NodeLifecycleState → NodeLifecycleState → Bool
state_eq a b = rank a == rank b

pub record NodeLifecycleTransition : Type 0 where
  pub «from» : NodeLifecycleState
  pub to : NodeLifecycleState
  pub reason : Text
  pub timestamp : ℕ
  pub revision : ℕ

pub record NodeLifecycle : Type 0 where
  pub state : NodeLifecycleState
  pub consecutive_failures : ℕ
  pub consecutive_successes : ℕ
  pub transitions : List NodeLifecycleTransition
  pub max_transitions : ℕ
  pub revision : ℕ

abbrev pub new : ℕ → NodeLifecycle
new max_transitions = record {
  state = healthy;
  consecutive_failures = 0;
  consecutive_successes = 0;
  transitions = [];
  max_transitions = clamp_nat 1 1000 max_transitions;
  revision = 0;
}

unfoldable pub transition : NodeLifecycle → NodeLifecycleState → Text → ℕ → NodeLifecycle
transition n to reason now =
    let revision = inc64 n.revision in
    let entry : NodeLifecycleTransition = record {
      «from» = n.state;
      to = to;
      reason = reason;
      timestamp = now;
      revision = revision;
    } in
    record n {
      revision = revision;
      transitions =
          (if leb n.max_transitions (length n.transitions)
            then rest n.transitions
            else n.transitions)
          ++ entry ∷ [];
      state = to;
    }

unfoldable pub record_success : NodeLifecycle → ℕ → NodeLifecycle
record_success n now =
    let successes = inc32 n.consecutive_successes in
    let m : NodeLifecycle = record n {
      consecutive_successes = successes;
      consecutive_failures = 0;
    } in
    if state_eq n.state recovering && leb 3 successes
    then transition m healthy (bytes "recovery_complete") now
    else if state_eq n.state degraded && leb 2 successes
    then transition m healthy (bytes "degraded_recovery") now
    else if state_eq n.state suspect && leb 1 successes
    then transition m degraded (bytes "suspect_improving") now
    else m

unfoldable pub record_failure : NodeLifecycle → ℕ → NodeLifecycle
record_failure n now =
    let failures = inc32 n.consecutive_failures in
    let m : NodeLifecycle = record n {
      consecutive_failures = failures;
      consecutive_successes = 0;
    } in
    if leb 5 failures && not (state_eq n.state failed)
    then transition m failed (bytes "failure_threshold") now
    else if leb 3 failures && state_eq n.state healthy
    then transition m suspect (bytes "repeated_failures") now
    else if leb 2 failures && (state_eq n.state healthy || state_eq n.state degraded)
    then transition m degraded (bytes "failures_increasing") now
    else m

unfoldable pub drain : NodeLifecycle → ℕ → NodeLifecycle
drain n now =
    if not (state_eq n.state draining) then transition n draining (bytes "manual_drain") now else n

unfoldable pub begin_recovery : NodeLifecycle → ℕ → NodeLifecycle
begin_recovery n now =
    if state_eq n.state failed
    then record (transition n recovering (bytes "recovery_initiated") now) {
      consecutive_failures = 0;
      consecutive_successes = 0;
    }
    else n
