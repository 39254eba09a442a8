-- ===== src/Fabric/Lifecycle/Suspect.antt =====
-- src/fabric.rs, `NodeLifecycle`: the state that no history reaches.
use trust_system.Prelude.{ℕ, ◌≤◌, ◌≢◌, ◌⊎◌, inr, List, [], ◌∷◌, arith}
use mathlib.Core.List.{foldl}
use trust_system.Fabric.Lifecycle.{
  healthy, suspect, NodeLifecycle, new, transition, record_success, record_failure, drain,
  begin_recovery,
}
use trust_system.Fabric.Lifecycle.Moves.{Call, success, failure, draining_call, recovery, call}

-- A healthy node has failed at most once since its last success: the second failure degrades it.
abbrev Unsuspected : NodeLifecycle → Type 0
Unsuspected n = (n.state ≢ suspect) × ((n.state ≢ healthy) ⊎ (n.consecutive_failures ≤ 1))

call-Unsuspected : (n : NodeLifecycle) (c : Call × ℕ) → Unsuspected n → Unsuspected (call n c)
unfolding record_success record_failure drain begin_recovery transition
call-Unsuspected n (success, now) (a, b) = ((λ e. ground arith), ground arith)
call-Unsuspected n (failure, now) (a, b) = ((λ e. ground arith), ground arith)
call-Unsuspected n (draining_call, now) (a, b) = ((λ e. ground arith), ground arith)
call-Unsuspected n (recovery, now) (a, b) = ((λ e. ground arith), ground arith)

calls-Unsuspected :
    (n : NodeLifecycle) (cs : List (Call × ℕ)) → Unsuspected n → Unsuspected (foldl call n cs)
calls-Unsuspected n [] h = h
calls-Unsuspected n (c ∷ cs) h = calls-Unsuspected (call n c) cs (call-Unsuspected n c h)

-- No history of calls brings a node to the state `Suspect`, although `record_failure` has a branch
-- for it: the second failure of a healthy node makes it degraded, and the branch asks for a third
-- one of a healthy node.
pub never_suspect :
    (max_transitions : ℕ) (cs : List (Call × ℕ))
    → (foldl call (new max_transitions) cs).state ≢ suspect
never_suspect max_transitions cs =
    (calls-Unsuspected (new max_transitions) cs ((λ e. ground arith), inr (omega arith))).0
