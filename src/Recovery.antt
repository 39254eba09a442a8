-- ===== src/Recovery.antt =====
-- src/escalation.rs: the bounded plan that answers an escalation.
use trust_system.Prelude.{
  ℕ, ◌≤◌, List, [], ◌∷◌, ◌++◌, map, arith, if◌then◌else◌, ltb, length, take, length-take,
  length-map, length-append,
}
use Prim.Native.Nat.{max}
use trust_system.Prelude.Text.{Text, bytes}
use trust_system.Audit.{EscalationContext}

pub record RecoveryPlan : Type 0 where
  pub blocked_nodes : List Text
  pub steps : List Text

pub record BoundedRecoveryAdapter : Type 0 where
  pub max_steps : ℕ

abbrev pub new : ℕ → BoundedRecoveryAdapter
new max_steps = record { max_steps = max max_steps 1 }

abbrev pub inspect : Text → Text
inspect node = bytes "Inspect or replace blocked tool: " ++ node

abbrev pub ask : Text
ask = bytes "Ask the recovery planner for a bounded alternate workflow."

unfoldable pub plan : BoundedRecoveryAdapter → EscalationContext → RecoveryPlan
plan a context =
    let steps = map inspect (take a.max_steps context.failed_or_blocked_nodes) in
    let asked = if ltb (length steps) a.max_steps then steps ++ ask ∷ [] else steps in
    record { blocked_nodes = context.failed_or_blocked_nodes; steps = take a.max_steps asked }

pub length-plan-le :
    (a : BoundedRecoveryAdapter) (context : EscalationContext)
    → length (plan a context).steps ≤ a.max_steps
unfolding plan
length-plan-le a context =
    let steps = map inspect (take a.max_steps context.failed_or_blocked_nodes) in
    let asked = if ltb (length steps) a.max_steps then steps ++ ask ∷ [] else steps in
    omega (arith, length-take a.max_steps asked)

-- An adapter that allows a step plans at least one.
pub length-plan-pos :
    (a : BoundedRecoveryAdapter) (context : EscalationContext)
    → 1 ≤ a.max_steps
    → 1 ≤ length (plan a context).steps
unfolding plan
length-plan-pos a context b =
    let n = a.max_steps in
    let steps = map inspect (take n context.failed_or_blocked_nodes) in
    let asked = if ltb (length steps) n then steps ++ ask ∷ [] else steps in
    let e = length-map inspect (take n context.failed_or_blocked_nodes) in
    let t = length-take n context.failed_or_blocked_nodes in
    ground (arith, length-take n asked, e, t, length-append steps (ask ∷ []))
