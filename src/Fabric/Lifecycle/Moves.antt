-- ===== src/Fabric/Lifecycle/Moves.antt =====
-- src/fabric.rs, `NodeLifecycle`: what a call does, as a move of the node.
use trust_system.Prelude.{
  ℕ, ◌+◌, ◌≤◌, ◌<◌, ◌≡◌, ◌≢◌, refl, ◌⊎◌, inl, inr, true, false, not, ◌&&◌, ◌||◌, arith, leb,
  Bool-cases,
}
use trust_system.Prelude.Text.{Text, bytes}
use trust_system.Prelude.Words.{u64_max, inc32}
use trust_system.Fabric.Lifecycle.{
  NodeLifecycleState, healthy, degraded, suspect, draining, failed, recovering, state_eq,
  NodeLifecycle, transition, record_success, record_failure, drain, begin_recovery,
}

-- The moves of a node. A degraded node that goes on failing is noted as degraded again.
pub data Allowed (s : NodeLifecycleState) (t : NodeLifecycleState) : Type 0 where
  heals : (s ≡ recovering) ⊎ (s ≡ degraded) → t ≡ healthy → Allowed s t
  improves : s ≡ suspect → t ≡ degraded → Allowed s t
  fails : s ≢ failed → t ≡ failed → Allowed s t
  worsens : s ≡ healthy → t ≡ suspect → Allowed s t
  degrades : (s ≡ healthy) ⊎ (s ≡ degraded) → t ≡ degraded → Allowed s t
  drains : s ≢ draining → t ≡ draining → Allowed s t
  recovers : s ≡ failed → t ≡ recovering → Allowed s t

state_eq→≡ : (a b : NodeLifecycleState) → state_eq a b ≡ true → a ≡ b
state_eq→≡ a b h = ground arith

state_ne→≢ : (a b : NodeLifecycleState) → state_eq a b ≡ false → a ≢ b
state_ne→≢ a b h e = ground arith

either_state :
    (s : NodeLifecycleState)
    → (state_eq s healthy || state_eq s degraded) ≡ true
    → (s ≡ healthy) ⊎ (s ≡ degraded)
either_state s h = elim (Bool-cases (state_eq s healthy)) [
  | inl e ↦ inl (state_eq→≡ _ _ e)
  | inr e ↦ inr (state_eq→≡ _ _ (ground arith))
]

-- A call that moves the node by an allowed move, or leaves its ring alone.
pub data Outcome (n : NodeLifecycle) (n' : NodeLifecycle) : Type 0 where
  counted :
      (failures successes : ℕ)
      → (failures ≡ 0) ⊎ (successes ≡ 0)
      → n' ≡ record n { consecutive_failures = failures; consecutive_successes = successes }
      → Outcome n n'
  moved :
      (to : NodeLifecycleState)
      → (reason : Text) → (now failures successes : ℕ) → Allowed n.state to
      → (failures ≡ 0) ⊎ (successes ≡ 0)
      → n' ≡ record (transition n to reason now) {
        consecutive_failures = failures;
        consecutive_successes = successes;
      }
      → Outcome n n'

record_success-Outcome : (n : NodeLifecycle) (now : ℕ) → Outcome n (record_success n now)
unfolding record_success transition
record_success-Outcome n now =
    let k = inc32 n.consecutive_successes in
    elim (Bool-cases (state_eq n.state recovering && leb 3 k)) [
      | inl e ↦
          moved healthy (bytes "recovery_complete") now 0 k
            (heals (inl (state_eq→≡ _ _ (ground arith))) refl) (inl refl) (simp (record_success, e))
      | inr e ↦ elim (Bool-cases (state_eq n.state degraded && leb 2 k)) [
        | inl g ↦
            moved healthy (bytes "degraded_recovery") now 0 k
              (heals (inr (state_eq→≡ _ _ (ground arith))) refl) (inl refl)
              (simp (record_success, e, g))
        | inr g ↦ elim (Bool-cases (state_eq n.state suspect && leb 1 k)) [
          | inl h ↦
              moved degraded (bytes "suspect_improving") now 0 k
                (improves (state_eq→≡ _ _ (ground arith)) refl) (inl refl)
                (simp (record_success, e, g, h))
          | inr h ↦ counted 0 k (inl refl) (simp (record_success, e, g, h))
        ]
      ]
    ]

record_failure-Outcome : (n : NodeLifecycle) (now : ℕ) → Outcome n (record_failure n now)
unfolding record_failure transition
record_failure-Outcome n now =
    let k = inc32 n.consecutive_failures in
    elim (Bool-cases (leb 5 k && not (state_eq n.state failed))) [
      | inl e ↦
          moved failed (bytes "failure_threshold") now k 0
            (fails (state_ne→≢ _ _ (ground arith)) refl) (inr refl) (simp (record_failure, e))
      | inr e ↦ elim (Bool-cases (leb 3 k && state_eq n.state healthy)) [
        | inl g ↦
            moved suspect (bytes "repeated_failures") now k 0
              (worsens (state_eq→≡ _ _ (ground arith)) refl) (inr refl)
              (simp (record_failure, e, g))
        | inr g ↦
            elim (Bool-cases (leb 2 k && (state_eq n.state healthy || state_eq n.state degraded))) [
              | inl h ↦
                  moved degraded (bytes "failures_increasing") now k 0
                    (degrades (either_state n.state (ground arith)) refl) (inr refl)
                    (simp (record_failure, e, g, h))
              | inr h ↦ counted k 0 (inr refl) (simp (record_failure, e, g, h))
            ]
      ]
    ]

drain-Outcome :
    (n : NodeLifecycle) (now : ℕ)
    → (n.consecutive_failures ≡ 0) ⊎ (n.consecutive_successes ≡ 0)
    → Outcome n (drain n now)
unfolding drain transition
drain-Outcome n now c = elim (Bool-cases (state_eq n.state draining)) [
  | inl e ↦ counted n.consecutive_failures n.consecutive_successes c (simp (drain, e))
  | inr e ↦
      moved draining (bytes "manual_drain") now n.consecutive_failures n.consecutive_successes
        (drains (state_ne→≢ _ _ e) refl) c (simp (drain, e))
]

begin_recovery-Outcome :
    (n : NodeLifecycle) (now : ℕ)
    → (n.consecutive_failures ≡ 0) ⊎ (n.consecutive_successes ≡ 0)
    → Outcome n (begin_recovery n now)
unfolding begin_recovery transition
begin_recovery-Outcome n now c = elim (Bool-cases (state_eq n.state failed)) [
  | inl e ↦
      moved recovering (bytes "recovery_initiated") now 0 0 (recovers (state_eq→≡ _ _ e) refl)
        (inl refl) (simp (begin_recovery, e))
  | inr e ↦ counted n.consecutive_failures n.consecutive_successes c (simp (begin_recovery, e))
]

pub data Call : Type 0 where
  success failure draining_call recovery : Call

abbrev pub call : NodeLifecycle → Call × ℕ → NodeLifecycle
call n (success, now) = record_success n now
call n (failure, now) = record_failure n now
call n (draining_call, now) = drain n now
call n (recovery, now) = begin_recovery n now

pub call-Outcome :
    (n : NodeLifecycle) (c : Call × ℕ)
    → (n.consecutive_failures ≡ 0) ⊎ (n.consecutive_successes ≡ 0)
    → Outcome n (call n c)
call-Outcome n (success, now) h = record_success-Outcome n now
call-Outcome n (failure, now) h = record_failure-Outcome n now
call-Outcome n (draining_call, now) h = drain-Outcome n now h
call-Outcome n (recovery, now) h = begin_recovery-Outcome n now h

pub Outcome-revision :
    (n n' : NodeLifecycle) → n.revision < u64_max → Outcome n n' → n'.revision ≤ n.revision + 1
unfolding transition
Outcome-revision n n' b (counted failures successes c e) = rw e (omega arith)
Outcome-revision n n' b (moved to reason now failures successes a c e) = rw e (omega (arith, b))
