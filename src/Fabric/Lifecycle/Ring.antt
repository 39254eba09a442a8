-- ===== src/Fabric/Lifecycle/Ring.antt =====
-- src/fabric.rs, `NodeLifecycle`: what the ring of transitions says of any history of calls.
use trust_system.Prelude.{
  ℕ, ◌+◌, ◌≤◌, ◌<◌, ◌≡◌, refl, sym, subst, ◌⊎◌, inl, inr, List, [], ◌∷◌, ◌++◌, arith, leb, length,
  rest, length-append, length-rest, Bool-cases,
}
use mathlib.Core.List.{foldl}
use trust_system.Prelude.Text.{Text}
use trust_system.Prelude.Words.{u64_max, inc64}
use trust_system.Fabric.Lifecycle.Moves.{
  Allowed, Outcome, counted, moved, Call, call, call-Outcome, Outcome-revision,
}
use trust_system.Fabric.Lifecycle.{
  NodeLifecycleState, healthy, NodeLifecycleTransition, NodeLifecycle, new, transition,
}

-- The entries lead from one state and revision to another, each an allowed move that begins where
-- the one before it ended and has the next revision.
abbrev pub Leads :
    NodeLifecycleState → ℕ → List NodeLifecycleTransition → NodeLifecycleState → ℕ → Type 0
Leads s r [] s' r' = (s ≡ s') × (r ≡ r')
Leads s r (t ∷ ts) s' r' =
    (t.«from» ≡ s) × (t.revision ≡ r + 1) × Allowed t.«from» t.to × Leads t.to t.revision ts s' r'

Leads-snoc :
    (s : NodeLifecycleState) (r : ℕ) (ts : List NodeLifecycleTransition) (s' : NodeLifecycleState)
    (r' : ℕ) (t : NodeLifecycleTransition)
    → Leads s r ts s' r'
    → t.«from» ≡ s'
    → t.revision ≡ r' + 1
    → Allowed t.«from» t.to
    → Leads s r (ts ++ t ∷ []) t.to t.revision
Leads-snoc s r [] s' r' t (p, q) e f a = (ground arith, ground arith, a, (refl, refl))
Leads-snoc s r (x ∷ ts) s' r' t (p, q, b, l) e f a =
    (p, q, b, Leads-snoc x.to x.revision ts s' r' t l e f a)

-- Without its first entry a ring leads from where that one led.
Leads-rest :
    (s : NodeLifecycleState) (r : ℕ) (ts : List NodeLifecycleTransition) (s' : NodeLifecycleState)
    (r' : ℕ)
    → Leads s r ts s' r'
    → (o : NodeLifecycleState) × (d : ℕ) × Leads o d (rest ts) s' r'
Leads-rest s r [] s' r' l = (s, r, l)
Leads-rest s r (t ∷ ts) s' r' (p, q, a, l) = (t.to, t.revision, l)

-- What holds of a node: its ring leads to its state and its revision from where the entries that
-- were dropped had led; it is within its limit; and failures or successes are counted, not both.
pub record Inv (n : NodeLifecycle) : Type 0 where
  pub origin : NodeLifecycleState
  pub dropped : ℕ
  pub leads : Leads origin dropped n.transitions n.state n.revision
  pub bounded : length n.transitions ≤ n.max_transitions
  pub limit : 1 ≤ n.max_transitions
  pub counts : (n.consecutive_failures ≡ 0) ⊎ (n.consecutive_successes ≡ 0)

-- The call changes the counters as well; they are arguments here.
transition-Inv :
    (n : NodeLifecycle) (to : NodeLifecycleState) (reason : Text) (now failures successes : ℕ)
    → n.revision < u64_max
    → Allowed n.state to
    → (failures ≡ 0) ⊎ (successes ≡ 0)
    → Inv n
    → Inv (record (transition n to reason now) {
      consecutive_failures = failures;
      consecutive_successes = successes;
    })
unfolding transition
transition-Inv n to reason now failures successes b a c inv =
    let up : inc64 n.revision ≡ n.revision + 1 = omega (arith, b) in
    let l = inv.leads in
    let entry : NodeLifecycleTransition = record {
      «from» = n.state;
      to = to;
      reason = reason;
      timestamp = now;
      revision = inc64 n.revision;
    } in
    elim (Bool-cases (leb n.max_transitions (length n.transitions))) [
      | inr room ↦
          let few : length n.transitions < n.max_transitions = ground arith in
          record {
            origin = inv.origin;
            dropped = inv.dropped;
            leads =
                rw room (
                  Leads-snoc inv.origin inv.dropped n.transitions n.state n.revision _ l refl up a);
            bounded = rw room (omega (arith, length-append n.transitions (entry ∷ []), few));
            limit = inv.limit;
            counts = c;
          }
      | inl full ↦
          let (o, d, l') = Leads-rest inv.origin inv.dropped n.transitions n.state n.revision l in
          record {
            origin = o;
            dropped = d;
            leads = rw full (Leads-snoc o d (rest n.transitions) n.state n.revision _ l' refl up a);
            bounded = rw full (
                omega (
                  arith,
                  length-append (rest n.transitions) (entry ∷ []),
                  length-rest n.transitions,
                  inv.bounded,
                  inv.limit,
                ));
            limit = inv.limit;
            counts = c;
          }
    ]

Outcome-Inv : (n n' : NodeLifecycle) → n.revision < u64_max → Outcome n n' → Inv n → Inv n'
Outcome-Inv n n' b (counted failures successes c e) inv = subst Inv (sym e) (record {
  origin = inv.origin;
  dropped = inv.dropped;
  leads = inv.leads;
  bounded = inv.bounded;
  limit = inv.limit;
  counts = c;
})
Outcome-Inv n n' b (moved to reason now failures successes a c e) inv =
    subst Inv (sym e) (transition-Inv n to reason now failures successes b a c inv)

calls-Inv :
    (n : NodeLifecycle) (cs : List (Call × ℕ))
    → n.revision + length cs ≤ u64_max
    → Inv n
    → Inv (foldl call n cs)
calls-Inv n [] b inv = inv
calls-Inv n (c ∷ cs) b inv =
    let o = call-Outcome n c inv.counts in
    let few : n.revision < u64_max = omega (arith, b) in
    calls-Inv (call n c) cs (omega (arith, Outcome-revision n (call n c) few o, b))
      (Outcome-Inv n (call n c) few o inv)

-- After any history of calls, of fewer than 2 ^ 64: the ring of transitions holds no more than its
-- limit; its entries are allowed moves, each from the state where the one before it ended and with
-- the next revision, and the last one ends in the node's state and revision; and the node counts
-- failures or successes, not both.
pub lifecycle-Inv :
    (max_transitions : ℕ) (cs : List (Call × ℕ))
    → length cs ≤ u64_max
    → Inv (foldl call (new max_transitions) cs)
lifecycle-Inv max_transitions cs b = calls-Inv (new max_transitions) cs (omega (arith, b)) (record {
  origin = healthy;
  dropped = 0;
  leads = (refl, refl);
  bounded = omega arith;
  limit = omega arith;
  counts = inl refl;
})
