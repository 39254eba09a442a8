-- ===== src/Admission/Steps.antt =====
-- Threads that admit and drop in any order, one method at a time, as the mutex orders them.
use trust_system.Prelude.{
  ◌≤◌, ◌<◌, ◌≡◌, refl, ◌∙◌, true, false, List, [], ◌∷◌, ◌++◌, arith, dec_lt, subst, length, ok, err,
  Result, Bool-cases, inl, inr,
}
use trust_system.Prelude.Text.{Text, valid_identifier}
use trust_system.Prelude.Words.{u64_max}
use trust_system.Admission.{
  AdmissionPolicy, AdmissionController, AdmissionError, Permit, permit, count_of, admit,
  admit_locked, invalid_policy, release, new, snapshot, invalid_tenant, global_limit, tenant_limit,
}
use trust_system.Admission.Counts.{held_by, length-le-sum}
use trust_system.Admission.Invariant.{
  Inv, new-Inv, admitted, admit_locked_ok, admitted-Inv, release-Inv,
}

-- The controller, with the permits that callers hold.
pub record World : Type 0 where
  pub controller : AdmissionController
  pub out : List Permit

pub data Step : World → World → Type 0 where
  admits :
      (w : World) (t : Text) (c : AdmissionController) (p : Permit)
      → admit w.controller t ≡ ok (c, p)
      → Step w (record { controller = c; out = p ∷ w.out })
  drops :
      (w : World) (ps qs : List Permit) (p : Permit)
      → w.out ≡ ps ++ p ∷ qs
      → Step w (record { controller = release w.controller p; out = ps ++ qs })

pub data Reach (w : World) : World → Type 0 where
  here : Reach w w
  next : {u v : World} → Reach w u → Step u v → Reach w v

abbrev pub WorldInv : World → Type 0
WorldInv w = Inv w.controller w.out

-- When `admit` gives an answer, and what it leaves behind.
abbrev pub Explains :
    (c : AdmissionController) (out : List Permit) (t : Text)
    → Result AdmissionError (AdmissionController × Permit)
    → Type 0
Explains c out t (err (invalid_policy e)) = ⊥
Explains c out t (err invalid_tenant) = valid_identifier t ≡ false
Explains c out t (err (global_limit n)) =
    (valid_identifier t ≡ true)
    × (n ≡ c.policy.global_in_flight)
    × (c.policy.global_in_flight ≤ length out)
Explains c out t (err (tenant_limit s n)) =
    (valid_identifier t ≡ true)
    × (s ≡ t)
    × (n ≡ c.policy.per_tenant_in_flight)
    × (length out < c.policy.global_in_flight)
    × (c.policy.per_tenant_in_flight ≤ held_by t out)
Explains c out t (ok (c', p)) =
    (valid_identifier t ≡ true)
    × (p ≡ permit t)
    × (length out < c.policy.global_in_flight)
    × (held_by t out < c.policy.per_tenant_in_flight)
    × Inv c' (p ∷ out)

locked_full :
    (c : AdmissionController) (t : Text)
    → ¬ (c.state.total_in_flight < c.policy.global_in_flight)
    → admit_locked c t ≡ err (global_limit c.policy.global_in_flight)
unfolding admit_locked
locked_full c t h = ground arith

locked_tenant_full :
    (c : AdmissionController) (t : Text)
    → c.state.total_in_flight < c.policy.global_in_flight
    → ¬ (count_of t c.state.tenant_in_flight < c.policy.per_tenant_in_flight)
    → admit_locked c t ≡ err (tenant_limit t c.policy.per_tenant_in_flight)
unfolding admit_locked
locked_tenant_full c t g h = ground arith

locked-Explains :
    (c : AdmissionController) (out : List Permit) (t : Text)
    → Inv c out
    → valid_identifier t ≡ true
    → Explains c out t (admit_locked c t)
locked-Explains c out t v h = elim (dec_lt c.state.total_in_flight c.policy.global_in_flight) [
  | no full ↦ rw (locked_full c t full) (h, refl, omega (arith, v.total))
  | yes room ↦ elim (dec_lt (count_of t c.state.tenant_in_flight) c.policy.per_tenant_in_flight) [
    | no full ↦
        rw (locked_tenant_full c t room full)
          (h, refl, refl, omega (arith, v.total), omega (arith, v.counted t))
    | yes free ↦
        rw (admit_locked_ok v t room free)
          (h, refl, omega (arith, v.total), omega (arith, v.counted t), admitted-Inv v t room free)
  ]
]

-- `admit` lets a request in exactly when its identifier is valid and both limits leave room, and
-- each refusal names the limit that is reached.
pub admit-Explains :
    (c : AdmissionController) (out : List Permit) (t : Text)
    → Inv c out
    → Explains c out t (admit c t)
unfolding admit
admit-Explains c out t v = elim (Bool-cases (valid_identifier t)) [
  | inl good ↦ rw good (locked-Explains c out t v good)
  | inr bad ↦ rw bad bad
]

admit_ok :
    (c : AdmissionController) (out : List Permit) (t : Text)
    → Inv c out
    → valid_identifier t ≡ true
    → length out < c.policy.global_in_flight
    → held_by t out < c.policy.per_tenant_in_flight
    → admit c t ≡ ok (admitted c t, permit t)
unfolding admit
admit_ok c out t v good room free =
    rw good (admit_locked_ok v t (omega (arith, v.total)) (omega (arith, v.counted t)))

-- The one state that a request which is let in can leave behind.
pub admit-admitted :
    (c : AdmissionController) (out : List Permit) (t : Text) (c' : AdmissionController) (p : Permit)
    → Inv c out
    → admit c t ≡ ok (c', p)
    → (c' ≡ admitted c t) × (p ≡ permit t) × (length out < c.policy.global_in_flight)
admit-admitted c out t c' p v e =
    let x : Explains c out t (ok (c', p)) = subst (Explains c out t) e (admit-Explains c out t v) in
    ground (arith, admit_ok c out t v x.0 x.2 x.3)

admitted-Explained :
    (c : AdmissionController) (out : List Permit) (t : Text) (c' : AdmissionController) (p : Permit)
    → Inv c out
    → admit c t ≡ ok (c', p)
    → Inv c' (p ∷ out)
admitted-Explained c out t c' p v e = (subst (Explains c out t) e (admit-Explains c out t v)).4

Step-WorldInv : {w u : World} → Step w u → WorldInv w → WorldInv u
Step-WorldInv (admits w t c p e) v = admitted-Explained w.controller w.out t c p v e
Step-WorldInv (drops w ps qs p e) v =
    release-Inv w.controller ps qs p (subst (Inv w.controller) e v)

pub Reach-WorldInv : {w u : World} → WorldInv w → Reach w u → WorldInv u
Reach-WorldInv v here = v
Reach-WorldInv v (next r s) = Step-WorldInv s (Reach-WorldInv v r)

Step-policy : {w u : World} → Step w u → u.controller.policy ≡ w.controller.policy
unfolding admit release
Step-policy (admits w t c p e) = ground arith
Step-policy (drops w ps qs p e) = ground arith

Reach-policy : {w u : World} → Reach w u → u.controller.policy ≡ w.controller.policy
Reach-policy here = refl
Reach-policy (next r s) = Step-policy s ∙ Reach-policy r

new-policy :
    (policy : AdmissionPolicy) {c : AdmissionController} → new policy ≡ ok c → c.policy ≡ policy
unfolding new
new-policy policy e = ground arith

-- In whatever order threads admit and drop, never more permits are out than the global limit, no
-- tenant holds more than its own, the counters tell exactly who holds what, and the snapshot lists
-- at most as many tenants as the global limit.
pub never_over_limit :
    (policy : AdmissionPolicy) (c : AdmissionController) (w : World)
    → policy.global_in_flight ≤ u64_max
    → new policy ≡ ok c
    → Reach (record { controller = c; out = [] }) w
    → (length w.out ≤ policy.global_in_flight)
      × ((t : Text) → held_by t w.out ≤ policy.per_tenant_in_flight)
      × ((t : Text) → count_of t (snapshot w.controller).tenant_in_flight ≡ held_by t w.out)
      × (length (snapshot w.controller).tenant_in_flight ≤ policy.global_in_flight)
unfolding snapshot
never_over_limit policy c w h e r =
    let v : WorldInv w = Reach-WorldInv (new-Inv policy h e) r in
    let same : w.controller.policy ≡ policy = Reach-policy r ∙ new-policy policy e in
    (
      rw (← same) (omega (arith, v.total, v.global)),
      λ t. rw (← same) (omega (arith, v.counted t, v.tenant t)),
      v.counted,
      rw (← same) (
          omega (
            arith,
            length-le-sum w.controller.state.tenant_in_flight v.positive,
            v.summed,
            v.global,
          )),
    )
