-- ===== src/Intelligence/Revisions.antt =====
-- src/intelligence.rs: what holds of the world state after any observations.
use trust_system.Prelude.{
  ℕ, ◌+◌, ◌≤◌, ◌<◌, ◌≡◌, ◌∙◌, refl, sym, ap, subst, inl, inr, true, false, List, [], ◌∷◌, arith, In,
  All, ok, err, Result-cases, Bool-cases,
}
use trust_system.Prelude.Text.{Text, text_dec}
use trust_system.Prelude.Words.{u64_max, inc64, inc64_below}
use trust_system.Prelude.Distinct.{IsDistinct, snoc-IsDistinct, In-append_left, In-append_right}
use trust_system.Prelude.Float.{Floats}
use trust_system.Intelligence.{InferenceObservation, IntelligenceError, validate}
use trust_system.Intelligence.World.{
  WorldState, WorldStateManager, new, contains, push_new, observe, ingest,
}

contains-In : (x : Text) (xs : List Text) → contains x xs ≡ true → In x xs
contains-In x [] h = absurd (cc)
contains-In x (y ∷ xs) h = elim (text_dec y x) [
  | yes e ↦ inl (sym e)
  | no n ↦ inr (contains-In x xs (ground arith))
]

not-contains : (x : Text) (xs : List Text) → contains x xs ≡ false → ¬ In x xs
not-contains x [] h i = i
not-contains x (y ∷ xs) h (inl e) = ground arith
not-contains x (y ∷ xs) h (inr i) = not-contains x xs (ground arith) i

push_new-IsDistinct : (xs : List Text) (x : Text) → IsDistinct xs → IsDistinct (push_new xs x)
push_new-IsDistinct xs x d = elim (Bool-cases (contains x xs)) [
  | inl e ↦ rw (push_new, e) d
  | inr e ↦ rw (push_new, e) (snoc-IsDistinct x xs d (not-contains x xs e))
]

push_new-In : (xs : List Text) (x : Text) → In x (push_new xs x)
push_new-In xs x = elim (Bool-cases (contains x xs)) [
  | inl e ↦ rw (push_new, e) (contains-In x xs e)
  | inr e ↦ rw (push_new, e) (In-append_right x xs (x ∷ []) (inl refl))
]

push_new-keeps : (xs : List Text) (x y : Text) → In y xs → In y (push_new xs x)
push_new-keeps xs x y i = elim (Bool-cases (contains x xs)) [
  | inl e ↦ rw (push_new, e) i
  | inr e ↦ rw (push_new, e) (In-append_left y xs (x ∷ []) i)
]

module _ ⦃f : Floats⦄ where
  -- The observations that a manager accepted, latest first, each with the revision it made; others
  -- may be refused in between.
  pub data History : WorldStateManager → List (InferenceObservation × ℕ) → Type 0 where
    start : (max_age now : ℕ) → History (new max_age now) []
    accepted :
        {m m' : WorldStateManager} {os : List (InferenceObservation × ℕ)} {revision : ℕ}
        → (o : InferenceObservation) → (now : ℕ) → History m os
        → ingest m o now ≡ (m', ok revision)
        → History m' ((o, revision) ∷ os)
    refused :
        {m m' : WorldStateManager} {os : List (InferenceObservation × ℕ)} {x : IntelligenceError}
        → (o : InferenceObservation) → (now : ℕ) → History m os
        → ingest m o now ≡ (m', err x)
        → History m' os

  abbrev pub count : List (InferenceObservation × ℕ) → ℕ
  count [] = 0
  count (o ∷ os) = count os + 1

  -- An accepted observation: it is valid, its node and backend are known, and it has a revision that
  -- is not ahead of the state's.
  abbrev pub Known : WorldState → InferenceObservation × ℕ → Type 0
  Known w o =
      (validate o.0 ≡ ok tt)
      × In o.0.compute_node_id w.nodes
      × In o.0.backend_id w.backends
      × (o.1 ≤ w.revision)

  pub record Inv (m : WorldStateManager) (os : List (InferenceObservation × ℕ)) : Type 0 where
    pub revision : m.state.revision ≡ count os
    pub accepts : m.observations_accepted ≡ count os
    pub rejects : m.observations_rejected ≡ 0
    pub nodes : IsDistinct m.state.nodes
    pub backends : IsDistinct m.state.backends
    pub known : All (Known m.state) os

  ingest_steps :
      (m m' : WorldStateManager) (o : InferenceObservation) (now revision : ℕ)
      → ingest m o now ≡ (m', ok revision)
      → (validate o ≡ ok tt)
        × (m'.state ≡ observe m.state o now)
        × (m'.observations_accepted ≡ inc64 m.observations_accepted)
        × (m'.observations_rejected ≡ m.observations_rejected)
        × (revision ≡ m'.state.revision)
  unfolding ingest
  ingest_steps m m' o now revision e = elim (Result-cases (validate o)) [
    | inl (_, v) ↦ absurd (ground arith)
    | inr (tt, v) ↦ (v, ground arith, ground arith, ground arith, ground arith)
  ]

  Known-later :
      (w : WorldState) (o : InferenceObservation) (now : ℕ) (os : List (InferenceObservation × ℕ))
      → w.revision < u64_max
      → All (Known w) os
      → All (Known (observe w o now)) os
  Known-later w o now [] b h = tt
  Known-later w o now ((p, r) ∷ os) b ((v, n, s, l), h) = (
    (
      v,
      push_new-keeps w.nodes o.compute_node_id p.compute_node_id n,
      push_new-keeps w.backends o.backend_id p.backend_id s,
      omega (arith, inc64_below w.revision u64_max b),
    ),
    Known-later w o now os b h,
  )

  ingest_refused :
      (m m' : WorldStateManager) (o : InferenceObservation) (now : ℕ) (x : IntelligenceError)
      → ingest m o now ≡ (m', err x)
      → m ≡ m'
  unfolding ingest
  ingest_refused m m' o now x e = elim (Result-cases (validate o)) [
    | inl (y, v) ↦ ground arith
    | inr (tt, v) ↦ absurd (ground arith)
  ]

  -- After any history of fewer than 2 ^ 64 accepted observations: the revision and the counter of
  -- accepted ones are their number, and the counter of rejected ones is 0, whatever was rejected;
  -- the nodes and the backends are listed once each; and every accepted observation is valid, with
  -- its node and its backend listed and a revision that is not ahead of the state's.
  pub History-Inv :
      (m : WorldStateManager) (os : List (InferenceObservation × ℕ))
      → count os ≤ u64_max
      → History m os
      → Inv m os
  History-Inv _ [] b (start max_age now) = record {
    revision = refl;
    accepts = refl;
    rejects = refl;
    nodes = tt;
    backends = tt;
    known = tt;
  }
  History-Inv m' os b (refused {m} {x = x} o now h e) =
      subst (λ k. Inv k os) (ingest_refused m m' o now x e) (History-Inv m os b h)
  History-Inv m' ((o, revision) ∷ os) b (accepted {m} _ now h e) =
      let inv = History-Inv m os (omega arith) h in
      let (v, s, a, r, q) = ingest_steps m m' o now revision e in
      let room : m.state.revision < u64_max = omega (arith, inv.revision) in
      let up = inc64_below m.state.revision u64_max room in
      record {
        revision = ap (λ w. w.revision) s ∙ omega (arith, inv.revision, up);
        accepts = a ∙ omega (arith, inv.accepts, inc64_below m.observations_accepted u64_max);
        rejects = r ∙ inv.rejects;
        nodes =
            subst (λ w. IsDistinct w.nodes) (sym s)
              (push_new-IsDistinct m.state.nodes o.compute_node_id inv.nodes);
        backends =
            subst (λ w. IsDistinct w.backends) (sym s)
              (push_new-IsDistinct m.state.backends o.backend_id inv.backends);
        known =
            subst (λ w. All (Known w) ((o, revision) ∷ os)) (sym s)
              (
                (
                  v,
                  push_new-In m.state.nodes o.compute_node_id,
                  push_new-In m.state.backends o.backend_id,
                  omega (arith, q, ap (λ w. w.revision) s),
                ),
                Known-later m.state o now os room inv.known,
              );
      }
