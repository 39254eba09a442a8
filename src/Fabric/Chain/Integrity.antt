-- ===== src/Fabric/Chain/Integrity.antt =====
-- src/fabric.rs, `AuditChain`: what the verification finds, and what it cannot.
use trust_system.Prelude.{
  ℕ, ◌+◌, ◌≤◌, ◌≡◌, ◌∙◌, refl, sym, subst, ◌≢◌, inl, inr, false, some, List, [], ◌∷◌, ◌++◌, arith,
  leb, length, rest, last?, length-append, length-rest, ok, Bool-cases,
}
use mathlib.Core.List.{foldl}
use trust_system.Prelude.Text.{Text}
use trust_system.Fabric.Chain.{
  AuditRecord, AuditChain, new, compute_hash, previous_of, append, breaks, verify_records,
  verify_integrity,
}

module _ (digest : Text → Text) where
  -- Every record has the hash of its contents, and the hash of the one before it.
  abbrev pub Linked : List AuditRecord → Type 0
  Linked [] = Unit
  Linked (r ∷ []) = r.current_hash ≡ compute_hash digest r.event_id r.previous_hash r.actor
  Linked (r ∷ next ∷ rs) =
      (r.current_hash ≡ compute_hash digest r.event_id r.previous_hash r.actor)
      × (next.previous_hash ≡ r.current_hash)
      × Linked (next ∷ rs)

  abbrev Hashed : AuditRecord → Type 0
  Hashed r = r.current_hash ≡ compute_hash digest r.event_id r.previous_hash r.actor

  verify_cons :
      (r : AuditRecord) (rs : List AuditRecord)
      → verify_records digest (r ∷ rs) ≡ ok tt
      → Hashed r × (breaks r.current_hash rs ≡ false) × (verify_records digest rs ≡ ok tt)
  unfolding verify_records
  verify_cons r rs h = (ground arith, ground arith, ground arith)

  cons-verify :
      (r : AuditRecord) (rs : List AuditRecord)
      → Hashed r
      → breaks r.current_hash rs ≡ false
      → verify_records digest rs ≡ ok tt
      → verify_records digest (r ∷ rs) ≡ ok tt
  unfolding verify_records
  cons-verify r rs h b v = ground arith

  verified-Linked : (rs : List AuditRecord) → verify_records digest rs ≡ ok tt → Linked rs
  verified-Linked [] h = tt
  verified-Linked (r ∷ []) h = (verify_cons r [] h).0
  verified-Linked (r ∷ next ∷ rs) h =
      let (a, b, v) = verify_cons r (next ∷ rs) h in
      (a, ground arith, verified-Linked (next ∷ rs) v)

  Linked-verified : (rs : List AuditRecord) → Linked rs → verify_records digest rs ≡ ok tt
  Linked-verified [] h = unfold verify_records in refl
  Linked-verified (r ∷ []) h = cons-verify r [] h refl (unfold verify_records in refl)
  Linked-verified (r ∷ next ∷ rs) (h, l, t) =
      cons-verify r (next ∷ rs) h (ground arith) (Linked-verified (next ∷ rs) t)

  Linked-tail : (r : AuditRecord) (rs : List AuditRecord) → Linked (r ∷ rs) → Linked rs
  Linked-tail r [] h = tt
  Linked-tail r (next ∷ rs) h = h.2

  Linked-rest : (rs : List AuditRecord) → Linked rs → Linked (rest rs)
  Linked-rest [] h = tt
  Linked-rest (r ∷ rs) h = Linked-tail r rs h

  Linked-snoc :
      (rs : List AuditRecord) (r : AuditRecord)
      → Linked rs
      → Hashed r
      → ((x : AuditRecord) → last? rs ≡ some x → r.previous_hash ≡ x.current_hash)
      → Linked (rs ++ r ∷ [])
  Linked-snoc [] r l h p = h
  Linked-snoc (x ∷ []) r l h p = (l, p x refl, h)
  Linked-snoc (x ∷ y ∷ rs) r (a, b, l) h p = (a, b, Linked-snoc (y ∷ rs) r l h p)

  last-rest :
      (rs : List AuditRecord) (x : AuditRecord) → last? (rest rs) ≡ some x → last? rs ≡ some x
  last-rest [] x e = e
  last-rest (r ∷ []) x e = absurd (ground arith)
  last-rest (r ∷ y ∷ rs) x e = e

  -- A call of `append`: the event, its actor, the revision and the time.
  abbrev pub Event : Type 0
  Event = Text × Text × ℕ × ℕ

  abbrev pub add : AuditChain → Event → AuditChain
  add c (event_id, actor, world_revision, now) = append digest c event_id actor world_revision now

  abbrev pub Inv : AuditChain → Type 0
  Inv c = Linked c.records × (length c.records ≤ c.max_records) × (1 ≤ c.max_records)

  previous_of-last :
      (rs : List AuditRecord) (x : AuditRecord)
      → last? rs ≡ some x
      → previous_of rs ≡ x.current_hash
  previous_of-last rs x e = rw (previous_of, e) refl

  append-Inv :
      (c : AuditChain) (event_id actor : Text) (world_revision now : ℕ)
      → Inv c
      → Inv (append digest c event_id actor world_revision now)
  unfolding append
  append-Inv c event_id actor world_revision now (l, b, m) =
      let entry : AuditRecord = record {
        schema_version = 1;
        event_id = event_id;
        previous_hash = previous_of c.records;
        current_hash = compute_hash digest event_id (previous_of c.records) actor;
        timestamp = now;
        actor = actor;
        world_revision = world_revision;
      } in
      elim (Bool-cases (leb c.max_records (length c.records))) [
        | inl full ↦ (
          rw full (
              Linked-snoc (rest c.records) entry (Linked-rest c.records l) refl
                (λ x e. previous_of-last c.records x (last-rest c.records x e))),
          rw full (
              omega
                (arith, length-append (rest c.records) (entry ∷ []), length-rest c.records, b, m)),
          m,
        )
        | inr room ↦
            let few : length c.records + 1 ≤ c.max_records = ground arith in
            (
              rw room (Linked-snoc c.records entry l refl (λ x e. previous_of-last c.records x e)),
              rw room (omega (arith, length-append c.records (entry ∷ []), few)),
              m,
            )
      ]

  adds-Inv : (c : AuditChain) (es : List Event) → Inv c → Inv (foldl add c es)
  adds-Inv c [] h = h
  adds-Inv c ((event_id, actor, world_revision, now) ∷ es) h =
      adds-Inv (append digest c event_id actor world_revision now) es
        (append-Inv c event_id actor world_revision now h)

  Linked-Hashed :
      (xs : List AuditRecord) (r : AuditRecord) (ys : List AuditRecord)
      → Linked (xs ++ r ∷ ys)
      → Hashed r
  Linked-Hashed [] r [] h = h
  Linked-Hashed [] r (y ∷ ys) h = h.0
  Linked-Hashed (x ∷ xs) r ys h = Linked-Hashed xs r ys (Linked-tail x (xs ++ r ∷ ys) h)

  -- Whatever events are appended, the chain holds at most its limit of records and is found intact.
  -- If then the event, the link or the actor of any record is changed so that the digest of the
  -- record changes, and its hash is left, the chain is found broken.
  pub chain_integrity :
      (max_records : ℕ) (es : List Event)
      → (verify_integrity digest (foldl add (new max_records) es) ≡ ok tt)
        × (length (foldl add (new max_records) es).records
            ≤ (foldl add (new max_records) es).max_records)
        × ((xs : List AuditRecord) (r r' : AuditRecord) (ys : List AuditRecord)
            → (foldl add (new max_records) es).records ≡ xs ++ r ∷ ys
            → r'.current_hash ≡ r.current_hash
            → compute_hash digest r'.event_id r'.previous_hash r'.actor
              ≢ compute_hash digest r.event_id r.previous_hash r.actor
            → verify_records digest (xs ++ r' ∷ ys) ≢ ok tt)
  chain_integrity max_records es =
      let (l, b, _) = adds-Inv (new max_records) es (tt, omega arith, omega arith) in
      (
        Linked-verified (foldl add (new max_records) es).records l,
        b,
        λ xs r r' ys e same differ v.
            let was = Linked-Hashed xs r ys (subst Linked e l) in
            let now = Linked-Hashed xs r' ys (verified-Linked (xs ++ r' ∷ ys) v) in
            differ (sym now ∙ same ∙ was),
      )

  -- What no hash covers, replaced in every record by functions of it.
  abbrev pub restamp : (AuditRecord → ℕ) → (AuditRecord → ℕ) → List AuditRecord → List AuditRecord
  restamp time revision [] = []
  restamp time revision (r ∷ rs) =
      record r { timestamp = time r; world_revision = revision r } ∷ restamp time revision rs

  breaks-restamp :
      (time revision : AuditRecord → ℕ) (hash : Text) (rs : List AuditRecord)
      → breaks hash (restamp time revision rs) ≡ breaks hash rs
  breaks-restamp time revision hash [] = refl
  breaks-restamp time revision hash (r ∷ rs) = refl

  -- The verification does not see a change of times or of world revisions, in any records: what it
  -- says of the chain stays the same.
  pub verify_ignores :
      (time revision : AuditRecord → ℕ) (rs : List AuditRecord)
      → verify_records digest (restamp time revision rs) ≡ verify_records digest rs
  unfolding verify_records
  verify_ignores time revision [] = refl
  verify_ignores time revision (r ∷ rs) =
      simp (verify_ignores time revision rs, breaks-restamp time revision r.current_hash rs)
