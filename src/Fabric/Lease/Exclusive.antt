-- ===== src/Fabric/Lease/Exclusive.antt =====
-- src/fabric.rs, `InMemoryLeaseStore`: at any time at most one lease verifies, and its owner keeps
-- others out.
use trust_system.Prelude.{
  ℕ, ◌+◌, ◌≤◌, ◌<◌, ◌≡◌, ◌∙◌, refl, sym, ap, subst, ◌≢◌, inl, inr, true, Option, none, some, List,
  [], ◌∷◌, arith, In, length, Bool-cases, Option-cases, ltb→lt,
}
use mathlib.Core.Option.{some-injective}
use trust_system.Prelude.Text.{Text}
use trust_system.Prelude.Words.{u64_max, inc64}
use trust_system.Fabric.Lease.{
  Lease, is_valid, InMemoryLeaseStore, new, held_by_other, acquire, verify,
}

-- The stores that calls of `acquire` make, with the leases that were granted, latest first.
pub data History : InMemoryLeaseStore → List Lease → Type 0 where
  start : History new []
  granted :
      {s s' : InMemoryLeaseStore} {ls : List Lease} {l : Lease}
      → (owner : Text) → (ttl now : ℕ) → History s ls
      → acquire s owner ttl now ≡ (s', some l)
      → History s' (l ∷ ls)
  refused :
      {s s' : InMemoryLeaseStore} {ls : List Lease}
      → (owner : Text) → (ttl now : ℕ) → History s ls
      → acquire s owner ttl now ≡ (s', none)
      → History s' ls

-- The leases have the epochs 1, 2, … in the order in which they were granted.
abbrev pub Epochs : List Lease → Type 0
Epochs [] = Unit
Epochs (l ∷ ls) = (l.epoch ≡ length ls + 1) × Epochs ls

abbrev pub latest : List Lease → Option Lease
latest [] = none
latest (l ∷ ls) = some l

pub record Inv (s : InMemoryLeaseStore) (ls : List Lease) : Type 0 where
  pub current : s.current_lease ≡ latest ls
  pub epoch : s.epoch ≡ length ls
  pub epochs : Epochs ls

acquire-some :
    (s s' : InMemoryLeaseStore) (owner : Text) (ttl now : ℕ) (l : Lease)
    → acquire s owner ttl now ≡ (s', some l)
    → (s'.current_lease ≡ some l) × (s'.epoch ≡ inc64 s.epoch) × (l.epoch ≡ inc64 s.epoch)
unfolding acquire
acquire-some s s' owner ttl now l e = elim (Bool-cases (held_by_other s.current_lease owner now)) [
  | inl h ↦ absurd (ground arith)
  | inr h ↦ (ground arith, ground arith, ground arith)
]

acquire-none :
    (s s' : InMemoryLeaseStore) (owner : Text) (ttl now : ℕ)
    → acquire s owner ttl now ≡ (s', none)
    → s ≡ s'
unfolding acquire
acquire-none s s' owner ttl now e = elim (Bool-cases (held_by_other s.current_lease owner now)) [
  | inl h ↦ ground arith
  | inr h ↦ absurd (ground arith)
]

History-Inv :
    (s : InMemoryLeaseStore) (ls : List Lease) → length ls ≤ u64_max → History s ls → Inv s ls
History-Inv _ [] b start = record { current = refl; epoch = refl; epochs = tt }
History-Inv s' ls b (refused {s} owner ttl now h e) =
    subst (λ x. Inv x ls) (acquire-none s s' owner ttl now e) (History-Inv s ls b h)
History-Inv s' (l ∷ ls) b (granted {s} owner ttl now h e) =
    let inv = History-Inv s ls (omega (arith, b)) h in
    let (c, p, q) = acquire-some s s' owner ttl now l e in
    record {
      current = c;
      epoch = omega (arith, p, inv.epoch, b);
      epochs = (omega (arith, q, inv.epoch, b), inv.epochs);
    }

Epochs-le : (l : Lease) (ls : List Lease) → Epochs ls → In l ls → l.epoch ≤ length ls
Epochs-le l [] e i = absurd i
Epochs-le l (x ∷ ls) e (inl q) = omega (arith, ap (λ y. y.epoch) q, e.0)
Epochs-le l (x ∷ ls) e (inr i) = omega (arith, Epochs-le l ls e.1 i)

Epochs-unique :
    (l m : Lease) (ls : List Lease) → Epochs ls → In l ls → In m ls → l.epoch ≡ m.epoch → l ≡ m
Epochs-unique l m [] e i j q = absurd i
Epochs-unique l m (x ∷ ls) e (inl p) (inl r) q = p ∙ sym r
Epochs-unique l m (x ∷ ls) e (inl p) (inr j) q =
    absurd (omega (arith, ap (λ y. y.epoch) p, e.0, q, Epochs-le m ls e.1 j))
Epochs-unique l m (x ∷ ls) e (inr i) (inl r) q =
    absurd (omega (arith, ap (λ y. y.epoch) r, e.0, q, Epochs-le l ls e.1 i))
Epochs-unique l m (x ∷ ls) e (inr i) (inr j) q = Epochs-unique l m ls e.1 i j q

latest-In : (l : Lease) (ls : List Lease) → latest ls ≡ some l → In l ls
latest-In l [] e = absurd (cc)
latest-In l (x ∷ ls) e = inl (sym (some-injective x l e))

verify_steps :
    (s : InMemoryLeaseStore) (epoch now : ℕ)
    → verify s epoch now ≡ true
    → (l : Lease) × (s.current_lease ≡ some l) × (l.epoch ≡ epoch) × (is_valid l now ≡ true)
unfolding verify
verify_steps s epoch now e = elim (Option-cases s.current_lease) [
  | inl n ↦ absurd (ground arith)
  | inr (l, n) ↦ (l, n, ground arith, ground arith)
]

acquire_refuses :
    (s : InMemoryLeaseStore) (l : Lease) (owner : Text) (ttl now : ℕ)
    → s.current_lease ≡ some l
    → is_valid l now ≡ true
    → l.owner ≢ owner
    → acquire s owner ttl now ≡ (s, none)
unfolding acquire
acquire_refuses s l owner ttl now c v n =
    let h : held_by_other s.current_lease owner now ≡ true = ground arith in simp (acquire, h)

-- In a store that calls of `acquire` make, of fewer than 2 ^ 64 leases: no two leases that were
-- granted have the same epoch; whenever the epoch of one verifies, that lease is the current one and
-- has not expired, so that only one lease verifies at a time; and as long as it does, no other owner
-- gets a lease, and a try changes nothing.
pub lease_exclusive :
    (s : InMemoryLeaseStore) (ls : List Lease)
    → length ls ≤ u64_max
    → History s ls
    → ((l m : Lease) → In l ls → In m ls → l.epoch ≡ m.epoch → l ≡ m)
      × ((l : Lease) (now : ℕ)
          → In l ls
          → verify s l.epoch now ≡ true
          → (s.current_lease ≡ some l)
            × (now < l.expires_at)
            × ((owner : Text) (ttl : ℕ) → l.owner ≢ owner → acquire s owner ttl now ≡ (s, none)))
lease_exclusive s ls b h =
    let inv = History-Inv s ls b h in
    (
      (λ l m i j q. Epochs-unique l m ls inv.epochs i j q),
      (λ l now i v.
          let (m, c, q, valid) = verify_steps s l.epoch now v in
          let j = latest-In m ls (sym inv.current ∙ c) in
          let same : m ≡ l = Epochs-unique m l ls inv.epochs j i q in
          let current : s.current_lease ≡ some l = c ∙ ap some same in
          let fresh : is_valid l now ≡ true = subst (λ x. is_valid x now ≡ true) same valid in
          (
            current,
            ltb→lt now l.expires_at fresh,
            λ owner ttl n. acquire_refuses s l owner ttl now current fresh n,
          )),
    )
