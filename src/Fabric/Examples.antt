-- ===== src/Fabric/Examples.antt =====
-- A controller, a node, a lease store, a queue and an audit chain on small inputs. The hash is the
-- text itself.
use trust_system.Prelude.{
  ℕ, ◌+◌, ◌-◌, ◌≤◌, ◌<◌, ◌≡◌, ◌≢◌, refl, true, none, some, List, [], ◌∷◌, ◌++◌, arith, In, length,
  ok,
}
use mathlib.Core.List.{foldl}
use trust_system.Prelude.Text.{Text, bytes}
use trust_system.Fabric.Gate.{System, Reach}
use trust_system.Fabric.Gate.Overshoot.{overshoots}
use trust_system.Fabric.Lifecycle.{suspect, NodeLifecycle}
use trust_system.Fabric.Lifecycle
use trust_system.Fabric.Lifecycle.Moves.{Call, failure, recovery, call}
use trust_system.Fabric.Lifecycle.Suspect.{never_suspect}
use trust_system.Fabric.Lifecycle.Ring.{Inv, lifecycle-Inv}
use trust_system.Fabric.Lease.{Lease, InMemoryLeaseStore, acquire, verify}
use trust_system.Fabric.Lease
use trust_system.Fabric.Lease.Exclusive.{start, granted, lease_exclusive}
use trust_system.Fabric.Chain.{AuditRecord, compute_hash, append, verify_records, verify_integrity}
use trust_system.Fabric.Chain
use trust_system.Fabric.Chain.Integrity.{Event, add, chain_integrity, restamp, verify_ignores}

-- Two threads and a limit of three.
overshoots_example :
    ((s : System)
      → Reach 2 3 5 s
      → (s.controller.active_requests ≡ s.running)
        × (s.running ≤ 3 + (2 - 1))
        × (s.controller.queue_depth ≡ s.waiting)
        × (s.waiting ≤ 5 + (2 - 1)))
    × ((s : System) × Reach 2 3 5 s × (s.controller.active_requests ≡ 3 + (2 - 1)))
overshoots_example = overshoots 2 3 5 (omega arith) (omega arith) (omega arith) (omega arith)

abbrev calls : List (Call × ℕ)
calls =
    (failure, 1) ∷ (failure, 2) ∷ (failure, 3) ∷ (failure, 4) ∷ (failure, 5) ∷ (recovery, 6) ∷ []

lifecycle-Inv_example : Inv (foldl call (Lifecycle.new 2) calls)
lifecycle-Inv_example = lifecycle-Inv 2 calls (omega arith)

abbrev lease : Lease
lease = record { epoch = 1; owner = bytes "a"; expires_at = 15 }

abbrev store : InMemoryLeaseStore
store = record { current_lease = some lease; epoch = 1 }

acquires : acquire Lease.new (bytes "a") 10 5 ≡ (store, some lease)
unfolding acquire
acquires = refl

verifies : verify store 1 7 ≡ true
unfolding verify
verifies = refl

lease_exclusive_example :
    ((l m : Lease) → In l (lease ∷ []) → In m (lease ∷ []) → l.epoch ≡ m.epoch → l ≡ m)
    × ((l : Lease) (now : ℕ)
        → In l (lease ∷ [])
        → verify store l.epoch now ≡ true
        → (store.current_lease ≡ some l)
          × (now < l.expires_at)
          × ((owner : Text) (ttl : ℕ)
              → l.owner ≢ owner
              → acquire store owner ttl now ≡ (store, none)))
lease_exclusive_example =
    lease_exclusive store (lease ∷ []) (omega arith) (granted (bytes "a") 10 5 start acquires)

abbrev digest : Text → Text
digest t = t

abbrev events : List (Event digest)
events = (bytes "e", bytes "a", 1, 2) ∷ (bytes "f", bytes "a", 2, 3) ∷ []

chain_integrity_example :
    (verify_integrity digest (foldl (add digest) (Chain.new 1) events) ≡ ok tt)
    × (length (foldl (add digest) (Chain.new 1) events).records
        ≤ (foldl (add digest) (Chain.new 1) events).max_records)
    × ((xs : List AuditRecord) (r r' : AuditRecord) (ys : List AuditRecord)
        → (foldl (add digest) (Chain.new 1) events).records ≡ xs ++ r ∷ ys
        → r'.current_hash ≡ r.current_hash
        → compute_hash digest r'.event_id r'.previous_hash r'.actor
          ≢ compute_hash digest r.event_id r.previous_hash r.actor
        → verify_records digest (xs ++ r' ∷ ys) ≢ ok tt)
chain_integrity_example = chain_integrity digest 1 events

abbrev entry : AuditRecord
entry = record {
  schema_version = 1;
  event_id = bytes "e";
  previous_hash = bytes "genesis";
  current_hash = bytes "e-genesis-a";
  timestamp = 2;
  actor = bytes "a";
  world_revision = 1;
}

verify_ignores_example :
    verify_records digest (restamp digest (λ _. 9) (λ _. 9) (entry ∷ []))
    ≡ verify_records digest (entry ∷ [])
verify_ignores_example = verify_ignores digest (λ _. 9) (λ _. 9) (entry ∷ [])

never_suspect_example :
    (foldl call (Lifecycle.new 3) ((failure, 1) ∷ (failure, 2) ∷ (failure, 3) ∷ [])).state ≢ suspect
never_suspect_example = never_suspect 3 ((failure, 1) ∷ (failure, 2) ∷ (failure, 3) ∷ [])
