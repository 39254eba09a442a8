-- ===== src/Fabric/Lease.antt =====
-- src/fabric.rs, `InMemoryLeaseStore`: leases with epochs. The clock is an argument.
pub mod Exclusive
use trust_system.Prelude.{
  ℕ, ◌+◌, ◌≡◌, Bool, false, not, ◌&&◌, Option, none, some, if◌then◌else◌, holds, ltb, ◌==◌,
}
use trust_system.Prelude.Text.{Text, text_dec}
use trust_system.Prelude.Words.{inc64}

pub record Lease : Type 0 where
  pub epoch : ℕ
  pub owner : Text
  pub expires_at : ℕ

abbrev pub is_valid : Lease → ℕ → Bool
is_valid l now = ltb now l.expires_at

pub record InMemoryLeaseStore : Type 0 where
  pub current_lease : Option Lease
  pub epoch : ℕ

abbrev pub new : InMemoryLeaseStore
new = record { current_lease = none; epoch = 0 }

-- A lease that keeps an owner from getting one.
abbrev pub held_by_other : Option Lease → Text → ℕ → Bool
held_by_other none owner now = false
held_by_other (some l) owner now = is_valid l now && not (holds (text_dec l.owner owner))

unfoldable pub acquire : InMemoryLeaseStore → Text → ℕ → ℕ → InMemoryLeaseStore × Option Lease
acquire s owner ttl now =
    let epoch = inc64 s.epoch in
    let lease : Lease = record { epoch = epoch; owner = owner; expires_at = now + ttl } in
    if held_by_other s.current_lease owner now
    then (s, none)
    else (record { current_lease = some lease; epoch = epoch }, some lease)

unfoldable pub verify : InMemoryLeaseStore → ℕ → ℕ → Bool
verify s epoch now = elim s.current_lease [
  | none ↦ false
  | some l ↦ l.epoch == epoch && is_valid l now
]

abbrev pub current_epoch : InMemoryLeaseStore → ℕ
current_epoch s = s.epoch
