-- ===== src/Fabric/Chain.antt =====
-- src/fabric.rs, `AuditChain`: records that are linked by hashes. The hash, `md5::compute` printed in
-- hexadecimal, is third-party code and an argument.
pub mod Integrity
use trust_system.Prelude.{
  ℕ, ◌≡◌, Bool, false, not, Option, none, some, List, [], ◌∷◌, ◌++◌, if◌then◌else◌, holds, leb,
  length, rest, last?, Result, ok, err, ◌==◌,
}
use trust_system.Prelude.Text.{Text, bytes, text_dec}
use trust_system.Prelude.Words.{clamp_nat}

pub record AuditRecord : Type 0 where
  pub schema_version : ℕ
  pub event_id : Text
  pub previous_hash : Text
  pub current_hash : Text
  pub timestamp : ℕ
  pub actor : Text
  pub world_revision : ℕ

pub record AuditChain : Type 0 where
  pub records : List AuditRecord
  pub max_records : ℕ

abbrev pub new : ℕ → AuditChain
new max_records = record { records = []; max_records = clamp_nat 1 100000 max_records }

-- What is hashed of a record: `{event_id}-{previous_hash}-{actor}`.
abbrev pub hashed_text : Text → Text → Text → Text
hashed_text event_id previous_hash actor =
    event_id ++ bytes "-" ++ previous_hash ++ bytes "-" ++ actor

abbrev pub len : AuditChain → ℕ
len c = length c.records

abbrev pub is_empty : AuditChain → Bool
is_empty c = len c == 0

abbrev pub previous_of : List AuditRecord → Text
previous_of rs = elim (last? rs) [ none ↦ bytes "genesis" | some r ↦ r.current_hash ]

-- The next record, if there is one, does not link to this hash.
abbrev pub breaks : Text → List AuditRecord → Bool
breaks hash [] = false
breaks hash (next ∷ rs) = not (holds (text_dec next.previous_hash hash))

module _ (digest : Text → Text) where
  abbrev pub compute_hash : Text → Text → Text → Text
  compute_hash event_id previous_hash actor = digest (hashed_text event_id previous_hash actor)

  unfoldable pub append : AuditChain → Text → Text → ℕ → ℕ → AuditChain
  append c event_id actor world_revision now =
      let previous_hash = previous_of c.records in
      let entry : AuditRecord = record {
        schema_version = 1;
        event_id = event_id;
        previous_hash = previous_hash;
        current_hash = compute_hash event_id previous_hash actor;
        timestamp = now;
        actor = actor;
        world_revision = world_revision;
      } in
      record c {
        records =
            (if leb c.max_records (length c.records) then rest c.records else c.records)
            ++ entry ∷ [];
      }

  unfoldable pub verify_records : List AuditRecord → Result Text (Unit {0})
  verify_records [] = ok tt
  verify_records (r ∷ rs) =
      let later = verify_records rs in
      if not (holds (text_dec r.current_hash (compute_hash r.event_id r.previous_hash r.actor)))
      then err (bytes "TAMPERED_RECORD")
      else if breaks r.current_hash rs
      then err (bytes "BROKEN_CHAIN")
      else later

  abbrev pub verify_integrity : AuditChain → Result Text (Unit {0})
  verify_integrity c = verify_records c.records
