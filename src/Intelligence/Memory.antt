-- ===== src/Intelligence/Memory.antt =====
-- src/intelligence.rs: the bounded memory of decisions.
use trust_system.Prelude.{
  ℕ, Bool, true, false, Option, none, some, List, [], ◌∷◌, ◌++◌, if◌then◌else◌, holds, leb, length,
  rest,
}
use trust_system.Prelude.Text.{Text, text_dec}
use trust_system.Prelude.Words.{clamp_nat}
use trust_system.Prelude.Float.{Floats, Num}
use trust_system.Intelligence.Candidates.{DecisionConfidence}

module _ ⦃f : Floats⦄ where
  pub record DecisionRecord : Type 0 where
    pub request_id : Text
    pub world_revision : ℕ
    pub selected_backend : Text
    pub confidence : DecisionConfidence
    pub utility_score : Num
    pub decision_reason : Text
    pub timestamp : ℕ

  pub record DecisionMemory : Type 0 where
    pub records : List DecisionRecord
    pub max_records : ℕ

  abbrev pub new : ℕ → DecisionMemory
  new max_records = record { records = []; max_records = clamp_nat 1 100000 max_records }

  unfoldable pub record_decision : DecisionMemory → DecisionRecord → DecisionMemory
  record_decision m r = record m {
    records =
        (if leb m.max_records (length m.records) then rest m.records else m.records) ++ r ∷ [];
  }

  -- `rfind`: the last record that passes.
  unfoldable pub find_last : Text → List DecisionRecord → Option DecisionRecord
  find_last id [] = none
  find_last id (r ∷ rs) = elim (find_last id rs) [
    | some x ↦ some x
    | none ↦ if holds (text_dec r.request_id id) then some r else none
  ]

  abbrev pub lookup : DecisionMemory → Text → Option DecisionRecord
  lookup m id = find_last id m.records

  abbrev pub len : DecisionMemory → ℕ
  len m = length m.records

  abbrev pub is_empty : DecisionMemory → Bool
  is_empty m = elim m.records [ [] ↦ true | _ ∷ _ ↦ false ]
