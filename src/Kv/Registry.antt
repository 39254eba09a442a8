-- ===== src/Kv/Registry.antt =====
-- src/kv.rs: what a registry answers after a registration, and what holds of every entry.
use trust_system.Prelude.{◌≡◌, refl, ◌≢◌, inl, inr, some, arith, All, ok, Result-cases}
use trust_system.Prelude.BTreeMap
use trust_system.Prelude.BTreeMap.{IsKeyOrder, list_cmp-IsKeyOrder, get-insert_self, get-insert_ne}
use trust_system.Prelude.Keys.{lex-IsKeyOrder, All-insert, All-get}
use trust_system.Prelude.Float.{Floats}
use trust_system.Kv.{
  ModelReference, model_cmp, ModelMetadata, ModelRegistry, register_model, lookup_model,
  KvCompatibilityRecord, KvCompatibilityRegistry, pair_cmp, validate_record, register_record,
  lookup_record,
}

pub model_cmp-IsKeyOrder : IsKeyOrder model_cmp
model_cmp-IsKeyOrder =
    lex-IsKeyOrder (λ m. m.model_id) (λ m. m.model_version) (λ x y p q. cc) list_cmp-IsKeyOrder
      list_cmp-IsKeyOrder

pair_cmp-IsKeyOrder : ⦃f : Floats⦄ → IsKeyOrder pair_cmp
pair_cmp-IsKeyOrder =
    lex-IsKeyOrder (λ m. m.0) (λ m. m.1) (λ x y p q. cc) model_cmp-IsKeyOrder model_cmp-IsKeyOrder

-- A model that is registered is found under its reference, what was found before still is, and a
-- model was not there before it is registered.
pub register_model-lookup_model :
    (r r' : ModelRegistry) (m : ModelMetadata)
    → register_model r m ≡ ok r'
    → (lookup_model r' m.model ≡ ok m)
      × ((x : ModelMetadata) → lookup_model r m.model ≢ ok x)
      × ((j : ModelReference) (x : ModelMetadata)
          → lookup_model r j ≡ ok x
          → lookup_model r' j ≡ ok x)
unfolding register_model lookup_model
register_model-lookup_model r r' m e = (
  ground (arith, get-insert_self model_cmp model_cmp-IsKeyOrder m.model m r.models),
  (λ x h. ground arith),
  (λ j x h. ground (
    arith,
    get-insert_ne model_cmp model_cmp-IsKeyOrder m.model j m r.models,
    get-insert_self model_cmp model_cmp-IsKeyOrder m.model m r.models,
  )),
)

module _ ⦃f : Floats⦄ where
  -- What holds of every entry of the compatibility registry.
  abbrev pub Keyed : ModelReference × ModelReference → KvCompatibilityRecord → Type 0
  Keyed k x = (x.source ≡ k.0) × (x.target ≡ k.1) × (validate_record x ≡ ok tt)

  abbrev pub Inv : KvCompatibilityRegistry → Type 0
  Inv r = All (λ e. Keyed e.0 e.1) r.records

  register_record_steps :
      (r r' : KvCompatibilityRegistry) (c : KvCompatibilityRecord)
      → register_record r c ≡ ok r'
      → (validate_record c ≡ ok tt)
        × (r'.records ≡ BTreeMap.insert pair_cmp (c.source, c.target) c r.records)
  unfolding register_record
  register_record_steps r r' c e = elim (Result-cases (validate_record c)) [
    | inl (_, v) ↦ absurd (ground arith)
    | inr (tt, v) ↦ (v, ground arith)
  ]

  -- In a registry whose records are valid and stand under their own models, a registration leaves
  -- that so, and a record that is then found is of the models asked for and valid.
  pub register_record-Inv :
      (r r' : KvCompatibilityRegistry) (c : KvCompatibilityRecord)
      → Inv r
      → register_record r c ≡ ok r'
      → Inv r'
        × ((s t : ModelReference) (x : KvCompatibilityRecord)
            → lookup_record r' s t ≡ some x
            → Keyed (s, t) x)
  register_record-Inv r r' c inv e =
      let (v, q) = register_record_steps r r' c e in
      let o = pair_cmp-IsKeyOrder in
      let inv' : Inv r' =
        rw q (All-insert o Keyed (c.source, c.target) c r.records (refl, refl, v) inv) in
      (inv', λ s t x g. All-get o Keyed (s, t) x r'.records inv' g)
