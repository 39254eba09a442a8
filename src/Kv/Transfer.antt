-- ===== src/Kv/Transfer.antt =====
-- src/kv.rs: when `select` grants a transfer of key-value state, and what it answers otherwise.
use trust_system.Prelude.{
  ℕ, ◌<◌, ◌≡◌, refl, ◌≢◌, ◌⊎◌, inl, inr, true, false, Option, none, some, arith, ok, Option-cases,
  Result-cases,
}
use trust_system.Prelude.Text.{Text}
use trust_system.Prelude.Float.{Floats, Num, ◌<ᶠ◌}
use trust_system.Kv.{
  ModelReference, KvStrategy, no_kv, cross_model_transfer, strategy_eq, supports, ModelMetadata,
  lookup_model, KvCompatibilityRecord, lookup_record,
}
use trust_system.Kv.Select.{
  KvPlanningContext, KvPolicy, validate_policy, KvIntelligence, transfer_mapping, select_transfer,
  select,
}

module _ ⦃f : Floats⦄ where
  -- The measurements of a record, all of them there and within the policy.
  pub record Measured (p : KvPolicy) (r : KvCompatibilityRecord) (mapping : Text) : Type 0 where
    pub supported : r.supported ≡ true
    pub mapping_of : r.mapping_version ≡ some mapping
    pub quality :
        (q : Num) × (r.quality_retention ≡ some q) × ((q <ᶠ p.min_quality_retention) ≡ false)
    pub variance :
        (v : Num) × (r.quality_variance ≡ some v) × ((p.max_quality_variance <ᶠ v) ≡ false)
    pub failures : (x : Num) × (r.failure_rate ≡ some x) × ((p.max_failure_rate <ᶠ x) ≡ false)
    pub samples : (n : ℕ) × (r.sample_count ≡ some n) × (0 < n)
    pub confidence : (x : Num) × (r.confidence ≡ some x) × ((x <ᶠ p.min_confidence) ≡ false)
    pub p50 : (x : Num) × (r.transfer_latency_p50_ms ≡ some x)
    pub p95 : (x : Num) × (r.transfer_latency_p95_ms ≡ some x)

  some_of : {A : Type 0} (o : Option A) → o ≢ none → (a : A) × (o ≡ some a)
  some_of none h = absurd (h refl)
  some_of (some a) h = (a, refl)

  transfer_mapping-Measured :
      (p : KvPolicy) (r : KvCompatibilityRecord) (mapping : Text)
      → transfer_mapping p r ≡ ok mapping
      → Measured p r mapping
  transfer_mapping-Measured p r mapping e =
      let (q, q_eq) = some_of r.quality_retention (unfold transfer_mapping in λ h. ground arith) in
      let (v, v_eq) = some_of r.quality_variance (unfold transfer_mapping in λ h. ground arith) in
      let (x, x_eq) = some_of r.failure_rate (unfold transfer_mapping in λ h. ground arith) in
      let (n, n_eq) = some_of r.sample_count (unfold transfer_mapping in λ h. ground arith) in
      let (c, c_eq) = some_of r.confidence (unfold transfer_mapping in λ h. ground arith) in
      record {
        supported = unfold transfer_mapping in ground arith;
        mapping_of = unfold transfer_mapping in ground arith;
        quality = (q, q_eq, unfold transfer_mapping in ground arith);
        variance = (v, v_eq, unfold transfer_mapping in ground arith);
        failures = (x, x_eq, unfold transfer_mapping in ground arith);
        samples = (n, n_eq, unfold transfer_mapping in ground arith);
        confidence = (c, c_eq, unfold transfer_mapping in ground arith);
        p50 = some_of r.transfer_latency_p50_ms (unfold transfer_mapping in λ h. ground arith);
        p95 = some_of r.transfer_latency_p95_ms (unfold transfer_mapping in λ h. ground arith);
      }

  -- What stands behind a transfer that is granted.
  pub record Backed (k : KvIntelligence) (c : KvPlanningContext) : Type 0 where
    pub source : ModelReference
    pub source_of : c.source ≡ some source
    pub policy_valid : validate_policy k.policy ≡ ok tt
    pub target_supports :
        (m : ModelMetadata) × (lookup_model k.models c.target ≡ ok m)
        × (supports m.capabilities cross_model_transfer ≡ true)
    pub source_supports :
        (m : ModelMetadata) × (lookup_model k.models source ≡ ok m)
        × (supports m.capabilities cross_model_transfer ≡ true)
    pub measured :
        (r : KvCompatibilityRecord) × (mapping : Text) × (lookup_record k.compatibility source
            c.target
          ≡ some r)
        × Measured k.policy r mapping
        × ((select k c).mapping_version ≡ some mapping)

  strategy_eq→≡ : (a b : KvStrategy) → strategy_eq a b ≡ true → a ≡ b
  strategy_eq→≡ a b e = ground arith

  transfer_steps :
      (k : KvIntelligence) (c : KvPlanningContext) (s : Option ModelReference)
      → c.requested ≡ cross_model_transfer
      → (select_transfer k c s).strategy ≡ cross_model_transfer
      → (source : ModelReference) × (m : ModelMetadata) × (r : KvCompatibilityRecord)
        × (mapping : Text) × (s ≡ some source)
        × (lookup_model k.models source ≡ ok m)
        × (supports m.capabilities cross_model_transfer ≡ true)
        × (lookup_record k.compatibility source c.target ≡ some r)
        × (transfer_mapping k.policy r ≡ ok mapping)
        × ((select_transfer k c s).mapping_version ≡ some mapping)
  unfolding select_transfer
  transfer_steps k c none q e = absurd (cc)
  transfer_steps k c (some source) q e = elim (Result-cases (lookup_model k.models source)) [
    | inl (_, l) ↦ absurd (ground arith)
    | inr (m, l) ↦ elim (Option-cases (lookup_record k.compatibility source c.target)) [
      | inl n ↦ absurd (ground arith)
      | inr (r, n) ↦ elim (Result-cases (transfer_mapping k.policy r)) [
        | inl (_, t) ↦ absurd (ground arith)
        | inr (mapping, t) ↦ (source, m, r, mapping, refl, l, ground arith, n, t, ground arith)
      ]
    ]
  ]

  select_steps :
      (k : KvIntelligence) (c : KvPlanningContext)
      → (select k c).strategy ≡ cross_model_transfer
      → (m : ModelMetadata) × (validate_policy k.policy ≡ ok tt)
        × (lookup_model k.models c.target ≡ ok m)
        × (c.requested ≡ cross_model_transfer)
        × (supports m.capabilities cross_model_transfer ≡ true)
        × (select k c ≡ select_transfer k c c.source)
  unfolding select
  select_steps k c e = elim (Result-cases (validate_policy k.policy)) [
    | inl (_, p) ↦ absurd (ground arith)
    | inr (tt, p) ↦ elim (Result-cases (lookup_model k.models c.target)) [
      | inl (_, l) ↦ absurd (ground arith)
      | inr (m, l) ↦
          let q : c.requested ≡ cross_model_transfer = ground arith in
          (m, p, l, q, ground arith, ground arith)
    ]
  ]

  -- `select` answers with a transfer only when the policy is valid, both models are registered and
  -- can transfer, and a record of the pair is supported and holds all measurements, each within the
  -- policy; the mapping version is the one of that record.
  pub select-Backed :
      (k : KvIntelligence) (c : KvPlanningContext)
      → (select k c).strategy ≡ cross_model_transfer
      → Backed k c
  select-Backed k c e =
      let (m, p, l, q, supported, same) = select_steps k c e in
      let (source, n, r, mapping, s, found, able, r_eq, t, v) =
        transfer_steps k c c.source q (rw same at e) in
      record {
        source = source;
        source_of = s;
        policy_valid = p;
        target_supports = (m, l, supported);
        source_supports = (n, found, able);
        measured = (r, mapping, r_eq, transfer_mapping-Measured k.policy r mapping t, rw same v);
      }

  -- Whatever is asked of it, `select` either answers with what was requested and gives no reason to
  -- fall back, or with no key-value strategy at all.
  pub select_fails_closed :
      (k : KvIntelligence) (c : KvPlanningContext)
      → (((select k c).strategy ≡ c.requested) × ((select k c).fallback_reason ≡ none))
        ⊎ ((select k c).strategy ≡ no_kv)
  unfolding select select_transfer
  select_fails_closed k c = ground arith
