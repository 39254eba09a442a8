-- ===== src/Fabric/Canary.antt =====
-- src/fabric.rs: when the promotion of a version stops or goes on.
use trust_system.Prelude.{
  ℕ, ◌-◌, Bool, ◌&&◌, Option, none, some, List, [], ◌∷◌, if◌then◌else◌, ltb, leb, length,
}
use trust_system.Prelude.Text.{Text, bytes}
use trust_system.Prelude.Float.{Floats, Num, ◌<ᶠ◌, lit, one_f}

module _ ⦃f : Floats⦄ where
  pub record CanaryConfig : Type 0 where
    pub stages : List Num
    pub max_error_rate : Num
    pub max_p99_latency_ms : ℕ
    pub max_cost_regression : Num
    pub min_samples_per_stage : ℕ

  abbrev pub default_canary : CanaryConfig
  default_canary = record {
    stages = lit 1 100 ∷ lit 5 100 ∷ lit 25 100 ∷ lit 50 100 ∷ one_f ∷ [];
    max_error_rate = lit 5 100;
    max_p99_latency_ms = 500;
    max_cost_regression = lit 1 10;
    min_samples_per_stage = 100;
  }

  unfoldable pub should_auto_stop : CanaryConfig → Num → ℕ → Num → Option Text
  should_auto_stop c error_rate p99_latency_ms cost_regression =
      if c.max_error_rate <ᶠ error_rate
      then some (bytes "ERROR_RATE_EXCEEDED")
      else if ltb c.max_p99_latency_ms p99_latency_ms
      then some (bytes "P99_LATENCY_EXCEEDED")
      else if c.max_cost_regression <ᶠ cost_regression
      then some (bytes "COST_REGRESSION")
      else none

  unfoldable pub can_promote : CanaryConfig → ℕ → ℕ → Bool
  can_promote c samples current_stage_index =
      leb c.min_samples_per_stage samples && ltb current_stage_index (length c.stages - 1)
