-- ===== src/Intelligence/Prediction.antt =====
-- src/intelligence.rs: online statistics of the metrics of each backend.
use trust_system.Prelude.{
  ℕ, not, ◌||◌, none, some, [], if◌then◌else◌, ◌==◌, ltb, length, Result, ok, err,
}
use Prim.Native.Nat.{max}
use trust_system.Prelude.Text.{Text, bytes, text_dec}
use trust_system.Prelude.Words.{inc64}
use trust_system.Prelude.HashMap
use trust_system.Prelude.HashMap.{Map}
use trust_system.Prelude.Float.{
  Floats, Num, ◌<ᶠ◌, ◌+ᶠ◌, ◌-ᶠ◌, ◌*ᶠ◌, ◌/ᶠ◌, is_finite, of_nat, lit, zero_f, one_f, clamp, max_f,
  sqrt,
}
use trust_system.Intelligence.{IntelligenceError, insufficient_data}

module _ ⦃f : Floats⦄ where
  pub record Prediction : Type 0 where
    pub value : Num
    pub lower_bound : Num
    pub upper_bound : Num
    pub confidence : Num
    pub sample_count : ℕ
    pub model_version : Text
    pub generated_at : ℕ
    pub source_revision : ℕ

  pub record EwmaTracker : Type 0 where
    pub alpha : Num
    pub mean : Num
    pub variance : Num
    pub sample_count : ℕ
    pub min_samples : ℕ
    pub model_version : Text

  abbrev pub new_tracker : Num → ℕ → EwmaTracker
  new_tracker alpha min_samples = record {
    alpha = clamp (lit 1 100) (lit 99 100) alpha;
    mean = zero_f;
    variance = zero_f;
    sample_count = 0;
    min_samples = max min_samples 1;
    model_version = bytes "ewma-v1";
  }

  unfoldable pub update : EwmaTracker → Num → EwmaTracker
  update t value =
      let count = inc64 t.sample_count in
      let delta = value -ᶠ t.mean in
      if not (is_finite value) || value <ᶠ zero_f
      then t
      else if count == 1
      then record t { sample_count = count; mean = value; variance = zero_f }
      else record t {
        sample_count = count;
        mean = t.mean +ᶠ t.alpha *ᶠ delta;
        variance = (one_f -ᶠ t.alpha) *ᶠ (t.variance +ᶠ t.alpha *ᶠ delta *ᶠ delta);
      }

  unfoldable pub predict : EwmaTracker → ℕ → ℕ → Result IntelligenceError Prediction
  predict t source_revision now =
      let stddev = sqrt t.variance in
      let n = of_nat t.sample_count in
      if ltb t.sample_count t.min_samples
      then err insufficient_data
      else ok (record {
        value = t.mean;
        lower_bound = max_f (t.mean -ᶠ lit 2 1 *ᶠ stddev) zero_f;
        upper_bound = t.mean +ᶠ lit 2 1 *ᶠ stddev;
        confidence = clamp zero_f one_f (n /ᶠ (n +ᶠ lit 10 1));
        sample_count = t.sample_count;
        model_version = t.model_version;
        generated_at = now;
        source_revision = source_revision;
      })

  pub record PredictionEngine : Type 0 where
    pub trackers : Map Text EwmaTracker
    pub alpha : Num
    pub min_samples : ℕ

  abbrev pub new_engine : Num → ℕ → PredictionEngine
  new_engine alpha min_samples = record { trackers = []; alpha = alpha; min_samples = min_samples }

  unfoldable pub observe_metric : PredictionEngine → Text → Num → PredictionEngine
  observe_metric e key value =
      let tracker =
        HashMap.get_or_default text_dec key (new_tracker e.alpha e.min_samples) e.trackers in
      record e { trackers = HashMap.insert text_dec key (update tracker value) e.trackers }

  unfoldable pub predict_metric :
      PredictionEngine → Text → ℕ → ℕ → Result IntelligenceError Prediction
  predict_metric e key source_revision now = elim (HashMap.lookup text_dec key e.trackers) [
    | none ↦ err insufficient_data
    | some tracker ↦ predict tracker source_revision now
  ]

  abbrev pub tracker_count : PredictionEngine → ℕ
  tracker_count e = length e.trackers
