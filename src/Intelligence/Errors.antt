-- ===== src/Intelligence/Errors.antt =====
-- src/intelligence.rs: a bounded history of prediction errors and its statistics.
use trust_system.Prelude.{
  ℕ, ◌-◌, Option, some, List, [], ◌∷◌, ◌++◌, map, if◌then◌else◌, leb, length, rest, get_elem?,
}
use mathlib.Core.List.{foldl}
use trust_system.Prelude.Text.{Text}
use trust_system.Prelude.Words.{clamp_nat}
use trust_system.Prelude.Sort.{sort_by}
use trust_system.Prelude.Float.{
  Floats, Num, ◌<ᶠ◌, ◌+ᶠ◌, ◌-ᶠ◌, ◌*ᶠ◌, ◌/ᶠ◌, of_nat, lit, zero_f, abs, round, sqrt, total_cmp,
}

module _ ⦃f : Floats⦄ where
  pub record PredictionError : Type 0 where
    pub metric : Text
    pub predicted : Num
    pub actual : Num
    pub absolute_error : Num
    pub relative_error : Num
    pub confidence : Num
    pub context : Text
    pub prediction_model_version : Text
    pub observation_revision : ℕ

  -- `f64::EPSILON`, which is 2 ^ -52.
  abbrev pub epsilon : Num
  epsilon = lit 1 4503599627370496

  unfoldable pub compute : Text → Num → Num → Num → Text → ℕ → PredictionError
  compute metric predicted actual confidence model_version observation_revision =
      let absolute_error = abs (predicted -ᶠ actual) in
      record {
        metric = metric;
        predicted = predicted;
        actual = actual;
        absolute_error = absolute_error;
        relative_error = if epsilon <ᶠ abs actual then absolute_error /ᶠ abs actual else zero_f;
        confidence = confidence;
        context = [];
        prediction_model_version = model_version;
        observation_revision = observation_revision;
      }

  pub record PredictionErrorTracker : Type 0 where
    pub errors : List PredictionError
    pub max_errors : ℕ

  abbrev pub new : ℕ → PredictionErrorTracker
  new max_errors = record { errors = []; max_errors = clamp_nat 1 100000 max_errors }

  unfoldable pub record_error : PredictionErrorTracker → PredictionError → PredictionErrorTracker
  record_error t e = record t {
    errors = (if leb t.max_errors (length t.errors) then rest t.errors else t.errors) ++ e ∷ [];
  }

  abbrev pub sum : List Num → Num
  sum = foldl (λ a x. a +ᶠ x) zero_f

  unfoldable pub mae : PredictionErrorTracker → Num
  mae t = elim t.errors [
    | [] ↦ zero_f
    | e ∷ es ↦ sum (map (λ x. x.absolute_error) (e ∷ es)) /ᶠ of_nat (length (e ∷ es))
  ]

  unfoldable pub rmse : PredictionErrorTracker → Num
  rmse t = elim t.errors [
    | [] ↦ zero_f
    | e ∷ es ↦
        sqrt (
          sum (map (λ x. x.absolute_error *ᶠ x.absolute_error) (e ∷ es))
          /ᶠ of_nat (length (e ∷ es)))
  ]

  -- An index out of range is a panic.
  unfoldable pub percentile_error : PredictionErrorTracker → Num → Option Num
  percentile_error t p = elim t.errors [
    | [] ↦ some zero_f
    | e ∷ es ↦
        let sorted = sort_by total_cmp (map (λ x. x.absolute_error) (e ∷ es)) in
        get_elem? sorted (round (of_nat (length sorted - 1) *ᶠ p))
  ]

  abbrev pub p50_error : PredictionErrorTracker → Option Num
  p50_error t = percentile_error t (lit 50 100)

  abbrev pub p95_error : PredictionErrorTracker → Option Num
  p95_error t = percentile_error t (lit 95 100)

  abbrev pub count : PredictionErrorTracker → ℕ
  count t = length t.errors
