-- ===== src/Calibration/Analysis.antt =====
-- `analyze_calibration` of src/kegpulse/domain/calibration.py
use keg_pulse.Base.{
  ℕ, Bool, false, ◌&&◌, ◌||◌, not, Option, none, some, List, [], ◌∷◌, map, ltb, leb, ◌==◌, length,
  if◌then◌else◌,
}
use keg_pulse.Base.Text.{codes}
use keg_pulse.Base.Rows.{select}
use keg_pulse.Base.Try.{ok, ◌>>◌, require}
use keg_pulse.Calibration.Decimals.{Decimals, DomainError, Domain}
use keg_pulse.Calibration.Samples.{
  CalibrationSample, volume_ml, ratio, min_samples, min_included_samples,
}

-- `class SampleAnalysis`
pub record SampleAnalysis (d : Decimals) : Type 0 where
  pub predicted_volume_ml : d.Number
  pub residual_ml : d.Number
  pub percentage_error : d.Number
  pub suspected_outlier : Bool

-- `class CalibrationAnalysis`
pub record CalibrationAnalysis (d : Decimals) : Type 0 where
  pub pulses_per_ml : d.Number
  pub samples : List (SampleAnalysis d)
  pub included_count : ℕ
  pub coefficient_of_variation_pct : Option d.Number

module _ (d : Decimals) where
  -- `value == other` on numbers that are ordered
  unfoldable pub same_number : d.Number → d.Number → Bool
  same_number a b = not (d.lt a b) && not (d.lt b a)

  abbrev zero_number : d.Number
  zero_number = d.literal (codes "0")

  -- The flag of one ratio
  unfoldable pub is_outlier : d.Number → d.Number → d.Number → Bool
  unfolding same_number
  is_outlier center mad value =
      let deviation = d.absolute (d.sub value center) in
      if same_number mad zero_number
      then if same_number center zero_number
        then not (same_number value center)
        else d.lt (d.literal (codes "0.05")) (d.div deviation (d.absolute center))
      else d.lt (d.literal (codes "3.5")) (d.div (d.mul (d.literal (codes "0.6745")) deviation) mad)

  -- `_outlier_flags`
  unfoldable pub outlier_flags : List d.Number → List Bool
  unfolding is_outlier
  outlier_flags [] = []
  outlier_flags (r ∷ rs) =
      let center = d.median (r ∷ rs) in
      let mad = d.median (map (λ value. d.absolute (d.sub value center)) (r ∷ rs)) in
      map (is_outlier center mad) (r ∷ rs)

  -- `sum(…, Decimal(0))`, from a first value
  unfoldable pub sum_numbers : d.Number → List d.Number → d.Number
  sum_numbers total [] = total
  sum_numbers total (n ∷ ns) = sum_numbers (d.add total n) ns

  -- The loop over all samples; an included sample takes the next flag.
  unfoldable pub analyze_samples :
      d.Number → List Bool → List (CalibrationSample d) → List (SampleAnalysis d)
  unfolding volume_ml
  analyze_samples factor flags [] = []
  analyze_samples factor flags (s ∷ samples) =
      let volume = volume_ml d s in
      let predicted = d.div (d.of_nat s.raw_pulses) factor in
      let residual = d.sub predicted volume in
      let flag = if s.included then elim flags [ [] ↦ false | f ∷ fs ↦ f ] else false in
      let rest = if s.included then elim flags [ [] ↦ [] | f ∷ fs ↦ fs ] else flags in
      let analysis : SampleAnalysis d = record {
        predicted_volume_ml = predicted;
        residual_ml = residual;
        percentage_error = d.mul (d.div (d.absolute residual) volume) (d.literal (codes "100"));
        suspected_outlier = flag;
      } in
      analysis ∷ analyze_samples factor rest samples

  -- The coefficient of variation, for two ratios at least
  unfoldable pub coefficient : List d.Number → Option d.Number
  unfolding sum_numbers same_number
  coefficient ratios =
      if ltb (length ratios) 2
      then none
      else (let count = d.of_nat (length ratios) in
          let mean = d.div (sum_numbers zero_number ratios) count in
          let squares = map (λ r. d.square (d.sub r mean)) ratios in
          let variance = d.div (sum_numbers zero_number squares) count in
          some (
            if same_number mean zero_number
            then zero_number
            else d.mul (d.div (d.sqrt variance) mean) (d.literal (codes "100"))))

  -- `analyze_calibration`
  unfoldable pub analyze_calibration :
      Bool → List (CalibrationSample d) → Domain (CalibrationAnalysis d)
  unfolding volume_ml ratio sum_numbers analyze_samples coefficient
  analyze_calibration require_ten samples = do
    require (not require_ten || length samples == min_samples) DomainError.needs_ten_samples
    let included = select (λ s. s.included) samples
    require (leb (if require_ten then min_included_samples else 1) (length included))
        (if require_ten then DomainError.needs_seven_included else DomainError.needs_one_included)
    let total_pulses = sum_numbers zero_number (map (λ s. d.of_nat s.raw_pulses) included)
    let total_volume = sum_numbers zero_number (map (volume_ml d) included)
    require (d.lt zero_number total_volume) DomainError.volume_not_positive
    let factor = d.div total_pulses total_volume
    require (d.is_finite factor && d.lt zero_number factor) DomainError.factor_not_positive
    let ratios = map (ratio d) included
    ok (record {
      pulses_per_ml = factor;
      samples = analyze_samples factor (outlier_flags ratios) samples;
      included_count = length included;
      coefficient_of_variation_pct = coefficient ratios;
    })
