-- ===== src/Calibration/Samples.antt =====
-- Samples of src/kegpulse/domain/calibration.py, and the volume of a pour.
use keg_pulse.Base.{ℕ, ◌-◌, ◌^◌, Bool, true, ◌&&◌, not, leb}
use keg_pulse.Base.Text.{Text, codes}
use keg_pulse.Base.Try.{ok, ◌>>=◌, ◌>>◌, require}
use keg_pulse.Calibration.Decimals.{Decimals, DomainError, Domain}
use keg_pulse.Calibration.Units.{finite_decimal}

abbrev pub min_samples : ℕ
min_samples = 10

abbrev pub min_included_samples : ℕ
min_included_samples = 7

abbrev pub max_pulses : ℕ
max_pulses = 2 ^ 63 - 1

-- `class CalibrationSample`
pub record CalibrationSample (d : Decimals) : Type 0 where
  pub raw_pulses : ℕ
  pub mass_g : d.Number
  pub density_g_per_ml : d.Number
  pub included : Bool

module _ (d : Decimals) where
  -- `low <= value <= high`, the bounds literals
  unfoldable pub within : Text → Text → d.Number → Bool
  within low high value = not (d.lt value (d.literal low)) && not (d.lt (d.literal high) value)

  -- `volume_ml` and `ratio`
  unfoldable pub volume_ml : CalibrationSample d → d.Number
  volume_ml s = d.div s.mass_g s.density_g_per_ml

  unfoldable pub ratio : CalibrationSample d → d.Number
  unfolding volume_ml
  ratio s = d.div (d.of_nat s.raw_pulses) (volume_ml s)

  -- `ensure_plausible_factor`
  unfoldable pub ensure_plausible_factor : d.Number → Domain (Unit {0})
  unfolding within
  ensure_plausible_factor factor =
      require (within (codes "0.1") (codes "100") factor) DomainError.implausible_factor

  -- `make_sample`
  unfoldable pub make_sample : ℕ → Text → Text → Bool → Domain (CalibrationSample d)
  unfolding finite_decimal within
  make_sample raw_pulses mass_g density_g_per_ml included = do
    mass ← finite_decimal d mass_g
    density ← finite_decimal d density_g_per_ml
    require (leb 1 raw_pulses && leb raw_pulses max_pulses) DomainError.pulses_out_of_range
    require (within (codes "0.1") (codes "10000") mass) DomainError.mass_out_of_range
    require (within (codes "0.5") (codes "2.0") density) DomainError.density_out_of_range
    ok (record {
      raw_pulses = raw_pulses;
      mass_g = mass;
      density_g_per_ml = density;
      included = included;
    })

  -- `pulses_to_ml`
  unfoldable pub pulses_to_ml : ℕ → Text → Domain d.Number
  unfolding finite_decimal
  pulses_to_ml raw_pulses pulses_per_ml = do
    factor ← finite_decimal d pulses_per_ml
    require (d.lt (d.literal (codes "0")) factor) DomainError.factor_not_positive
    ok (d.div (d.of_nat raw_pulses) factor)

  -- `verification_error`: predicted, actual, absolute and percentage
  unfoldable pub verification_error :
      ℕ → Text → Text → Text → Domain (d.Number × d.Number × d.Number × d.Number)
  unfolding make_sample pulses_to_ml volume_ml
  verification_error raw_pulses mass_g density_g_per_ml pulses_per_ml = do
    sample ← make_sample raw_pulses mass_g density_g_per_ml true
    predicted ← pulses_to_ml raw_pulses pulses_per_ml
    let actual = volume_ml sample
    let error = d.absolute (d.sub predicted actual)
    ok (predicted, actual, error, d.mul (d.div error actual) (d.literal (codes "100")))
