-- ===== src/Calibration/Units.antt =====
-- src/kegpulse/domain/units.py. A value comes as the text that `str` gives it.
use keg_pulse.Base.{none, some, if◌then◌else◌}
use keg_pulse.Base.Text.{Text, codes, ◌=t◌}
use keg_pulse.Base.Try.{ok, err, ◌>>=◌}
use keg_pulse.Calibration.Decimals.{Decimals, DomainError, Domain}

module _ (d : Decimals) where
  -- `finite_decimal`
  unfoldable pub finite_decimal : Text → Domain d.Number
  finite_decimal value = elim (d.parse value) [ none ↦ err DomainError.not_finite | some n ↦ ok n ]

  abbrev pub ml_per_us_fl_oz : d.Number
  ml_per_us_fl_oz = d.literal (codes "29.5735295625")

  abbrev pub ml_per_liter : d.Number
  ml_per_liter = d.literal (codes "1000")

  -- `to_milliliters`
  unfoldable pub to_milliliters : Text → Text → Domain d.Number
  unfolding finite_decimal ◌=t◌
  to_milliliters value unit = do
    amount ← finite_decimal value
    if unit =t codes "ml"
        then ok amount
        else if unit =t codes "l"
        then ok (d.mul amount ml_per_liter)
        else if unit =t codes "us_fl_oz"
        then ok (d.mul amount ml_per_us_fl_oz)
        else err DomainError.unknown_unit

  -- `from_milliliters`
  unfoldable pub from_milliliters : Text → Text → Domain d.Number
  unfolding finite_decimal ◌=t◌
  from_milliliters value_ml unit = do
    amount ← finite_decimal value_ml
    if unit =t codes "ml"
        then ok amount
        else if unit =t codes "l"
        then ok (d.div amount ml_per_liter)
        else if unit =t codes "us_fl_oz"
        then ok (d.div amount ml_per_us_fl_oz)
        else err DomainError.unknown_unit
