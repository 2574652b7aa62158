-- ===== src/Calibration/Decimals.antt =====
-- Python's decimal module, a parameter of the model, and the DomainErrors of src/kegpulse/domain.
use keg_pulse.Base.{ℕ, Bool, Option, List, ℤ}
use keg_pulse.Base.Text.{Text}
use keg_pulse.Base.Try.{Try}

-- Numbers of the class Decimal with what the program calls of them. Nothing is assumed of
-- the operations; a theorem that needs a law names it.
pub record Decimals : Type 1 where
  pub Number : Type 0
  -- `Decimal(text)` for a finite number; none where it raises or is not finite
  pub parse : Text → Option Number
  -- Whether `Decimal(text)` is the negative infinity
  pub is_negative_infinity : Text → Bool
  -- `Decimal` at a literal of the source
  pub literal : Text → Number
  pub print : Number → Text
  pub of_nat : ℕ → Number
  pub add : Number → Number → Number
  pub sub : Number → Number → Number
  pub mul : Number → Number → Number
  pub div : Number → Number → Number
  pub absolute : Number → Number
  pub square : Number → Number
  pub sqrt : Number → Number
  pub is_finite : Number → Bool
  pub lt : Number → Number → Bool
  -- `Decimal(str(statistics.median(…)))`
  pub median : List Number → Number
  -- `int(x.quantize(Decimal("1"), rounding=ROUND_HALF_UP))`
  pub round_half_up : Number → ℤ

-- The reasons of a DomainError
pub data DomainError : Type 0 where
  not_finite unknown_unit starting_not_positive negative_volume pulses_out_of_range
        mass_out_of_range density_out_of_range needs_ten_samples needs_seven_included
        needs_one_included volume_not_positive factor_not_positive implausible_factor :
      DomainError

abbrev pub Domain {ℓ} : Type ℓ → Type ℓ
Domain A = Try DomainError A
