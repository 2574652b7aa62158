-- ===== src/Calibration/Inventory.antt =====
-- src/kegpulse/domain/inventory.py
use keg_pulse.Base.{Bool, true, false, not, Option, none, some, List, [], ◌∷◌, if◌then◌else◌}
use keg_pulse.Base.Text.{Text, codes}
use keg_pulse.Base.Try.{ok, ◌>>=◌, ◌>>◌, require}
use keg_pulse.Calibration.Decimals.{Decimals, DomainError, Domain}
use keg_pulse.Calibration.Units.{finite_decimal}

-- `class InventoryState`
pub record InventoryState (d : Decimals) : Type 0 where
  pub starting_ml : d.Number
  pub poured_ml : d.Number
  pub adjustments_ml : d.Number
  pub remaining_ml : d.Number
  pub percent_remaining : d.Number
  pub overrun_ml : d.Number
  pub has_unknown_pours : Bool

module _ (d : Decimals) where
  abbrev pub zero_ml : d.Number
  zero_ml = d.literal (codes "0")

  -- The loop over the pours: the sum, and whether a volume was None
  unfoldable pub sum_pours : d.Number → Bool → List (Option Text) → Domain (d.Number × Bool)
  sum_pours poured unknown [] = ok (poured, unknown)
  sum_pours poured unknown (none ∷ pours) = sum_pours poured true pours
  sum_pours poured unknown (some raw ∷ pours) = do
    value ← finite_decimal d raw
    require (not (d.lt value zero_ml)) DomainError.negative_volume
    sum_pours (d.add poured value) unknown pours

  -- `sum(…, Decimal(0))` over texts, from a first value
  unfoldable pub sum_texts : d.Number → List Text → Domain d.Number
  sum_texts total [] = ok total
  sum_texts total (raw ∷ rest) = do value ← finite_decimal d raw; sum_texts (d.add total value) rest

  -- `calculate_inventory`
  unfoldable pub calculate_inventory :
      Text → List (Option Text) → List Text → Domain (InventoryState d)
  calculate_inventory starting_ml pours adjustments_ml = do
    starting ← finite_decimal d starting_ml
    require (d.lt zero_ml starting) DomainError.starting_not_positive
    poured ← sum_pours zero_ml false pours
    adjustments ← sum_texts zero_ml adjustments_ml
    let remaining = d.add (d.sub starting poured.0) adjustments
    ok (record {
      starting_ml = starting;
      poured_ml = poured.0;
      adjustments_ml = adjustments;
      remaining_ml = remaining;
      percent_remaining = d.mul (d.div remaining starting) (d.literal (codes "100"));
      overrun_ml = if d.lt remaining zero_ml then d.absolute remaining else zero_ml;
      has_unknown_pours = poured.1;
    })
