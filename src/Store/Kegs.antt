-- ===== src/Store/Kegs.antt =====
-- Kegs and their inventory, as the methods of src/kegpulse/persistence/repository.py keep them.
use keg_pulse.Base.{Bool, true, ◌&&◌, not, Option, none, some, List, [], ◌∷◌, leb, length, map}
use keg_pulse.Base.Text.{Text, codes, ◌=t◌, opt_is, text_ltb}
use keg_pulse.Base.Strip.{strip}
use keg_pulse.Base.Rows.{find, has_row, update_where, select}
use keg_pulse.Base.Try.{Try, ok, ◌>>=◌, ◌>>◌, require}
use keg_pulse.Calibration.Decimals.{Decimals}
use keg_pulse.Calibration.Units.{finite_decimal}
use keg_pulse.Calibration.Samples.{within}
use keg_pulse.Calibration.Analysis.{same_number}
use keg_pulse.Calibration.Inventory.{InventoryState, calculate_inventory}
use keg_pulse.Store.Tables.{
  Keg, PourEvent, InventoryAdjustment, Database, StoreError, Transaction, lift_domain, must_find,
  is_keg, is_open_keg, is_active_session, open_keg, truthy,
}
use keg_pulse.Store.Participants.{has_length}
use keg_pulse.Store.Charges.{stored_number}

abbrev pub is_adjustment : Text → InventoryAdjustment → Bool
is_adjustment k a = a.id =t k

-- `opened_at < previous["opened_at"]`, negated
abbrev pub follows_keg : Text → Option Keg → Bool
follows_keg opened_at none = true
follows_keg opened_at (some previous) = not (text_ltb opened_at previous.opened_at)

-- `UPDATE kegs SET closed_at=? WHERE closed_at IS NULL`, and the new keg
unfoldable pub install : Keg → Database → Database
install keg db = record db {
  kegs = keg ∷ update_where is_open_keg (λ k. record k { closed_at = some keg.opened_at }) db.kegs;
}

-- `_utc_timestamp`, which `timestamp` computes, at a given time, and now without one
unfoldable pub opened : (Text → Option Text) → Option Text → Text → Try StoreError Text
opened timestamp installed_at now = elim (truthy installed_at) [
  | none ↦ ok now
  | some t ↦ must_find (timestamp t) StoreError.bad_value
]

-- The transaction of `replace_keg`
unfoldable pub replace_open_keg : Keg → Database → Transaction Keg
unfolding install
replace_open_keg keg db = do
  require (not (has_row is_active_session db.sessions)) StoreError.conflict
  require (follows_keg keg.opened_at (open_keg db)) StoreError.conflict
  require (not (has_row (is_keg keg.id) db.kegs)) StoreError.integrity
  ok (keg, install keg db)

-- The volumes of a keg's pours and the amounts of its adjustments
unfoldable pub pour_volumes : Text → Database → List (Option Text)
pour_volumes keg_id db =
    map (λ p. p.volume_ml) (select (λ (p : PourEvent). opt_is p.keg_id keg_id) db.pours)

unfoldable pub adjusted_amounts : Text → Database → List Text
adjusted_amounts keg_id db =
    map (λ a. a.amount_ml) (select (λ (a : InventoryAdjustment). a.keg_id =t keg_id) db.adjustments)

-- `Decimal(str(…))` over a column, summed from a first value; `volume_ml IS NOT NULL` skips None.
unfoldable pub sum_column : (d : Decimals) → d.Number → List (Option Text) → Try StoreError d.Number
sum_column d total [] = ok total
sum_column d total (none ∷ rest) = sum_column d total rest
sum_column d total (some text ∷ rest) = do
  n ← stored_number d text
  sum_column d (d.add total n) rest

-- A row of `inventory_adjustments`, for a keg that is there
unfoldable pub insert_adjustment : InventoryAdjustment → Database → Transaction InventoryAdjustment
insert_adjustment a db = do
  require (not (has_row (is_adjustment a.id) db.adjustments)) StoreError.integrity
  ok (a, record db { adjustments = a ∷ db.adjustments })

module _ (d : Decimals) where
  -- `replace_keg`
  unfoldable pub replace_keg :
      (Text → Option Text)
      → Text
      → Text
      → Text
      → Option Text
      → Text
      → Text
      → Database
      → Transaction Keg
  unfolding has_length
  replace_keg timestamp label starting_volume_ml notes installed_at keg_id now db = do
    let clean_label = strip label
    let clean_notes = strip notes
    volume ← lift_domain (finite_decimal d starting_volume_ml)
    require
        (has_length 120 clean_label
          && leb (length clean_notes) 1000
          && d.lt (d.literal (codes "0")) volume)
        StoreError.bad_value
    opened_at ← opened timestamp installed_at now
    replace_open_keg
        (record {
          id = keg_id;
          label = clean_label;
          starting_volume_ml = d.print volume;
          opened_at = opened_at;
          closed_at = none;
          notes = clean_notes;
        })
        db

  -- `adjust_inventory`
  unfoldable pub adjust_inventory :
      Text → Text → Text → Text → Text → Database → Transaction InventoryAdjustment
  unfolding has_length
  adjust_inventory keg_id amount_ml reason adjustment_id now db = do
    amount ← lift_domain (finite_decimal d amount_ml)
    let clean_reason = strip reason
    require (not (same_number d amount (d.literal (codes "0"))) && has_length 500 clean_reason)
        StoreError.bad_value
    require (has_row (is_keg keg_id) db.kegs) StoreError.not_found
    insert_adjustment
        (record {
          id = adjustment_id;
          keg_id = keg_id;
          amount_ml = d.print amount;
          reason = clean_reason;
          created_at = now;
        })
        db

  -- `inventory`
  unfoldable pub inventory : Option Text → Database → Try StoreError (Option (InventoryState d))
  unfolding pour_volumes adjusted_amounts
  inventory keg_id db = do
    let keg : Option Keg = elim (truthy keg_id) [
      | none ↦ open_keg db
      | some k ↦ find (is_keg k) db.kegs
    ]
    elim keg [
      | none ↦ ok none
      | some k ↦ do
        state ← lift_domain (
            calculate_inventory d k.starting_volume_ml (pour_volumes k.id db)
              (adjusted_amounts k.id db))
        ok (some state)
    ]

  -- What is to be added so that a keg holds the percentage of its starting volume
  unfoldable pub correction : Keg → d.Number → Database → Try StoreError d.Number
  unfolding pour_volumes adjusted_amounts sum_column
  correction keg percent db = do
    starting ← stored_number d keg.starting_volume_ml
    poured ← sum_column d (d.literal (codes "0")) (pour_volumes keg.id db)
    adjustments ← sum_column d (d.literal (codes "0")) (map some (adjusted_amounts keg.id db))
    let current = d.add (d.sub starting poured) adjustments
    let target = d.div (d.mul starting percent) (d.literal (codes "100"))
    ok (d.sub target current)

  -- `set_current_keg_remaining_percent`
  unfoldable pub set_current_keg_remaining_percent :
      Text → Text → Text → Text → Database → Transaction InventoryAdjustment
  unfolding has_length correction
  set_current_keg_remaining_percent percent_remaining reason adjustment_id now db = do
    percent ← lift_domain (finite_decimal d percent_remaining)
    let clean_reason = strip reason
    require (within d (codes "0") (codes "100") percent) StoreError.bad_value
    require (has_length 500 clean_reason) StoreError.bad_value
    require (not (has_row is_active_session db.sessions)) StoreError.conflict
    keg ← must_find (open_keg db) StoreError.not_found
    delta ← correction keg percent db
    require (not (same_number d delta (d.literal (codes "0")))) StoreError.conflict
    insert_adjustment
        (record {
          id = adjustment_id;
          keg_id = keg.id;
          amount_ml = d.print delta;
          reason = clean_reason;
          created_at = now;
        })
        db
