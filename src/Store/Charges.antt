-- ===== src/Store/Charges.antt =====
-- `_charge_pour` and `reassign_pour` of src/kegpulse/persistence/repository.py: what a pour costs and
-- whom.
use keg_pulse.Base.{
  Bool, true, false, not, Option, none, some, List, [], ◌∷◌, leb, if◌then◌else◌, ℤ, pos, negsuc,
  ◌+ℤ◌, neg_ℤ,
}
use keg_pulse.Base.Text.{Text, codes, ◌=t◌, opt_is}
use keg_pulse.Base.Strip.{strip}
use keg_pulse.Base.Rows.{find, has_row, update_where}
use keg_pulse.Base.Try.{Try, ok, err, ◌>>=◌, ◌>>◌, require}
use keg_pulse.Calibration.Decimals.{Decimals}
use keg_pulse.Store.Tables.{
  PourEvent, Charge, AuditEntry, LedgerEntry, LedgerKind, Database, StoreError, Transaction,
  must_find, is_participant, is_pour,
}
use keg_pulse.Store.Participants.{has_length, book}

-- `SELECT value_json FROM settings WHERE key=…`
unfoldable pub setting : Text → List (Text × Text) → Option Text
setting key [] = none
setting key ((k, v) ∷ rest) = if k =t key then some v else setting key rest

abbrev pub is_charge : Text → Charge → Bool
is_charge k c = c.pour_id =t k

-- A ledger entry of a pour
abbrev pub pour_entry : Text → Text → ℤ → LedgerKind → Text → Text → ℤ → Text → LedgerEntry
pour_entry id participant amount kind pour reason balance now = record {
  id = id;
  participant_id = participant;
  amount_cents = amount;
  kind = kind;
  pour_id = some pour;
  reason = reason;
  balance_after_cents = balance;
  created_at = now;
}

-- `amount <= 0`, negated
abbrev pub is_positive : ℤ → Bool
is_positive (pos n) = leb 1 n
is_positive (negsuc n) = false

-- The writes of `_charge_pour` for an amount
unfoldable pub charge_amount :
    Text → Text → Text → Text → ℤ → Text → Text → Database → Try StoreError Database
charge_amount pour_id participant_id volume rate amount new_id now db =
    elim (find (is_participant participant_id) db.participants) [
      | none ↦ ok db
      | some p ↦ do
        require (not (has_row (is_charge pour_id) db.charges)) StoreError.integrity
        let charge : Charge = record {
          pour_id = pour_id;
          participant_id = participant_id;
          volume_ml = volume;
          rate_cents_per_fl_oz = rate;
          amount_cents = amount;
          created_at = now;
        }
        book
            (pour_entry new_id participant_id (neg_ℤ amount) LedgerKind.charge pour_id
              (codes "Beer pour") (p.balance_cents +ℤ neg_ℤ amount) now)
            (record db { charges = charge ∷ db.charges })
    ]

module _ (d : Decimals) where
  -- The amount that a volume costs at a rate
  unfoldable pub cents_of : d.Number → d.Number → ℤ
  cents_of volume_ml rate =
      d.round_half_up (d.mul (d.div volume_ml (d.literal (codes "29.5735295625"))) rate)

  -- The price setting, 0 without one. For a text that is no number, a NaN or the positive
  -- infinity the code raises an ArithmeticError, which its `except` clause does not name; the negative
  -- infinity costs nothing, as 0 does.
  unfoldable pub price : Database → Try StoreError d.Number
  price db = elim (setting (codes "beer_price_cents_per_fl_oz") db.settings) [
    | none ↦ ok (d.literal (codes "0"))
    | some text ↦ elim (d.parse text) [
      | none ↦
          if d.is_negative_infinity text
          then ok (d.literal (codes "0"))
          else err StoreError.arithmetic
      | some rate ↦ ok rate
    ]
  ]

  -- `_charge_pour`
  unfoldable pub charge_pour :
      Text → Text → d.Number → Text → Text → Database → Try StoreError Database
  unfolding price cents_of
  charge_pour pour_id participant_id volume_ml new_id now db = do
    rate ← price db
    if not (d.lt (d.literal (codes "0")) rate) then ok db else do
      let amount = cents_of volume_ml rate
      if is_positive amount
          then charge_amount pour_id participant_id (d.print volume_ml) (d.print rate) amount new_id
              now db
          else ok db

  -- `Decimal(str(pour["volume_ml"]))`
  unfoldable pub stored_number : Text → Try StoreError d.Number
  stored_number text = elim (d.parse text) [ none ↦ err StoreError.arithmetic | some n ↦ ok n ]

-- A refund of the charge, if the old participant is there
unfoldable pub refund :
    Charge → Option Text → Text → Text → Text → Database → Try StoreError Database
refund charge none pour_id new_id now db = ok db
refund charge (some old_id) pour_id new_id now db =
    elim (find (is_participant old_id) db.participants) [
      | none ↦ ok db
      | some old ↦
          book
            (pour_entry new_id old_id charge.amount_cents LedgerKind.refund pour_id
              (codes "Pour reassigned") (old.balance_cents +ℤ charge.amount_cents) now)
            db
    ]

-- The charge passes to the new participant.
unfoldable pub recharge : Charge → Text → Text → Text → Text → Database → Try StoreError Database
recharge charge participant_id pour_id new_id now db = do
  new ← must_find (find (is_participant participant_id) db.participants) StoreError.not_found
  book
      (pour_entry new_id participant_id (neg_ℤ charge.amount_cents) LedgerKind.charge pour_id
        (codes "Reassigned beer pour") (new.balance_cents +ℤ neg_ℤ charge.amount_cents) now)
      (record db {
        charges =
            update_where (is_charge pour_id) (λ c. record c { participant_id = participant_id })
              db.charges;
      })

-- The audit entry and the new attribution of the pour
unfoldable pub attribute_pour : PourEvent → AuditEntry → Text → Database → Database
attribute_pour pour audit participant_id db = record db {
  audit = audit ∷ db.audit;
  pours =
      update_where (is_pour pour.id)
        (λ p. record p { participant_id = some participant_id; attributed = true }) db.pours;
}

-- The part of `reassign_pour` that moves or makes the charge
unfoldable pub move_charge :
    Decimals → PourEvent → Text → Text → Text → Text → Database → Try StoreError Database
move_charge d pour participant_id refund_id charge_id now db =
    elim (find (is_charge pour.id) db.charges) [
      | some charge ↦ if opt_is pour.participant_id participant_id then ok db else do
        db' ← refund charge pour.participant_id pour.id refund_id now db
        recharge charge participant_id pour.id charge_id now db'
      | none ↦ elim pour.volume_ml [
        | none ↦ ok db
        | some text ↦ do
          volume ← stored_number d text
          charge_pour d pour.id participant_id volume charge_id now db
      ]
    ]

-- `reassign_pour`, which returns the pour
unfoldable pub reassign_pour :
    Decimals → Text → Text → Text → Text → Text → Text → Text → Database → Transaction PourEvent
unfolding has_length
reassign_pour d pour_id participant_id reason audit_id refund_id charge_id now db = do
  let clean_reason = strip reason
  require (has_length 500 clean_reason) StoreError.bad_value
  pour ← must_find (find (is_pour pour_id) db.pours) StoreError.not_found
  must_find (find (is_participant participant_id) db.participants) StoreError.not_found >>= λ p. do
    require (not (has_row (λ (a : AuditEntry). a.id =t audit_id) db.audit)) StoreError.integrity
    let audit : AuditEntry = record {
      id = audit_id;
      pour_id = pour_id;
      old_participant_id = pour.participant_id;
      new_participant_id = some participant_id;
      reason = clean_reason;
      created_at = now;
    }
    db' ←
        move_charge d pour participant_id refund_id charge_id now
          (attribute_pour pour audit participant_id db)
    row ← must_find (find (is_pour pour_id) db'.pours) StoreError.not_found
    ok (row, db')
