-- ===== src/Store/Frame.antt =====
-- What the charges of src/kegpulse/persistence/repository.py leave as it is.
use keg_pulse.Base.{◌≡◌, inl, inr, ℤ, Bool-cases, Option-cases, arith}
use keg_pulse.Base.Text.{Text, codes}
use keg_pulse.Base.Rows.{find, has_row}
use keg_pulse.Base.Try.{ok, Try-cases}
use keg_pulse.Calibration.Decimals.{Decimals}
use keg_pulse.Store.Tables.{Database, LedgerEntry, is_participant}
use keg_pulse.Store.Participants.{book, is_ledger_entry}
use keg_pulse.Store.Charges.{charge_amount, charge_pour, is_charge, price, cents_of, is_positive}

-- The tables that a charge does not write
unfoldable pub SameFacts : Database → Database → Type 0
SameFacts db db' =
    (db'.results ≡ db.results)
    × (db'.pours ≡ db.pours)
    × (db'.sessions ≡ db.sessions)
    × (db'.checkpoints ≡ db.checkpoints)

pub book-SameFacts :
    (entry : LedgerEntry) (db db' : Database) → book entry db ≡ ok db' → SameFacts db db'
unfolding book SameFacts
book-SameFacts entry db db' h = elim (Bool-cases (has_row (is_ledger_entry entry.id) db.ledger)) [
  | inl e ↦ absurd (ground arith)
  | inr e ↦ (ground arith, ground arith, ground arith, ground arith)
]

pub SameFacts-trans : (a b c : Database) → SameFacts a b → SameFacts b c → SameFacts a c
unfolding SameFacts
SameFacts-trans a b c h k = (cc, cc, cc, cc)

pub charge_amount-SameFacts :
    (pour_id participant_id volume rate : Text) (amount : ℤ) (new_id now : Text) (db db' : Database)
    → charge_amount pour_id participant_id volume rate amount new_id now db ≡ ok db'
    → SameFacts db db'
unfolding charge_amount SameFacts
charge_amount-SameFacts pour_id participant_id volume rate amount new_id now db db' h =
    elim (Option-cases (find (is_participant participant_id) db.participants)) [
      | inl e ↦ (ground arith, ground arith, ground arith, ground arith)
      | inr (p, e) ↦ elim (Bool-cases (has_row (is_charge pour_id) db.charges)) [
        | inl q ↦ absurd (ground arith)
        | inr q ↦ book-SameFacts _ _ db' (rw (charge_amount, e, q) at h)
      ]
    ]

pub charge_pour-SameFacts :
    (d : Decimals) (pour_id participant_id : Text) (volume : d.Number) (new_id now : Text)
    (db db' : Database)
    → charge_pour d pour_id participant_id volume new_id now db ≡ ok db'
    → SameFacts db db'
unfolding charge_pour SameFacts
charge_pour-SameFacts d pour_id participant_id volume new_id now db db' h =
    elim (Try-cases (price d db)) [
      | inr (e, q) ↦ absurd (ground arith)
      | inl (rate, q) ↦ elim (Bool-cases (d.lt (d.literal (codes "0")) rate)) [
        | inr z ↦ (ground arith, ground arith, ground arith, ground arith)
        | inl z ↦ elim (Bool-cases (is_positive (cents_of d volume rate))) [
          | inr y ↦ (ground arith, ground arith, ground arith, ground arith)
          | inl y ↦
              charge_amount-SameFacts pour_id participant_id (d.print volume) (d.print rate)
                (cents_of d volume rate) new_id now db db' (rw (q, z, y) at h)
        ]
      ]
    ]
