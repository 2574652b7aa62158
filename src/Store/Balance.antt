-- ===== src/Store/Balance.antt =====
-- The methods of src/kegpulse/persistence/repository.py that write balances keep them equal to the
-- ledger.
use keg_pulse.Base.{
  ◌≡◌, refl, sym, ◌∙◌, inl, inr, not, Bool, true, false, ◌∷◌, Option, none, some, Bool-cases,
  Option-cases, arith, ℤ, pos,
}
use keg_pulse.Base.Text.{Text, codes, opt_is}
use keg_pulse.Base.Strip.{strip}
use keg_pulse.Base.Rows.{
  find, has_row, update_where, All-update_where, All-map, has_row-update_where, has_row-cons,
}
use keg_pulse.Base.Try.{ok, Try-cases}
use keg_pulse.Calibration.Decimals.{Decimals}
use keg_pulse.Store.Tables.{
  Database, Participant, PourEvent, Charge, is_participant, field_of, given,
}
use keg_pulse.Store.Participants.{
  book, with_row, has_length, create_participant, update_participant, is_adjustable,
  adjust_participant_balance, adjustment_entry,
}
use keg_pulse.Store.Charges.{
  charge_amount, charge_pour, is_charge, price, cents_of, is_positive, refund, recharge,
  move_charge, stored_number,
}
use keg_pulse.Store.Ledger.{HasBalances, IsBalanced, total-fresh, book-HasBalances}
use keg_pulse.Store.Recorded.{require-ok}

with_row-same :
    (k : Text) (db db' : Database) (p : Participant) → with_row k db ≡ ok (p, db') → db' ≡ db
unfolding with_row
with_row-same k db db' p h = elim (Option-cases (find (is_participant k) db.participants)) [
  | inl e ↦ absurd (ground arith)
  | inr (q, e) ↦ ground arith
]

pub create_participant-HasBalances :
    (name new_id now : Text) (db db' : Database) (p : Participant)
    → HasBalances db
    → create_participant name new_id now db ≡ ok (p, db')
    → HasBalances db'
unfolding create_participant HasBalances IsBalanced has_row find
create_participant-HasBalances name new_id now db db' p h k =
    let clean = require-ok (has_length 80 (strip name)) _ _ (p, db') k in
    let fresh =
      require-ok (not (has_row (is_participant new_id) db.participants)) _ _ (p, db') clean.1 in
    let absent : has_row (is_participant new_id) db.participants ≡ false = ground arith in
    let zero = total-fresh new_id db.participants db.ledger absent h.1 in
    let row : Participant = record {
      id = new_id;
      display_name = strip name;
      active = true;
      created_at = now;
      updated_at = now;
      balance_cents = pos 0;
      avatar_updated_at = none;
    } in
    let new : db' ≡ record db { participants = row ∷ db.participants } = ground arith in
    rw new
      ((sym zero, h.0), All-map _ _ db.ledger (λ e q. has_row-cons _ row db.participants q) h.1)

pub adjust_participant_balance-HasBalances :
    (participant_id : Text) (amount : ℤ) (reason new_id now : Text) (db db' : Database)
    (p : Participant)
    → HasBalances db
    → adjust_participant_balance participant_id amount reason new_id now db ≡ ok (p, db')
    → HasBalances db'
unfolding adjust_participant_balance
adjust_participant_balance-HasBalances participant_id amount reason new_id now db db' p h k =
    let a = require-ok (is_adjustable amount) _ _ (p, db') k in
    let b = require-ok (has_length 500 (strip reason)) _ _ (p, db') a.1 in
    elim (Option-cases (find (is_participant participant_id) db.participants)) [
      | inl e ↦ absurd (ground arith)
      | inr (old, e) ↦
          let entry =
            adjustment_entry participant_id amount (strip reason) new_id now old.balance_cents in
          elim (Try-cases (book entry db)) [
            | inr (x, q) ↦ absurd (ground arith)
            | inl (db1, q) ↦
                let same =
                  with_row-same participant_id db1 db' p
                    (rw (adjust_participant_balance, a.0, b.0, e, q) at k) in
                rw same (book-HasBalances entry old db db1 e refl h q)
          ]
    ]

pub update_participant-HasBalances :
    (k : Text) (name : Option Text) (active : Option Bool) (now : Text) (db db' : Database)
    (p : Participant)
    → HasBalances db
    → update_participant k name active now db ≡ ok (p, db')
    → HasBalances db'
unfolding update_participant HasBalances IsBalanced
update_participant-HasBalances k name active now db db' p h e =
    elim (Option-cases (find (is_participant k) db.participants)) [
      | inl q ↦ absurd (ground arith)
      | inr (old, q) ↦
          let clean = given (field_of strip name) old.display_name in
          elim (Bool-cases (has_length 80 clean)) [
            | inr z ↦ absurd (ground arith)
            | inl z ↦
                let change : Participant → Participant = λ p. record p {
                  display_name = clean;
                  active = given active old.active;
                  updated_at = now;
                } in
                let same =
                  with_row-same k
                    (record db {
                      participants = update_where (is_participant k) change db.participants;
                    })
                    db' p (rw (update_participant, q, z) at e) in
                rw same (
                  All-update_where (is_participant k) change _ _ db.participants (λ x hit b. b)
                      (λ x miss b. b) h.0,
                  All-map _ _ db.ledger
                      (λ e b. has_row-update_where _ _ change db.participants (λ y. refl) ∙ b) h.1,
                )
          ]
    ]

pub charge_amount-HasBalances :
    (pour_id participant_id volume rate : Text) (amount : ℤ) (new_id now : Text) (db db' : Database)
    → HasBalances db
    → charge_amount pour_id participant_id volume rate amount new_id now db ≡ ok db'
    → HasBalances db'
unfolding charge_amount HasBalances
charge_amount-HasBalances pour_id participant_id volume rate amount new_id now db db' h k =
    elim (Option-cases (find (is_participant participant_id) db.participants)) [
      | inl e ↦ (let same : db' ≡ db = ground arith in rw same h)
      | inr (p, e) ↦ elim (Bool-cases (has_row (is_charge pour_id) db.charges)) [
        | inl q ↦ absurd (ground arith)
        | inr q ↦ book-HasBalances _ p _ db' e refl h (rw (charge_amount, e, q) at k)
      ]
    ]

pub charge_pour-HasBalances :
    (d : Decimals) (pour_id participant_id : Text) (volume : d.Number) (new_id now : Text)
    (db db' : Database)
    → HasBalances db
    → charge_pour d pour_id participant_id volume new_id now db ≡ ok db'
    → HasBalances db'
unfolding charge_pour
charge_pour-HasBalances d pour_id participant_id volume new_id now db db' h k =
    elim (Try-cases (price d db)) [
      | inr (e, q) ↦ absurd (ground arith)
      | inl (rate, q) ↦ elim (Bool-cases (d.lt (d.literal (codes "0")) rate)) [
        | inr z ↦ (let same : db' ≡ db = ground arith in rw same h)
        | inl z ↦ elim (Bool-cases (is_positive (cents_of d volume rate))) [
          | inr y ↦ (let same : db' ≡ db = ground arith in rw same h)
          | inl y ↦
              charge_amount-HasBalances pour_id participant_id (d.print volume) (d.print rate)
                (cents_of d volume rate) new_id now db db' h (rw (q, z, y) at k)
        ]
      ]
    ]

refund-HasBalances :
    (charge : Charge) (old : Option Text) (pour_id new_id now : Text) (db db' : Database)
    → HasBalances db
    → refund charge old pour_id new_id now db ≡ ok db'
    → HasBalances db'
unfolding refund
refund-HasBalances charge none pour_id new_id now db db' h k =
    (let same : db' ≡ db = ground arith in rw same h)
refund-HasBalances charge (some old) pour_id new_id now db db' h k =
    elim (Option-cases (find (is_participant old) db.participants)) [
      | inl e ↦ (let same : db' ≡ db = ground arith in rw same h)
      | inr (p, e) ↦ book-HasBalances _ p db db' e refl h (rw (refund, e) at k)
    ]

recharge-HasBalances :
    (charge : Charge) (participant_id pour_id new_id now : Text) (db db' : Database)
    → HasBalances db
    → recharge charge participant_id pour_id new_id now db ≡ ok db'
    → HasBalances db'
unfolding recharge HasBalances
recharge-HasBalances charge participant_id pour_id new_id now db db' h k =
    elim (Option-cases (find (is_participant participant_id) db.participants)) [
      | inl e ↦ absurd (ground arith)
      | inr (p, e) ↦ book-HasBalances _ p _ db' e refl h (rw (recharge, e) at k)
    ]

pub move_charge-HasBalances :
    (d : Decimals) (pour : PourEvent) (participant_id refund_id charge_id now : Text)
    (db db' : Database)
    → HasBalances db
    → move_charge d pour participant_id refund_id charge_id now db ≡ ok db'
    → HasBalances db'
unfolding move_charge
move_charge-HasBalances d pour participant_id refund_id charge_id now db db' h k =
    elim (Option-cases (find (is_charge pour.id) db.charges)) [
      | inr (charge, e) ↦ elim (Bool-cases (opt_is pour.participant_id participant_id)) [
        | inl q ↦ (let same : db' ≡ db = ground arith in rw same h)
        | inr q ↦ elim (Try-cases (refund charge pour.participant_id pour.id refund_id now db)) [
          | inr (x, z) ↦ absurd (ground arith)
          | inl (db1, z) ↦
              recharge-HasBalances charge participant_id pour.id charge_id now db1 db'
                (refund-HasBalances charge pour.participant_id pour.id refund_id now db db1 h z)
                (rw (move_charge, e, q, z) at k)
        ]
      ]
      | inl e ↦ elim (Option-cases pour.volume_ml) [
        | inl q ↦ (let same : db' ≡ db = ground arith in rw same h)
        | inr (text, q) ↦ elim (Try-cases (stored_number d text)) [
          | inr (x, z) ↦ absurd (ground arith)
          | inl (volume, z) ↦
              charge_pour-HasBalances d pour.id participant_id volume charge_id now db db' h
                (rw (move_charge, e, q, z) at k)
        ]
      ]
    ]
