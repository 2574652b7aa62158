-- ===== src/Store/Participants.antt =====
-- Participants and their balances, as the methods of src/kegpulse/persistence/repository.py keep
-- them. `new_id` is what `_id()` gives and `now` what `utc_now()` gives.
use keg_pulse.Base.{
  ℕ, Bool, true, ◌&&◌, not, Option, none, some, ◌∷◌, leb, length, if◌then◌else◌, is_none, ℤ, pos,
  ◌+ℤ◌, pos_part, neg_part, ◌+◌,
}
use keg_pulse.Base.Text.{Text, ◌=t◌}
use keg_pulse.Base.Strip.{strip}
use keg_pulse.Base.Rows.{find, has_row, update_where}
use keg_pulse.Base.Try.{Try, ok, ◌>>=◌, ◌>>◌, require}
use keg_pulse.Store.Tables.{
  Participant, LedgerEntry, LedgerKind, Database, StoreError, Transaction, must_find,
  is_participant, given, field_of,
}

-- `1 <= len(text) <= maximum`
unfoldable pub has_length : ℕ → Text → Bool
has_length maximum t = leb 1 (length t) && leb (length t) maximum

-- The row that a SELECT after the write gives
unfoldable pub with_row : Text → Database → Transaction Participant
with_row k db = do
  row ← must_find (find (is_participant k) db.participants) StoreError.not_found
  ok (row, db)

-- `create_participant`
unfoldable pub create_participant : Text → Text → Text → Database → Transaction Participant
unfolding has_length
create_participant display_name new_id now db = do
  let name = strip display_name
  require (has_length 80 name) StoreError.bad_value
  require (not (has_row (is_participant new_id) db.participants)) StoreError.integrity
  let row : Participant = record {
    id = new_id;
    display_name = name;
    active = true;
    created_at = now;
    updated_at = now;
    balance_cents = pos 0;
    avatar_updated_at = none;
  }
  ok (row, record db { participants = row ∷ db.participants })

-- `update_participant`
unfoldable pub update_participant :
    Text → Option Text → Option Bool → Text → Database → Transaction Participant
unfolding has_length with_row
update_participant participant_id display_name active now db = do
  current ← must_find (find (is_participant participant_id) db.participants) StoreError.not_found
  let name = given (field_of strip display_name) current.display_name
  require (has_length 80 name) StoreError.bad_value
  let enabled = given active current.active
  with_row participant_id (record db {
    participants =
        update_where (is_participant participant_id)
          (λ p. record p { display_name = name; active = enabled; updated_at = now })
          db.participants;
  })

-- `mark_participant_avatar`: None if there is one already and only a missing one is wanted
unfoldable pub mark_participant_avatar :
    Text → Bool → Text → Database → Transaction (Option Participant)
unfolding with_row
mark_participant_avatar participant_id only_if_missing now db = do
  current ← must_find (find (is_participant participant_id) db.participants) StoreError.not_found
  if only_if_missing && not (is_none current.avatar_updated_at) then ok (none, db) else do
    (row, db') ← with_row participant_id (record db {
      participants =
          update_where (is_participant participant_id)
            (λ p. record p { avatar_updated_at = some now; updated_at = now }) db.participants;
    })
    ok (some row, db')

-- `clear_participant_avatar`
unfoldable pub clear_participant_avatar : Text → Text → Database → Transaction Participant
unfolding with_row
clear_participant_avatar participant_id now db = do
  current ← must_find (find (is_participant participant_id) db.participants) StoreError.not_found
  with_row participant_id (record db {
    participants =
        update_where (is_participant participant_id)
          (λ p. record p { avatar_updated_at = none; updated_at = now }) db.participants;
  })

abbrev pub is_ledger_entry : Text → LedgerEntry → Bool
is_ledger_entry k e = e.id =t k

-- The balance is written, and the entry that leads to it
unfoldable pub book : LedgerEntry → Database → Try StoreError Database
book entry db = do
  require (not (has_row (is_ledger_entry entry.id) db.ledger)) StoreError.integrity
  ok (record db {
    participants =
        update_where (is_participant entry.participant_id)
          (λ p. record p {
            balance_cents = entry.balance_after_cents;
            updated_at = entry.created_at;
          })
          db.participants;
    ledger = entry ∷ db.ledger;
  })

-- `amount_cents == 0 or abs(amount_cents) > 10_000_000`, negated
unfoldable pub is_adjustable : ℤ → Bool
is_adjustable amount =
    let size = pos_part amount + neg_part amount in leb 1 size && leb size 10000000

-- The entry of an adjustment, on a balance
abbrev pub adjustment_entry : Text → ℤ → Text → Text → Text → ℤ → LedgerEntry
adjustment_entry participant_id amount_cents reason new_id now balance = record {
  id = new_id;
  participant_id = participant_id;
  amount_cents = amount_cents;
  kind = LedgerKind.adjustment;
  pour_id = none;
  reason = reason;
  balance_after_cents = balance +ℤ amount_cents;
  created_at = now;
}

-- `adjust_participant_balance`
unfoldable pub adjust_participant_balance :
    Text → ℤ → Text → Text → Text → Database → Transaction Participant
unfolding has_length with_row book is_adjustable
adjust_participant_balance participant_id amount_cents reason new_id now db = do
  let clean_reason = strip reason
  require (is_adjustable amount_cents) StoreError.bad_value
  require (has_length 500 clean_reason) StoreError.bad_value
  participant ←
      must_find (find (is_participant participant_id) db.participants) StoreError.not_found
  db' ←
      book
        (adjustment_entry participant_id amount_cents clean_reason new_id now
          participant.balance_cents)
        db
  with_row participant_id db'
