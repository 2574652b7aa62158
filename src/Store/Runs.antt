-- ===== src/Store/Runs.antt =====
-- Every sequence of the methods of src/kegpulse/persistence/repository.py that write participants,
-- balances or charges.
use keg_pulse.Base.{ℕ, ◌≡◌, Bool, Option, ℤ}
use keg_pulse.Base.Text.{Text}
use keg_pulse.Base.Try.{ok}
use keg_pulse.Models.{DeviceResult}
use keg_pulse.Calibration.Decimals.{Decimals}
use keg_pulse.Store.Tables.{Database, Participant, PourEvent}
use keg_pulse.Store.Participants.{
  create_participant, update_participant, adjust_participant_balance,
}
use keg_pulse.Store.Charges.{reassign_pour}
use keg_pulse.Store.Results.{finalize_device_result}
use keg_pulse.Store.Ledger.{HasBalances}
use keg_pulse.Store.Balance.{
  create_participant-HasBalances, update_participant-HasBalances,
  adjust_participant_balance-HasBalances,
}
use keg_pulse.Store.Accounts.{reassign_pour-HasBalances, finalize_device_result-HasBalances}

-- A call that committed, of the methods that write participants, balances or charges
pub data Step (d : Decimals) : Database → Database → Type 0 where
  created :
      (name new_id now : Text) (p : Participant) {db db' : Database}
      → create_participant name new_id now db ≡ ok (p, db')
      → Step d db db'
  updated :
      (k : Text) (name : Option Text) (active : Option Bool) (now : Text) (p : Participant)
      {db db' : Database}
      → update_participant k name active now db ≡ ok (p, db')
      → Step d db db'
  adjusted :
      (k : Text) (amount : ℤ) (reason new_id now : Text) (p : Participant) {db db' : Database}
      → adjust_participant_balance k amount reason new_id now db ≡ ok (p, db')
      → Step d db db'
  finalized :
      (canonical : Text → Option Text) (uuid5 : Text → Text) (started : ℕ → Text) (r : DeviceResult)
      (keg_id calibration_id : Option Text) (captured : Bool) (pour_id charge_id now : Text)
      (answer : Option PourEvent × Bool) {db db' : Database}
      → finalize_device_result d canonical uuid5 started r keg_id calibration_id captured pour_id
          charge_id now db
        ≡ ok (answer, db')
      → Step d db db'
  reassigned :
      (pour_id participant_id reason audit_id refund_id charge_id now : Text) (pour : PourEvent)
      {db db' : Database}
      → reassign_pour d pour_id participant_id reason audit_id refund_id charge_id now db
        ≡ ok (pour, db')
      → Step d db db'

-- Any number of calls, the last one first
pub data Run (d : Decimals) : Database → Database → Type 0 where
  start : {db : Database} → Run d db db
  after : {a b c : Database} → Step d b c → Run d a b → Run d a c

Step-HasBalances :
    (d : Decimals) {db db' : Database} → Step d db db' → HasBalances db → HasBalances db'
Step-HasBalances d (Step.created name i now p e) h =
    create_participant-HasBalances name i now _ _ p h e
Step-HasBalances d (Step.updated k name active now p e) h =
    update_participant-HasBalances k name active now _ _ p h e
Step-HasBalances d (Step.adjusted k amount reason i now p e) h =
    adjust_participant_balance-HasBalances k amount reason i now _ _ p h e
Step-HasBalances d (Step.finalized canonical uuid5 started r keg cal captured i j now answer e) h =
    finalize_device_result-HasBalances d canonical uuid5 started r keg cal captured i j now answer _
      _ h e
Step-HasBalances d (Step.reassigned i j reason k l m now pour e) h =
    reassign_pour-HasBalances d i j reason k l m now _ _ pour h e

-- After any calls that create, change, adjust, charge or reassign, starting from tables whose balances
-- agree with the ledger, every participant's balance is the sum of the amounts of the
-- participant's ledger entries, and every entry belongs to a participant.
pub Run-HasBalances :
    (d : Decimals) {db db' : Database} → Run d db db' → HasBalances db → HasBalances db'
Run-HasBalances d Run.start h = h
Run-HasBalances d (Run.after step run) h = Step-HasBalances d step (Run-HasBalances d run h)
