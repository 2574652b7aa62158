-- ===== src/Store/Ledger.antt =====
-- The balances that src/kegpulse/persistence/repository.py writes are the sums of the ledger.
use keg_pulse.Base.{
  ◌≡◌, refl, sym, ◌∙◌, inl, inr, true, false, List, [], ◌∷◌, some, Bool-cases, arith, if◌then◌else◌,
  ℤ, pos, ◌+ℤ◌, +ℤ_comm, All,
}
use keg_pulse.Base.Text.{Text, =t_refl, =t_to, ◌=t◌}
use keg_pulse.Base.Rows.{
  find, has_row, find-holds, find-All, find→has_row, update_where, has_row-update_where, All-map,
  All-update_where,
}
use keg_pulse.Base.Try.{ok}
use keg_pulse.Store.Tables.{Database, Participant, LedgerEntry, is_participant}
use keg_pulse.Store.Participants.{book, is_ledger_entry}

-- What the ledger says that a participant has
unfoldable pub total : Text → List LedgerEntry → ℤ
total k [] = pos 0
total k (e ∷ entries) =
    let rest = total k entries in if e.participant_id =t k then e.amount_cents +ℤ rest else rest

-- A balance that is the participant's total
unfoldable pub IsBalanced : List LedgerEntry → Participant → Type 0
IsBalanced ledger p = p.balance_cents ≡ total p.id ledger

-- Every balance is the total of the participant's entries, and every entry is a participant's.
unfoldable pub HasBalances : Database → Type 0
HasBalances db =
    All (IsBalanced db.ledger) db.participants
    × All (λ (e : LedgerEntry). has_row (is_participant e.participant_id) db.participants ≡ true)
        db.ledger

total-hit :
    (e : LedgerEntry) (k : Text) (entries : List LedgerEntry)
    → k ≡ e.participant_id
    → total k (e ∷ entries) ≡ total k entries +ℤ e.amount_cents
unfolding total
total-hit e k entries h = rw (h, total, =t_refl e.participant_id) (+ℤ_comm _ _)

total-miss :
    (e : LedgerEntry) (k : Text) (entries : List LedgerEntry)
    → (k =t e.participant_id) ≡ false
    → total k (e ∷ entries) ≡ total k entries
unfolding total
total-miss e k entries h = elim (Bool-cases (e.participant_id =t k)) [
  | inr q ↦ rw (total, q) refl
  | inl q ↦
      let same = =t_to e.participant_id k q in
      let t = =t_refl k in
      let u : (k =t e.participant_id) ≡ true = rw same t in absurd (ground arith)
]

-- A participant without a row has no entry.
pub total-fresh :
    (k : Text) (participants : List Participant) (entries : List LedgerEntry)
    → has_row (is_participant k) participants ≡ false
    → All
        (λ (e : LedgerEntry). has_row (is_participant e.participant_id) participants ≡ true)
        entries
    → total k entries ≡ pos 0
unfolding total
total-fresh k participants [] n h = refl
total-fresh k participants (e ∷ entries) n h = elim (Bool-cases (e.participant_id =t k)) [
  | inr q ↦ rw (total, q) (total-fresh k participants entries n h.1)
  | inl q ↦
      let same = =t_to e.participant_id k q in
      let t : has_row (is_participant k) participants ≡ true = rw (← same) h.0 in
      absurd (ground arith)
]

-- An entry whose balance follows the participant's balance keeps all balances.
pub book-HasBalances :
    (entry : LedgerEntry) (p : Participant) (db db' : Database)
    → find (is_participant entry.participant_id) db.participants ≡ some p
    → entry.balance_after_cents ≡ p.balance_cents +ℤ entry.amount_cents
    → HasBalances db
    → book entry db ≡ ok db'
    → HasBalances db'
unfolding book HasBalances IsBalanced
book-HasBalances entry p db db' found after h k =
    let own : p.balance_cents ≡ total p.id db.ledger =
      find-All (is_participant entry.participant_id) (IsBalanced db.ledger) db.participants p h.0
        found in
    let same : p.id ≡ entry.participant_id =
      =t_to p.id entry.participant_id (find-holds _ db.participants p found) in
    let there = find→has_row _ db.participants p found in
    let change : Participant → Participant =
      λ p. record p { balance_cents = entry.balance_after_cents; updated_at = entry.created_at } in
    let kept = λ (k : Text).
      has_row-update_where (is_participant k) (is_participant entry.participant_id) change
        db.participants (λ y. refl) in
    elim (Bool-cases (has_row (is_ledger_entry entry.id) db.ledger)) [
      | inl e ↦ absurd (ground arith)
      | inr e ↦
          let new : db' ≡ (record db {
            participants =
                update_where (is_participant entry.participant_id) change db.participants;
            ledger = entry ∷ db.ledger;
          }) =
            ground arith in
          rw new (
            All-update_where (is_participant entry.participant_id) _ (IsBalanced db.ledger)
                (IsBalanced (entry ∷ db.ledger)) db.participants
                (λ x hit q.
                  let mine = =t_to x.id entry.participant_id hit in
                  let sum = total-hit entry x.id db.ledger mine in
                  let equal : total x.id db.ledger ≡ p.balance_cents =
                    rw (mine, ← same) (sym own) in
                  after ∙ rw (← equal) (sym sum))
                (λ x miss q. q ∙ sym (total-miss entry x.id db.ledger miss)) h.0,
            (
              kept entry.participant_id ∙ there,
              All-map _ _ db.ledger (λ e q. kept e.participant_id ∙ q) h.1,
            ),
          )
    ]
