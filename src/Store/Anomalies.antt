-- ===== src/Store/Anomalies.antt =====
-- `record_measurement_anomaly` of src/kegpulse/persistence/repository.py
use keg_pulse.Base.{
  ℕ, zero, suc, Bool, true, false, ◌||◌, Option, List, [], ◌∷◌, ltb, length, if◌then◌else◌,
}
use keg_pulse.Base.Text.{Text, ◌=t◌, text_ltb}
use keg_pulse.Base.Strip.{strip}
use keg_pulse.Base.Rows.{has_row, select}
use keg_pulse.Base.Try.{ok, ◌>>◌, require}
use keg_pulse.Store.Tables.{Anomaly, Database, StoreError, Transaction}
use keg_pulse.Store.Participants.{has_length}

-- What a call describes: `context_json` is the context as `json.dumps` gives it, and `keys_json`
-- the shorter text that replaces a longer one.
pub record Observation : Type 0 where
  pub identity_key : Text
  pub source : Text
  pub observed_value : Text
  pub reason : Text
  pub context_json : Text
  pub keys_json : Text
  pub device_id : Option Text
  pub boot_id : Option Text
  pub event_seq : Option Text

-- `text[:n]`
unfoldable pub first {ℓ} : {A : Type ℓ} → ℕ → List A → List A
first zero xs = []
first (suc n) [] = []
first (suc n) (x ∷ xs) = x ∷ first n xs

-- `ORDER BY created_at DESC, rowid DESC`, of rows that come in the order of falling rowids
unfoldable pub place_anomaly : Anomaly → List Anomaly → List Anomaly
place_anomaly a [] = a ∷ []
place_anomaly a (b ∷ rows) =
    let rest = place_anomaly a rows in
    if text_ltb a.created_at b.created_at then b ∷ rest else a ∷ b ∷ rows

unfoldable pub newest_first : List Anomaly → List Anomaly
unfolding place_anomaly
newest_first [] = []
newest_first (a ∷ rows) = place_anomaly a (newest_first rows)

abbrev pub is_anomaly : Text → Anomaly → Bool
is_anomaly k a = a.id =t k

-- `DELETE … WHERE id NOT IN (SELECT id … LIMIT 500)`
unfoldable pub retain : ℕ → List Anomaly → List Anomaly
unfolding first newest_first
retain limit rows =
    let kept = first limit (newest_first rows) in
    select (λ (a : Anomaly). has_row (is_anomaly a.id) kept) rows

-- `INSERT OR IGNORE`: a row with the key or the id leaves the table as it is.
unfoldable pub insert_anomaly : Anomaly → List Anomaly → List Anomaly × Bool
insert_anomaly a rows =
    if has_row (λ (b : Anomaly). b.identity_key =t a.identity_key || b.id =t a.id) rows
    then (rows, false)
    else (a ∷ rows, true)

-- `record_measurement_anomaly`: whether a row was inserted
unfoldable pub record_measurement_anomaly : Observation → Text → Text → Database → Transaction Bool
unfolding has_length insert_anomaly retain
record_measurement_anomaly o new_id now db = do
  let clean_key = strip o.identity_key
  let clean_source = strip o.source
  let clean_reason = strip o.reason
  require (has_length 500 clean_key) StoreError.bad_value
  require (has_length 40 clean_source) StoreError.bad_value
  require (has_length 500 clean_reason) StoreError.bad_value
  let anomaly : Anomaly = record {
    id = new_id;
    identity_key = clean_key;
    source = clean_source;
    device_id = o.device_id;
    boot_id = o.boot_id;
    event_seq = o.event_seq;
    observed_value = first 200 o.observed_value;
    reason = clean_reason;
    context_json = if ltb 4000 (length o.context_json) then o.keys_json else o.context_json;
    created_at = now;
  }
  let inserted = insert_anomaly anomaly db.anomalies
  ok (inserted.1, record db { anomalies = retain 500 inserted.0 })
