-- ===== src/Store/Calibrations.antt =====
-- Calibrations and their samples, as the methods of src/kegpulse/persistence/repository.py keep them.
use keg_pulse.Base.{
  ℕ, Bool, true, false, ◌&&◌, not, Option, none, some, List, [], ◌∷◌, leb, ltb, ◌==◌, length,
  if◌then◌else◌, is_none, ◌++◌,
}
use keg_pulse.Base.Text.{Text, codes, ◌=t◌}
use keg_pulse.Base.Strip.{strip}
use keg_pulse.Base.Rows.{find, has_row, update_where, select}
use keg_pulse.Base.Try.{Try, ok, ◌>>=◌, ◌>>◌, require}
use keg_pulse.Models.{CalibrationStatus}
use keg_pulse.Measurement.Numbers.{print_decimal}
use keg_pulse.Calibration.Decimals.{Decimals}
use keg_pulse.Calibration.Units.{finite_decimal}
use keg_pulse.Calibration.Samples.{
  CalibrationSample, within, volume_ml, make_sample, verification_error, ensure_plausible_factor,
}
use keg_pulse.Calibration.Analysis.{SampleAnalysis, analyze_calibration}
use keg_pulse.Store.Tables.{
  Keg, Calibration, SampleRow, VerificationCheck, Database, StoreError, Transaction, lift_domain,
  must_find, is_calibration, is_active_session, is_active_calibration, is_draft, open_keg,
  active_row, field_of,
}
use keg_pulse.Store.Participants.{has_length}

abbrev pub is_sample : Text → SampleRow → Bool
is_sample k s = s.id =t k

abbrev pub is_check : Text → VerificationCheck → Bool
is_check k c = c.id =t k

-- The current sample at an ordinal
abbrev pub is_current : Text → ℕ → SampleRow → Bool
is_current calibration_id ordinal s =
    s.calibration_id =t calibration_id && s.ordinal == ordinal && is_none s.superseded_at

-- `ORDER BY ordinal`
unfoldable pub place_sample : SampleRow → List SampleRow → List SampleRow
place_sample s [] = s ∷ []
place_sample s (r ∷ rows) =
    let rest = place_sample s rows in if leb s.ordinal r.ordinal then s ∷ r ∷ rows else r ∷ rest

unfoldable pub by_ordinal : List SampleRow → List SampleRow
unfolding place_sample
by_ordinal [] = []
by_ordinal (s ∷ rows) = place_sample s (by_ordinal rows)

-- The current samples of a calibration
unfoldable pub current_samples : Text → Database → List SampleRow
unfolding by_ordinal
current_samples calibration_id db =
    by_ordinal
      (select (λ s. s.calibration_id =t calibration_id && is_none s.superseded_at) db.samples)

abbrev pub included_rows : List SampleRow → List SampleRow
included_rows = select (λ s. s.included)

-- A draft calibration; an active one's samples are immutable.
unfoldable pub need_draft : Text → Database → Try StoreError Calibration
need_draft calibration_id db = do
  c ← must_find (find (is_calibration calibration_id) db.calibrations) StoreError.not_found
  require (is_draft c) StoreError.conflict
  ok c

-- Only the draft row takes the factor, and the active one is superseded.
unfoldable pub make_active : Text → Text → Text → Text → Database → Database
make_active calibration_id factor notes now db = record db {
  calibrations =
      update_where (λ c. is_calibration calibration_id c && is_draft c)
        (λ c. record c {
          status = CalibrationStatus.active;
          pulses_per_ml = some factor;
          notes = notes;
          activated_at = some now;
        })
        (update_where is_active_calibration
          (λ c. record c { status = CalibrationStatus.superseded }) db.calibrations);
}

-- The row of a calibration after a write
unfoldable pub with_calibration : Text → Database → Transaction Calibration
with_calibration k db = do
  row ← must_find (find (is_calibration k) db.calibrations) StoreError.not_found
  ok (row, db)

-- The note of a provisional calibration
unfoldable pub provisional_notes : Text → ℕ → Text
provisional_notes notes included =
    let noun = if included == 1 then codes "sample" else codes "samples" in
    let marker =
      codes "[PROVISIONAL: estimate from "
      ++ print_decimal included
      ++ codes " included "
      ++ noun
      ++ codes "; replace with a full calibration run]" in
    let clean = strip notes in
    if leb 1 (length clean) then clean ++ codes "\n" ++ marker else marker

module _ (d : Decimals) where
  -- `create_calibration`
  unfoldable pub create_calibration :
      Text → Text → Text → Text → Text → Database → Transaction Calibration
  unfolding has_length
  create_calibration liquid density_g_per_ml notes calibration_id now db = do
    density ← lift_domain (finite_decimal d density_g_per_ml)
    let clean_liquid = strip liquid
    let clean_notes = strip notes
    require (within d (codes "0.5") (codes "2.0") density) StoreError.bad_value
    require (has_length 80 clean_liquid && leb (length clean_notes) 1000) StoreError.bad_value
    require (not (has_row (is_calibration calibration_id) db.calibrations)) StoreError.integrity
    let row : Calibration = record {
      id = calibration_id;
      liquid = clean_liquid;
      default_density_g_per_ml = d.print density;
      pulses_per_ml = none;
      status = CalibrationStatus.draft;
      notes = clean_notes;
      created_at = now;
      activated_at = none;
    }
    ok (row, record db { calibrations = row ∷ db.calibrations })

  -- `_samples_from_rows`
  unfoldable pub samples_from_rows : List SampleRow → Try StoreError (List (CalibrationSample d))
  samples_from_rows [] = ok []
  samples_from_rows (row ∷ rows) = do
    sample ← lift_domain (make_sample d row.raw_pulses row.mass_g row.density_g_per_ml row.included)
    rest ← samples_from_rows rows
    ok (sample ∷ rest)

  -- The flag of each analysed row is written to the row with its key.
  unfoldable pub write_flags :
      List SampleRow → List (SampleAnalysis d) → List SampleRow → List SampleRow
  write_flags (row ∷ rows) (item ∷ items) table = write_flags rows items (
      update_where (is_sample row.id) (λ s. record s { suspected_outlier = item.suspected_outlier })
        table)
  write_flags _ _ table = table

  -- `UPDATE calibration_samples SET suspected_outlier=0 WHERE calibration_id=?`
  unfoldable pub clear_flags : List SampleRow → List SampleRow → List SampleRow
  clear_flags [] table = table
  clear_flags (row ∷ rows) table =
      update_where (λ s. s.calibration_id =t row.calibration_id)
        (λ s. record s { suspected_outlier = false }) table

  -- `_update_outlier_flags`
  unfoldable pub update_outlier_flags : List SampleRow → Database → Try StoreError Database
  unfolding clear_flags write_flags
  update_outlier_flags rows db =
      if ltb (length (included_rows rows)) 3
      then ok (record db { samples = clear_flags rows db.samples })
      else do
        samples ← samples_from_rows rows
        analysis ← lift_domain (analyze_calibration d false samples)
        ok (record db { samples = write_flags rows analysis.samples db.samples })

  -- A sample takes the place of the current one at its ordinal; the flags follow.
  unfoldable pub put_sample :
      Text → ℕ → CalibrationSample d → Text → Text → Database → Transaction SampleRow
  unfolding update_outlier_flags
  put_sample calibration_id ordinal sample sample_id now db = do
    require (not (has_row (is_sample sample_id) db.samples)) StoreError.integrity
    let row : SampleRow = record {
      id = sample_id;
      calibration_id = calibration_id;
      ordinal = ordinal;
      raw_pulses = sample.raw_pulses;
      mass_g = d.print sample.mass_g;
      density_g_per_ml = d.print sample.density_g_per_ml;
      derived_volume_ml = d.print (volume_ml d sample);
      included = sample.included;
      suspected_outlier = false;
      captured_at = now;
      superseded_at = none;
    }
    let db1 : Database = record db {
      samples =
          row
          ∷ update_where (is_current calibration_id ordinal)
              (λ s. record s { superseded_at = some now }) db.samples;
    }
    db2 ← update_outlier_flags (current_samples calibration_id db1) db1
    written ← must_find (find (is_sample sample_id) db2.samples) StoreError.not_found
    ok (written, db2)

  -- `add_calibration_sample`
  unfoldable pub add_calibration_sample :
      Text → ℕ → ℕ → Text → Text → Bool → Text → Text → Database → Transaction SampleRow
  unfolding need_draft put_sample
  add_calibration_sample calibration_id ordinal raw_pulses mass_g density included sample_id now
        db =
      do
        require (leb 1 ordinal && leb ordinal 10) StoreError.bad_value
        sample ← lift_domain (make_sample d raw_pulses mass_g density included)
        need_draft calibration_id db >>= λ c.
            put_sample calibration_id ordinal sample sample_id now db

  -- `set_sample_included`
  unfoldable pub set_sample_included : Text → ℕ → Bool → Database → Transaction SampleRow
  unfolding need_draft update_outlier_flags
  set_sample_included calibration_id ordinal included db = need_draft calibration_id db >>= λ c. do
    require (length (select (is_current calibration_id ordinal) db.samples) == 1)
        StoreError.not_found
    let db1 : Database = record db {
      samples =
          update_where (is_current calibration_id ordinal) (λ s. record s { included = included })
            db.samples;
    }
    db2 ← update_outlier_flags (current_samples calibration_id db1) db1
    row ← must_find (find (is_current calibration_id ordinal) db2.samples) StoreError.not_found
    ok (row, db2)

  -- `activate_calibration`
  unfoldable pub activate_calibration : Text → Text → Database → Transaction Calibration
  unfolding need_draft make_active with_calibration
  activate_calibration calibration_id now db = do
    c ← need_draft calibration_id db
    let rows = current_samples calibration_id db
    require (length rows == 10 && leb 7 (length (included_rows rows))) StoreError.conflict
    samples ← samples_from_rows rows
    analysis ← lift_domain (analyze_calibration d true samples)
    lift_domain (ensure_plausible_factor d analysis.pulses_per_ml)
    require (not (has_row is_active_session db.sessions)) StoreError.conflict
    with_calibration calibration_id
        (make_active calibration_id (d.print analysis.pulses_per_ml) c.notes now db)

  -- `activate_provisional_calibration`: the notes column has 1000 characters.
  unfoldable pub activate_provisional_calibration : Text → Text → Database → Transaction Calibration
  unfolding need_draft make_active with_calibration provisional_notes
  activate_provisional_calibration calibration_id now db = do
    c ← need_draft calibration_id db
    let rows = current_samples calibration_id db
    let included = included_rows rows
    require (leb 1 (length rows) && ltb (length rows) 10 && leb 1 (length included))
        StoreError.conflict
    require (not (has_row is_active_session db.sessions)) StoreError.conflict
    samples ← samples_from_rows rows
    analysis ← lift_domain (analyze_calibration d false samples)
    lift_domain (ensure_plausible_factor d analysis.pulses_per_ml)
    let notes = provisional_notes c.notes (length included)
    require (leb (length notes) 1000) StoreError.integrity
    with_calibration calibration_id
        (make_active calibration_id (d.print analysis.pulses_per_ml) notes now db)

  -- A row of `verification_checks`
  unfoldable pub insert_check :
      Text
      → Option Text
      → ℕ
      → Text
      → Text
      → Text
      → Text
      → d.Number
      → Text
      → Database
      → Transaction VerificationCheck
  insert_check calibration_id keg_id raw_pulses mass_g density factor check_id threshold now db = do
    (predicted, actual, absolute, percentage) ←
        lift_domain (verification_error d raw_pulses mass_g density factor)
    mass ← lift_domain (finite_decimal d mass_g)
    dense ← lift_domain (finite_decimal d density)
    require (not (has_row (is_check check_id) db.checks)) StoreError.integrity
    let row : VerificationCheck = record {
      id = check_id;
      calibration_id = calibration_id;
      keg_id = keg_id;
      raw_pulses = raw_pulses;
      mass_g = d.print mass;
      density_g_per_ml = d.print dense;
      predicted_volume_ml = d.print predicted;
      actual_volume_ml = d.print actual;
      absolute_error_ml = d.print absolute;
      percentage_error = d.print percentage;
      warning = d.lt threshold percentage;
      created_at = now;
    }
    ok (row, record db { checks = row ∷ db.checks })

  -- `add_verification`
  unfoldable pub add_verification :
      ℕ → Text → Text → Text → Text → Text → Database → Transaction VerificationCheck
  unfolding insert_check
  add_verification raw_pulses mass_g density threshold_pct check_id now db = do
    threshold ← lift_domain (finite_decimal d threshold_pct)
    c ← must_find (active_row db) StoreError.conflict
    factor ← must_find c.pulses_per_ml StoreError.conflict
    insert_check c.id (field_of (λ (k : Keg). k.id) (open_keg db)) raw_pulses mass_g density factor
        check_id threshold now db

-- `measurement_context`
unfoldable pub measurement_context : Database → Option Text × Option Text
measurement_context db = (
  field_of (λ (k : Keg). k.id) (open_keg db),
  field_of (λ (c : Calibration). c.id) (active_row db),
)
