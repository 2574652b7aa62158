-- ===== src/Lib.antt =====
-- KegPulse: a model of the Python core of src/kegpulse, with the theorems that make it correct.
--
-- The program counts the pulses of a flow meter on a keg. A device runs a state machine of pours; it
-- speaks the KP1 line protocol over a serial link to the host, whose coordinator checks what it
-- reads, records it and serves it to browsers behind a session and PIN guard.
--
-- The parts, and the files that model them:
--   Models - the states and results of src/kegpulse/domain/models.py.
--   Device - DeviceSessionMachine of src/kegpulse/domain/device_machine.py. The record in Device/Defs
--     has the object's attributes; a method is a function from the arguments and the machine to
--     an Outcome, what it returns or raises and the machine as it stands then. tick is in
--     Device/Tick, pulse in Device/Pulse, the other methods in Device/Methods. Each
--     validates its time first, which makes an integer a natural number of milliseconds.
--   Protocol - src/kegpulse/protocol/frames.py: the codec in Protocol/Frames over the byte functions of
--     Protocol/Bytes, and FrameParser in Protocol/Parser, against whole lines in Protocol/Lines.
--   Measurement - pulse_integrity.py, reconciliation.py and counters.py of src/kegpulse/domain, and
--     _device_result of src/kegpulse/application/coordinator.py in Measurement/DeviceResults.
--   Coordinator - src/kegpulse/application/coordinator.py: the retry queue; what _process_event does with
--     results, statuses and counters in Coordinator/Handling, over the tables of Store; and the
--     readings that it quarantines in Coordinator/Quarantine; arm_for_purpose and cancel in
--     Coordinator/Arming.
--   Calibration - units.py, inventory.py and calibration.py of src/kegpulse/domain, over the interface
--     of decimals in Calibration/Decimals.
--   Store - Repository of src/kegpulse/persistence/repository.py. Store/Tables has the tables of
--     src/kegpulse/migrations as lists of rows, the newest first. A method is a function from its
--     arguments and the tables to what it returns with the tables after its transaction, or to what it
--     raises, which rolls back. The file of a method is named for what it writes: Participants,
--     Charges, Kegs, Sessions, Results, Recovery, Calibrations, Captures, Anomalies. An insertion
--     tests the keys and references of its table, and those checks that the method does not already
--     imply. A SELECT without ORDER BY gives the rows in the order of the list.
--   Manager - the event queue and the records of src/kegpulse/serialio/manager.py; a queue of
--     capacity 0 is unbounded.
--   Simulator - src/kegpulse/serialio/simulator.py: the replies, the handler of requests, the
--     transport over the device model, and the methods that drive it.
--   Security - src/kegpulse/security.py: the session store in Security/Sessions; guards, login
--     and throttling in Security/Access; the Host and Origin checks in Security/Hosts.
--   Base - Boolean tests on numbers, integers, texts, lists and results.
--
-- Texts and bytes are lists of numbers. Times are milliseconds. Python integers are naturals where
-- the code has checked their sign, and integers elsewhere; no fixed width is assumed but where the
-- code masks or compares. Dicts are association lists in insertion order. A test for an argument's type
-- is left out, since the arguments have types. Loops are structural recursion over lists;
-- print_decimal has as fuel the number itself plus one, which is more than its digits.
--
-- Parameters: the PIN check of login is an argument, and so are the random tokens of a new session and
-- the time of the monotonic or event loop clock, one reading of which stands for those of a call.
-- So are the ids that _id() makes, the time of utc_now(), uuid.UUID and uuid.uuid5, the parser of
-- timestamps, the JSON and the fingerprint of an anomaly's context, the texts of exceptions, and what the manager's request returns or raises. Decimals
-- are a record of operations on which nothing is assumed; the precision of 38 digits that
-- analyze_calibration sets is not told apart from the precision elsewhere. SQLite's integers are not
-- bounded in the tables.
--
-- Not modelled: of the database, settings, photos, diagnostics, statistics, the migration of old rows and
-- the export; of the coordinator, reconciliation after a connect, the broadcasts and the camera;
-- the web routes and models, the serial manager's threads, commands and the real serial port,
-- configuration, logging and the command line, which are calls of the operating system or of
-- frameworks; the firmware and the web client.
pub mod Base
pub mod Models
pub mod Device
pub mod Protocol
pub mod Measurement
pub mod Security
pub mod Simulator
pub mod Coordinator
pub mod Manager
pub mod Calibration
pub mod Store
