-- ===== src/Measurement/Accepted.antt =====
-- What a RESULT frame that `_device_result` accepts says.
use keg_pulse.Base.{
  ℕ, ℤ, pos, negsuc, ◌+◌, ◌-◌, ◌*◌, ◌%◌, ◌^◌, ◌≤◌, ◌<◌, ◌≡◌, refl, Bool, true, false, none, some,
  arith, pos_part, inl, inr, ◌⊎◌, Bool-cases, if◌then◌else◌,
}
use keg_pulse.Base.Text.{Text, codes, ◌=t◌, =t_to}
use keg_pulse.Base.Try.{ok, Try-cases}
use keg_pulse.Models.{DeviceState, DeviceResult, is_terminal, is_timed_out}
use keg_pulse.Protocol.Frames.{Fields}
use keg_pulse.Measurement.Integrity.{
  elapsed_u32, uint32_max, uint64_max, is_fault_token, max_plausible_boot_pulses,
  pulse_burst_allowance,
}
use keg_pulse.Measurement.Plausible.{ensure_plausible_iff}
use keg_pulse.Measurement.DeviceResults.{
  ResultTexts, ResultNumbers, result_texts, check_texts, parse_numbers, check_numbers,
  device_result, is_device_id, is_session_id, is_consistent, lift, or_fail,
}

-- A result that the host may record
pub record IsRecordable (r : DeviceResult) : Type 0 where
  pub terminal : is_terminal r.status ≡ true
  pub device : is_device_id r.device_id ≡ true
  pub boot : is_device_id r.boot_id ≡ true
  pub sequence : (1 ≤ r.event_seq) × (r.event_seq ≤ uint32_max)
  pub storable : r.raw_pulses ≤ max_plausible_boot_pulses
  pub counted : r.raw_pulses ≤ r.lifetime_pulses
  pub lifetime : r.lifetime_pulses ≤ uint64_max
  pub token : is_fault_token r.fault ≡ true
  pub timed : (r.started_ms ≤ uint32_max) × (r.ended_ms ≤ uint32_max)
  pub ordered : (r.ended_ms + 2 ^ 32 - r.started_ms) % 2 ^ 32 < 2 ^ 31
  pub physical :
      r.raw_pulses ≤ pulse_burst_allowance + 10 * ((r.ended_ms + 2 ^ 32 - r.started_ms) % 2 ^ 32)
  pub unpoured : (is_timed_out r.status ≡ false) ⊎ (r.raw_pulses ≡ 0)

-- An attributed result names its session by a well-formed identifier.
abbrev pub Attributed : DeviceResult → Type 0
Attributed r =
    (r.attributed ≡ false) ⊎ ((sid : Text) × (r.session_id ≡ some sid) × (is_session_id sid ≡ true))

check_texts_parts :
    (t : ResultTexts) (status : DeviceState) (attributed : Bool)
    → check_texts t ≡ ok (status, attributed)
    → (is_terminal status ≡ true)
      × (is_device_id t.dev ≡ true)
      × (is_device_id t.boot ≡ true)
      × (is_consistent attributed t.sid ≡ true)
      × (is_fault_token t.fault ≡ true)
unfolding check_texts or_fail
check_texts_parts t status attributed h = ground arith

pub session-ne-none : (sid : Text) → is_session_id sid ≡ true → (sid =t codes "none") ≡ false
session-ne-none sid h = elim (Bool-cases (sid =t codes "none")) [
  | inl e ↦
      let none_is : is_session_id (codes "none") ≡ true = rw (=t_to sid (codes "none") e) at h in
      absurd (unfold is_session_id in ground arith)
  | inr e ↦ e
]

session_of_consistent :
    (attributed : Bool) (sid : Text)
    → is_consistent attributed sid ≡ true
    → (attributed ≡ false)
      ⊎ ((s : Text) × ((if sid =t codes "none" then none else some sid) ≡ some s)
          × (is_session_id s ≡ true))
unfolding is_consistent
session_of_consistent false sid h = inl refl
session_of_consistent true sid h = inr (sid, ground (arith, session-ne-none sid h), h)

-- An elapsed time that is found is the difference on the clock of 32 bits, below half its range.
elapsed_u32_parts :
    (started ended : ℤ) (d : ℕ)
    → elapsed_u32 started ended ≡ ok d
    → (pos_part started ≤ uint32_max)
      × (pos_part ended ≤ uint32_max)
      × (d < 2 ^ 31)
      × ((pos_part ended + 2 ^ 32 - pos_part started) % 2 ^ 32 ≡ d)
unfolding elapsed_u32
elapsed_u32_parts (pos s) (pos e) d h = ground arith
elapsed_u32_parts (pos s) (negsuc e) d h = absurd (ground arith)
elapsed_u32_parts (negsuc s) ended d h = absurd (ground arith)

-- The numbers are what their positive parts say, and in range.
check_numbers_parts :
    (status : DeviceState) (n : ResultNumbers)
    → check_numbers status n ≡ ok tt
    → (1 ≤ pos_part n.sequence)
      × (pos_part n.sequence ≤ uint32_max)
      × (pos_part n.pulses ≤ pos_part n.lifetime)
      × (pos_part n.lifetime ≤ uint64_max)
      × (pos_part n.pulses ≤ max_plausible_boot_pulses)
      × (pos_part n.started ≤ uint32_max)
      × (pos_part n.ended ≤ uint32_max)
      × ((pos_part n.ended + 2 ^ 32 - pos_part n.started) % 2 ^ 32 < 2 ^ 31)
      × (pos_part n.pulses
          ≤ pulse_burst_allowance
            + 10 * ((pos_part n.ended + 2 ^ 32 - pos_part n.started) % 2 ^ 32))
      × ((is_timed_out status ≡ false) ⊎ (pos_part n.pulses ≡ 0))
unfolding check_numbers lift
check_numbers_parts status n h = elim (Try-cases (elapsed_u32 n.started n.ended)) [
  | inr (e, q) ↦ ground arith
  | inl (d, q) ↦
      let (start, end, half, eq) = elapsed_u32_parts n.started n.ended d q in
      rw eq (ground (arith, ensure_plausible_iff (pos_part n.pulses) d))
]

-- Whatever fields it is given, `_device_result` returns only results that may be recorded: the
-- event has ended, its identity is well formed, the counters are in their ranges and consistent,
-- the times are readings of a 32-bit clock less than half its range apart, the count is at most the
-- burst allowance plus ten for each millisecond between them and at most the limit for one boot, and
-- an event that timed out has no pulses. An attributed result names a well-formed session.
pub device_result-IsRecordable :
    (fields : Fields) (r : DeviceResult)
    → device_result fields ≡ ok r
    → IsRecordable r × Attributed r
unfolding device_result
device_result-IsRecordable fields r h = elim (Try-cases (result_texts fields)) [
  | inr (e, q) ↦ ground arith
  | inl (t, q) ↦ elim (Try-cases (check_texts t)) [
    | inr (e, k) ↦ ground arith
    | inl ((status, attributed), k) ↦ elim (Try-cases (parse_numbers t)) [
      | inr (e, l) ↦ ground arith
      | inl (n, l) ↦ elim (Try-cases (check_numbers status n)) [
        | inr (e, m) ↦ ground arith
        | inl (u, m) ↦
            let texts = check_texts_parts t status attributed k in
            let numbers = check_numbers_parts status n m in
            (ground arith, ground (arith, session_of_consistent attributed t.sid texts.3))
      ]
    ]
  ]
]
