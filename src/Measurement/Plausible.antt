-- ===== src/Measurement/Plausible.antt =====
-- What the checks of src/kegpulse/domain/pulse_integrity.py let through.
use keg_pulse.Base.{ℕ, ◌+◌, ◌*◌, ◌%◌, ◌^◌, ◌≤◌, ◌<◌, ◌≡◌, ◌↔◌, true, arith, ℤ, pos, inl, inr}
use keg_pulse.Base.Text.{Text, codes}
use keg_pulse.Base.Try.{ok, Try-cases}
use keg_pulse.Protocol.Frames.{Fields}
use keg_pulse.Measurement.Integrity.{
  Rejection, CounterSnapshot, StatusPulseSnapshot, need, unsigned, ensure_plausible_pulse_count,
  elapsed_u32, parse_counter_snapshot, parse_status_pulse_snapshot, is_fault_token, uint32_max,
  pulse_burst_allowance, max_plausible_boot_pulses,
}

-- A count is plausible for an elapsed time exactly if it is within the burst allowance plus ten
-- pulses for each millisecond and within the limit for one boot, the time being a 32-bit number.
pub ensure_plausible_iff :
    (count elapsed : ℕ)
    → (ensure_plausible_pulse_count (pos count) (pos elapsed) ≡ ok tt) ↔ (
        (elapsed ≤ uint32_max)
        × (count ≤ pulse_burst_allowance + 10 * elapsed)
        × (count ≤ max_plausible_boot_pulses))
unfolding ensure_plausible_pulse_count
ensure_plausible_iff count elapsed = (λ h. ground arith, λ h. ground arith)

unsigned-le : (t : Text) (m n : ℕ) → unsigned t m ≡ ok n → n ≤ m
unfolding unsigned
unsigned-le t m n h = ground arith

-- The clock may wrap between two readings: a difference below half its range is found exactly.
pub elapsed_u32-add :
    (started d : ℕ)
    → started < 2 ^ 32
    → d < 2 ^ 31
    → elapsed_u32 (pos started) (pos ((started + d) % 2 ^ 32)) ≡ ok d
unfolding elapsed_u32
elapsed_u32-add started d h k = ground arith

-- A counter snapshot that is consistent, within its wire widths and physically possible
pub record IsCounter (uptime : ℕ) (c : CounterSnapshot) : Type 0 where
  pub recovered : c.recovery_pulses ≤ c.accepted_pulses
  pub storable : c.accepted_pulses ≤ max_plausible_boot_pulses
  pub physical : c.accepted_pulses ≤ pulse_burst_allowance + 10 * uptime
  pub rejected : c.rejected_edges ≤ uint32_max
  pub noise : c.noise_gate_us ≤ uint32_max
  pub token : is_fault_token c.fault ≡ true

counter_parts :
    (fields : Fields) (uptime_ms : ℤ) (c : CounterSnapshot)
    → parse_counter_snapshot fields uptime_ms ≡ ok c
    → (c.rejected_edges ≤ uint32_max)
      × (c.noise_gate_us ≤ uint32_max)
      × (c.recovery_pulses ≤ c.accepted_pulses)
      × (is_fault_token c.fault ≡ true)
      × (ensure_plausible_pulse_count (pos c.accepted_pulses) uptime_ms ≡ ok tt)
unfolding parse_counter_snapshot
counter_parts fields uptime_ms c h =
    elim (Try-cases (need Rejection.missing_fields (codes "rejected") fields)) [
      | inr (e, q) ↦ absurd (ground arith)
      | inl (rt, q) ↦
          elim (Try-cases (need Rejection.missing_fields (codes "noise_gate_us") fields)) [
            | inr (e, r) ↦ absurd (ground arith)
            | inl (nt, r) ↦ ground (
              arith,
              unsigned-le rt uint32_max c.rejected_edges,
              unsigned-le nt uint32_max c.noise_gate_us,
            )
          ]
    ]

-- An accepted counter snapshot is consistent, within its wire widths and physically possible.
pub parse_counter_snapshot-IsCounter :
    (fields : Fields) (uptime : ℕ) (c : CounterSnapshot)
    → parse_counter_snapshot fields (pos uptime) ≡ ok c
    → IsCounter uptime c
parse_counter_snapshot-IsCounter fields uptime c h =
    let (r, n, le, f, e) = counter_parts fields (pos uptime) c h in
    let plausible = (ensure_plausible_iff c.accepted_pulses uptime).0 e in
    record {
      recovered = le;
      storable = plausible.2;
      physical = plausible.1;
      rejected = r;
      noise = n;
      token = f;
    }

-- An accepted status is consistent and physically possible.
pub parse_status-bounds :
    (fields : Fields) (s : StatusPulseSnapshot)
    → parse_status_pulse_snapshot fields ≡ ok s
    → (s.session_pulses ≤ s.lifetime_pulses)
      × (s.lifetime_pulses ≤ pulse_burst_allowance + 10 * s.uptime_ms)
      × (s.lifetime_pulses ≤ max_plausible_boot_pulses)
      × (s.uptime_ms ≤ uint32_max)
unfolding parse_status_pulse_snapshot
parse_status-bounds fields s h = ground (arith, ensure_plausible_iff s.lifetime_pulses s.uptime_ms)
