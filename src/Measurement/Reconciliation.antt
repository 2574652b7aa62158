-- ===== src/Measurement/Reconciliation.antt =====
-- src/kegpulse/domain/reconciliation.py: what becomes of a session that the host still holds when
-- a device connects. The reason texts are left out; each branch has its own action or guard.
use keg_pulse.Base.{
  ℕ, ◌+◌, ◌-◌, ◌<◌, ◌≡◌, ◌↔◌, ◌≤◌, ◌⊎◌, inl, inr, ap, Option-cases, Bool-cases, Bool, true, false,
  ◌&&◌, ◌||◌, Option, none, some, arith, ltb, if◌then◌else◌, not,
}
use keg_pulse.Base.Text.{Text, opt_is, =t_to, =t_iff}
use keg_pulse.Models.{DeviceState, is_armed, is_pouring, is_settling, is_terminal}

-- `class ReconciliationAction(StrEnum)`
pub data ReconciliationAction : Type 0 where
  no_action resume recover_unattributed interrupt_uncertain wait_for_device : ReconciliationAction

-- `class ReconciliationDecision`
pub record ReconciliationDecision : Type 0 where
  pub action : ReconciliationAction
  pub recovered_pulses : ℕ

abbrev decide_on : ReconciliationAction → ReconciliationDecision
decide_on action = record { action = action; recovered_pulses = 0 }

-- The states in which the device still knows the session
abbrev pub is_session_state : DeviceState → Bool
is_session_state s = is_armed s || is_pouring s || is_settling s || is_terminal s

-- `host_boot_id is None or device_boot_id != host_boot_id`
unfoldable pub same_boot : Option Text → Option Text → Bool
unfolding opt_is
same_boot none device_boot_id = false
same_boot (some host) device_boot_id = opt_is device_boot_id host

-- The arguments of `reconcile_provisional`
pub record Provisional : Type 0 where
  pub host_session_id : Text
  pub host_boot_id : Option Text
  pub host_confirmed_lifetime : ℕ
  pub device_connected : Bool
  pub device_boot_id : Option Text
  pub device_session_id : Option Text
  pub device_state : DeviceState
  pub device_lifetime : ℕ

-- `reconcile_provisional`
unfoldable pub reconcile_provisional : Provisional → ReconciliationDecision
reconcile_provisional p =
    if not p.device_connected
    then decide_on ReconciliationAction.wait_for_device
    else if not (same_boot p.host_boot_id p.device_boot_id)
    then decide_on ReconciliationAction.interrupt_uncertain
    else if opt_is p.device_session_id p.host_session_id && is_session_state p.device_state
    then decide_on ReconciliationAction.resume
    else if ltb p.host_confirmed_lifetime p.device_lifetime
    then record {
      action = ReconciliationAction.recover_unattributed;
      recovered_pulses = p.device_lifetime - p.host_confirmed_lifetime;
    }
    else decide_on ReconciliationAction.interrupt_uncertain

-- The host knew the boot that the device is in.
abbrev pub SameBoot : Provisional → Type 0
SameBoot p = (b : Text) × (p.host_boot_id ≡ some b) × (p.device_boot_id ≡ some b)

-- The device speaks of the host's session, and is at one of its six stages.
abbrev pub Knows : Provisional → Type 0
Knows p =
    (p.device_session_id ≡ some p.host_session_id)
    × ((p.device_state ≡ DeviceState.armed)
        ⊎ (p.device_state ≡ DeviceState.pouring)
        ⊎ (p.device_state ≡ DeviceState.settling)
        ⊎ (p.device_state ≡ DeviceState.complete)
        ⊎ (p.device_state ≡ DeviceState.interrupted)
        ⊎ (p.device_state ≡ DeviceState.timed_out))

opt_is_iff : (o : Option Text) (t : Text) → (opt_is o t ≡ true) ↔ (o ≡ some t)
unfolding opt_is
opt_is_iff none t = (λ h. ground arith, λ h. ground arith)
opt_is_iff (some s) t = (λ h. ap some (=t_to s t h), λ h. ground (arith, =t_iff s t))

same_boot_iff : (p : Provisional) → (same_boot p.host_boot_id p.device_boot_id ≡ true) ↔ SameBoot p
unfolding same_boot
same_boot_iff p = elim (Option-cases p.host_boot_id) [
  | inl e ↦ (λ h. absurd (ground arith), λ h. absurd (ground arith))
  | inr (host, e) ↦
      let i = opt_is_iff p.device_boot_id host in
      (λ h. (host, e, i.0 (ground arith)), λ h. ground arith)
]

Knows-iff :
    (p : Provisional)
    → (opt_is p.device_session_id p.host_session_id && is_session_state p.device_state ≡ true)
      ↔ Knows p
Knows-iff p =
    let i = opt_is_iff p.device_session_id p.host_session_id in
    (λ h. ground arith, λ h. ground arith)

module _ (p : Provisional) (S K : Type 0)
    (b : (same_boot p.host_boot_id p.device_boot_id ≡ true) ↔ S)
    (k : (opt_is p.device_session_id p.host_session_id && is_session_state p.device_state ≡ true)
      ↔ K) where
  decides_by :
      let d = reconcile_provisional p in
      ((d.action ≡ ReconciliationAction.wait_for_device) ↔ (p.device_connected ≡ false))
      × ((d.action ≡ ReconciliationAction.resume) ↔ ((p.device_connected ≡ true) × S × K))
      × ((d.action ≡ ReconciliationAction.recover_unattributed) ↔ (
          (p.device_connected ≡ true)
          × S
          × (¬ K)
          × (p.host_confirmed_lifetime < p.device_lifetime)))
      × ((d.action ≡ ReconciliationAction.interrupt_uncertain) ↔ (
          (p.device_connected ≡ true)
          × ((¬ S) ⊎ ((¬ K) × (p.device_lifetime ≤ p.host_confirmed_lifetime)))))
      × (((d.action ≡ ReconciliationAction.recover_unattributed)
            × (d.recovered_pulses + p.host_confirmed_lifetime ≡ p.device_lifetime))
          ⊎ ((¬ d.action ≡ ReconciliationAction.recover_unattributed) × (d.recovered_pulses ≡ 0)))
  unfolding reconcile_provisional
  decides_by = elim (Bool-cases p.device_connected) [
    | inr c ↦ ground arith
    | inl c ↦ elim (Bool-cases (same_boot p.host_boot_id p.device_boot_id)) [
      | inr s ↦ ground arith
      | inl s ↦
          elim (Bool-cases
            (opt_is p.device_session_id p.host_session_id && is_session_state p.device_state)) [
              | inl h ↦ ground arith
              | inr h ↦ ground arith
            ]
    ]
  ]

-- What is decided, by what holds: a disconnected device is waited for; a connected one that is in
-- the same boot and still knows the session resumes it; one that does not, but has counted on, gives
-- the pulses counted since to recovery; everything else is an interruption. Only a recovery has
-- pulses.
pub reconcile_decides :
    (p : Provisional)
    → let d = reconcile_provisional p in
      ((d.action ≡ ReconciliationAction.wait_for_device) ↔ (p.device_connected ≡ false))
      × ((d.action ≡ ReconciliationAction.resume)
          ↔ ((p.device_connected ≡ true) × SameBoot p × Knows p))
      × ((d.action ≡ ReconciliationAction.recover_unattributed) ↔ (
          (p.device_connected ≡ true)
          × SameBoot p
          × (¬ Knows p)
          × (p.host_confirmed_lifetime < p.device_lifetime)))
      × ((d.action ≡ ReconciliationAction.interrupt_uncertain) ↔ (
          (p.device_connected ≡ true)
          × ((¬ SameBoot p) ⊎ ((¬ Knows p) × (p.device_lifetime ≤ p.host_confirmed_lifetime)))))
      × (((d.action ≡ ReconciliationAction.recover_unattributed)
            × (d.recovered_pulses + p.host_confirmed_lifetime ≡ p.device_lifetime))
          ⊎ ((¬ d.action ≡ ReconciliationAction.recover_unattributed) × (d.recovered_pulses ≡ 0)))
reconcile_decides p = decides_by p (SameBoot p) (Knows p) (same_boot_iff p) (Knows-iff p)
