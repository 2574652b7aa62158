-- ===== src/Store/Counted.antt =====
-- The recovery counter of a boot is counted once: `checkpoint_recovery_pulses` of
-- src/kegpulse/persistence/repository.py.
use keg_pulse.Base.{
  ℕ, ◌+◌, ◌≡◌, refl, sym, ◌∙◌, inl, inr, Bool, true, List, [], ◌∷◌, Option, none, some, Bool-cases,
  Option-cases, arith, if◌then◌else◌, ◌&&◌, is_none,
}
use keg_pulse.Base.Text.{Text, codes, ◌=t◌, =t_refl, =t_to}
use keg_pulse.Base.Rows.{find, find-holds, find-update_where, find-update_where-none}
use keg_pulse.Store.Tables.{Database, PourEvent, Checkpoint}
use keg_pulse.Store.Recovery.{is_checkpoint, previous_of, upsert}

-- A pour that came from the recovery counter of a boot
abbrev pub is_counted : Text → Text → PourEvent → Bool
is_counted device_id boot_id p =
    p.device_id =t device_id
    && p.boot_id =t boot_id
    && is_none p.event_seq
    && p.fault =t codes "device_recovery_counter"

-- The pulses of those pours
unfoldable pub counted : Text → Text → List PourEvent → ℕ
counted device_id boot_id [] = 0
counted device_id boot_id (p ∷ pours) =
    let rest = counted device_id boot_id pours in
    if is_counted device_id boot_id p then p.raw_pulses + rest else rest

-- The counter of the last checkpoint of a boot, and 0 without one
unfoldable pub checkpointed : Text → Text → Database → ℕ
checkpointed device_id boot_id db =
    previous_of (λ c. c.recovery_pulses) (find (is_checkpoint device_id boot_id) db.checkpoints)

-- For every boot, the checkpoint says what the pours hold.
unfoldable pub IsCounted : Database → Type 0
IsCounted db =
    (device_id boot_id : Text)
    → checkpointed device_id boot_id db ≡ counted device_id boot_id db.pours

pub is_checkpoint-true :
    (dev boot : Text) (c : Checkpoint)
    → is_checkpoint dev boot c ≡ true
    → (c.device_id ≡ dev) × (c.boot_id ≡ boot)
is_checkpoint-true dev boot c h =
    let a : (c.device_id =t dev) ≡ true = ground arith in
    let b : (c.boot_id =t boot) ≡ true = ground arith in
    (=t_to c.device_id dev a, =t_to c.boot_id boot b)

-- After an upsert, the boot has the new value, and the other boots have what they had.
pub upsert-set :
    (new : Checkpoint) (change : Checkpoint → Checkpoint) (dev boot : Text) (v : ℕ) (db : Database)
    → new.recovery_pulses ≡ v
    → ((c : Checkpoint) → (change c).recovery_pulses ≡ v)
    → ((dev boot : Text) (c : Checkpoint)
        → is_checkpoint dev boot (change c) ≡ is_checkpoint dev boot c)
    → checkpointed dev boot
        (upsert new change (find (is_checkpoint new.device_id new.boot_id) db.checkpoints) db)
      ≡ (if is_checkpoint dev boot new then v else checkpointed dev boot db)
unfolding upsert checkpointed find
upsert-set new change dev boot v db nv cv keep =
    let own = is_checkpoint new.device_id new.boot_id in
    elim (Option-cases (find own db.checkpoints)) [
      | inl e ↦ elim (Bool-cases (is_checkpoint dev boot new)) [
        | inl h ↦ rw (checkpointed, upsert, e, find, h) nv
        | inr h ↦ rw (checkpointed, upsert, e, find, h) refl
      ]
      | inr (old, e) ↦ elim (Option-cases (find (is_checkpoint dev boot) db.checkpoints)) [
        | inl n ↦
            let gone =
              find-update_where-none (is_checkpoint dev boot) own change db.checkpoints
                (keep dev boot) n in
            elim (Bool-cases (is_checkpoint dev boot new)) [
              | inr h ↦ rw (checkpointed, upsert, e, gone, h, n) refl
              | inl h ↦
                  (let keys = is_checkpoint-true dev boot new h in
                    let same : find (is_checkpoint dev boot) db.checkpoints ≡ some old =
                      rw (← keys.0, ← keys.1) e in
                    absurd (ground arith))
            ]
        | inr (c, s) ↦
            let found =
              find-update_where (is_checkpoint dev boot) own change db.checkpoints c (keep dev boot)
                s in
            let held = is_checkpoint-true dev boot c (find-holds _ db.checkpoints c s) in
            elim (Bool-cases (is_checkpoint dev boot new)) [
              | inl h ↦
                  (let keys = is_checkpoint-true dev boot new h in
                    let mine : own c ≡ true =
                      rw (keys.0, keys.1) (find-holds _ db.checkpoints c s) in
                    rw (checkpointed, upsert, e, found, mine, h) (cv c))
              | inr h ↦ elim (Bool-cases (own c)) [
                | inr m ↦ rw (checkpointed, upsert, e, found, m, h, s) refl
                | inl m ↦
                    let keys = is_checkpoint-true new.device_id new.boot_id c m in
                    let dev_same : new.device_id ≡ dev = sym keys.0 ∙ held.0 in
                    let boot_same : new.boot_id ≡ boot = sym keys.1 ∙ held.1 in
                    let t : is_checkpoint dev boot new ≡ true =
                      rw (dev_same, boot_same, =t_refl dev, =t_refl boot) refl in
                    absurd (ground arith)
              ]
            ]
      ]
    ]

-- An upsert that keeps the counter keeps every boot's value, if a new row starts at 0.
pub upsert-keep :
    (new : Checkpoint) (change : Checkpoint → Checkpoint) (last : Option Checkpoint)
    (dev boot : Text) (db : Database)
    → last ≡ find (is_checkpoint new.device_id new.boot_id) db.checkpoints
    → new.recovery_pulses ≡ previous_of (λ c. c.recovery_pulses) last
    → ((c : Checkpoint) → (change c).recovery_pulses ≡ c.recovery_pulses)
    → ((dev boot : Text) (c : Checkpoint)
        → is_checkpoint dev boot (change c) ≡ is_checkpoint dev boot c)
    → checkpointed dev boot (upsert new change last db) ≡ checkpointed dev boot db
unfolding upsert checkpointed find
upsert-keep new change none dev boot db l nv cv keep =
    elim (Bool-cases (is_checkpoint dev boot new)) [
      | inl h ↦
          let keys = is_checkpoint-true dev boot new h in
          let gone : find (is_checkpoint dev boot) db.checkpoints ≡ none =
            rw (← keys.0, ← keys.1) (sym l) in
          rw (checkpointed, upsert, find, h, gone) nv
      | inr h ↦ rw (checkpointed, upsert, find, h) refl
    ]
upsert-keep new change (some old) dev boot db l nv cv keep =
    let own = is_checkpoint new.device_id new.boot_id in
    elim (Option-cases (find (is_checkpoint dev boot) db.checkpoints)) [
      | inl n ↦
          rw
            (
              checkpointed,
              upsert,
              find-update_where-none (is_checkpoint dev boot) own change db.checkpoints
                  (keep dev boot) n,
              n,
            )
            refl
      | inr (c, s) ↦
          let found =
            find-update_where (is_checkpoint dev boot) own change db.checkpoints c (keep dev boot)
              s in
          elim (Bool-cases (own c)) [
            | inl m ↦ rw (checkpointed, upsert, found, m, s) (cv c)
            | inr m ↦ rw (checkpointed, upsert, found, m, s) refl
          ]
    ]

pub upsert-pours :
    (new : Checkpoint) (change : Checkpoint → Checkpoint) (last : Option Checkpoint) (db : Database)
    → (upsert new change last db).pours ≡ db.pours
unfolding upsert
upsert-pours new change none db = refl
upsert-pours new change (some old) db = refl

-- A new pour from the counter of a boot, and the boot's new value, are counted alike.
pub upsert-IsCounted :
    (new : Checkpoint) (change : Checkpoint → Checkpoint) (p : PourEvent) (db : Database)
    → p.device_id ≡ new.device_id
    → p.boot_id ≡ new.boot_id
    → p.event_seq ≡ none
    → p.fault ≡ codes "device_recovery_counter"
    → new.recovery_pulses ≡ p.raw_pulses + checkpointed new.device_id new.boot_id db
    → ((c : Checkpoint) → (change c).recovery_pulses ≡ new.recovery_pulses)
    → ((dev boot : Text) (c : Checkpoint)
        → is_checkpoint dev boot (change c) ≡ is_checkpoint dev boot c)
    → IsCounted db
    → IsCounted (
        upsert new change
          (find (is_checkpoint new.device_id new.boot_id) db.checkpoints)
          (record db { pours = p ∷ db.pours }))
unfolding IsCounted counted checkpointed
upsert-IsCounted new change p db pd pb ps pf grows cv keep h = λ dev boot.
    let db1 : Database = record db { pours = p ∷ db.pours } in
    let last = find (is_checkpoint new.device_id new.boot_id) db.checkpoints in
    let set = upsert-set new change dev boot new.recovery_pulses db1 refl cv keep in
    let before = h dev boot in
    let marked : (p.fault =t codes "device_recovery_counter") ≡ true =
      rw (pf, =t_refl (codes "device_recovery_counter")) refl in
    rw (upsert-pours new change last db1) (
      set ∙ elim (Bool-cases (is_checkpoint dev boot new)) [
        | inr q ↦ rw (q, counted, pd, pb, q) before
        | inl q ↦
            let keys = is_checkpoint-true dev boot new q in
            let own : new.recovery_pulses ≡ p.raw_pulses + checkpointed dev boot db =
              rw (← keys.0, ← keys.1) grows in
            rw (q, counted, pd, pb, ps, marked, q, ← before) own
      ])
