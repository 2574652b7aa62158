-- ===== src/Device/Store.antt =====
-- Lemmas on the result store of the device session machine: its keys are event sequence numbers
-- in increasing order, so a finalized event is always a new entry at the end.
use keg_pulse.Base.{
  ℕ, suc, ◌+◌, ◌≤◌, ◌<◌, ◌≡◌, refl, none, some, [], ◌∷◌, arith, length, ℤ, pos, negsuc,
}
use keg_pulse.Models.{DeviceResult}
use keg_pulse.Device.Defs.{Results, lookup, insert, erase, erase_at, max_result_pulses}

-- Keys from `lo` up to below `hi` in increasing order, each that of its result, with a count that
-- can be stored.
abbrev pub InOrder : ℕ → ℕ → Results → Type 0
InOrder lo hi [] = lo ≤ hi
InOrder lo hi ((j, r) ∷ rs) =
    (lo ≤ j) × (r.event_seq ≡ j) × (r.raw_pulses ≤ max_result_pulses) × InOrder (suc j) hi rs

-- The pulses of all retained results
abbrev pub pulses_of : Results → ℕ
pulses_of [] = 0
pulses_of ((j, r) ∷ rs) = r.raw_pulses + pulses_of rs

pub InOrder-le : (lo hi : ℕ) (rs : Results) → InOrder lo hi rs → lo ≤ hi
InOrder-le lo hi [] h = h
InOrder-le lo hi ((j, r) ∷ rs) h = omega (arith, InOrder-le (suc j) hi rs h.3)

pub InOrder-weaken_low :
    (lo lo' hi : ℕ) (rs : Results) → lo' ≤ lo → InOrder lo hi rs → InOrder lo' hi rs
InOrder-weaken_low lo lo' hi [] w h = omega arith
InOrder-weaken_low lo lo' hi ((j, r) ∷ rs) w h = (omega arith, h.1, h.2, h.3)

pub InOrder-weaken :
    (lo hi hi' : ℕ) (rs : Results) → hi ≤ hi' → InOrder lo hi rs → InOrder lo hi' rs
InOrder-weaken lo hi hi' [] w h = omega arith
InOrder-weaken lo hi hi' ((j, r) ∷ rs) w h = (h.0, h.1, h.2, InOrder-weaken (suc j) hi hi' rs w h.3)

pub lookup_fresh : (lo k hi : ℕ) (rs : Results) → hi ≤ k → InOrder lo hi rs → lookup k rs ≡ none
unfolding lookup
lookup_fresh lo k hi [] w h = refl
lookup_fresh lo k hi ((j, r) ∷ rs) w h =
    ground (arith, InOrder-le (suc j) hi rs h.3, lookup_fresh (suc j) k hi rs w h.3)

pub insert-InOrder :
    (lo k : ℕ) (r : DeviceResult) (rs : Results)
    → InOrder lo k rs
    → r.event_seq ≡ k
    → r.raw_pulses ≤ max_result_pulses
    → InOrder lo (suc k) (insert k r rs)
unfolding insert
insert-InOrder lo k r [] h e w = (h, e, w, omega arith)
insert-InOrder lo k r ((j, s) ∷ rs) h e w =
    ground (arith, InOrder-le (suc j) k rs h.3, insert-InOrder (suc j) k r rs h.3 e w)

pub length-insert :
    (lo k : ℕ) (r : DeviceResult) (rs : Results)
    → InOrder lo k rs
    → length (insert k r rs) ≡ suc (length rs)
unfolding insert
length-insert lo k r [] h = refl
length-insert lo k r ((j, s) ∷ rs) h =
    ground (arith, InOrder-le (suc j) k rs h.3, length-insert (suc j) k r rs h.3)

pub pulses_of-insert :
    (lo k : ℕ) (r : DeviceResult) (rs : Results)
    → InOrder lo k rs
    → pulses_of (insert k r rs) ≡ pulses_of rs + r.raw_pulses
unfolding insert
pulses_of-insert lo k r [] h = omega arith
pulses_of-insert lo k r ((j, s) ∷ rs) h =
    ground (arith, InOrder-le (suc j) k rs h.3, pulses_of-insert (suc j) k r rs h.3)

pub lookup-insert_self :
    (k : ℕ) (r : DeviceResult) (rs : Results) → lookup k (insert k r rs) ≡ some r
unfolding lookup insert
lookup-insert_self k r [] = ground arith
lookup-insert_self k r ((j, s) ∷ rs) = ground (arith, lookup-insert_self k r rs)

pub lookup-insert_ne :
    (j k : ℕ) (r : DeviceResult) (rs : Results)
    → (j ≡ k → ⊥)
    → lookup j (insert k r rs) ≡ lookup j rs
unfolding lookup insert
lookup-insert_ne j k r [] h = ground arith
lookup-insert_ne j k r ((i, s) ∷ rs) h = ground (arith, lookup-insert_ne j k r rs h)

erase-InOrder : (lo k hi : ℕ) (rs : Results) → InOrder lo hi rs → InOrder lo hi (erase k rs)
unfolding erase
erase-InOrder lo k hi [] h = h
erase-InOrder lo k hi ((j, s) ∷ rs) h = ground (
  arith,
  erase-InOrder (suc j) k hi rs h.3,
  InOrder-weaken_low (suc j) lo hi rs (omega arith) h.3,
)

pub erase_at-InOrder :
    (lo : ℕ) (k : ℤ) (hi : ℕ) (rs : Results) → InOrder lo hi rs → InOrder lo hi (erase_at k rs)
unfolding erase_at
erase_at-InOrder lo (pos k) hi rs h = erase-InOrder lo k hi rs h
erase_at-InOrder lo (negsuc k) hi rs h = h

length-erase : (k : ℕ) (rs : Results) → length (erase k rs) ≤ length rs
unfolding erase
length-erase k [] = omega arith
length-erase k ((j, s) ∷ rs) = ground (arith, length-erase k rs)

pub length-erase_at : (k : ℤ) (rs : Results) → length (erase_at k rs) ≤ length rs
unfolding erase_at
length-erase_at (pos k) rs = length-erase k rs
length-erase_at (negsuc k) rs = omega arith

pulses_of-erase : (k : ℕ) (rs : Results) → pulses_of (erase k rs) ≤ pulses_of rs
unfolding erase
pulses_of-erase k [] = omega arith
pulses_of-erase k ((j, s) ∷ rs) = ground (arith, pulses_of-erase k rs)

pub pulses_of-erase_at : (k : ℤ) (rs : Results) → pulses_of (erase_at k rs) ≤ pulses_of rs
unfolding erase_at
pulses_of-erase_at (pos k) rs = pulses_of-erase k rs
pulses_of-erase_at (negsuc k) rs = omega arith

-- Nothing is kept under a key below the first.
lookup_below : (lo k hi : ℕ) (rs : Results) → k < lo → InOrder lo hi rs → lookup k rs ≡ none
unfolding lookup
lookup_below lo k hi [] w h = refl
lookup_below lo k hi ((j, r) ∷ rs) w h =
    ground (arith, lookup_below (suc j) k hi rs (omega arith) h.3)

-- A removed result is gone, and no other is touched.
pub lookup-erase_self :
    (lo k hi : ℕ) (rs : Results) → InOrder lo hi rs → lookup k (erase k rs) ≡ none
unfolding lookup erase
lookup-erase_self lo k hi [] h = refl
lookup-erase_self lo k hi ((j, s) ∷ rs) h =
    ground (arith, lookup-erase_self (suc j) k hi rs h.3, lookup_below (suc j) k hi rs)
