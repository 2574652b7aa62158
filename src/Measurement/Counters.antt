-- ===== src/Measurement/Counters.antt =====
-- src/kegpulse/domain/counters.py: the difference of two readings of a counter.
use keg_pulse.Base.{
  ℕ, ◌+◌, ◌-◌, ◌^◌, ◌≡◌, Bool, true, false, ◌&&◌, Option, none, some, arith, ltb, leb,
  if◌then◌else◌, not, ℤ, pos, negsuc, List, [], ◌∷◌, inl, inr, Option-cases,
}
use keg_pulse.Base.Text.{Text, ◌=t◌, =t_iff}

-- `class CounterDelta`
pub record CounterDelta : Type 0 where
  pub delta : Option ℕ
  pub reset : Bool
  pub wrapped : Bool

-- `boot_counter_delta`; `none` is the DomainError for a value outside the counter's width.
unfoldable pub boot_counter_delta : ℕ → ℤ → ℤ → Text → Text → Option CounterDelta
boot_counter_delta bits (negsuc p) current previous_boot current_boot = none
boot_counter_delta bits (pos p) (negsuc c) previous_boot current_boot = none
boot_counter_delta bits (pos previous) (pos current) previous_boot current_boot =
    if not (ltb previous (2 ^ bits) && ltb current (2 ^ bits))
    then none
    else if not (previous_boot =t current_boot)
    then some (record { delta = none; reset = true; wrapped = false })
    else if leb previous current
    then some (record { delta = some (current - previous); reset = false; wrapped = false })
    else some (record { delta = none; reset = false; wrapped = false })

-- A reading of a counter: the boot that it was taken in, and the value.
abbrev pub Reading : Type 0
Reading = Text × ℕ

-- The differences along a list of readings; `none` where one is not known.
unfoldable pub total_delta : ℕ → Reading → List Reading → Option ℕ
total_delta bits r [] = some 0
total_delta bits r (s ∷ rs) = elim (boot_counter_delta bits (pos r.1) (pos s.1) r.0 s.0) [
  | none ↦ none
  | some d ↦ elim d.delta [
    | none ↦ none
    | some n ↦ elim (total_delta bits s rs) [ none ↦ none | some k ↦ some (n + k) ]
  ]
]

unfoldable pub last : Reading → List Reading → Reading
last r [] = r
last r (s ∷ rs) = last s rs

delta_lem :
    (bits p c n : ℕ) (a b : Text) (d : CounterDelta)
    → boot_counter_delta bits (pos p) (pos c) a b ≡ some d
    → d.delta ≡ some n
    → (n + p ≡ c) × (a ≡ b)
unfolding boot_counter_delta
delta_lem bits p c n a b d h e = ground (arith, =t_iff a b)

-- Where every difference along a list of readings is known, they add up to the difference of the
-- last reading and the first, which are of one boot: no pulse is counted twice or left out.
pub total_delta-last :
    (bits : ℕ) (r : Reading) (rs : List Reading) (n : ℕ)
    → total_delta bits r rs ≡ some n
    → (n + r.1 ≡ (last r rs).1) × (r.0 ≡ (last r rs).0)
unfolding total_delta last
total_delta-last bits r [] n h = ground arith
total_delta-last bits r (s ∷ rs) n h =
    elim (Option-cases (boot_counter_delta bits (pos r.1) (pos s.1) r.0 s.0)) [
      | inl e ↦ ground arith
      | inr (d, e) ↦ elim (Option-cases d.delta) [
        | inl f ↦ ground arith
        | inr (k, f) ↦ elim (Option-cases (total_delta bits s rs)) [
          | inl g ↦ ground arith
          | inr (l, g) ↦
              ground (arith, delta_lem bits r.1 s.1 k r.0 s.0 d e f, total_delta-last bits s rs l g)
        ]
      ]
    ]
