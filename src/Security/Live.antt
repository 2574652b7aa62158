-- ===== src/Security/Live.antt =====
-- Only sessions of the store that have not expired are ever found.
use mathlib.Core.Path.{subst}
use keg_pulse.Base.{
  ℕ, zero, suc, ◌+◌, ◌-◌, ◌≤◌, ◌≡◌, inl, inr, false, Option, none, some, List, [], ◌∷◌, arith, ltb,
  length, Bool-cases, Option-cases,
}
use keg_pulse.Base.Text.{Text, ◌=t◌}
use keg_pulse.Security.Sessions.{
  SecuritySession, Sessions, lookup, erase, is_expired, drop_expired, drop_first, prune,
  oldest_first, touched, get_session, max_sessions, idle_ms, absolute_ms,
}

-- All stored sessions have a property.
abbrev pub Every : (SecuritySession → Type 0) → Sessions → Type 0
Every P [] = Unit
Every P ((j, s) ∷ ss) = P s × Every P ss

module _ (P : SecuritySession → Type 0) where
  erase-Every : (k : Text) (ss : Sessions) → Every P ss → Every P (erase k ss)
  unfolding erase
  erase-Every k [] h = h
  erase-Every k ((j, s) ∷ ss) h = elim (Bool-cases (k =t j)) [
    | inl e ↦ rw e h.1
    | inr e ↦ rw e (h.0, erase-Every k ss h.1)
  ]

  drop_first-Every :
      (n : ℕ) (rs : List SecuritySession) (ss : Sessions)
      → Every P ss
      → Every P (drop_first n rs ss)
  unfolding drop_first
  drop_first-Every zero rs ss h = h
  drop_first-Every (suc n) [] ss h = h
  drop_first-Every (suc n) (r ∷ rs) ss h =
      drop_first-Every n rs (erase r.token ss) (erase-Every r.token ss h)

  lookup-Every :
      (k : Text) (s : SecuritySession) (ss : Sessions) → Every P ss → lookup k ss ≡ some s → P s
  unfolding lookup
  lookup-Every k s [] h e = absurd (ground arith)
  lookup-Every k s ((j, r) ∷ ss) h e = elim (Bool-cases (k =t j)) [
    | inl q ↦ (let same : r ≡ s = ground arith in subst P same h.0)
    | inr q ↦ lookup-Every k s ss h.1 (rw q at e)
  ]

-- What the pruned store keeps: the property, and that no session has expired.
drop_expired-Every :
    (P : SecuritySession → Type 0) (now : ℕ) (ss : Sessions)
    → Every P ss
    → Every (λ s. P s × (is_expired now s ≡ false)) (drop_expired now ss)
unfolding drop_expired
drop_expired-Every P now [] h = h
drop_expired-Every P now ((j, s) ∷ ss) h = elim (Bool-cases (is_expired now s)) [
  | inl e ↦ rw e (drop_expired-Every P now ss h.1)
  | inr e ↦ rw e ((h.0, e), drop_expired-Every P now ss h.1)
]

prune-Every :
    (P : SecuritySession → Type 0) (now : ℕ) (ss : Sessions)
    → Every P ss
    → Every (λ s. P s × (is_expired now s ≡ false)) (prune now ss)
unfolding prune
prune-Every P now ss h =
    let live = drop_expired now ss in
    let kept = drop_expired-Every P now ss h in
    elim (Bool-cases (ltb max_sessions (length live))) [
      | inl e ↦ rw e (
          drop_first-Every (λ s. P s × (is_expired now s ≡ false)) (length live - max_sessions)
            (oldest_first live) live kept)
      | inr e ↦ rw e kept
    ]

pub live_idle :
    (now : ℕ) (s : SecuritySession) → is_expired now s ≡ false → now ≤ s.last_seen + idle_ms
unfolding is_expired
live_idle now s h = ground arith

pub live_absolute :
    (now : ℕ) (s : SecuritySession) → is_expired now s ≡ false → now ≤ s.created + absolute_ms
unfolding is_expired
live_absolute now s h = ground arith

-- A session that is found was stored with the same identity and rights, had been seen within the
-- idle time and created within the absolute time, and counts as seen now.
pub get_session_found :
    (P : SecuritySession → Type 0) (now : ℕ) (cookie : Option Text) (ss : Sessions)
    (s : SecuritySession)
    → Every P ss
    → (get_session now cookie ss).0 ≡ some s
    → (r : SecuritySession) × (s ≡ touched now r)
      × P r
      × (now ≤ r.last_seen + idle_ms)
      × (now ≤ r.created + absolute_ms)
unfolding get_session
get_session_found P now none ss s h e = absurd (ground arith)
get_session_found P now (some []) ss s h e = absurd (ground arith)
get_session_found P now (some (c ∷ cs)) ss s h e =
    elim (Option-cases (lookup (c ∷ cs) (prune now ss))) [
      | inl q ↦ absurd (ground arith)
      | inr (r, q) ↦
          let found =
            lookup-Every (λ x. P x × (is_expired now x ≡ false)) (c ∷ cs) r (prune now ss)
              (prune-Every P now ss h) q in
          (r, ground arith, found.0, live_idle now r found.1, live_absolute now r found.1)
    ]
