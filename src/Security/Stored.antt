-- ===== src/Security/Stored.antt =====
-- A session that is found is one that the store holds, in some entry of it.
use keg_pulse.Base.{
  ℕ, zero, suc, ◌+◌, ◌-◌, ◌≤◌, ◌≡◌, refl, ◌⊎◌, inl, inr, false, Option, none, some, List, [], ◌∷◌,
  arith, ltb, length, Bool-cases, Option-cases,
}
use keg_pulse.Base.Text.{Text, ◌=t◌, =t_to}
use keg_pulse.Security.Sessions.{
  SecuritySession, Sessions, lookup, erase, is_expired, drop_expired, drop_first, prune,
  oldest_first, touched, get_session, max_sessions, idle_ms, absolute_ms,
}
use keg_pulse.Security.Live.{live_idle, live_absolute}

-- The store has an entry of this session under this token.
abbrev pub Stored : Text → SecuritySession → Sessions → Type 0
Stored k s [] = ⊥
Stored k s ((j, r) ∷ ss) = ((j ≡ k) × (r ≡ s)) ⊎ Stored k s ss

lookup-Stored :
    (k : Text) (s : SecuritySession) (ss : Sessions) → lookup k ss ≡ some s → Stored k s ss
unfolding lookup
lookup-Stored k s [] e = absurd (ground arith)
lookup-Stored k s ((j, r) ∷ ss) e = elim (Bool-cases (k =t j)) [
  | inl q ↦ (let same = =t_to k j q in inl (ground arith, ground arith))
  | inr q ↦ inr (lookup-Stored k s ss (rw q at e))
]

module _ (k : Text) (s : SecuritySession) where
  erase-Stored : (l : Text) (ss : Sessions) → Stored k s (erase l ss) → Stored k s ss
  unfolding erase
  erase-Stored l [] h = h
  erase-Stored l ((j, r) ∷ ss) h = elim (Bool-cases (l =t j)) [
    | inl e ↦ inr (rw e at h)
    | inr e ↦ elim (rw e at h) [ inl here ↦ inl here | inr there ↦ inr (erase-Stored l ss there) ]
  ]

  drop_first-Stored :
      (n : ℕ) (rs : List SecuritySession) (ss : Sessions)
      → Stored k s (drop_first n rs ss)
      → Stored k s ss
  unfolding drop_first
  drop_first-Stored zero rs ss h = h
  drop_first-Stored (suc n) [] ss h = h
  drop_first-Stored (suc n) (r ∷ rs) ss h =
      erase-Stored r.token ss (drop_first-Stored n rs (erase r.token ss) h)

  drop_expired-Stored :
      (now : ℕ) (ss : Sessions)
      → Stored k s (drop_expired now ss)
      → Stored k s ss × (is_expired now s ≡ false)
  unfolding drop_expired
  drop_expired-Stored now [] h = elim h [ ]
  drop_expired-Stored now ((j, r) ∷ ss) h = elim (Bool-cases (is_expired now r)) [
    | inl e ↦ (let below = drop_expired-Stored now ss (rw e at h) in (inr below.0, below.1))
    | inr e ↦ elim (rw e at h) [
      | inl here ↦ (inl here, rw here.1 at e)
      | inr there ↦ (let below = drop_expired-Stored now ss there in (inr below.0, below.1))
    ]
  ]

  prune-Stored :
      (now : ℕ) (ss : Sessions)
      → Stored k s (prune now ss)
      → Stored k s ss × (is_expired now s ≡ false)
  unfolding prune
  prune-Stored now ss h =
      let live = drop_expired now ss in
      elim (Bool-cases (ltb max_sessions (length live))) [
        | inl e ↦
            drop_expired-Stored now ss
              (drop_first-Stored (length live - max_sessions) (oldest_first live) live (rw e at h))
        | inr e ↦ drop_expired-Stored now ss (rw e at h)
      ]

-- What the cookie finds is the session stored under it, not expired, and counted as seen now.
pub get_session-Stored :
    (now : ℕ) (cookie : Option Text) (ss : Sessions) (s : SecuritySession)
    → (get_session now cookie ss).0 ≡ some s
    → (k : Text) × (r : SecuritySession) × (cookie ≡ some k)
      × Stored k r ss
      × (s ≡ touched now r)
      × (now ≤ r.last_seen + idle_ms)
      × (now ≤ r.created + absolute_ms)
unfolding get_session
get_session-Stored now none ss s e = absurd (ground arith)
get_session-Stored now (some []) ss s e = absurd (ground arith)
get_session-Stored now (some (c ∷ cs)) ss s e =
    elim (Option-cases (lookup (c ∷ cs) (prune now ss))) [
      | inl q ↦ absurd (ground arith)
      | inr (r, q) ↦
          let held = prune-Stored (c ∷ cs) r now ss (lookup-Stored (c ∷ cs) r (prune now ss) q) in
          (
            c ∷ cs,
            r,
            refl,
            held.0,
            ground arith,
            live_idle now r held.1,
            live_absolute now r held.1,
          )
    ]
