-- ===== src/Security/Sessions.antt =====
-- The session store of src/kegpulse/security.py. Times are milliseconds of the monotonic clock.
use keg_pulse.Base.{
  ℕ, zero, suc, ◌+◌, ◌-◌, ◌*◌, Bool, ◌||◌, Option, none, some, List, [], ◌∷◌, ltb, leb,
  if◌then◌else◌, length,
}
use keg_pulse.Base.Text.{Text, ◌=t◌}

-- `class SecuritySession`
pub record SecuritySession : Type 0 where
  pub token : Text
  pub csrf : Text
  pub created : ℕ
  pub last_seen : ℕ
  pub admin : Bool

abbrev pub idle_ms : ℕ
idle_ms = 30 * 60 * 1000

abbrev pub absolute_ms : ℕ
absolute_ms = 12 * 60 * 60 * 1000

abbrev pub max_sessions : ℕ
max_sessions = 128

-- `self._sessions`, a dict from token to session
abbrev pub Sessions : Type 0
Sessions = List (Text × SecuritySession)

unfoldable pub lookup : Text → Sessions → Option SecuritySession
lookup k [] = none
lookup k ((j, s) ∷ ss) = if k =t j then some s else lookup k ss

unfoldable pub insert : Text → SecuritySession → Sessions → Sessions
insert k s [] = (k, s) ∷ []
insert k s ((j, r) ∷ ss) = if k =t j then (j, s) ∷ ss else (j, r) ∷ insert k s ss

-- `self._sessions.pop(token, None)`
unfoldable pub erase : Text → Sessions → Sessions
erase k [] = []
erase k ((j, s) ∷ ss) = if k =t j then ss else (j, s) ∷ erase k ss

-- Not seen for too long, or too old
unfoldable pub is_expired : ℕ → SecuritySession → Bool
is_expired now s = ltb (s.last_seen + idle_ms) now || ltb (s.created + absolute_ms) now

-- The first loop of `_prune`
unfoldable pub drop_expired : ℕ → Sessions → Sessions
drop_expired now [] = []
drop_expired now ((j, s) ∷ ss) =
    let rest = drop_expired now ss in if is_expired now s then rest else (j, s) ∷ rest

-- `sorted(…, key=lambda item: item.last_seen)`, a stable sort
unfoldable pub place : SecuritySession → List SecuritySession → List SecuritySession
place s [] = s ∷ []
place s (r ∷ rs) = if leb s.last_seen r.last_seen then s ∷ r ∷ rs else r ∷ place s rs

unfoldable pub oldest_first : Sessions → List SecuritySession
unfolding place
oldest_first [] = []
oldest_first ((j, s) ∷ ss) = place s (oldest_first ss)

-- The sessions of the first n entries are dropped.
unfoldable pub drop_first : ℕ → List SecuritySession → Sessions → Sessions
unfolding erase
drop_first zero rs ss = ss
drop_first (suc n) [] ss = ss
drop_first (suc n) (r ∷ rs) ss = drop_first n rs (erase r.token ss)

-- `_prune`
unfoldable pub prune : ℕ → Sessions → Sessions
prune now ss =
    let live = drop_expired now ss in
    if ltb max_sessions (length live)
    then drop_first (length live - max_sessions) (oldest_first live) live
    else live

-- `session.last_seen = now`
unfoldable pub touched : ℕ → SecuritySession → SecuritySession
touched now s = record s { last_seen = now }

-- `get_session`, with `touch`; the cookie may be missing or empty.
unfoldable pub get_session : ℕ → Option Text → Sessions → Option SecuritySession × Sessions
unfolding touched
get_session now none ss = (none, ss)
get_session now (some []) ss = (none, ss)
get_session now (some (c ∷ cs)) ss =
    let kept = prune now ss in
    elim (lookup (c ∷ cs) kept) [
      | none ↦ (none, kept)
      | some s ↦ (some (touched now s), insert (c ∷ cs) (touched now s) kept)
    ]

-- `new_session`; the token and the CSRF token are the random texts that the `secrets` module gives.
unfoldable pub new_session : ℕ → Text → Text → Bool → Sessions → SecuritySession × Sessions
new_session now token csrf admin ss =
    let s : SecuritySession = record {
      token = token;
      csrf = csrf;
      created = now;
      last_seen = now;
      admin = admin;
    } in
    (s, insert token s (prune now ss))
