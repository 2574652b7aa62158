-- ===== src/Security/Access.antt =====
-- Who may do what: the guards, login and throttling of src/kegpulse/security.py.
use keg_pulse.Base.{
  ℕ, ◌+◌, ◌*◌, Bool, true, false, ◌&&◌, ◌||◌, Option, none, some, List, [], ◌∷◌, ◌++◌, ltb, leb,
  if◌then◌else◌, not, length,
}
use keg_pulse.Base.Text.{Text, ◌=t◌, codes}
use keg_pulse.Base.Try.{Try, ok, err}
use keg_pulse.Security.Sessions.{SecuritySession, Sessions, get_session, new_session, erase}

-- A TypeError, which nothing catches, and the HTTPExceptions: 403, 401, 401 and 429
pub data HttpError : Type 0 where
  type_error csrf_required login_required invalid_pin too_many_attempts : HttpError

-- What the guards read of a request: the session cookie, the CSRF header and the client's address
pub record Request : Type 0 where
  pub cookie : Option Text
  pub csrf_header : Option Text
  pub client_host : Option Text

-- The settings that the guards depend on
pub record Policy : Type 0 where
  pub lan_mode : Bool
  pub lan_display : Bool
  pub pin_configured : Bool

-- A guard's answer, and the session store after it
abbrev pub Answer {ℓ} : Type ℓ → Type ℓ
Answer A = Try HttpError A × Sessions

-- `_is_local_client`
unfoldable pub is_local_client : Option Text → Bool
unfolding ◌=t◌
is_local_client none = false
is_local_client (some host) = host =t codes "127.0.0.1" || host =t codes "::1"

abbrev pub is_admin : Option SecuritySession → Bool
is_admin none = false
is_admin (some s) = s.admin

-- `not supplied or not compare_digest(session.csrf, supplied)`, negated
unfoldable pub csrf_matches : SecuritySession → Option Text → Bool
unfolding ◌=t◌
csrf_matches s none = false
csrf_matches s (some supplied) = leb 1 (length supplied) && s.csrf =t supplied

-- `compare_digest` raises a TypeError on a text with a code point that is not ASCII.
unfoldable pub is_ascii : Text → Bool
is_ascii [] = true
is_ascii (c ∷ cs) = ltb c 128 && is_ascii cs

abbrev pub is_ascii_header : Option Text → Bool
is_ascii_header none = true
is_ascii_header (some supplied) = is_ascii supplied

-- `require_csrf`; the session's own token is ASCII, as the `secrets` module makes it.
unfoldable pub require_csrf : ℕ → Request → Sessions → Answer SecuritySession
unfolding csrf_matches is_ascii
require_csrf now request ss =
    let (session, ss') = get_session now request.cookie ss in
    elim session [
      | none ↦ (err HttpError.csrf_required, ss')
      | some s ↦
          if not (is_ascii_header request.csrf_header)
          then (err HttpError.type_error, ss')
          else if csrf_matches s request.csrf_header
          then (ok s, ss')
          else (err HttpError.csrf_required, ss')
    ]

-- `require_access`
unfoldable pub require_access : Policy → ℕ → Request → Sessions → Answer (Option SecuritySession)
unfolding is_local_client
require_access policy now request ss =
    let (session, ss') = get_session now request.cookie ss in
    if policy.lan_mode && not (is_local_client request.client_host) && not (is_admin session)
    then (err HttpError.login_required, ss')
    else (ok session, ss')

-- `require_display_access`
unfoldable pub require_display_access :
    Policy → ℕ → Request → Sessions → Answer (Option SecuritySession)
unfolding is_local_client
require_display_access policy now request ss =
    let (session, ss') = get_session now request.cookie ss in
    if not policy.lan_mode || policy.lan_display
    then (ok session, ss')
    else if is_local_client request.client_host
    then (ok session, ss')
    else if is_admin session
    then (ok session, ss')
    else (err HttpError.login_required, ss')

-- `require_operational`
unfoldable pub require_operational : Policy → ℕ → Request → Sessions → Answer SecuritySession
unfolding is_local_client
require_operational policy now request ss =
    let (r, ss') = require_csrf now request ss in
    elim r [
      | err e ↦ (err e, ss')
      | ok s ↦
          if policy.lan_mode && not s.admin && not (is_local_client request.client_host)
          then (err HttpError.login_required, ss')
          else (ok s, ss')
    ]

-- `require_admin`
unfoldable pub require_admin : Policy → ℕ → Request → Sessions → Answer SecuritySession
require_admin policy now request ss =
    let (r, ss') = require_csrf now request ss in
    elim r [
      | err e ↦ (err e, ss')
      | ok s ↦
          if policy.pin_configured && not s.admin
          then (err HttpError.login_required, ss')
          else (ok s, ss')
    ]

-- `websocket_allowed`
unfoldable pub websocket_allowed : Policy → ℕ → Request → Sessions → Bool × Sessions
unfolding is_local_client
websocket_allowed policy now request ss =
    if not policy.lan_mode || policy.lan_display
    then (true, ss)
    else if is_local_client request.client_host
    then (true, ss)
    else (let (session, ss') = get_session now request.cookie ss in (is_admin session, ss'))

-- The failed attempts: for each client, and of all clients, oldest first
pub record Attempts : Type 0 where
  pub by_client : List (Text × List ℕ)
  pub overall : List ℕ

abbrev pub window_ms : ℕ
window_ms = 60 * 1000

-- `while local and local[0] < cutoff: local.popleft()`
unfoldable pub drop_old : ℕ → List ℕ → List ℕ
drop_old now [] = []
drop_old now (t ∷ ts) =
    let rest = drop_old now ts in if ltb (t + window_ms) now then rest else t ∷ ts

-- `self._attempts[client]`, empty for a new client
unfoldable pub attempts_of : Text → List (Text × List ℕ) → List ℕ
unfolding ◌=t◌
attempts_of client [] = []
attempts_of client ((c, ts) ∷ rest) = if client =t c then ts else attempts_of client rest

unfoldable pub set_attempts : Text → List ℕ → List (Text × List ℕ) → List (Text × List ℕ)
unfolding ◌=t◌
set_attempts client ts [] = (client, ts) ∷ []
set_attempts client ts ((c, us) ∷ rest) =
    if client =t c then (c, ts) ∷ rest else (c, us) ∷ set_attempts client ts rest

-- `self._attempts.pop(client, None)`
unfoldable pub clear_attempts : Text → List (Text × List ℕ) → List (Text × List ℕ)
unfolding ◌=t◌
clear_attempts client [] = []
clear_attempts client ((c, us) ∷ rest) =
    if client =t c then rest else (c, us) ∷ clear_attempts client rest

-- `_throttle`: whether the attempt is refused, and the attempts that still count
unfoldable pub throttle : ℕ → Text → Attempts → Bool × Attempts
throttle now client a =
    let recent = drop_old now (attempts_of client a.by_client) in
    let overall = drop_old now a.overall in
    (
      leb 5 (length recent) || leb 30 (length overall),
      record { by_client = set_attempts client recent a.by_client; overall = overall },
    )

-- `_record_failed_attempt`
unfoldable pub record_failed_attempt : ℕ → Text → Attempts → Attempts
record_failed_attempt now client a = record {
  by_client = set_attempts client (attempts_of client a.by_client ++ (now ∷ [])) a.by_client;
  overall = a.overall ++ (now ∷ []);
}

-- `if old: self._sessions.pop(old, None)`
unfoldable pub forget : Option Text → Sessions → Sessions
unfolding erase
forget none ss = ss
forget (some token) ss = if leb 1 (length token) then erase token ss else ss

-- The client of a request, for throttling
unfoldable pub client_of : Request → Text
client_of request = elim request.client_host [ none ↦ codes "unknown" | some host ↦ host ]

-- `login`. `verified` is what `verify_pin` says of the PIN, and the texts are the new tokens.
unfoldable pub login :
    Bool
    → ℕ
    → Text
    → Text
    → Request
    → Attempts
    → Sessions
    → Try HttpError SecuritySession × Attempts × Sessions
unfolding client_of
login verified now token csrf request attempts ss =
    let client = client_of request in
    let (refused, counted) = throttle now client attempts in
    if refused
    then (err HttpError.too_many_attempts, counted, ss)
    else if not verified
    then (err HttpError.invalid_pin, record_failed_attempt now client counted, ss)
    else (let (session, ss') = new_session now token csrf true (forget request.cookie ss) in
        (ok session, record counted { by_client = clear_attempts client counted.by_client }, ss'))

-- `logout`
unfoldable pub logout : Request → Sessions → Sessions
logout request ss = forget request.cookie ss
