-- ===== src/Security/Guards.antt =====
-- What the guards of src/kegpulse/security.py let through.
use keg_pulse.Base.{
  ℕ, ◌+◌, ◌*◌, ◌≤◌, ◌≡◌, ◌∙◌, ap, refl, ◌⊎◌, inl, inr, true, false, Option, none, some, arith,
  Bool-cases, Option-cases,
}
use keg_pulse.Base.Text.{Text, codes, ◌=t◌, =t_to}
use keg_pulse.Base.Try.{ok, err, Try-cases}
use keg_pulse.Security.Sessions.{SecuritySession, Sessions, touched, get_session}
use keg_pulse.Security.Access.{
  HttpError, Request, Policy, is_local_client, is_admin, csrf_matches, is_ascii_header,
  require_csrf, require_access, require_display_access, require_operational, websocket_allowed,
}
use keg_pulse.Security.Live.{Every, get_session_found}
use keg_pulse.Security.Stored.{Stored, get_session-Stored}

-- A supplied token that matches is the session's own.
csrf_matches_to :
    (s : SecuritySession) (supplied : Option Text)
    → csrf_matches s supplied ≡ true
    → supplied ≡ some s.csrf
unfolding csrf_matches
csrf_matches_to s none h = absurd (ground arith)
csrf_matches_to s (some t) h =
    let same : (s.csrf =t t) ≡ true = ground arith in
    let eq : s.csrf ≡ t = =t_to s.csrf t same in ground arith

-- What `require_csrf` lets through is the found session, with its token supplied.
require_csrf_ok :
    (now : ℕ) (request : Request) (ss : Sessions) (s : SecuritySession)
    → (require_csrf now request ss).0 ≡ ok s
    → ((get_session now request.cookie ss).0 ≡ some s) × (csrf_matches s request.csrf_header ≡ true)
unfolding require_csrf
require_csrf_ok now request ss s h = elim (Option-cases (get_session now request.cookie ss).0) [
  | inl q ↦ absurd (ground arith)
  | inr (r, q) ↦ elim (Bool-cases (is_ascii_header request.csrf_header)) [
    | inr n ↦ absurd (ground arith)
    | inl a ↦ elim (Bool-cases (csrf_matches r request.csrf_header)) [
      | inl e ↦ (let same : r ≡ s = ground arith in (ground arith, ground arith))
      | inr e ↦ absurd (ground arith)
    ]
  ]
]

abbrev pub NoAdmin : Sessions → Type 0
NoAdmin = Every (λ s. s.admin ≡ false)

-- While no administrator is logged in, no session that is found is an administrator's.
get_session-NoAdmin :
    (now : ℕ) (cookie : Option Text) (ss : Sessions)
    → NoAdmin ss
    → is_admin (get_session now cookie ss).0 ≡ false
unfolding touched
get_session-NoAdmin now cookie ss h = elim (Option-cases (get_session now cookie ss).0) [
  | inl q ↦ rw q refl
  | inr (s, q) ↦
      let found = get_session_found (λ x. x.admin ≡ false) now cookie ss s h q in
      let r = found.0 in
      let e : s ≡ touched now r = found.1 in let d : r.admin ≡ false = found.2 in ground arith
]

operational_refused :
    (policy : Policy) (now : ℕ) (request : Request) (ss : Sessions)
    → policy.lan_mode ≡ true
    → is_local_client request.client_host ≡ false
    → is_admin (get_session now request.cookie ss).0 ≡ false
    → (r : HttpError) × ((require_operational policy now request ss).0 ≡ err r)
unfolding require_operational
operational_refused policy now request ss lan far nobody =
    elim (Try-cases (require_csrf now request ss).0) [
      | inr (r, q) ↦ (r, ground arith)
      | inl (s, q) ↦
          let found = (require_csrf_ok now request ss s q).0 in
          let plain : s.admin ≡ false = rw found at nobody in
          (HttpError.login_required, ground arith)
    ]

-- A request from elsewhere on the network gets nowhere while no administrator is logged in, in LAN
-- mode without a shared display: `require_access`, `require_display_access` and
-- `require_operational` raise, and no websocket is allowed.
pub stranger_refused :
    (policy : Policy) (now : ℕ) (request : Request) (ss : Sessions)
    → NoAdmin ss
    → policy.lan_mode ≡ true
    → policy.lan_display ≡ false
    → is_local_client request.client_host ≡ false
    → ((require_access policy now request ss).0 ≡ err HttpError.login_required)
      × ((require_display_access policy now request ss).0 ≡ err HttpError.login_required)
      × ((websocket_allowed policy now request ss).0 ≡ false)
      × ((r : HttpError) × ((require_operational policy now request ss).0 ≡ err r))
unfolding require_access require_display_access websocket_allowed
stranger_refused policy now request ss h lan quiet far =
    let nobody = get_session-NoAdmin now request.cookie ss h in
    (
      ground arith,
      ground arith,
      ground arith,
      operational_refused policy now request ss lan far nobody,
    )

is_local_client_to :
    (host : Option Text)
    → is_local_client host ≡ true
    → (host ≡ some (codes "127.0.0.1")) ⊎ (host ≡ some (codes "::1"))
unfolding is_local_client
is_local_client_to none h = absurd (ground arith)
is_local_client_to (some host) h = elim (Bool-cases (host =t codes "127.0.0.1")) [
  | inl e ↦ inl (ap some (=t_to host (codes "127.0.0.1") e))
  | inr e ↦ inr (ap some (=t_to host (codes "::1") (ground arith)))
]

-- Whoever `require_operational` lets through named by its cookie a session that the store held, seen
-- within the idle time and created within the absolute time, and supplied that session's own CSRF
-- token; and in LAN mode the session is an administrator's or the client is on this machine. The
-- session that comes back is the stored one, seen now.
pub require_operational_admits :
    (policy : Policy) (now : ℕ) (request : Request) (ss : Sessions) (s : SecuritySession)
    → (require_operational policy now request ss).0 ≡ ok s
    → (k : Text) × (r : SecuritySession) × (request.cookie ≡ some k)
      × Stored k r ss
      × (now ≤ r.last_seen + 30 * 60 * 1000)
      × (now ≤ r.created + 12 * 60 * 60 * 1000)
      × (request.csrf_header ≡ some r.csrf)
      × (s ≡ record r { last_seen = now })
      × ((policy.lan_mode ≡ false)
          ⊎ (r.admin ≡ true)
          ⊎ (request.client_host ≡ some (codes "127.0.0.1"))
          ⊎ (request.client_host ≡ some (codes "::1")))
unfolding require_operational touched
require_operational_admits policy now request ss s h =
    elim (Try-cases (require_csrf now request ss).0) [
      | inr (r, q) ↦ absurd (ground arith)
      | inl (t, q) ↦
          let same : t ≡ s = ground arith in
          let csrf = require_csrf_ok now request ss s (ground arith) in
          let (k, r, e, held, eq, idle, old) = get_session-Stored now request.cookie ss s csrf.0 in
          let token = csrf_matches_to s request.csrf_header csrf.1 in
          let rights : (policy.lan_mode ≡ false)
              ⊎ (s.admin ≡ true)
              ⊎ (is_local_client request.client_host ≡ true) =
            ground arith in
          (
            k,
            r,
            e,
            held,
            idle,
            old,
            token ∙ ap (λ x. some x.csrf) eq,
            eq,
            ground (arith, is_local_client_to request.client_host),
          )
    ]
