-- ===== src/Security/Tests.antt =====
-- Guards and logins on concrete requests.
use keg_pulse.Base.{◌+◌, ◌*◌, ◌≤◌, ◌≡◌, refl, ◌⊎◌, true, false, some, [], ◌∷◌, ◌++◌, arith}
use keg_pulse.Base.Text.{Text, codes, ◌=t◌}
use keg_pulse.Base.Try.{err}
use keg_pulse.Security.Sessions.{
  SecuritySession, Sessions, get_session, touched, idle_ms, absolute_ms, prune, drop_expired,
  is_expired, lookup,
}
use keg_pulse.Security.Access.{
  HttpError, Request, Policy, Attempts, is_local_client, require_csrf, csrf_matches, require_access,
  require_display_access, require_operational, websocket_allowed, drop_old, attempts_of, client_of,
  is_ascii, login, throttle,
}
use keg_pulse.Security.Live.{get_session_found}
use keg_pulse.Security.Stored.{Stored}
use keg_pulse.Security.Guards.{stranger_refused, require_operational_admits}
use keg_pulse.Security.Throttle.{login_locked, login_failed}

abbrev visitor : SecuritySession
visitor = record {
  token = codes "t";
  csrf = codes "c";
  created = 1000;
  last_seen = 2000;
  admin = false;
}

abbrev sessions : Sessions
sessions = (codes "t", visitor) ∷ []

abbrev lan_only : Policy
lan_only = record { lan_mode = true; lan_display = false; pin_configured = true }

abbrev remote : Request
remote = record {
  cookie = some (codes "t");
  csrf_header = some (codes "c");
  client_host = some (codes "10.0.0.5");
}

abbrev local : Request
local = record remote { client_host = some (codes "127.0.0.1") }

stranger_refused_example :
    ((require_access lan_only 3000 remote sessions).0 ≡ err HttpError.login_required)
    × ((require_display_access lan_only 3000 remote sessions).0 ≡ err HttpError.login_required)
    × ((websocket_allowed lan_only 3000 remote sessions).0 ≡ false)
    × ((r : HttpError) × ((require_operational lan_only 3000 remote sessions).0 ≡ err r))
stranger_refused_example =
    stranger_refused lan_only 3000 remote sessions (refl, tt) refl refl
      (unfold is_local_client ◌=t◌ in refl)

get_session_found_example :
    (r : SecuritySession) × (touched 3000 visitor ≡ touched 3000 r)
    × (r.admin ≡ false)
    × (3000 ≤ r.last_seen + idle_ms)
    × (3000 ≤ r.created + absolute_ms)
get_session_found_example =
    get_session_found (λ s. s.admin ≡ false) 3000 (some (codes "t")) sessions (touched 3000 visitor)
      (refl, tt) (unfold get_session prune drop_expired is_expired lookup ◌=t◌ in refl)

require_operational_admits_example :
    (k : Text) × (r : SecuritySession) × (local.cookie ≡ some k)
    × Stored k r sessions
    × (3000 ≤ r.last_seen + 30 * 60 * 1000)
    × (3000 ≤ r.created + 12 * 60 * 60 * 1000)
    × (local.csrf_header ≡ some r.csrf)
    × (touched 3000 visitor ≡ record r { last_seen = 3000 })
    × ((lan_only.lan_mode ≡ false)
        ⊎ (r.admin ≡ true)
        ⊎ (local.client_host ≡ some (codes "127.0.0.1"))
        ⊎ (local.client_host ≡ some (codes "::1")))
require_operational_admits_example =
    require_operational_admits lan_only 3000 local sessions (touched 3000 visitor) (
      unfold require_operational require_csrf csrf_matches is_ascii is_local_client get_session
        prune drop_expired is_expired lookup ◌=t◌ in
      refl)

abbrev failures : Attempts
failures = record {
  by_client = (codes "10.0.0.5", 1000 ∷ 2000 ∷ 3000 ∷ 4000 ∷ 5000 ∷ []) ∷ [];
  overall = 1000 ∷ 2000 ∷ 3000 ∷ 4000 ∷ 5000 ∷ [];
}

login_locked_example :
    ((login true 6000 (codes "x") (codes "y") remote failures sessions).0
      ≡ err HttpError.too_many_attempts)
    × ((login true 6000 (codes "x") (codes "y") remote failures sessions).2 ≡ sessions)
login_locked_example =
    login_locked true 6000 (codes "x") (codes "y") remote failures sessions []
      (1000 ∷ 2000 ∷ 3000 ∷ 4000 ∷ 5000 ∷ []) (unfold client_of attempts_of ◌=t◌ in refl)
      (ground arith, (ground arith, (ground arith, (ground arith, (ground arith, tt)))))
      (ground arith)

abbrev no_failures : Attempts
no_failures = record { by_client = []; overall = [] }

login_failed_example :
    (attempts_of
        (client_of remote)
        (login false 6000 (codes "x") (codes "y") remote no_failures sessions).1.by_client
      ≡ drop_old 6000 (attempts_of (client_of remote) []) ++ (6000 ∷ []))
    × ((login false 6000 (codes "x") (codes "y") remote no_failures sessions).1.overall
        ≡ drop_old 6000 [] ++ (6000 ∷ []))
login_failed_example =
    login_failed 6000 (codes "x") (codes "y") remote no_failures sessions
      (unfold login throttle drop_old attempts_of client_of in refl)
