-- ===== src/Security/Hosts.antt =====
-- The Host and Origin checks of src/kegpulse/security.py, on ASCII texts, and `context`.
use keg_pulse.Base.{
  ℕ, ◌+◌, Bool, false, ◌&&◌, ◌||◌, Option, none, some, List, [], ◌∷◌, ◌++◌, leb, ◌==◌,
  if◌then◌else◌, not, length,
}
use keg_pulse.Base.Text.{Text, codes, ◌=t◌}
use keg_pulse.Base.Strip.{rstrip_by, strip}
use keg_pulse.Protocol.Bytes.{all, is_digit, is_upper, rsplit}
use keg_pulse.Security.Sessions.{SecuritySession, Sessions, get_session, new_session}
use keg_pulse.Security.Access.{Request, Policy, is_local_client}

-- `text.lower()`
unfoldable pub lower : Text → Text
unfolding is_upper
lower [] = []
lower (c ∷ cs) = (if is_upper c then c + 32 else c) ∷ lower cs

-- `text[: text.find("]") + 1]`, or the text without a `]`
unfoldable pub to_bracket : Text → Text
to_bracket [] = []
to_bracket (c ∷ cs) = let rest = to_bracket cs in if c == b']' then c ∷ [] else c ∷ rest

unfoldable pub is_port : Text → Bool
is_port t = leb 1 (length t) && all is_digit t

-- The host of a value that is stripped and in lower case
unfoldable pub host_of : Text → Text
unfolding to_bracket is_port
host_of [] = []
host_of (c ∷ cs) = if c == b'[' then to_bracket (c ∷ cs) else elim (rsplit b':' (c ∷ cs)) [
  | none ↦ c ∷ cs
  | some (host, port) ↦ if is_port port then host else c ∷ cs
]

-- `host_without_port`
unfoldable pub host_without_port : Text → Text
unfolding lower strip host_of
host_without_port value = host_of (lower (strip value))

-- The text is one of these in lower case.
unfoldable pub is_one_of : Text → List Text → Bool
unfolding lower ◌=t◌
is_one_of t [] = false
is_one_of t (u ∷ us) = t =t lower u || is_one_of t us

-- `allowed_host`
unfoldable pub allowed_host : List Text → Bool → Text → Bool
unfolding is_one_of
allowed_host allowed_hosts testing host_header =
    let host = host_without_port host_header in
    is_one_of host (codes "127.0.0.1" ∷ codes "localhost" ∷ codes "[::1]" ∷ allowed_hosts)
    || testing && host =t codes "testserver"

-- `text.lower().rstrip("/")`
unfoldable pub plain_origin : Text → Text
unfolding lower rstrip_by
plain_origin t = rstrip_by (λ c. c == b'/') (lower t)

unfoldable pub is_origin_of : Text → List Text → Bool
unfolding plain_origin ◌=t◌
is_origin_of t [] = false
is_origin_of t (u ∷ us) = t =t plain_origin u || is_origin_of t us

-- `allowed_origin`
unfoldable pub allowed_origin : List Text → Option Text → Text → Bool
unfolding plain_origin is_origin_of
allowed_origin allowed_origins none host_header = false
allowed_origin allowed_origins (some origin) host_header =
    let host = lower host_header in
    let given = plain_origin origin in
    leb 1 (length origin)
    && not (origin =t codes "null")
    && (given =t codes "http://" ++ host
        || given =t codes "https://" ++ host
        || is_origin_of given allowed_origins)

-- What `context` returns to the browser
pub record SecurityContext : Type 0 where
  pub csrf_token : Text
  pub pin_configured : Bool
  pub authenticated : Bool
  pub lan_mode : Bool
  pub lan_display : Bool
  pub local_client : Bool

unfoldable pub context_of : Policy → Request → SecuritySession → SecurityContext
context_of policy request s = record {
  csrf_token = s.csrf;
  pin_configured = policy.pin_configured;
  authenticated = s.admin;
  lan_mode = policy.lan_mode;
  lan_display = policy.lan_display;
  local_client = is_local_client request.client_host;
}

-- `context`: the session that is found, or a new one, whose texts are given. The cookie is left out.
unfoldable pub context : Policy → ℕ → Text → Text → Request → Sessions → SecurityContext × Sessions
unfolding context_of
context policy now token csrf request ss =
    let (existing, ss') = get_session now request.cookie ss in
    elim existing [
      | some s ↦ (context_of policy request s, ss')
      | none ↦
          let (s, ss'') = new_session now token csrf (not policy.pin_configured) ss' in
          (context_of policy request s, ss'')
    ]
