-- ===== src/Security/Throttle.antt =====
-- Failed logins lock a client out: `_throttle` and `login` of src/kegpulse/security.py.
use keg_pulse.Base.{
  ℕ, ◌+◌, ◌≤◌, ◌≡◌, refl, inl, inr, Bool, false, ◌||◌, List, [], ◌∷◌, ◌++◌, arith, leb, All, length,
  Bool-cases, length-append,
}
use keg_pulse.Base.Text.{Text, ◌=t◌, =t_refl}
use keg_pulse.Base.Try.{err}
use keg_pulse.Security.Sessions.{Sessions}
use keg_pulse.Security.Access.{
  HttpError, Request, Attempts, window_ms, drop_old, attempts_of, set_attempts, throttle,
  record_failed_attempt, client_of, login,
}

-- All these attempts still count.
abbrev pub IsRecent : ℕ → List ℕ → Type 0
IsRecent now ts = All (λ t. now ≤ t + window_ms) ts

drop_old-IsRecent : (now : ℕ) (ts : List ℕ) → IsRecent now ts → drop_old now ts ≡ ts
unfolding drop_old
drop_old-IsRecent now [] h = refl
drop_old-IsRecent now (t ∷ ts) h = (let early : now ≤ t + window_ms = h.0 in ground arith)

attempts_of-set_attempts :
    (client : Text) (ts : List ℕ) (rest : List (Text × List ℕ))
    → attempts_of client (set_attempts client ts rest) ≡ ts
unfolding attempts_of set_attempts
attempts_of-set_attempts client ts [] = rw (=t_refl client) refl
attempts_of-set_attempts client ts ((c, us) ∷ rest) =
    let ih = attempts_of-set_attempts client ts rest in
    elim (Bool-cases (client =t c)) [ inl e ↦ rw (e, e) refl | inr e ↦ rw (e, e) ih ]

drop_old-append :
    (now : ℕ) (ts : List ℕ) (us : List ℕ)
    → IsRecent now us
    → length us ≤ length (drop_old now (ts ++ us))
unfolding drop_old
drop_old-append now [] us h = rw (drop_old-IsRecent now us h) (omega arith)
drop_old-append now (t ∷ ts) us h =
    let ih = drop_old-append now ts us h in let more = length-append ts us in ground arith

-- A client whose last five failures all lie within the window is refused, whatever PIN it gives,
-- and no session is made, dropped or looked at.
pub login_locked :
    (verified : Bool) (now : ℕ) (token csrf : Text) (request : Request) (a : Attempts)
    (ss : Sessions) (older recent : List ℕ)
    → attempts_of (client_of request) a.by_client ≡ older ++ recent
    → IsRecent now recent
    → 5 ≤ length recent
    → ((login verified now token csrf request a ss).0 ≡ err HttpError.too_many_attempts)
      × ((login verified now token csrf request a ss).2 ≡ ss)
unfolding login throttle
login_locked verified now token csrf request a ss older recent e h many =
    let enough : 5 ≤ length (drop_old now (attempts_of (client_of request) a.by_client)) =
      rw e (omega (arith, drop_old-append now older recent h)) in
    (ground arith, ground arith)

-- A refused PIN is added to the client's failures that still count and to those of all clients.
pub login_failed :
    (now : ℕ) (token csrf : Text) (request : Request) (a : Attempts) (ss : Sessions)
    → (login false now token csrf request a ss).0 ≡ err HttpError.invalid_pin
    → (attempts_of (client_of request) (login false now token csrf request a ss).1.by_client
        ≡ drop_old now (attempts_of (client_of request) a.by_client) ++ (now ∷ []))
      × ((login false now token csrf request a ss).1.overall ≡ drop_old now a.overall ++ (now ∷ []))
unfolding login throttle record_failed_attempt
login_failed now token csrf request a ss h =
    let client = client_of request in
    let recent = drop_old now (attempts_of client a.by_client) in
    let first = attempts_of-set_attempts client recent a.by_client in
    let second =
      attempts_of-set_attempts client (recent ++ (now ∷ []))
        (set_attempts client recent a.by_client) in
    elim (Bool-cases (leb 5 (length recent) || leb 30 (length (drop_old now a.overall)))) [
      | inl q ↦ absurd (ground arith)
      | inr q ↦ rw q (rw (first, second) refl, refl)
    ]
