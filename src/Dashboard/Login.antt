-- ===== src/Dashboard/Login.antt =====
-- dashboard/routes.py: `login_submit`, `logout` and `api_incidents`.
pub mod Form
pub mod Opens
use intrusion_detection_syst.Prelude.{
  ℕ, zero, suc, ◌+◌, ◌/◌, String, Bool, true, false, not, ◌&&◌, ◌||◌, Option, none, some, List, [],
  ◌∷◌, ltb, leb, min, ◌==◌, nat_eq, string_eq, if◌then◌else◌,
}
use intrusion_detection_syst.Prelude.Lists.{all, length}
use intrusion_detection_syst.Prelude.Text.{codes}
use intrusion_detection_syst.Prelude.Dict.{get}
use intrusion_detection_syst.Auth.Events.{
  EventName, auth_success, auth_failure, replay_attack, crypto_error, system_error, rate_limited,
  user_revoked, role_changed, AuthEvent, Sinks, Value,
}
use intrusion_detection_syst.Auth.Store.{Db}
use intrusion_detection_syst.Auth.Backoff.{Config}
use intrusion_detection_syst.Auth.Token.{Crypto, Times, World, verify_token}
use intrusion_detection_syst.Auth.Users.{get_user_role}
use intrusion_detection_syst.Detection.Correlation.Sweep.{Incident}
use intrusion_detection_syst.Dashboard.Limiter.{LoginRateLimiter, check}
use intrusion_detection_syst.Dashboard.Queries.{Limit, at_most, negative, is_given, get_incidents}
use intrusion_detection_syst.Dashboard.Session.{Session, cleared}

abbrev pub in_chars : ℕ → ℕ → ℕ → Bool
in_chars lo hi c = leb lo c && leb c hi

-- The class [A-Za-z0-9._-]
abbrev pub is_name_char : ℕ → Bool
is_name_char c =
    in_chars b'A' b'Z' c
    || in_chars b'a' b'z' c
    || in_chars b'0' b'9' c
    || c == b'.'
    || c == b'_'
    || c == b'-'

abbrev pub is_digit : ℕ → Bool
is_digit c = in_chars b'0' b'9' c

abbrev pub of_class : (ℕ → Bool) → ℕ → ℕ → List ℕ → Bool
of_class test least most cs = all test cs && leb least (length cs) && leb (length cs) most

-- The regular expressions' `$` also matches before a newline at the end.
abbrev pub without_newline : List ℕ → List ℕ
without_newline [] = []
without_newline (c ∷ []) = if c == 10 then [] else c ∷ []
without_newline (c ∷ d ∷ cs) = c ∷ without_newline (d ∷ cs)

-- _USERNAME_RE.match
unfoldable pub is_username : String → Bool
unfolding codes
is_username s =
    of_class is_name_char 1 64 (codes s) || of_class is_name_char 1 64 (without_newline (codes s))

-- _TOTP_RE.match
unfoldable pub is_totp : String → Bool
unfolding codes
is_totp s = of_class is_digit 6 8 (codes s) || of_class is_digit 6 8 (without_newline (codes s))

-- The answers, each with what its header or flashed message adds.
pub data Reply : Type 0 where
  too_many : ℕ → Reply
  throttled : Option Value → Reply
  credentials_required failed : Reply
  home : Reply

-- The request's form: the fields as `strip` leaves them, and the address.
pub record LoginForm : Type 0 where
  pub username : String
  pub token : String
  pub client_ip : String

pub record Visit : Type 0 where
  pub limiter : LoginRateLimiter
  pub world : World
  pub session : Session

abbrev pub is_success : EventName → Bool
is_success auth_success = true
is_success _ = false

abbrev pub is_rate_limited : EventName → Bool
is_rate_limited rate_limited = true
is_rate_limited _ = false

-- From the role on: a new session, or the failure message.
unfoldable pub open_session : String → ℕ → Option String → Visit → Reply × Visit
open_session username now none v = (failed, v)
open_session username now (some role) v = (
  home,
  record v {
    session = record { user_id = some username; authenticated_at = some now; role = some role };
  },
)

abbrev pub is_blank : LoginForm → Bool
is_blank form = form.username == "" || form.token == ""

abbrev pub is_wellformed : LoginForm → Bool
is_wellformed form = is_username form.username && is_totp form.token

module _ (cfg : Config) (sinks : Sinks) (crypto : Crypto) where
  -- What `get_user_role` reads, once others have committed; `now` is the session's time.
  unfoldable pub after_verify : String → ℕ → (Db → Db) → AuthEvent → Visit → Reply × Visit
  unfolding open_session
  after_verify username now later event v =
      if is_rate_limited event.event_name
      then (throttled (get event.context "backoff_applied_seconds"), v)
      else open_session username now
          (if is_success event.event_name then get_user_role username (later v.world.db) else none)
          v

  unfoldable pub submit_checked :
      LoginForm → Times → (Db → Db) → ℕ → (Db → Db) → Visit → Reply × Visit
  unfolding after_verify
  submit_checked form times others now later v =
      let (event, world) =
        verify_token cfg sinks crypto times others form.username form.token (some form.client_ip)
          v.world in
      after_verify form.username now later event (record v { world = world })

  -- `ts` is the limiter's clock.
  unfoldable pub login_submit :
      LoginForm → ℕ → Times → (Db → Db) → ℕ → (Db → Db) → Visit → Reply × Visit
  unfolding submit_checked
  login_submit form ts times others now later v =
      let (answer, limiter) = check form.client_ip ts v.limiter in
      let v' = record v { limiter = limiter } in
      if not answer.0
      then (too_many answer.1, v')
      else if is_blank form
      then (credentials_required, v')
      else if not (is_wellformed form)
      then (failed, v')
      else submit_checked form times others now later v'

unfoldable pub logout : Visit → Visit
logout v = record v { session = cleared }

-- `min(request.args.get("limit", 50, type=int) or 50, 200)`: a limit that is absent, no number or 0
-- is 50, and `negative n` is -(n + 1).
abbrev pub cap_limit : Option Limit → Limit
cap_limit none = at_most 50
cap_limit (some (at_most zero)) = at_most 50
cap_limit (some (at_most (suc n))) = at_most (min (suc n) 200)
cap_limit (some (negative n)) = negative n

abbrev pub is_status : Option String → Bool
is_status none = true
is_status (some s) = s == "" || s == "open" || s == "acknowledged" || s == "closed"

-- The rows of the answer; `none` is the status 400.
unfoldable pub api_incidents :
    Option String → Option Limit → Option (List Incident) → Option (List Incident)
unfolding get_incidents
api_incidents status limit table =
    if is_status status then some (get_incidents (cap_limit limit) status table) else none
