-- ===== src/Tests/Dashboard.antt =====
-- A login, a revoked session, an event stream and a startup report.
use intrusion_detection_syst.Dashboard.Diagnostics.{warn_status, fail_status, is_ready}
use intrusion_detection_syst.Dashboard.Diagnostics.Report.{
  format_report, join_lines, check_text, result_text, repeat_text,
}
use intrusion_detection_syst.Prelude.Text.{codes}
use intrusion_detection_syst.Prelude.{
  ℕ, ◌*◌, ◌≤◌, ◌≡◌, refl, String, true, false, Option, none, some, List, [], ◌∷◌, ◌++◌,
  if◌then◌else◌, nat_eq, arith,
}
use intrusion_detection_syst.Prelude.Lists.{keep}
use intrusion_detection_syst.Auth.Store.{Db}
use intrusion_detection_syst.Auth.Users.{revoke_user}
use intrusion_detection_syst.Logs.Integrity.Chain.{Row}
use intrusion_detection_syst.Logs.Integrity.Seal.{is_after}
use intrusion_detection_syst.Logs.Integrity.Sealing.{Above}
use intrusion_detection_syst.Dashboard.Limiter.{LoginRateLimiter, check}
use intrusion_detection_syst.Dashboard.Session.{
  Session, cleared, login_required, refused, to_login, unauthorized, is_api,
}
use intrusion_detection_syst.Dashboard.Session.Access.{
  Admits, login_required-Admits, revoke_user-login_required,
}
use intrusion_detection_syst.Dashboard.Login.{LoginForm, Visit, login_submit}
use intrusion_detection_syst.Dashboard.Login.Form.{HasForm, IsDigit, IsNameChar}
use intrusion_detection_syst.Dashboard.Login.Opens.{Opens, login_submit-Opens}
use intrusion_detection_syst.Dashboard.Stream.{Stream, Round, generate}
use intrusion_detection_syst.Dashboard.Stream.Delivery.{sent, generate_exact, generate_all}
use intrusion_detection_syst.Tests.World.{db, world, cfg, sinks, crypto, times}
use intrusion_detection_syst.Tests.Auth.{db-NamesUnique}

abbrev form : LoginForm
form = record { username = "alice"; token = "222222"; client_ip = "10.0.0.9" }

abbrev limiter : LoginRateLimiter
limiter = record { max_attempts = 5; window = 60; ticks = 1; windows = [] }

abbrev visit : Visit
visit = record { limiter = limiter; world = world; session = cleared }

login_submit-Opens_example :
    ((check "10.0.0.9" 8 limiter).0.0 ≡ true)
    × HasForm IsNameChar 1 64 "alice"
    × HasForm IsDigit 6 8 "222222"
    × Opens cfg sinks crypto form times
        (λ d. d)
        (λ d. d)
        62_000_000
        visit
        (login_submit cfg sinks crypto form 8 times (λ d. d) 62_000_000 (λ d. d) visit).1
unfolding login_submit check intrusion_detection_syst.Prelude.Dict.get
    intrusion_detection_syst.Dashboard.Login.is_username
    intrusion_detection_syst.Dashboard.Login.is_totp
    intrusion_detection_syst.Auth.Token.verify_token intrusion_detection_syst.Auth.Token.verify_user
    intrusion_detection_syst.Auth.Store.find_user intrusion_detection_syst.Auth.Token.after_backoff
    intrusion_detection_syst.Auth.Backoff.enforce_backoff
    intrusion_detection_syst.Auth.Backoff.calculate_backoff_delay
    intrusion_detection_syst.Auth.Store.recent_failures
    intrusion_detection_syst.Auth.Token.check_token intrusion_detection_syst.Auth.Token.finish
    intrusion_detection_syst.Auth.Token.find_step intrusion_detection_syst.Auth.Token.candidates
    intrusion_detection_syst.Auth.Token.settle intrusion_detection_syst.Auth.Token.Consume.consume
    intrusion_detection_syst.Auth.Store.legacy_use intrusion_detection_syst.Auth.Store.is_consumed
    intrusion_detection_syst.Auth.Store.insert_consumption intrusion_detection_syst.Auth.Token.emit
    intrusion_detection_syst.Auth.Events.dispatch_event
    intrusion_detection_syst.Auth.Users.get_user_role
login_submit-Opens_example =
    login_submit-Opens cfg sinks crypto form 8 times (λ d. d) 62_000_000 (λ d. d) visit refl

abbrev session : Session
session = record { user_id = some "alice"; authenticated_at = some 10; role = some "viewer" }

login_required-Admits_example :
    Admits 20 900 (some db) session (record session { role = some "analyst" })
unfolding login_required intrusion_detection_syst.Dashboard.Queries.get_active_role
    intrusion_detection_syst.Auth.Users.get_user_role
login_required-Admits_example =
    login_required-Admits 20 900 "/" (some db) session (record session { role = some "analyst" })
      refl

revoke_user-login_required_example :
    login_required 20 900 "/" (some (revoke_user cfg sinks 5 "alice" world).1.db) session
    ≡ refused (if is_api "/" then unauthorized else to_login) cleared
unfolding revoke_user intrusion_detection_syst.Auth.Store.find_user
revoke_user-login_required_example =
    revoke_user-login_required cfg sinks 5 "alice" world 20 900 "/" session db-NamesUnique refl refl

abbrev row : ℕ → Row
row id = record {
  id = id;
  timestamp = id;
  level = "INFO";
  module_source = "auth_core";
  message = "m";
  context_data = none;
}

abbrev stream : Stream
stream = record { username = "alice"; started = 0; max_lifetime = 900; expires_at = 910 }

abbrev table : List Row
table = row 1 ∷ row 2 ∷ row 5 ∷ []

-- A round that reads two rows of three, one whose query fails, and one that reads all.
abbrev rounds : List Round
rounds =
    record { monotonic = 1; now = 11; users = some db; rows = some (row 1 ∷ row 2 ∷ []) }
    ∷ record { monotonic = 6; now = 16; users = some db; rows = none }
    ∷ record { monotonic = 11; now = 21; users = some db; rows = some table }
    ∷ []

table-Above : Above 0 table
table-Above = ground arith

generate_exact_example :
    sent (generate stream 0 rounds).0 ++ keep (is_after (generate stream 0 rounds).1) table
    ≡ keep (is_after 0) table
generate_exact_example =
    generate_exact stream table table-Above 0 rounds ((row 5 ∷ [], refl), (tt, (([], refl), tt)))

abbrev live_rounds : List Round
live_rounds = record { monotonic = 1; now = 11; users = some db; rows = some table } ∷ []

generate_all_example : sent (generate stream 0 live_rounds).0 ≡ keep (is_after 0) table
unfolding intrusion_detection_syst.Dashboard.Queries.get_active_role
    intrusion_detection_syst.Auth.Users.get_user_role
generate_all_example =
    generate_all stream table table-Above 0 live_rounds ((refl, refl), tt) (ground arith)

-- A report of two checks, aligned on the longer name.
two_checks_text :
    format_report
      (λ n. "1")
      (record { name = "FLASK_ENV"; status = warn_status; detail = "stage" }
        ∷ record { name = "DB_PATH"; status = fail_status; detail = "read-only" }
        ∷ [])
    ≡ "IDS configuration diagnostics\n==============================\n [!] FLASK_ENV  stage\n [x] DB_PATH    read-only\n------------------------------\nResult: NOT READY — 1 blocking issue(s), 1 warning(s)."
unfolding format_report join_lines check_text result_text repeat_text is_ready codes
two_checks_text = refl
