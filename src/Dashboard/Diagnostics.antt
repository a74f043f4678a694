-- ===== src/Dashboard/Diagnostics.antt =====
-- dashboard/diagnostics.py: the checks before startup and their report. Each check is the lines that
-- it adds to the report.
pub mod Ready
pub mod Report
use intrusion_detection_syst.Prelude.{
  ℕ, ◌-◌, String, ◌<>◌, Bool, true, false, not, ◌&&◌, ◌||◌, Option, none, some, List, [], ◌∷◌, ◌++◌,
  map, ltb, max, if◌then◌else◌, ◌==◌, string_eq, nat_eq,
}
use intrusion_detection_syst.Prelude.Lists.{length, keep, contains}
use intrusion_detection_syst.Prelude.Text.{codes}

pub data Status : Type 0 where
  ok_status warn_status fail_status : Status

pub record Check : Type 0 where
  pub name : String
  pub status : Status
  pub detail : String

-- `DB_PATH`'s directory: absent, not writable, or writable with the file there or not.
pub data DbDirectory : Type 0 where
  missing unwritable : String → DbDirectory
  writable : (exists : Bool) → DbDirectory

-- The environment (`none` for a variable that is not set) and what else the checks ask: the error
-- type that Fernet raises for a key, the directory of a path, the scheme that urlparse finds,
-- whether a path exists, and whether waitress can be imported.
pub record Machine : Type 0 where
  pub getenv : String → Option String
  pub fernet_error : String → Option String
  pub db_directory : String → DbDirectory
  pub scheme : String → String
  pub exists : String → Bool
  pub has_waitress : Bool
  pub clean : String → String
  pub strip : String → String
  pub str : ℕ → String

abbrev pub default_to : String → Option String → String
default_to d none = d
default_to d (some s) = s

abbrev pub placeholders : List String
placeholders = "your_64_character_hex_secret_here" ∷ "your_fernet_key_here" ∷ "changeme" ∷ "" ∷ []

abbrev pub check_line : String → Status → String → List Check
check_line name status detail = record { name = name; status = status; detail = detail } ∷ []

abbrev pub is_env_production : Machine → Bool
is_env_production m = m.clean (default_to "" (m.getenv "FLASK_ENV")) == "production"

abbrev pub is_production : Machine → Option Bool → Bool
is_production m none = is_env_production m
is_production m (some explicit) = explicit

unfoldable pub check_flask_secret : Machine → List Check
check_flask_secret m =
    let secret = default_to "" (m.getenv "FLASK_SECRET_KEY") in
    if contains secret placeholders
    then check_line "FLASK_SECRET_KEY" fail_status
        "Missing or placeholder. Generate: python -c \"import secrets; print(secrets.token_hex(32))\""
    else if ltb (length (codes secret)) 32
    then check_line "FLASK_SECRET_KEY" warn_status (
        "Set but short ("
        <> m.str (length (codes secret))
        <> " chars); use >= 64 hex chars for full entropy.")
    else check_line "FLASK_SECRET_KEY" ok_status "Present."

abbrev pub key_line : Option String → List Check
key_line none = check_line "MFA_ENCRYPTION_KEY" ok_status "Valid Fernet key."
key_line (some error) =
    check_line "MFA_ENCRYPTION_KEY" fail_status ("Invalid Fernet key (" <> error <> ").")

unfoldable pub check_mfa_key : Machine → List Check
check_mfa_key m =
    let key = default_to "" (m.getenv "MFA_ENCRYPTION_KEY") in
    if contains key placeholders
    then check_line "MFA_ENCRYPTION_KEY" fail_status
        "Missing or placeholder. Generate: python -c \"from cryptography.fernet import Fernet; print(Fernet.generate_key().decode())\""
    else key_line (m.fernet_error key)

abbrev pub db_line : String → DbDirectory → List Check
db_line path (missing parent) =
    check_line "DB_PATH" warn_status ("Parent directory does not exist yet: " <> parent)
db_line path (unwritable parent) =
    check_line "DB_PATH" fail_status ("Directory not writable: " <> parent)
db_line path (writable exists) =
    check_line "DB_PATH" ok_status
      (path <> " (" <> (if exists then "exists" else "will be created") <> "; dir writable).")

abbrev pub db_path_of : Machine → String
db_path_of m = default_to "./logs/ids_database.sqlite3" (m.getenv "DB_PATH")

unfoldable pub check_db_path : Machine → List Check
check_db_path m = db_line (db_path_of m) (m.db_directory (db_path_of m))

unfoldable pub check_flask_env : Machine → Bool → List Check
check_flask_env m production =
    let env = m.clean (default_to "development" (m.getenv "FLASK_ENV")) in
    if not (env == "development" || env == "production")
    then check_line "FLASK_ENV" warn_status
        ("Unrecognized value '" <> env <> "'; expected 'development' or 'production'.")
    else if env == "development" && production
    then check_line "FLASK_ENV" warn_status
        "Serving in production mode but FLASK_ENV != production (secure cookies, HSTS, and HTTPS redirect stay OFF)."
    else check_line "FLASK_ENV" ok_status env

unfoldable pub check_production_server : Machine → Bool → List Check
check_production_server m production =
    if not production
    then []
    else if m.has_waitress
    then check_line "Production server" ok_status "Waitress available."
    else check_line "Production server" fail_status
        "Waitress not installed. Install: pip install waitress"

unfoldable pub check_backoff_mode : Machine → List Check
check_backoff_mode m =
    if m.clean (default_to "" (m.getenv "MFA_BACKOFF_MODE")) == "sleep"
    then check_line "MFA_BACKOFF_MODE" warn_status
        "Set to 'sleep' for the web tier — a blocking backoff is a DoS vector; prefer 'reject'."
    else []

unfoldable pub check_ai : Machine → List Check
check_ai m =
    let backend = m.clean (default_to "none" (m.getenv "AI_BACKEND")) in
    let scheme =
      m.scheme (default_to "http://127.0.0.1:11434/v1/chat/completions" (m.getenv "AI_ENDPOINT")) in
    if backend == "none" || backend == ""
    then []
    else if scheme == "http" || scheme == "https"
    then check_line "AI assist" ok_status
        ("backend=" <> backend <> ", endpoint scheme " <> scheme <> ".")
    else check_line "AI_ENDPOINT" warn_status ("Unsupported scheme '" <> scheme <> "'.")

unfoldable pub check_list_path : Machine → String → List Check
check_list_path m var =
    let path = m.strip (default_to "" (m.getenv var)) in
    if path == ""
    then []
    else if m.exists path
    then check_line var ok_status path
    else check_line var warn_status ("Configured but file not found: " <> path)

unfoldable pub check_metrics : Machine → Bool → List Check
check_metrics m production =
    if production && default_to "" (m.getenv "METRICS_TOKEN") == ""
    then check_line "METRICS_TOKEN" warn_status
        "Unset in production: /metrics is public. Set a token or restrict at the proxy."
    else []

unfoldable pub check_optional_features : Machine → Bool → List Check
check_optional_features m production =
    check_ai m
    ++ (check_list_path m "IOC_IP_LIST_PATH"
        ++ (check_list_path m "IOC_DOMAIN_LIST_PATH" ++ check_metrics m production))

unfoldable pub run_diagnostics : Machine → Option Bool → List Check
run_diagnostics m explicit =
    let production = is_production m explicit in
    check_flask_secret m
    ++ (check_mfa_key m
        ++ (check_db_path m
            ++ (check_flask_env m production
                ++ (check_production_server m production
                    ++ (check_backoff_mode m ++ check_optional_features m production)))))

abbrev pub is_fail : Status → Bool
is_fail fail_status = true
is_fail _ = false

abbrev pub is_failure_line : Check → Bool
is_failure_line c = is_fail (c.status)

unfoldable pub is_ready : List Check → Bool
is_ready checks = not (ltb 0 (length (keep is_failure_line checks)))
