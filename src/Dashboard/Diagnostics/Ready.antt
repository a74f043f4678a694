-- ===== src/Dashboard/Diagnostics/Ready.antt =====
-- dashboard/diagnostics.py: what blocks the startup.
use intrusion_detection_syst.Prelude.{
  String, Bool, true, false, not, ◌&&◌, ◌||◌, Option, none, some, List, [], ◌++◌, ltb,
  if◌then◌else◌, string_eq, ◌≡◌, refl, inl, inr, Bool-cases, arith,
}
use intrusion_detection_syst.Prelude.Lists.{length, keep, contains, keep-append, length-append}
use intrusion_detection_syst.Prelude.Text.{codes}
use intrusion_detection_syst.Dashboard.Diagnostics.{
  Machine, ok_status, warn_status, check_line, Check, DbDirectory, missing, unwritable, writable,
  default_to, placeholders, is_production, is_failure_line, is_ready, db_path_of, run_diagnostics,
  check_flask_secret, check_mfa_key, key_line, check_db_path, db_line, check_flask_env,
  check_production_server, check_backoff_mode, check_ai, check_list_path, check_metrics,
  check_optional_features,
}

is_ready-append : (xs ys : List Check) → is_ready (xs ++ ys) ≡ (is_ready xs && is_ready ys)
unfolding is_ready
is_ready-append xs ys = ground (
  arith,
  keep-append is_failure_line xs ys,
  length-append {0} (keep is_failure_line xs) (keep is_failure_line ys),
)

abbrev has_no_error : Option String → Bool
has_no_error none = true
has_no_error (some s) = false

abbrev is_usable : DbDirectory → Bool
is_usable (unwritable parent) = false
is_usable _ = true

secret_ready :
    (m : Machine)
    → is_ready (check_flask_secret m)
      ≡ not (contains (default_to "" (m.getenv "FLASK_SECRET_KEY")) placeholders)
unfolding check_flask_secret is_ready
secret_ready m =
    elim (Bool-cases (contains (default_to "" (m.getenv "FLASK_SECRET_KEY")) placeholders)) [
      | inl t ↦ simp t refl
      | inr t ↦
          elim (Bool-cases
            (ltb (length (codes (default_to "" (m.getenv "FLASK_SECRET_KEY")))) 32)) [
              | inl u ↦ simp (t, u) refl
              | inr u ↦ simp (t, u) refl
            ]
    ]

key_ready :
    (m : Machine)
    → is_ready (check_mfa_key m) ≡ (
        not (contains (default_to "" (m.getenv "MFA_ENCRYPTION_KEY")) placeholders)
        && has_no_error (m.fernet_error (default_to "" (m.getenv "MFA_ENCRYPTION_KEY"))))
unfolding check_mfa_key is_ready
key_ready m =
    elim (Bool-cases (contains (default_to "" (m.getenv "MFA_ENCRYPTION_KEY")) placeholders)) [
      | inl t ↦ simp t refl
      | inr t ↦ simp t (line_ready (m.fernet_error (default_to "" (m.getenv "MFA_ENCRYPTION_KEY"))))
    ]
  where
    line_ready : (error : Option String) → is_ready (key_line error) ≡ has_no_error error
    line_ready none = refl
    line_ready (some e) = refl

db_ready : (m : Machine) → is_ready (check_db_path m) ≡ is_usable (m.db_directory (db_path_of m))
unfolding check_db_path is_ready
db_ready m = line_ready (m.db_directory (db_path_of m))
  where
    line_ready : (d : DbDirectory) → is_ready (db_line (db_path_of m) d) ≡ is_usable d
    line_ready (missing parent) = refl
    line_ready (unwritable parent) = refl
    line_ready (writable exists) = refl

is_ready-if :
    (test : Bool) (xs ys : List Check)
    → is_ready (if test then xs else ys) ≡ (if test then is_ready xs else is_ready ys)
is_ready-if true xs ys = refl
is_ready-if false xs ys = refl

if_same : (test value : Bool) → (if test then value else value) ≡ value
if_same true value = refl
if_same false value = refl

warn_ready : (name detail : String) → is_ready (check_line name warn_status detail) ≡ true
unfolding is_ready
warn_ready name detail = refl

ok_ready : (name detail : String) → is_ready (check_line name ok_status detail) ≡ true
unfolding is_ready
ok_ready name detail = refl

no_line : is_ready [] ≡ true
unfolding is_ready
no_line = refl

ruleset passing = (is_ready-if, if_same, warn_ready, ok_ready, no_line)

env_ready : (m : Machine) (production : Bool) → is_ready (check_flask_env m production) ≡ true
unfolding check_flask_env
env_ready m production = simp passing refl

server_ready :
    (m : Machine) (production : Bool)
    → is_ready (check_production_server m production) ≡ (not production || m.has_waitress)
unfolding check_production_server is_ready
server_ready m false = refl
server_ready m true = elim (Bool-cases m.has_waitress) [ inl t ↦ simp t refl | inr t ↦ simp t refl ]

backoff_ready : (m : Machine) → is_ready (check_backoff_mode m) ≡ true
unfolding check_backoff_mode
backoff_ready m = simp passing refl

ai_ready : (m : Machine) → is_ready (check_ai m) ≡ true
unfolding check_ai
ai_ready m = simp passing refl

list_ready : (m : Machine) (var : String) → is_ready (check_list_path m var) ≡ true
unfolding check_list_path
list_ready m var = simp passing refl

metrics_ready : (m : Machine) (production : Bool) → is_ready (check_metrics m production) ≡ true
unfolding check_metrics
metrics_ready m production = simp passing refl

optional_ready :
    (m : Machine) (production : Bool) → is_ready (check_optional_features m production) ≡ true
unfolding check_optional_features
optional_ready m production =
    simp
      (
        is_ready-append,
        ai_ready m,
        list_ready m "IOC_IP_LIST_PATH",
        list_ready m "IOC_DOMAIN_LIST_PATH",
        metrics_ready m production,
      )
      refl

and_true : (a : Bool) → (a && true) ≡ a
and_true true = refl
and_true false = refl

-- The startup is blocked exactly by a secret that is missing or a placeholder, an encryption key
-- that is one or that Fernet refuses, a database directory that exists and is not writable, and in
-- production by waitress missing; no other check blocks it.
pub run_diagnostics-is_ready :
    (m : Machine) (explicit : Option Bool)
    → is_ready (run_diagnostics m explicit) ≡ (
        not (contains (default_to "" (m.getenv "FLASK_SECRET_KEY")) placeholders)
        && ((not (contains (default_to "" (m.getenv "MFA_ENCRYPTION_KEY")) placeholders)
              && has_no_error (m.fernet_error (default_to "" (m.getenv "MFA_ENCRYPTION_KEY"))))
            && (is_usable (m.db_directory (db_path_of m))
                && (not (is_production m explicit) || m.has_waitress))))
unfolding run_diagnostics
run_diagnostics-is_ready m explicit =
    let production = is_production m explicit in
    simp
      (
        is_ready-append,
        secret_ready m,
        key_ready m,
        db_ready m,
        env_ready m production,
        server_ready m production,
        backoff_ready m,
        optional_ready m production,
        and_true,
      )
      refl
