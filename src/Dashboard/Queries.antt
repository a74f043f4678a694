-- ===== src/Dashboard/Queries.antt =====
-- dashboard/queries.py: the read-only queries. `none` is a query that sqlite3 fails, such as one on a
-- missing table, and each query answers it with its default.
use intrusion_detection_syst.Prelude.{
  ℕ, suc, ◌+◌, String, Bool, true, false, Option, none, some, List, [], ◌∷◌, ltb, if◌then◌else◌,
  ◌==◌, nat_eq, string_eq,
}
use intrusion_detection_syst.Prelude.Lists.{keep, length, take}
use intrusion_detection_syst.Prelude.Dict.{Dict, get, put}
use intrusion_detection_syst.Prelude.Sorting.{sort_newest}
use intrusion_detection_syst.Auth.Store.{User, Db}
use intrusion_detection_syst.Auth.Users.{get_user_role}
use intrusion_detection_syst.Logs.Integrity.Chain.{Row}
use intrusion_detection_syst.Logs.Integrity.Seal.{is_after}
use intrusion_detection_syst.Logs.Maintenance.{FimRow}
use intrusion_detection_syst.Detection.Correlation.Sweep.{Incident}

-- A text that is absent or empty is false.
abbrev pub is_given : Option String → Bool
is_given none = false
is_given (some s) = if s == "" then false else true

-- An SQL LIMIT: a negative one is no limit.
pub data Limit : Type 0 where
  at_most : ℕ → Limit
  negative : ℕ → Limit

abbrev pub limited {ℓ} : {A : Type ℓ} → Limit → List A → List A
limited (at_most n) xs = take n xs
limited (negative n) xs = xs

unfoldable pub get_active_role : String → Option Db → Option String
get_active_role username none = none
get_active_role username (some db) = get_user_role username db

-- ORDER BY timestamp DESC, where rows of one time keep their order
unfoldable pub get_recent_audit_events : ℕ → Option (List Row) → List Row
get_recent_audit_events limit none = []
get_recent_audit_events limit (some rows) = take limit (sort_newest (λ r. r.timestamp) rows)

unfoldable pub get_fim_events_count : Option (List FimRow) → ℕ
get_fim_events_count none = 0
get_fim_events_count (some rows) = length rows

unfoldable pub get_active_users_count : Option (List User) → ℕ
get_active_users_count none = 0
get_active_users_count (some users) = length (keep (λ u. u.is_active) users)

abbrev pub is_network : Row → Bool
is_network r = r.module_source == "network_sensor"

unfoldable pub get_network_events : ℕ → Option (List Row) → List Row
get_network_events limit none = []
get_network_events limit (some rows) =
    take limit (sort_newest (λ r. r.timestamp) (keep is_network rows))

unfoldable pub get_network_events_count : Option (List Row) → ℕ
get_network_events_count none = 0
get_network_events_count (some rows) = length (keep is_network rows)

abbrev pub has_status : Option String → Incident → Bool
has_status none i = true
has_status (some s) i = if s == "" then true else i.status == s

unfoldable pub get_incidents : Limit → Option String → Option (List Incident) → List Incident
get_incidents limit status none = []
get_incidents limit status (some rows) =
    limited limit (sort_newest (λ i. i.created_at) (keep (has_status status) rows))

unfoldable pub get_open_incidents_count : Option (List Incident) → ℕ
get_open_incidents_count none = 0
get_open_incidents_count (some rows) = length (keep (λ i. i.status == "open") rows)

abbrev pub or_none : Option ℕ → ℕ
or_none none = 0
or_none (some n) = n

unfoldable pub count_levels : Dict String ℕ → List Row → Dict String ℕ
count_levels counts [] = counts
count_levels counts (r ∷ rows) =
    count_levels (put counts r.level (suc (or_none (get counts r.level)))) rows

-- SELECT level, COUNT(*) ... GROUP BY level
unfoldable pub get_event_counts_by_level : Option (List Row) → Dict String ℕ
unfolding count_levels
get_event_counts_by_level none = []
get_event_counts_by_level (some rows) = count_levels [] rows

unfoldable pub database_is_readable : Option (List Row) → Bool
database_is_readable none = false
database_is_readable (some rows) = true

-- The sizes of the database file and of its write-ahead log; `none` is an OSError.
unfoldable pub get_database_size_bytes : Option ℕ → Option ℕ → ℕ
get_database_size_bytes main wal = or_none main + or_none wal

abbrev pub latest : ℕ → List Row → ℕ
latest t [] = t
latest t (r ∷ rows) = latest (if ltb t r.timestamp then r.timestamp else t) rows

unfoldable pub get_latest_event_timestamp : Option (List Row) → ℕ
get_latest_event_timestamp none = 0
get_latest_event_timestamp (some rows) = latest 0 rows

-- ORDER BY id ASC is the order of the table.
unfoldable pub get_audit_events_since : ℕ → ℕ → Option (List Row) → List Row
get_audit_events_since last_id limit none = []
get_audit_events_since last_id limit (some rows) = take limit (keep (is_after last_id) rows)
