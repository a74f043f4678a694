-- ===== src/Dashboard/Session.antt =====
-- dashboard/security.py: `login_required` and `require_role`.
pub mod Access
use intrusion_detection_syst.Prelude.{
  ℕ, ◌+◌, String, Bool, true, false, ◌&&◌, ◌||◌, Option, none, some, List, ltb, leb, if◌then◌else◌,
  string_eq,
}
use intrusion_detection_syst.Prelude.Lists.{contains}
use intrusion_detection_syst.Prelude.Text.{starts_with}
use intrusion_detection_syst.Auth.Store.{Db}
use intrusion_detection_syst.Dashboard.Queries.{get_active_role}

-- The signed cookie: an entry that is absent or of another type is `none`, and so is a time that is
-- not finite.
pub record Session : Type 0 where
  pub user_id : Option String
  pub authenticated_at : Option ℕ
  pub role : Option String

abbrev pub cleared : Session
cleared = record { user_id = none; authenticated_at = none; role = none }

pub data Refusal : Type 0 where
  unauthorized to_login forbidden : Refusal

-- A view is refused, or entered with the session that the wrapper leaves.
pub data Gate : Type 0 where
  refused : Refusal → Session → Gate
  entered : Session → Gate

-- `0 <= time.time() - authenticated_at < lifetime`
abbrev pub is_valid_time : ℕ → ℕ → Option ℕ → Bool
is_valid_time now lifetime none = false
is_valid_time now lifetime (some since) = leb since now && ltb now (since + lifetime)

abbrev pub role_now : Bool → Option String → Option Db → Option String
role_now valid_time (some username) db = if valid_time then get_active_role username db else none
role_now valid_time none db = none

abbrev pub is_api : String → Bool
is_api path = starts_with path "/api/" || starts_with path "/events/"

unfoldable pub enter : String → Session → Option String → Gate
enter path s none = refused (if is_api path then unauthorized else to_login) cleared
enter path s (some role) = entered (record s { role = some role })

-- `db` is the database as `get_active_role` reads it.
unfoldable pub login_required : ℕ → ℕ → String → Option Db → Session → Gate
unfolding enter
login_required now lifetime path db s =
    enter path s (role_now (is_valid_time now lifetime s.authenticated_at) s.user_id db)

abbrev pub has_role : List String → Option String → Bool
has_role roles none = false
has_role roles (some role) = contains role roles

unfoldable pub check_role : List String → Gate → Gate
check_role roles (refused r s) = refused r s
check_role roles (entered s) = if has_role roles s.role then entered s else refused forbidden s

unfoldable pub require_role : List String → ℕ → ℕ → String → Option Db → Session → Gate
unfolding login_required check_role
require_role roles now lifetime path db s = check_role roles (login_required now lifetime path db s)
