-- ===== src/Auth/Users.antt =====
-- auth/core.py: `enroll_user`, `revoke_user`, `get_user_role`, `set_user_role` and `list_users`.
pub mod Revocation
pub mod Enrolling
pub mod Roles
use intrusion_detection_syst.Prelude.{
  ℕ, zero, suc, ◌+◌, ◌/◌, String, ◌<>◌, Bool, true, false, ◌&&◌, ◌||◌, Option, none, some, List, [],
  ◌∷◌, ◌++◌, map, ◌==◌, nat_eq, string_eq, if◌then◌else◌,
}
use intrusion_detection_syst.Prelude.Lists.{any, find?, keep, length}
use intrusion_detection_syst.Prelude.Sorting
use intrusion_detection_syst.Prelude.Sorting.{sort_newest}
use intrusion_detection_syst.Auth.Events.{
  info, warning, user_revoked, role_changed, revoked, role_change, text, number, Context, AuthEvent,
  Sinks, EventName, Level, Reason, build_event_context, dispatch_event,
}
use intrusion_detection_syst.Auth.Store.{User, RecoveryCode, Db, find_user}
use intrusion_detection_syst.Auth.Backoff.{Config, ticks, recovery_codes_count}
use intrusion_detection_syst.Auth.Token.{World}

-- What `enroll_user` draws at random and takes from pyotp, Fernet and scrypt: a secret, the code
-- and the salt of each turn of the loop, and the functions that it calls.
pub record Enrollment : Type 0 where
  pub raw_secret : String
  pub draw : ℕ → String × String
  pub encrypt : String → String
  pub scrypt : String → String → String
  pub provisioning_uri : String → String → String

pub data Enrolled : Type 0 where
  enrolled : String → List String → Enrolled
  already_exists : Enrolled

-- The loop that draws the codes, with the salts that `_hash_recovery_code` draws for them.
unfoldable pub draw_codes : (ℕ → String × String) → ℕ → List (String × String)
draw_codes draw zero = []
draw_codes draw (suc n) = draw n ∷ draw_codes draw n

abbrev pub has_name : String → User → Bool
has_name username u = u.username == username

-- INSERT INTO users; `none` is the IntegrityError of the UNIQUE column.
unfoldable pub insert_user : String → String → ℕ → Db → Option Db
insert_user username encrypted_secret now db =
    if any (has_name username) db.users
    then none
    else some (record db {
      users =
          db.users
          ++ record {
            id = suc db.last_user_id;
            username = username;
            encrypted_secret = encrypted_secret;
            is_active = true;
            role = "analyst";
            created_at = now;
          }
            ∷ [];
      last_user_id = suc db.last_user_id;
    })

-- The loop of INSERT INTO recovery_codes.
unfoldable pub insert_codes : (String → String → String) → ℕ → List (String × String) → Db → Db
insert_codes scrypt user_id [] db = db
insert_codes scrypt user_id ((code, salt) ∷ rest) db = insert_codes scrypt user_id rest (record db {
  recovery_codes =
      db.recovery_codes
      ++ record {
        id = suc db.last_code_id;
        user_id = user_id;
        hashed_code = scrypt code salt;
        salt = salt;
      }
        ∷ [];
  last_code_id = suc db.last_code_id;
})

-- The `try` block: the inserts, or the rollback of the UNIQUE violation.
unfoldable pub store_user :
    Enrollment → String → List (String × String) → Db → Option Db → Enrolled × Db
unfolding insert_codes
store_user e username codes db none = (already_exists, db)
store_user e username codes db (some db') = (
  enrolled (e.provisioning_uri e.raw_secret username) (map (λ c. c.0) codes),
  insert_codes e.scrypt db'.last_user_id codes db',
)

-- After the SELECT. `race` is what others commit between it and the INSERT.
unfoldable pub enroll_found :
    Enrollment → List (String × String) → String → ℕ → (Db → Db) → Option User → Db → Enrolled × Db
unfolding store_user
enroll_found e codes username now race (some _) db = (already_exists, db)
enroll_found e codes username now race none db =
    store_user e username codes (race db)
      (insert_user username (e.encrypt e.raw_secret) now (race db))

unfoldable pub enroll_user : Enrollment → Option ℕ → String → ℕ → (Db → Db) → Db → Enrolled × Db
unfolding enroll_found
enroll_user e setting username now race db =
    enroll_found e (draw_codes e.draw (recovery_codes_count setting)) username now race
      (find_user username db) db

unfoldable pub announce :
    Config → Sinks → ℕ → EventName → Level → String → Reason → Context → World → World
announce cfg sinks now name level message reason extra w =
    let (event, out) =
      dispatch_event sinks
        (record {
          level = level;
          event_name = name;
          message = message;
          module_source = "auth";
          timestamp = now;
          context = build_event_context cfg.alert_threshold reason 0 0 extra;
        })
        w.out in
    record w { out = out }

abbrev pub deactivate : ℕ → User → User
deactivate user_id u = if u.id == user_id then record u { is_active = false } else u

unfoldable pub revoke_found :
    Config → Sinks → ℕ → String → Option User → World → (Bool × String) × World
unfolding announce
revoke_found cfg sinks now username none w = ((false, "not_found"), w)
revoke_found cfg sinks now username (some user) w =
    if user.is_active
    then (let db = record w.db { users = map (deactivate user.id) w.db.users } in
        (
          (true, "success"),
          announce cfg sinks now user_revoked warning
              ("User '" <> username <> "' revoked (soft-deleted).") revoked
              (("user_id", number user.id) ∷ []) (record w { db = db }),
        ))
    else ((false, "already_revoked"), w)

unfoldable pub revoke_user : Config → Sinks → ℕ → String → World → (Bool × String) × World
unfolding revoke_found
revoke_user cfg sinks now username w =
    revoke_found cfg sinks now username (find_user username w.db) w

abbrev pub is_active_named : String → User → Bool
is_active_named username u = u.username == username && u.is_active

abbrev pub role_of : Option User → Option String
role_of none = none
role_of (some u) = some u.role

-- SELECT role FROM users WHERE username = ? AND is_active = 1
unfoldable pub get_user_role : String → Db → Option String
get_user_role username db = role_of (find? (is_active_named username) db.users)

pub data RoleChange : Type 0 where
  invalid_role no_user changed : RoleChange

abbrev pub is_valid_role : String → Bool
is_valid_role role = role == "analyst" || role == "admin" || role == "viewer"

abbrev pub assign_role : String → String → User → User
assign_role username role u = if u.username == username then record u { role = role } else u

-- `invalid_role` is the ValueError, `no_user` the return value False.
unfoldable pub set_user_role : Config → Sinks → ℕ → String → String → World → RoleChange × World
unfolding announce
set_user_role cfg sinks now username role w =
    if is_valid_role role
    then (if any (has_name username) w.db.users
        then (let db = record w.db { users = map (assign_role username role) w.db.users } in
            (
              changed,
              announce cfg sinks now role_changed info
                  ("Role for user '" <> username <> "' set to '" <> role <> "'.") role_change
                  (("new_role", text role) ∷ []) (record w { db = db }),
            ))
        else (no_user, w))
    else (invalid_role, w)

-- A row of the listing.
pub record Listed : Type 0 where
  pub username : String
  pub created_at : ℕ
  pub role : String
  pub is_active : Bool

abbrev pub listed : User → Listed
listed u = record {
  username = u.username;
  created_at = u.created_at;
  role = u.role;
  is_active = u.is_active;
}

-- SELECT ... FROM users ORDER BY created_at DESC, where rows of one time keep their order
unfoldable pub list_users : Db → List Listed
list_users db = map listed (sort_newest (λ u. u.created_at) db.users)
