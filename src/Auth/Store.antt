-- ===== src/Auth/Store.antt =====
-- The tables of auth/schema.sql and the queries of auth/core.py over them. Columns that the code
-- neither reads nor writes (used_at, ip_address) and the ids of the attempts are left out.
use intrusion_detection_syst.Prelude.{
  ℕ, ◌+◌, String, Bool, true, false, not, ◌&&◌, Option, none, some, List, [], ◌∷◌, ◌++◌, ltb,
  if◌then◌else◌, ◌==◌, nat_eq, string_eq,
}
use intrusion_detection_syst.Prelude.Lists.{keep, any, find?, length}

pub record User : Type 0 where
  pub id : ℕ
  pub username : String
  pub encrypted_secret : String
  pub is_active : Bool
  pub role : String
  pub created_at : ℕ

pub record RecoveryCode : Type 0 where
  pub id : ℕ
  pub user_id : ℕ
  pub hashed_code : String
  pub salt : String

pub record Attempt : Type 0 where
  pub user_id : ℕ
  pub timestamp : ℕ
  pub success : Bool
  pub token_fingerprint : String
  pub totp_step : Option ℕ

pub record Consumption : Type 0 where
  pub user_id : ℕ
  pub time_step : ℕ
  pub consumed_at : ℕ

-- The two counters are those of AUTOINCREMENT: the last id given.
pub record Db : Type 0 where
  pub users : List User
  pub recovery_codes : List RecoveryCode
  pub auth_attempts : List Attempt
  pub totp_consumptions : List Consumption
  pub last_user_id : ℕ
  pub last_code_id : ℕ

-- SELECT ... FROM users WHERE username = ?
unfoldable pub find_user : String → Db → Option User
find_user username db = find? (λ u. u.username == username) db.users

-- SELECT ... FROM users WHERE id = ?
unfoldable pub find_user_id : ℕ → Db → Option User
find_user_id user_id db = find? (λ u. u.id == user_id) db.users

abbrev pub is_none : Option ℕ → Bool
is_none none = true
is_none (some _) = false

-- success = 1 AND totp_step IS NULL AND timestamp > datetime('now', '-90 seconds')
unfoldable pub legacy_use : ℕ → String → ℕ → Db → Bool
legacy_use user_id fingerprint now db =
    any
      (λ a.
        a.user_id == user_id
        && a.success
        && a.token_fingerprint == fingerprint
        && is_none a.totp_step
        && ltb now (a.timestamp + 90))
      db.auth_attempts

abbrev pub is_consumption : ℕ → ℕ → Consumption → Bool
is_consumption user_id step c = c.user_id == user_id && c.time_step == step

-- SELECT 1 FROM totp_consumptions WHERE user_id = ? AND time_step = ?
unfoldable pub is_consumed : ℕ → ℕ → Db → Bool
is_consumed user_id step db = any (is_consumption user_id step) db.totp_consumptions

-- INSERT INTO totp_consumptions; `none` is the IntegrityError of the primary key.
unfoldable pub insert_consumption : ℕ → ℕ → ℕ → Db → Option Db
unfolding is_consumed
insert_consumption user_id step now db =
    if is_consumed user_id step db
    then none
    else some (record db {
      totp_consumptions =
          db.totp_consumptions
          ++ record { user_id = user_id; time_step = step; consumed_at = now } ∷ [];
    })

unfoldable pub insert_attempt : ℕ → ℕ → Bool → String → Option ℕ → Db → Db
insert_attempt user_id now success fingerprint step db = record db {
  auth_attempts =
      db.auth_attempts
      ++ record {
        user_id = user_id;
        timestamp = now;
        success = success;
        token_fingerprint = fingerprint;
        totp_step = step;
      }
        ∷ [];
}

abbrev pub failed_since : ℕ → ℕ → ℕ → Attempt → Bool
failed_since user_id window now a =
    a.user_id == user_id && not a.success && ltb now (a.timestamp + window)

-- SELECT COUNT(*) ... success = 0 AND timestamp > datetime('now', '-window seconds')
unfoldable pub recent_failures : ℕ → ℕ → ℕ → Db → ℕ
recent_failures user_id window now db =
    length (keep (failed_since user_id window now) db.auth_attempts)

abbrev pub later_of : ℕ → Option ℕ → Option ℕ
later_of t none = some t
later_of t (some s) = some (if ltb s t then t else s)

abbrev pub max_timestamp : List Attempt → Option ℕ
max_timestamp [] = none
max_timestamp (a ∷ as') = later_of a.timestamp (max_timestamp as')

-- SELECT MAX(timestamp) ... success = 0; SQL's NULL is `none`
unfoldable pub last_failure : ℕ → Db → Option ℕ
last_failure user_id db =
    max_timestamp (keep (λ a. a.user_id == user_id && not a.success) db.auth_attempts)
