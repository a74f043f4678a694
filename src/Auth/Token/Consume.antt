-- ===== src/Auth/Token/Consume.antt =====
-- The transaction of `verify_token`: it reads and consumes a TOTP interval under BEGIN IMMEDIATE.
use intrusion_detection_syst.Prelude.{
  ℕ, String, Bool, true, false, ◌||◌, Option, none, some, if◌then◌else◌,
}
use intrusion_detection_syst.Auth.Events.{Reason, token_reused_window, token_reused_race_condition}
use intrusion_detection_syst.Auth.Store.{
  User, Db, find_user_id, legacy_use, is_consumed, insert_consumption, insert_attempt,
}

pub data Outcome : Type 0 where
  inactive : Outcome
  replayed : Reason → Outcome
  accepted : Outcome
  rejected : Outcome

abbrev pub is_active_row : Option User → Bool
is_active_row none = false
is_active_row (some u) = u.is_active

-- The two inserts; a failed insert rolls back to the database before.
unfoldable pub record_use : ℕ → String → Option ℕ → ℕ → ℕ → Db → Outcome × Db
unfolding insert_attempt
record_use user_id fingerprint none now seconds db =
    (rejected, insert_attempt user_id seconds false fingerprint none db)
record_use user_id fingerprint (some step) now seconds db =
    elim (insert_consumption user_id step now db) [
      | none ↦ (replayed token_reused_race_condition, db)
      | some db' ↦ (accepted, insert_attempt user_id seconds true fingerprint (some step) db')
    ]

abbrev pub is_reuse : ℕ → String → Option ℕ → ℕ → Db → Bool
is_reuse user_id fingerprint none seconds db = false
is_reuse user_id fingerprint (some step) seconds db =
    legacy_use user_id fingerprint seconds db || is_consumed user_id step db

-- `now` is in ticks, `seconds` is SQLite's clock.
unfoldable pub consume : ℕ → String → Option ℕ → ℕ → ℕ → Db → Outcome × Db
unfolding find_user_id record_use
consume user_id fingerprint step now seconds db =
    if is_active_row (find_user_id user_id db)
    then (if is_reuse user_id fingerprint step seconds db
        then (replayed token_reused_window, db)
        else record_use user_id fingerprint step now seconds db)
    else (inactive, db)
