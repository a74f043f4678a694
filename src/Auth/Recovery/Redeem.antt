-- ===== src/Auth/Recovery/Redeem.antt =====
-- Phase 3 of `use_recovery_code`: the replay check, the match and the single-use consumption.
use intrusion_detection_syst.Prelude.{
  ℕ, zero, suc, ◌+◌, String, Bool, true, false, not, ◌&&◌, Option, none, some, ltb, ◌==◌, nat_eq,
  string_eq, if◌then◌else◌,
}
use intrusion_detection_syst.Prelude.Lists.{keep, any, find?, length}
use intrusion_detection_syst.Auth.Store.{Db, Attempt, RecoveryCode, insert_attempt}

pub data Redeemed : Type 0 where
  reused redeemed lost_race mismatched : Redeemed

abbrev pub is_recent_use : ℕ → String → ℕ → Attempt → Bool
is_recent_use user_id fingerprint now a =
    a.user_id == user_id && a.token_fingerprint == fingerprint && ltb now (a.timestamp + 90)

-- SELECT id FROM auth_attempts WHERE ... timestamp > datetime('now', '-90 seconds')
unfoldable pub recently_used : ℕ → String → ℕ → Db → Bool
recently_used user_id fingerprint now db =
    any (is_recent_use user_id fingerprint now) db.auth_attempts

abbrev pub is_match : (String → String → String) → ℕ → String → RecoveryCode → Bool
is_match scrypt user_id code c = c.user_id == user_id && scrypt code c.salt == c.hashed_code

-- The loop over the user's rows, which breaks at the first match.
unfoldable pub matched_code : (String → String → String) → ℕ → String → Db → Option RecoveryCode
matched_code scrypt user_id code db = find? (is_match scrypt user_id code) db.recovery_codes

abbrev pub has_id : ℕ → RecoveryCode → Bool
has_id id c = c.id == id

abbrev pub rows_with_id : ℕ → Db → ℕ
rows_with_id id db = length (keep (has_id id) db.recovery_codes)

-- DELETE FROM recovery_codes WHERE id = ?; `none` is a rowcount other than 1
unfoldable pub delete_code : ℕ → Db → Option Db
delete_code id db =
    if rows_with_id id db == 1
    then some (record db { recovery_codes = keep (λ c. not (has_id id c)) db.recovery_codes })
    else none

unfoldable pub consume_code : ℕ → String → ℕ → Option Db → Db → Redeemed × Db
unfolding insert_attempt
consume_code user_id fingerprint now none db = (lost_race, db)
consume_code user_id fingerprint now (some db') db =
    (redeemed, insert_attempt user_id now true fingerprint none db')

-- `if matched_code_id:` also takes the id 0 for no match.
unfoldable pub settle_match : ℕ → String → ℕ → Option ℕ → Db → Redeemed × Db
unfolding consume_code delete_code
settle_match user_id fingerprint now none db =
    (mismatched, insert_attempt user_id now false fingerprint none db)
settle_match user_id fingerprint now (some zero) db =
    (mismatched, insert_attempt user_id now false fingerprint none db)
settle_match user_id fingerprint now (some (suc id)) db =
    consume_code user_id fingerprint now (delete_code (suc id) db) db

abbrev pub id_of : Option RecoveryCode → Option ℕ
id_of none = none
id_of (some c) = some c.id

unfoldable pub redeem :
    (String → String → String) → ℕ → String → String → ℕ → (Db → Db) → Db → Redeemed × Db
unfolding recently_used matched_code settle_match
redeem scrypt user_id fingerprint code now race db =
    if recently_used user_id fingerprint now db
    then (reused, db)
    else settle_match user_id fingerprint now (id_of (matched_code scrypt user_id code db))
        (race db)
