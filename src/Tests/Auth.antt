-- ===== src/Tests/Auth.antt =====
-- Logins, recovery codes and accounts at the small database.
use intrusion_detection_syst.Prelude.{
  ℕ, ◌+◌, ◌-◌, ◌*◌, ◌≤◌, ◌<◌, ◌≡◌, refl, ◌≢◌, true, false, none, some, List, [], ◌∷◌, if◌then◌else◌,
  arith,
}
use intrusion_detection_syst.Auth.Events.{
  token_reused_race_condition, auth_success, auth_failure, alertable,
}
use intrusion_detection_syst.Auth.Store.{Db, User, find_user, is_consumed}
use intrusion_detection_syst.Auth.Backoff.{calculate_backoff_delay, enforce_backoff, ticks}
use intrusion_detection_syst.Auth.Backoff.Bounds.{backoff_end, enforce_backoff_early}
use intrusion_detection_syst.Auth.Token.{World, verify_token}
use intrusion_detection_syst.Auth.Token.Consume.{consume}
use intrusion_detection_syst.Auth.Token.SingleUse.{
  Action, verify, elsewhere, Request, acceptances, acceptances-le,
}
use intrusion_detection_syst.Auth.Token.Verdicts.{Accepts, verify_token-Accepts}
use intrusion_detection_syst.Auth.Token.Telemetry.{IsDispatched, verify_token-IsDispatched}
use intrusion_detection_syst.Auth.Recovery.Redeem.{
  redeem, rows_with_id, recently_used, matched_code, id_of,
}
use intrusion_detection_syst.Auth.Recovery.SingleUse as Redeeming
use intrusion_detection_syst.Auth.Recovery.SingleUse.{
  redemptions, redemptions-le, redeem-Deletes, Deletes, Redemption,
}
use intrusion_detection_syst.Auth.Users.{
  Enrolled, enroll_user, revoke_user, is_valid_role, get_user_role, set_user_role,
}
use intrusion_detection_syst.Auth.Users.Revocation.{revoke_user-verify_token}
use intrusion_detection_syst.Auth.Users.Enrolling.{
  Enrolls, NamesUnique, enroll_user-Enrolls, enroll_user-NamesUnique,
}
use intrusion_detection_syst.Tests.World.{db, out, world, cfg, sinks, crypto, times, enrollment}

abbrev request : ℕ → Request
request now = record { user_id = 1; fingerprint = "f"; step = some 2; now = now; seconds = 62 }

-- Two logins with the code of one interval, and another commit between them.
abbrev schedule : List Action
schedule = verify (request 62_000_000) ∷ elsewhere (λ d. d) ∷ verify (request 63_000_000) ∷ []

acceptances-le_example : acceptances 1 2 schedule db ≤ (if is_consumed 1 2 db then 0 else 1)
acceptances-le_example = acceptances-le 1 2 schedule db (tt, ((λ v j d h. h), (tt, tt)))

verify_token-Accepts_example :
    (user : User) × (find_user "alice" db ≡ some user)
    × (user.is_active ≡ true)
    × Accepts cfg sinks crypto user "222222" 62_000_000 db
        (verify_token cfg sinks crypto times (λ d. d) "alice" "222222" none world).1.db
unfolding verify_token find_user intrusion_detection_syst.Auth.Token.verify_user
    intrusion_detection_syst.Auth.Token.after_backoff enforce_backoff calculate_backoff_delay
    intrusion_detection_syst.Auth.Store.recent_failures
    intrusion_detection_syst.Auth.Token.check_token intrusion_detection_syst.Auth.Token.finish
    intrusion_detection_syst.Auth.Token.find_step intrusion_detection_syst.Auth.Token.candidates
    intrusion_detection_syst.Auth.Token.settle consume
    intrusion_detection_syst.Auth.Store.legacy_use is_consumed
    intrusion_detection_syst.Auth.Store.insert_consumption intrusion_detection_syst.Auth.Token.emit
    intrusion_detection_syst.Auth.Events.dispatch_event
verify_token-Accepts_example =
    verify_token-Accepts cfg sinks crypto times (λ d. d) "alice" "222222" none world refl

verify_token-IsDispatched_example :
    IsDispatched out
      (verify_token cfg sinks crypto times (λ d. d) "alice" "000001" (some "10.0.0.9") world).0
      (verify_token cfg sinks crypto times (λ d. d) "alice" "000001" (some "10.0.0.9") world).1.out
verify_token-IsDispatched_example =
    verify_token-IsDispatched cfg sinks (λ e. refl) crypto times (λ d. d) "alice" "000001"
      (some "10.0.0.9") world

abbrev redemption : ℕ → Redemption
redemption now = record { user_id = 1; fingerprint = "f"; code = "c0de"; now = now; race = λ d. d }

abbrev redemption_schedule : List Redeeming.Action
redemption_schedule = Redeeming.redeems (redemption 62) ∷ Redeeming.redeems (redemption 200) ∷ []

redemptions-le_example : redemptions crypto.scrypt 1 redemption_schedule db ≤ rows_with_id 1 db
redemptions-le_example =
    redemptions-le crypto.scrypt 1 redemption_schedule db
      ((λ d. omega arith), ((λ d. omega arith), tt))

redeem-Deletes_example :
    (recently_used 1 "f" 62 db ≡ false)
    × ((i : ℕ) × (id_of (matched_code crypto.scrypt 1 "c0de" db) ≡ some i)
        × Deletes i db (redeem crypto.scrypt 1 "f" "c0de" 62 (λ d. d) db).1)
unfolding redeem
redeem-Deletes_example = redeem-Deletes crypto.scrypt 1 "f" "c0de" 62 (λ d. d) db refl

revoke_user-verify_token_example :
    let after = (revoke_user cfg sinks 5 "alice" world).1 in
    ((verify_token cfg sinks crypto times (λ d. d) "alice" "222222" none after).0.event_name
      ≡ auth_failure)
    × ((verify_token cfg sinks crypto times (λ d. d) "alice" "222222" none after).1.db ≡ after.db)
unfolding revoke_user find_user
revoke_user-verify_token_example =
    revoke_user-verify_token cfg sinks 5 "alice" crypto times (λ d. d) "222222" none world refl

abbrev enrolled_bob : Enrolled × Db
enrolled_bob = enroll_user enrollment (some 2) "bob" 9 (λ d. d) db

enroll_user-Enrolls_example :
    (find_user "bob" db ≡ none) × Enrolls enrollment "bob" ("c0de" ∷ "c0de" ∷ []) db enrolled_bob.1
unfolding enroll_user find_user intrusion_detection_syst.Auth.Users.insert_user
    intrusion_detection_syst.Auth.Users.draw_codes
    intrusion_detection_syst.Auth.Backoff.recovery_codes_count
enroll_user-Enrolls_example =
    enroll_user-Enrolls enrollment (some 2) "bob" 9 (λ d. d) db "bob" ("c0de" ∷ "c0de" ∷ [])
      enrolled_bob.1 refl

pub db-NamesUnique : NamesUnique db
db-NamesUnique name = ground arith

enroll_user-NamesUnique_example : NamesUnique enrolled_bob.1
enroll_user-NamesUnique_example =
    enroll_user-NamesUnique enrollment (some 2) "bob" 9 (λ d. d) db db-NamesUnique db-NamesUnique

abbrev failing : Db
failing = record db {
  auth_attempts =
      record {
        user_id = 1;
        timestamp = 60;
        success = false;
        token_fingerprint = "f";
        totp_step = none;
      }
      ∷ [];
}

enforce_backoff_early_example :
    let answer = enforce_backoff cfg sinks "alice" 1 [] 61_000_000 failing out in
    (answer.0.2 ≢ none)
    × (backoff_end cfg 1 61_000_000 failing ≤ 61_000_000 + answer.0.0 * ticks)
    × (61_000_000 + (answer.0.0 - 1) * ticks < backoff_end cfg 1 61_000_000 failing)
unfolding calculate_backoff_delay intrusion_detection_syst.Auth.Store.recent_failures
    intrusion_detection_syst.Auth.Store.last_failure
enforce_backoff_early_example =
    enforce_backoff_early cfg sinks "alice" 1 [] 61_000_000 failing out refl (ground arith)
      (ground arith)
