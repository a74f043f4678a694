-- ===== src/Auth/Recovery.antt =====
-- auth/core.py: `_hash_recovery_code`, `_recovery_fingerprint` and `use_recovery_code`.
pub mod Redeem
pub mod SingleUse
use intrusion_detection_syst.Prelude.{ℕ, ◌/◌, String, ◌<>◌, Option, none, some, [], if◌then◌else◌}
use intrusion_detection_syst.Auth.Events.{
  Level, info, warning, critical, EventName, auth_success, auth_failure, replay_attack, Reason,
  user_not_found, revoked, token_reused_window, token_reused_race_condition, valid_recovery_code,
  invalid_recovery_code, AuthEvent, Outbox, Sinks, build_event_context, dispatch_event,
}
use intrusion_detection_syst.Auth.Store.{User, Db, find_user}
use intrusion_detection_syst.Auth.Backoff.{Config, ticks, enforce_backoff}
use intrusion_detection_syst.Auth.Token.{Crypto, Times, World, message_for}
use Redeem.{Redeemed, reused, redeemed, lost_race, mismatched, redeem}

unfoldable pub recovery_fingerprint : Crypto → ℕ → String → String
recovery_fingerprint crypto user_id code =
    crypto.sha256 ("recovery:" <> crypto.str_of_int user_id <> ":" <> code)

module _ (cfg : Config) (sinks : Sinks) (crypto : Crypto) where
  -- An event of `use_recovery_code`: its context has no user name and no address.
  unfoldable pub emit_plain :
      String → ℕ → EventName → Level → Reason → ℕ → ℕ → World → AuthEvent × World
  emit_plain username now name level reason backoff failures w =
      let (event, out) =
        dispatch_event sinks
          (record {
            level = level;
            event_name = name;
            message = message_for name username;
            module_source = "auth";
            timestamp = now;
            context = build_event_context cfg.alert_threshold reason backoff failures [];
          })
          w.out in
      (event, record w { out = out })

  unfoldable pub report : String → ℕ → ℕ → ℕ → Redeemed → World → AuthEvent × World
  report username now backoff failures reused w =
      emit_plain username now replay_attack critical token_reused_window backoff failures w
  report username now backoff failures redeemed w =
      emit_plain username now auth_success info valid_recovery_code backoff failures w
  report username now backoff failures lost_race w =
      emit_plain username now replay_attack critical token_reused_race_condition backoff failures w
  report username now backoff failures mismatched w =
      emit_plain username now auth_failure warning invalid_recovery_code backoff failures w

  -- Phase 3. `race` is what others commit between the reads and the DELETE.
  unfoldable pub redeem_code :
      User
      → String
      → String
      → Times
      → (Db → Db)
      → (Db → Db)
      → ℕ
      → ℕ
      → Option AuthEvent
      → World
      → AuthEvent × World
  redeem_code user username code times others race backoff failures (some event) w = (event, w)
  redeem_code user username code times others race backoff failures none w =
      let (outcome, db) =
        redeem crypto.scrypt user.id (recovery_fingerprint crypto user.id code) code
          (times.resume / ticks) race (others w.db) in
      report username times.resume backoff failures outcome (record w { db = db })

  unfoldable pub recover_user :
      Option User → Times → (Db → Db) → (Db → Db) → String → String → World → AuthEvent × World
  recover_user none times others race username code w =
      emit_plain username times.arrive auth_failure warning user_not_found 0 0 w
  recover_user (some user) times others race username code w =
      if user.is_active
      then (let ((backoff, failures, rejection), out) =
            enforce_backoff cfg sinks username user.id [] times.arrive w.db w.out in
          redeem_code user username code times others race backoff failures rejection
            (record w { out = out }))
      else emit_plain username times.arrive auth_failure warning revoked 0 0 w

  -- `others` is what other connections commit between the backoff and phase 3.
  unfoldable pub use_recovery_code :
      Times → (Db → Db) → (Db → Db) → String → String → World → AuthEvent × World
  use_recovery_code times others race username code w =
      recover_user (find_user username w.db) times others race username code w
