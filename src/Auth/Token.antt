-- ===== src/Auth/Token.antt =====
-- auth/core.py: `_token_fingerprint` and `verify_token`.
pub mod Consume
pub mod SingleUse
pub mod Search
pub mod Verdicts
pub mod Telemetry
use intrusion_detection_syst.Prelude.{
  ℕ, ◌+◌, ◌-◌, ◌*◌, ◌/◌, String, ◌<>◌, Bool, true, false, ◌&&◌, ◌||◌, Option, none, some, List, [],
  ◌∷◌, if◌then◌else◌, ◌==◌, nat_eq, string_eq,
}
use intrusion_detection_syst.Prelude.Dict.{put}
use intrusion_detection_syst.Auth.Events.{
  Level, info, warning, error, critical, EventName, auth_success, auth_failure, replay_attack,
  crypto_error, system_error, Reason, user_not_found, revoked, fernet_invalid_token,
  unknown_crypto_error, valid_token, invalid_token, text, null, Value, Context, AuthEvent, Outbox,
  Sinks, update, build_event_context, dispatch_event,
}
use intrusion_detection_syst.Auth.Store.{User, Db, find_user}
use intrusion_detection_syst.Auth.Backoff.{Config, ticks, enforce_backoff}
use Consume.{
  Outcome, Outcome.inactive, Outcome.replayed, Outcome.accepted, Outcome.rejected, consume,
}

-- A call that may raise; an exception is its type's name.
pub data Attempted {ℓ} (A : Type ℓ) : Type ℓ where
  returned : A → Attempted A
  raised : String → Attempted A

-- What Fernet's `decrypt` does with a stored secret.
pub data Decrypted : Type 0 where
  plain : String → Decrypted
  invalid : Decrypted
  failed : String → Decrypted

-- Fernet, pyotp, hashlib and hmac: code that is not part of the repository.
-- `interval` is `totp.interval`, in seconds.
pub record Crypto : Type 0 where
  pub decrypt : String → Decrypted
  pub interval : ℕ
  pub totp_at : String → ℕ → Attempted String
  pub compare_digest : String → String → Attempted Bool
  pub sha256 : String → String
  pub scrypt : String → String → String
  pub str_of_int : ℕ → String

-- When the call starts, and when it goes on after the backoff; in ticks.
pub record Times : Type 0 where
  pub arrive : ℕ
  pub resume : ℕ

pub record World : Type 0 where
  pub db : Db
  pub out : Outbox

unfoldable pub token_fingerprint : Crypto → ℕ → String → String
token_fingerprint crypto user_id token = crypto.sha256 (crypto.str_of_int user_id <> ":" <> token)

-- The counters that are tried: the current one, the one before (if there is one), the next.
unfoldable pub candidates : ℕ → List ℕ
candidates step = if step == 0 then step ∷ (step + 1) ∷ [] else step ∷ (step - 1) ∷ (step + 1) ∷ []

-- The comparison of a token with a counter's code, or its error; `later` is the rest of the search.
abbrev pub compared : ℕ → Attempted Bool → Attempted (Option ℕ) → Attempted (Option ℕ)
compared counter (raised e) later = raised e
compared counter (returned true) later = returned (some counter)
compared counter (returned false) later = later

abbrev pub try_code :
    Crypto → String → ℕ → Attempted String → Attempted (Option ℕ) → Attempted (Option ℕ)
try_code crypto token counter (raised e) later = raised e
try_code crypto token counter (returned code) later =
    compared counter (crypto.compare_digest token code) later

-- The generator under `next`: it stops at the first match, and an exception stops it too.
unfoldable pub find_step : Crypto → String → String → List ℕ → Attempted (Option ℕ)
find_step crypto secret token [] = returned none
find_step crypto secret token (counter ∷ rest) =
    try_code crypto token counter (crypto.totp_at secret counter)
      (find_step crypto secret token rest)

unfoldable pub message_for : EventName → String → String
message_for auth_success username = "User '" <> username <> "' authenticated successfully."
message_for replay_attack username = "Replay attack detected for user '" <> username <> "'."
message_for crypto_error username = "Secret decryption failed for user '" <> username <> "'."
message_for system_error username = "Internal authentication error for user '" <> username <> "'."
message_for _ username = "Authentication failed for user '" <> username <> "'."

module _ (cfg : Config) (sinks : Sinks) (crypto : Crypto) where
  -- The dict that `emit` starts from: an absent or empty `source_ip` is left out.
  unfoldable pub emit_context : String → Option String → Context
  unfolding put
  emit_context username none = ("username", text username) ∷ []
  emit_context username (some source_ip) =
      if source_ip == ""
      then ("username", text username) ∷ []
      else put (("username", text username) ∷ []) "source_ip" (text source_ip)

  -- The inner function `emit`.
  unfoldable pub emit :
      String
      → Option String
      → ℕ
      → EventName
      → Level
      → Reason
      → ℕ
      → ℕ
      → Context
      → World
      → AuthEvent × World
  unfolding emit_context update
  emit username source_ip now name level reason backoff failures extra w =
      let context = update (emit_context username source_ip) extra in
      let (event, out) =
        dispatch_event sinks
          (record {
            level = level;
            event_name = name;
            message = message_for name username;
            module_source = "auth";
            timestamp = now;
            context = build_event_context cfg.alert_threshold reason backoff failures context;
          })
          w.out in
      (event, record w { out = out })

  -- The end of `verify_token`: the event for what the transaction did.
  unfoldable pub settle : String → Option String → ℕ → ℕ → ℕ → Outcome → World → AuthEvent × World
  settle username source_ip now backoff failures outcome w = elim outcome [
    | Outcome.inactive ↦
        emit username source_ip now auth_failure warning revoked backoff failures [] w
    | Outcome.replayed reason ↦
        emit username source_ip now replay_attack critical reason backoff failures [] w
    | Outcome.accepted ↦
        emit username source_ip now auth_success info valid_token backoff failures [] w
    | Outcome.rejected ↦
        emit username source_ip now auth_failure warning invalid_token backoff failures [] w
  ]

  -- From the search for a step on: an exception of the search, or the transaction.
  unfoldable pub finish :
      ℕ
      → String
      → String
      → Option String
      → ℕ
      → ℕ
      → ℕ
      → Attempted (Option ℕ)
      → World
      → AuthEvent × World
  finish user_id username token source_ip now backoff failures (raised e) w =
      emit username source_ip now system_error error unknown_crypto_error backoff failures
        (("exception_type", text e) ∷ []) w
  finish user_id username token source_ip now backoff failures (returned step) w =
      let (outcome, db) =
        consume user_id (token_fingerprint crypto user_id token) step now (now / ticks) w.db in
      settle username source_ip now backoff failures outcome (record w { db = db })

  -- From `now = time.time()` on: the secret as Fernet gives it, the search, the transaction.
  unfoldable pub check_token :
      ℕ → String → String → Option String → ℕ → ℕ → ℕ → Decrypted → World → AuthEvent × World
  check_token user_id username token source_ip now backoff failures invalid w =
      emit username source_ip now crypto_error critical fernet_invalid_token backoff failures [] w
  check_token user_id username token source_ip now backoff failures (failed e) w =
      emit username source_ip now system_error error unknown_crypto_error backoff failures
        (("exception_type", text e) ∷ []) w
  check_token user_id username token source_ip now backoff failures (plain secret) w =
      finish user_id username token source_ip now backoff failures
        (find_step crypto secret token (candidates (now / (crypto.interval * ticks)))) w

  -- The context that is handed to `_enforce_backoff`.
  unfoldable pub backoff_context : String → Option String → Context
  backoff_context username none = ("username", text username) ∷ ("source_ip", null) ∷ []
  backoff_context username (some ip) = ("username", text username) ∷ ("source_ip", text ip) ∷ []

  -- A rejection is returned as it is; else the token is checked, after what `others` committed.
  unfoldable pub after_backoff :
      User
      → String
      → String
      → Option String
      → Times
      → (Db → Db)
      → ℕ
      → ℕ
      → Option AuthEvent
      → World
      → AuthEvent × World
  after_backoff user username token source_ip times others backoff failures (some event) w =
      (event, w)
  after_backoff user username token source_ip times others backoff failures none w =
      check_token user.id username token source_ip times.resume backoff failures
        (crypto.decrypt user.encrypted_secret) (record w { db = others w.db })

  unfoldable pub verify_user :
      Option User → Times → (Db → Db) → String → String → Option String → World → AuthEvent × World
  verify_user none times others username token source_ip w =
      emit username source_ip times.arrive auth_failure warning user_not_found 0 0 [] w
  verify_user (some user) times others username token source_ip w =
      if user.is_active
      then (let ((backoff, failures, rejection), out) =
            enforce_backoff cfg sinks username user.id (backoff_context username source_ip)
              times.arrive w.db w.out in
          after_backoff user username token source_ip times others backoff failures rejection
            (record w { out = out }))
      else emit username source_ip times.arrive auth_failure warning revoked 0 0 [] w

  -- `others` is what other connections commit between the backoff and the transaction.
  unfoldable pub verify_token :
      Times → (Db → Db) → String → String → Option String → World → AuthEvent × World
  verify_token times others username token source_ip w =
      verify_user (find_user username w.db) times others username token source_ip w
