-- ===== src/Auth/Backoff.antt =====
-- auth/core.py: `_recovery_codes_count`, `_calculate_backoff_delay` and `_enforce_backoff`.
pub mod Bounds
use intrusion_detection_syst.Prelude.{
  ℕ, ◌+◌, ◌-◌, ◌*◌, ◌/◌, ◌^◌, String, ◌<>◌, Option, none, some, List, [], ◌∷◌, leb, min, max,
  if◌then◌else◌, ◌==◌, nat_eq, string_eq,
}
use intrusion_detection_syst.Auth.Events.{
  warning, rate_limited, limited, Context, AuthEvent, Outbox, Sinks, build_event_context,
  dispatch_event,
}
use intrusion_detection_syst.Auth.Store.{Db, recent_failures, last_failure}

-- The module's constants, read from the environment, and the return value of `_backoff_mode()`.
pub record Config : Type 0 where
  pub base_delay : ℕ
  pub max_delay : ℕ
  pub window : ℕ
  pub alert_threshold : ℕ
  pub mode : String

-- Ticks of the clock in a second: times of `time.time()` are counted in microseconds.
abbrev pub ticks : ℕ
ticks = 1_000_000

-- MFA_RECOVERY_CODES_COUNT as `int` reads it; `none` is a ValueError, a negative number reads as 0.
unfoldable pub recovery_codes_count : Option ℕ → ℕ
recovery_codes_count none = 10
recovery_codes_count (some count) = max 1 (min count 50)

-- `_backoff_mode`, with MFA_BACKOFF_MODE and Python's `strip` and `lower` on it
unfoldable pub backoff_mode : (String → String) → Option String → String
backoff_mode strip_lower none = strip_lower "sleep"
backoff_mode strip_lower (some setting) = strip_lower setting

-- (delay, failure_count); `now` is in seconds, as SQLite's datetime is
unfoldable pub calculate_backoff_delay : Config → ℕ → ℕ → Db → ℕ × ℕ
calculate_backoff_delay cfg user_id now db =
    let failure_count = recent_failures user_id cfg.window now db in
    if failure_count == 0
    then (0, 0)
    else (min (cfg.base_delay * 2 ^ failure_count) cfg.max_delay, failure_count)

abbrev pub or_zero : Option ℕ → ℕ
or_zero none = 0
or_zero (some n) = n

-- `(last_failure or 0) + backoff_seconds - time.time()` in ticks; 0 where that is not positive
unfoldable pub remaining_ticks : ℕ → ℕ → ℕ → Db → ℕ
remaining_ticks user_id backoff_seconds now db =
    (or_zero (last_failure user_id db) + backoff_seconds) * ticks - now

-- `math.ceil` of a number of ticks, in seconds
abbrev pub ceil_seconds : ℕ → ℕ
ceil_seconds t = (t + 999_999) / ticks

abbrev pub rejection_message : String → String
rejection_message username = "Authentication rate limited for user '" <> username <> "'."

-- `now` is in ticks. The sleep of the default mode is not a step of the model: the caller resumes
-- at a time of its own.
unfoldable pub enforce_backoff :
    Config → Sinks → String → ℕ → Context → ℕ → Db → Outbox → (ℕ × ℕ × Option AuthEvent) × Outbox
enforce_backoff cfg sinks username user_id context now db out =
    let (backoff_seconds, failure_count) = calculate_backoff_delay cfg user_id (now / ticks) db in
    if backoff_seconds == 0
    then ((backoff_seconds, failure_count, none), out)
    else if cfg.mode == "reject"
    then (let remaining = remaining_ticks user_id backoff_seconds now db in
        if remaining == 0
        then ((0, failure_count, none), out)
        else let retry = ceil_seconds remaining in
          let (event, out') =
            dispatch_event sinks
              (record {
                level = warning;
                event_name = rate_limited;
                message = rejection_message username;
                module_source = "auth";
                timestamp = now;
                context =
                    build_event_context cfg.alert_threshold limited retry failure_count context;
              })
              out in
          ((retry, failure_count, some event), out'))
    else ((backoff_seconds, failure_count, none), out)
