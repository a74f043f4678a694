-- ===== src/Auth/Events.antt =====
-- auth/core.py: the telemetry event, its context and its dispatch to the log and to e-mail.
use intrusion_detection_syst.Prelude.{
  ℕ, String, Bool, true, false, ◌||◌, Option, none, some, List, [], ◌∷◌, ◌++◌, ltb, leb,
  if◌then◌else◌, string_eq,
}
use intrusion_detection_syst.Prelude.Dict.{Dict, get, put}

pub data Level : Type 0 where
  info warning error critical : Level

pub data EventName : Type 0 where
  auth_success auth_failure replay_attack crypto_error system_error : EventName
  rate_limited user_revoked role_changed : EventName

-- The values of the "reason_code" key.
pub data Reason : Type 0 where
  user_not_found revoked fernet_invalid_token unknown_crypto_error limited : Reason
  token_reused_window token_reused_race_condition valid_token invalid_token : Reason
  valid_recovery_code invalid_recovery_code role_change : Reason

-- The values of an event's context dict.
pub data Value : Type 0 where
  text : String → Value
  number : ℕ → Value
  flag : Bool → Value
  reason : Reason → Value
  null : Value

abbrev pub Context : Type 0
Context = Dict String Value

pub record AuthEvent : Type 0 where
  pub level : Level
  pub event_name : EventName
  pub message : String
  pub module_source : String
  pub timestamp : ℕ
  pub context : Context

-- What left the module: the rows handed to the logger, and the events sent by e-mail.
pub record Outbox : Type 0 where
  pub logged : List AuthEvent
  pub alerted : List AuthEvent

-- The host's name, and whether the logger raises on an event.
pub record Sinks : Type 0 where
  pub host : String
  pub log_raises : AuthEvent → Bool

-- `d.update(extra)`
unfoldable pub update : Context → Context → Context
update ctx [] = ctx
update ctx ((k, v) ∷ extra) = update (put ctx k v) extra

-- `d.setdefault(k, v)`
unfoldable pub setdefault : Context → String → Value → Context
setdefault ctx k v = elim (get ctx k) [ none ↦ put ctx k v | some _ ↦ ctx ]

-- Python truth of `d.get(k)`
unfoldable pub truthy : Option Value → Bool
truthy none = false
truthy (some null) = false
truthy (some (flag b)) = b
truthy (some (number n)) = ltb 0 n
truthy (some (reason _)) = true
truthy (some (text s)) = elim s [ String.[] ↦ false | String.◌∷◌ _ _ ↦ true ]

unfoldable pub build_event_context : ℕ → Reason → ℕ → ℕ → Context → Context
unfolding put update
build_event_context alert_threshold reason_code backoff_seconds failure_count extra =
    let ctx = ("reason_code", reason reason_code) ∷ [] in
    let ctx' =
      if ltb 0 backoff_seconds
      then put ctx "backoff_applied_seconds" (number backoff_seconds)
      else ctx in
    let ctx'' =
      if leb alert_threshold failure_count
      then put ctx' "alert_threshold_exceeded" (flag true)
      else ctx' in
    update ctx'' extra

abbrev pub is_critical : Level → Bool
is_critical critical = true
is_critical _ = false

-- The test of the e-mail branch.
unfoldable pub alertable : AuthEvent → Bool
unfolding truthy
alertable event = is_critical event.level || truthy (get event.context "alert_threshold_exceeded")

-- A logger that raises skips the e-mail, and the event is returned all the same.
unfoldable pub dispatch_event : Sinks → AuthEvent → Outbox → AuthEvent × Outbox
unfolding setdefault
dispatch_event sinks event out =
    let event' = record event { context = setdefault event.context "host_id" (text sinks.host) } in
    if sinks.log_raises event' then (event', out) else (
      event',
      record {
        logged = out.logged ++ event' ∷ [];
        alerted = if alertable event' then out.alerted ++ event' ∷ [] else out.alerted;
      },
    )
