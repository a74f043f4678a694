-- ===== src/Network/Sensor.antt =====
-- network/sensor.py: the start of the sensor and its packet callback, and network/dispatch.py.
pub mod Evidence
use intrusion_detection_syst.Prelude.{
  ℕ, suc, String, ◌<>◌, Bool, false, Option, none, some, List, [], ◌∷◌, ◌++◌, if◌then◌else◌,
  string_eq,
}
use intrusion_detection_syst.Prelude.Dict.{get, put}
use intrusion_detection_syst.Detection.Scoring.{Json, text, number, Context}
use intrusion_detection_syst.Detection.Event.{entity_of}
use intrusion_detection_syst.Detection.Dedup.{Deduplicator, fingerprint, is_duplicate}

-- The event of a detector with its context, as a dict.
pub record Detection : Type 0 where
  pub level : String
  pub module_source : String
  pub detector_name : String
  pub message : String
  pub timestamp : ℕ
  pub context : Context

-- What a detector of the stack answers for the packet.
pub data Answer : Type 0 where
  raised quiet : Answer
  found : Detection → Answer

pub record Logged : Type 0 where
  pub level : String
  pub message : String
  pub context : Context

pub record SensorState : Type 0 where
  pub deduplicator : Option Deduplicator
  pub logged : List Logged
  pub alerted : List Detection
  pub suppressed : ℕ
  pub errors : ℕ

-- `context.setdefault("host_id", host)`
abbrev pub set_default : Context → String → Option Json → Context
set_default context host none = put context "host_id" (text host)
set_default context host (some value) = context

unfoldable pub log_detection : String → Detection → Logged
log_detection host e =
    let context =
      put (put e.context "detector_name" (text e.detector_name)) "timestamp" (number e.timestamp) in
    record {
      level = e.level;
      message = "DetectionEvent: " <> e.level <> " from " <> e.detector_name <> " - " <> e.message;
      context = set_default context host (get context "host_id");
    }

-- The deduplicator's answer, if there is one.
abbrev pub ask :
    (String → String) → ℕ → Detection → Option Deduplicator → Bool × Option Deduplicator
ask sha256 now e none = (false, none)
ask sha256 now e (some d) =
    let entity = entity_of (get e.context "source_ip") (get e.context "ip_address") in
    let (duplicate, d') = is_duplicate (fingerprint sha256 e.detector_name entity e.level) now d in
    (duplicate, some d')

-- The evidence is logged before the mail; `log_fails` and `alert_fails` say for which events a
-- sink raises, which ends the handling of the event.
module _ (sha256 : String → String) (host : String) (log_fails alert_fails : Detection → Bool) where
  unfoldable pub report_detection : Detection → SensorState → SensorState
  report_detection e s =
      if log_fails e
      then record s { errors = suc s.errors }
      else if alert_fails e
      then record s { logged = s.logged ++ log_detection host e ∷ []; errors = suc s.errors }
      else record s {
        logged = s.logged ++ log_detection host e ∷ [];
        alerted = s.alerted ++ e ∷ [];
      }

  unfoldable pub handle_found : ℕ → Detection → SensorState → SensorState
  handle_found now e s =
      let (duplicate, d) = ask sha256 now e s.deduplicator in
      let s' = record s { deduplicator = d } in
      if duplicate then record s' { suppressed = suc s.suppressed } else report_detection e s'

  abbrev pub handle : ℕ → Answer → SensorState → SensorState
  handle now raised s = record s { errors = suc s.errors }
  handle now quiet s = s
  handle now (found e) s = handle_found now e s

  unfoldable pub dispatch_packet : ℕ → List Answer → SensorState → SensorState
  dispatch_packet now [] s = s
  dispatch_packet now (o ∷ outcomes) s = dispatch_packet now outcomes (handle now o s)
