-- ===== src/Logs/Logger.antt =====
-- logs/logger.py: `SQLiteAuditHandler.emit` and its fallbacks.
pub mod Fallbacks
pub mod Sealed
use intrusion_detection_syst.Prelude.{
  ℕ, suc, String, ◌<>◌, Bool, true, false, Option, none, some, List, [], ◌∷◌, ◌++◌, if◌then◌else◌,
}
use intrusion_detection_syst.Logs.Integrity.Chain.{Row, Log}

-- `context` is what `json.dumps` is asked for: none if the record has no context, or an empty one.
pub record LogRecord (C : Type 0) : Type 0 where
  pub created : ℕ
  pub levelname : String
  pub name : String
  pub message : String
  pub context : Option C

-- What meets one call: the error that the database raises, if any, whether the failsafe file can be
-- written, the time at which its line is made, and what logging's `handleError` writes to the
-- standard error stream when it is called (a traceback, or nothing).
pub record Faults : Type 0 where
  pub database_error : Option String
  pub file_fails : Bool
  pub now : String
  pub error_report : List String

-- The tables, with the last id that AUTOINCREMENT gave, and the two fallbacks: the lines of the
-- failsafe file and the writes to the standard error stream.
pub record Sink : Type 0 where
  pub log : Log
  pub last_event_id : ℕ
  pub failsafe : List String
  pub standard_error : List String

unfoldable pub failsafe_msg : {C : Type 0} → String → String → LogRecord C → String
failsafe_msg now error r =
    "[" <> now <> "] SQLITE_FAIL (" <> error <> ") | " <> r.levelname <> " - " <> r.name <> " - "
    <> r.message <> "\n"

unfoldable pub write_failsafe : {C : Type 0} → Faults → String → LogRecord C → Sink → Sink
write_failsafe f error r s =
    if f.file_fails
    then record s {
      standard_error =
          s.standard_error
          ++ ("FATAL FALLBACK ERROR: " <> failsafe_msg f.now error r) ∷ f.error_report;
    }
    else record s { failsafe = s.failsafe ++ failsafe_msg f.now error r ∷ [] }

unfoldable pub insert_event : {C : Type 0} → LogRecord C → Option String → Sink → Sink
insert_event r context_json s = record s {
  log = record s.log {
    audit_events =
        s.log.audit_events
        ++ record {
          id = suc s.last_event_id;
          timestamp = r.created;
          level = r.levelname;
          module_source = r.name;
          message = r.message;
          context_data = context_json;
        }
          ∷ [];
  };
  last_event_id = suc s.last_event_id;
}

-- `json.dumps`: the text, or the error that it raises.
pub data Dumped : Type 0 where
  dumped raised : String → Dumped

abbrev pub insert_or_fail :
    {C : Type 0} → LogRecord C → Option String → Option String → Faults → Sink → Sink
insert_or_fail r context_json none f s = insert_event r context_json s
insert_or_fail r context_json (some error) f s = write_failsafe f error r s

abbrev pub emit_dumped : {C : Type 0} → LogRecord C → Dumped → Faults → Sink → Sink
emit_dumped r (dumped context_json) f s = insert_or_fail r (some context_json) f.database_error f s
emit_dumped r (raised error) f s = write_failsafe f error r s

abbrev pub emit_context :
    {C : Type 0} → (C → Dumped) → LogRecord C → Option C → Faults → Sink → Sink
emit_context dumps r none f s = insert_or_fail r none f.database_error f s
emit_context dumps r (some context) f s = emit_dumped r (dumps context) f s

unfoldable pub emit : {C : Type 0} → (C → Dumped) → LogRecord C → Faults → Sink → Sink
emit dumps r f s = emit_context dumps r r.context f s

unfoldable pub emit_all : {C : Type 0} → (C → Dumped) → List (LogRecord C × Faults) → Sink → Sink
emit_all dumps [] s = s
emit_all dumps ((r, f) ∷ calls) s = emit_all dumps calls (emit dumps r f s)
