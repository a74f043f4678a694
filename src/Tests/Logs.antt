-- ===== src/Tests/Logs.antt =====
-- Sealing, verification and retention at a log of two rows.
use intrusion_detection_syst.Prelude.{
  ℕ, ◌+◌, ◌≡◌, refl, ◌↔◌, ◌<>◌, true, false, not, String, none, some, List, [], ◌∷◌, ◌++◌,
  if◌then◌else◌, ◌==◌, nat_eq, string_eq, arith,
}
use intrusion_detection_syst.Prelude.Lists.{length, All}
use intrusion_detection_syst.Auth.Store.{is_consumed}
use intrusion_detection_syst.Logs.Integrity.Chain.{
  Row, Log, Digests, genesis, row_fingerprint, field_sep,
}
use intrusion_detection_syst.Logs.Integrity.Seal.{seal_audit_log}
use intrusion_detection_syst.Logs.Integrity.Verify.{verify_audit_log}
use intrusion_detection_syst.Logs.Integrity.Verdict.{Intact, verify_audit_log-ok_iff}
use intrusion_detection_syst.Logs.Integrity.Sealing.{IsOrdered}
use intrusion_detection_syst.Logs.Integrity.Sealing.Preserves.{
  seal_audit_log-ok, seal_audit_log_again, unsealed,
}
use intrusion_detection_syst.Logs.Integrity.Tampering.{row_fingerprint_ambiguous}
use intrusion_detection_syst.Logs.Maintenance.{
  Tables, Store, PurgeResult, Purged, purged, purge_old_events, is_old,
}
use intrusion_detection_syst.Logs.Maintenance.Retention.{purge_old_events-ok}
use intrusion_detection_syst.Logs.Maintenance.Scope.{
  purge_old_events-is_consumed, purge_old_events_scope,
}
use intrusion_detection_syst.Logs.Logger.{LogRecord, Faults, Sink, dumped, emit_all}
use intrusion_detection_syst.Logs.Logger.Fallbacks.{emit_all-contents}
use intrusion_detection_syst.Logs.Logger.Sealed.{emit_all-verify_audit_log}
use intrusion_detection_syst.Tests.World.{db}

abbrev digests : Digests
digests = record {
  sha256 = λ s. "#" <> s;
  str_of_int = λ n. if n == 1 then "1" else "2";
  repr = λ n. if n == 1_000_000 then "1.0" else "86402.0";
}

abbrev pub row : ℕ → ℕ → String → Row
row id timestamp message = record {
  id = id;
  timestamp = timestamp;
  level = "INFO";
  module_source = "auth";
  message = message;
  context_data = none;
}

abbrev first_row : Row
first_row = row 1 1_000_000 "login"

abbrev pub log : Log
log = record {
  audit_events = first_row ∷ row 2 86_402_000_000 "logout" ∷ [];
  audit_checkpoints = [];
  audit_retention_hashes = [];
  last_checkpoint_id = 0;
}

log-IsOrdered : IsOrdered log
log-IsOrdered = record {
  events = (ground arith, (ground arith, tt));
  sealed = tt;
  retired_sealed = tt;
}

abbrev sealed : Log
sealed = (seal_audit_log digests log).1

seal_audit_log-ok_example : ((verify_audit_log digests sealed).ok ≡ true) × IsOrdered sealed
unfolding verify_audit_log
seal_audit_log-ok_example = seal_audit_log-ok digests log log-IsOrdered refl

seal_audit_log_again_example :
    (unsealed sealed ≡ [])
    × ((seal_audit_log digests sealed).0.sealed ≡ false)
    × ((seal_audit_log digests sealed).1 ≡ sealed)
seal_audit_log_again_example = seal_audit_log_again digests log log-IsOrdered

verify_audit_log-ok_iff_example :
    ((verify_audit_log digests sealed).ok ≡ true)
    ↔ Intact digests sealed genesis sealed.audit_checkpoints
verify_audit_log-ok_iff_example = verify_audit_log-ok_iff digests sealed

abbrev tables : Tables
tables = record {
  has_fim_events = true;
  has_auth_attempts = true;
  has_totp_consumptions = true;
  has_incidents = true;
}

abbrev store : Store
store = record { log = sealed; fim_events = []; auth = db; incidents = [] }

-- The sealed log a day and two seconds later: the first row is purged.
abbrev purge : Purged
purge = purge_old_events digests tables 1 86_402_000_000 store

abbrev result_of : Purged → PurgeResult
result_of (purged r s) = r
result_of _ = record { audit_events = 0; fim_events = 0; auth_attempts = 0; closed_incidents = 0 }

abbrev store_of : Purged → Store
store_of (purged r s) = s
store_of _ = store

purge_old_events-ok_example : (verify_audit_log digests (store_of purge).log).ok ≡ true
unfolding purge_old_events seal_audit_log intrusion_detection_syst.Logs.Maintenance.last_sealed
    verify_audit_log
purge_old_events-ok_example =
    purge_old_events-ok digests tables 1 86_402_000_000 store (result_of purge) (store_of purge)
      refl (seal_audit_log-ok digests log log-IsOrdered refl).0

purge_old_events-is_consumed_example :
    is_consumed 1 2880 (store_of purge).auth ≡ is_consumed 1 2880 store.auth
unfolding purge_old_events seal_audit_log intrusion_detection_syst.Logs.Maintenance.last_sealed
purge_old_events-is_consumed_example =
    purge_old_events-is_consumed digests tables 1 86_402_000_000 store (result_of purge)
      (store_of purge) 1 2880 refl (ground arith)

purge_old_events_scope_example :
    ((store_of purge).auth.users ≡ store.auth.users)
    × ((store_of purge).auth.recovery_codes ≡ store.auth.recovery_codes)
    × ((store_of purge).log.audit_checkpoints ≡ store.log.audit_checkpoints)
    × All (λ r. not (is_old 1 86_402_000_000 r.timestamp) ≡ true) (store_of purge).log.audit_events
    × ((result_of purge).audit_events + length (store_of purge).log.audit_events
        ≡ length store.log.audit_events)
unfolding purge_old_events seal_audit_log intrusion_detection_syst.Logs.Maintenance.last_sealed
purge_old_events_scope_example =
    purge_old_events_scope digests tables 1 86_402_000_000 store (result_of purge) (store_of purge)
      refl

row_fingerprint_ambiguous_example :
    (row_fingerprint digests
        (record first_row { message = "a" <> field_sep <> "b"; context_data = some "c" })
      ≡ row_fingerprint digests
          (record first_row { message = "a"; context_data = some ("b" <> field_sep <> "c") }))
    × (row_fingerprint digests (record first_row { context_data = none })
        ≡ row_fingerprint digests (record first_row { context_data = some "" }))
row_fingerprint_ambiguous_example = row_fingerprint_ambiguous digests first_row "a" "b" "c"

-- A record that is stored, one that meets a locked database, and one that meets a full disk too.
abbrev calls : List (LogRecord String × Faults)
calls =
    (
      record {
        created = 9;
        levelname = "INFO";
        name = "auth_core";
        message = "m";
        context = some "c";
      },
      record {
        database_error = none;
        file_fails = false;
        now = "t";
        error_report = "--- Logging error ---" ∷ [];
      },
    )
    ∷ (
      record { created = 9; levelname = "INFO"; name = "auth_core"; message = "n"; context = none },
      record {
        database_error = some "locked";
        file_fails = false;
        now = "t";
        error_report = "--- Logging error ---" ∷ [];
      },
    )
    ∷ (
      record { created = 9; levelname = "INFO"; name = "auth_core"; message = "o"; context = none },
      record {
        database_error = some "locked";
        file_fails = true;
        now = "t";
        error_report = "--- Logging error ---" ∷ [];
      },
    )
    ∷ []

abbrev sink : Sink
sink = record { log = sealed; last_event_id = 2; failsafe = []; standard_error = [] }

emit_all-verify_audit_log_example :
    (verify_audit_log digests (emit_all dumped calls sink).log).ok ≡ true
unfolding seal_audit_log verify_audit_log
emit_all-verify_audit_log_example =
    emit_all-verify_audit_log digests dumped calls sink (ground arith, tt)
      (seal_audit_log-ok digests log log-IsOrdered refl).0

emit_all-contents_example :
    ((emit_all dumped calls sink).log.audit_events
      ≡ sink.log.audit_events
        ++ record (row 3 9 "m") { module_source = "auth_core"; context_data = some "c" } ∷ [])
    × ((emit_all dumped calls sink).failsafe
        ≡ "[t] SQLITE_FAIL (locked) | INFO - auth_core - n\n" ∷ [])
    × ((emit_all dumped calls sink).standard_error
        ≡ "FATAL FALLBACK ERROR: [t] SQLITE_FAIL (locked) | INFO - auth_core - o\n"
          ∷ "--- Logging error ---" ∷ [])
emit_all-contents_example = emit_all-contents dumped calls sink
