-- ===== src/Lib.antt =====
-- Intrusion detection system: authentication with one-time codes, a tamper-evident audit log, and
-- the detection of attacks in the events that these and the network sensors write.
--
-- Parts, and how they interact. auth/core.py verifies TOTP tokens and recovery codes against a
-- SQLite database and writes an event for each answer. The logger stores the events as audit rows,
-- which logs/integrity.py seals into a hash chain and verifies, and logs/maintenance.py purges when
-- they are old, together with the attempts and the spent counters of the authentication.
-- detection/normalize.py turns audit rows into events, which detection/scoring.py scores with the
-- ATT&CK map of detection/mitre.py and detection/correlation.py joins into incidents.
-- network/detectors watches packets for network/sensor.py, detection/dedup.py suppresses repeated
-- alerts, fim/monitor.py compares files with their baselines, and alerts/email_alert.py sends mails.
-- detection/intel.py matches addresses and domains for the DNS detector and a correlation rule, and
-- detection/phishing.py scores links. The dashboard limits and takes logins through auth/core.py,
-- guards its views by the user's current role, and streams the audit rows. vision/liveness.py counts
-- blinks.
--
-- Files.
--   Prelude and its children: names of the library passed on; lists, dicts, sorting, texts, Boolean
--     tests.
--   Auth/Events: AuthEvent, _build_event_context, _dispatch_event. Auth/Store: the tables of
--     auth/schema.sql and the queries. Auth/Backoff: _calculate_backoff_delay, _enforce_backoff.
--     Auth/Token: verify_token; Token/Consume is its transaction. Auth/Recovery: use_recovery_code;
--     Recovery/Redeem is its third phase. Auth/Users: enroll_user, revoke_user, get_user_role,
--     set_user_role, list_users.
--   Logs/Integrity: Chain (_row_fingerprint, _fold), Seal (seal_audit_log), Verify
--     (verify_audit_log). Logs/Logger: SQLiteAuditHandler.emit. Logs/Maintenance: purge_old_events.
--   Detection: Mitre, Scoring, Dedup, Playbook, Intel after the files of these names; Event is the
--     envelope of detection/normalize.py and Event/Audit its rows, with load_events; Correlation has
--     the candidates (Candidate), the rules (Failures, Chains, Spray, Ioc) and the sweep (Sweep) of
--     detection/correlation.py. Phishing has the host and the brands of detection/phishing.py,
--     Phishing/Levenshtein its edit distance and Phishing/Analysis analyze_url.
--   Network: the window of two detectors (Counter), and Syn, Icmp, Arp, Dns after network/detectors;
--     Sensor has the packet callback of network/sensor.py and network/dispatch.py.
--   Dashboard: Limiter (LoginRateLimiter) and Session (login_required, require_role) of
--     dashboard/security.py, Queries of dashboard/queries.py, Login (login_submit, logout,
--     api_incidents) and Stream (event_stream) of dashboard/routes.py, Diagnostics
--     (run_diagnostics, format_report) of dashboard/diagnostics.py.
--   Fim: fim/monitor.py. Alerts: alerts/email_alert.py. Vision: LivenessState.
--   Ai: the client of ai/client.py (complete), Ai/Summarize summarize_events of ai/summarize.py.
--   Tests: concrete runs.
--
-- State and errors. A table is a list of records in the order of its key, a dict an association list
-- with unique keys, a database transaction one function on the tables; what other connections commit
-- in between is a function argument (others, race), and schedules of calls are lists of actions. An
-- exception that is caught becomes the answer that its handler gives; one that is not is a value
-- (Attempted, Option, Purged, Processed). A logger that raises is a predicate of Sinks.
--
-- Numbers. Times are natural numbers: ticks (microseconds) where Python reads time.time(), whole
-- seconds where SQLite's datetime is compared; detection uses one unit for times and windows. Ids are
-- natural numbers and the settings of the environment natural numbers as well, so negative settings
-- are not covered. No definition uses fuel: every loop runs over a list.
--
-- Parameters. Fernet, pyotp, hmac, hashlib, scrypt, random draws, and Python's str, repr, upper and
-- sorted are fields of the records Crypto, Enrollment, Digests and Keying or function arguments. The
-- records Library of Intel, Phishing and Event/Audit hold the ipaddress module, urlsplit, the searches
-- of regular expressions, json.loads and text methods; Disk (Fim) and AttachmentFile (Alerts) are what
-- the file system answers, Transmission (Alerts) how an SMTP session ends, error_report (Logs/Logger) what logging writes
-- for a record that no fallback took,
-- Machine (Dashboard/Diagnostics) the environment that the startup checks ask,
-- LlmWorld (Ai) the environment and the network of the language model.
--
-- Not modelled: I/O (SQLite itself, packet capture, HTTP), threads, the command lines, the pages and
-- probes of the dashboard, the summary of an incident, the orchestration, the demonstration, and the
-- replays of files and packet captures.
pub mod Prelude
pub mod Auth
pub mod Logs
pub mod Ai
pub mod Alerts
pub mod Fim
pub mod Network
pub mod Dashboard
pub mod Vision
pub mod Detection
pub mod Tests
