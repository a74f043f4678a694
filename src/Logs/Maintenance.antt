-- ===== src/Logs/Maintenance.antt =====
-- logs/maintenance.py: `purge_old_events` over the tables of the shared database.
pub mod Reordering
pub mod Retention
pub mod Scope
use intrusion_detection_syst.Prelude.{
  ℕ, ◌+◌, ◌-◌, ◌*◌, ◌/◌, String, Bool, true, false, not, ◌&&◌, Option, none, some, List, [], ◌∷◌,
  ◌++◌, map, ltb, leb, max, ◌==◌, nat_eq, string_eq, if◌then◌else◌,
}
use intrusion_detection_syst.Prelude.Lists.{keep, any, length}
use intrusion_detection_syst.Auth.Store.{Db, Attempt, Consumption}
use intrusion_detection_syst.Auth.Backoff.{ticks}
use intrusion_detection_syst.Logs.Integrity.Chain.{
  Row, Checkpoint, RetentionHash, Log, Digests, row_fingerprint,
}

pub record FimRow : Type 0 where
  pub filepath : String
  pub event_type : String
  pub severity : String
  pub timestamp : ℕ

-- The columns of an incident that retention reads.
pub record IncidentRow : Type 0 where
  pub status : String
  pub created_at : ℕ

-- Which of the optional tables exist, by `_table_exists`.
pub record Tables : Type 0 where
  pub has_fim_events : Bool
  pub has_auth_attempts : Bool
  pub has_totp_consumptions : Bool
  pub has_incidents : Bool

pub record Store : Type 0 where
  pub log : Log
  pub fim_events : List FimRow
  pub auth : Db
  pub incidents : List IncidentRow

pub record PurgeResult : Type 0 where
  pub audit_events : ℕ
  pub fim_events : ℕ
  pub auth_attempts : ℕ
  pub closed_incidents : ℕ

-- The property `total`.
unfoldable pub total : PurgeResult → ℕ
total r = r.audit_events + r.fim_events + r.auth_attempts + r.closed_incidents

-- A purge, or the ValueError, or the IntegrityError of a row that was retired before.
pub data Purged : Type 0 where
  purged : PurgeResult → Store → Purged
  invalid_days : Purged
  already_retired : Purged

abbrev pub seconds_per_day : ℕ
seconds_per_day = 86_400

-- `timestamp < time.time() - days * 86400`, in ticks
abbrev pub is_old : ℕ → ℕ → ℕ → Bool
is_old days now timestamp = ltb (timestamp + days * seconds_per_day * ticks) now

-- `timestamp < datetime('now', '-days days')`, in seconds
abbrev pub is_old_datetime : ℕ → ℕ → ℕ → Bool
is_old_datetime days now timestamp = ltb (timestamp + days * seconds_per_day) (now / ticks)

-- SELECT MAX(through_id) FROM audit_checkpoints, or 0
unfoldable pub last_sealed : List Checkpoint → ℕ
last_sealed [] = 0
last_sealed (cp ∷ cps) = max cp.through_id (last_sealed cps)

abbrev pub retires : ℕ → ℕ → ℕ → Row → Bool
retires days now sealed row = is_old days now row.timestamp && leb row.id sealed

abbrev pub hash_of : Digests → Row → RetentionHash
hash_of d row = record { event_id = row.id; fingerprint = row_fingerprint d row }

abbrev pub is_retired : List RetentionHash → Row → Bool
is_retired hashes row = any (λ h. h.event_id == row.id) hashes

-- The audit part: fingerprints of the sealed old rows are kept, and every old row is deleted.
unfoldable pub purge_log : Digests → ℕ → ℕ → Log → Log
purge_log d days now log = record log {
  audit_events = keep (λ r. not (is_old days now r.timestamp)) log.audit_events;
  audit_retention_hashes =
      log.audit_retention_hashes
      ++ map (hash_of d)
          (keep (retires days now (last_sealed log.audit_checkpoints)) log.audit_events);
}

abbrev pub is_spent : ℕ → ℕ → Consumption → Bool
is_spent days now c =
    is_old days now c.consumed_at
    && ltb c.time_step ((now - days * seconds_per_day * ticks) / (30 * ticks))

unfoldable pub purge_attempts : Bool → ℕ → ℕ → Db → Db
purge_attempts exists days now db =
    if exists
    then record db {
      auth_attempts = keep (λ a. not (is_old_datetime days now a.timestamp)) db.auth_attempts;
    }
    else db

unfoldable pub purge_consumptions : Bool → ℕ → ℕ → Db → Db
purge_consumptions exists days now db =
    if exists
    then record db {
      totp_consumptions = keep (λ c. not (is_spent days now c)) db.totp_consumptions;
    }
    else db

abbrev pub is_closed_old : ℕ → ℕ → IncidentRow → Bool
is_closed_old days now i = i.status == "closed" && is_old days now i.created_at

-- How many rows a DELETE removed: the cursor's rowcount.
abbrev pub rowcount {ℓ} : {A : Type ℓ} → Bool → (A → Bool) → List A → ℕ
rowcount exists gone rows = if exists then length (keep gone rows) else 0

unfoldable pub purge_old_events : Digests → Tables → ℕ → ℕ → Store → Purged
unfolding purge_log purge_attempts purge_consumptions
purge_old_events d tables days now s =
    if days == 0
    then invalid_days
    else if any (is_retired s.log.audit_retention_hashes)
        (keep (retires days now (last_sealed s.log.audit_checkpoints)) s.log.audit_events)
    then already_retired
    else purged
        (record {
          audit_events = length (keep (λ r. is_old days now r.timestamp) s.log.audit_events);
          fim_events =
              rowcount tables.has_fim_events (λ f. is_old_datetime days now f.timestamp)
                s.fim_events;
          auth_attempts =
              rowcount tables.has_auth_attempts (λ a. is_old_datetime days now a.timestamp)
                s.auth.auth_attempts;
          closed_incidents = rowcount tables.has_incidents (is_closed_old days now) s.incidents;
        })
        (record {
          log = purge_log d days now s.log;
          fim_events =
              if tables.has_fim_events
              then keep (λ f. not (is_old_datetime days now f.timestamp)) s.fim_events
              else s.fim_events;
          auth =
              purge_consumptions tables.has_totp_consumptions days now
                (purge_attempts tables.has_auth_attempts days now s.auth);
          incidents =
              if tables.has_incidents
              then keep (λ i. not (is_closed_old days now i)) s.incidents
              else s.incidents;
        })
