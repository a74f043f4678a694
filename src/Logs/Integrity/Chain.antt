-- ===== src/Logs/Integrity/Chain.antt =====
-- logs/integrity.py: the tables, the fingerprint of a row and the folding of fingerprints.
use intrusion_detection_syst.Prelude.{
  ℕ, String, ◌<>◌, Option, none, some, List, [], ◌∷◌, nat_eq, string_eq,
}

-- A row of audit_events; a NULL context is `none`.
pub record Row : Type 0 where
  pub id : ℕ
  pub timestamp : ℕ
  pub level : String
  pub module_source : String
  pub message : String
  pub context_data : Option String

pub record Checkpoint : Type 0 where
  pub id : ℕ
  pub from_id : ℕ
  pub through_id : ℕ
  pub row_count : ℕ
  pub chain_hash : String
  pub prev_chain_hash : String

pub record RetentionHash : Type 0 where
  pub event_id : ℕ
  pub fingerprint : String

-- The three tables of logs/schema.sql, each in the order of its INTEGER PRIMARY KEY, in which
-- SQLite keeps it; and the last id that AUTOINCREMENT gave to a checkpoint.
pub record Log : Type 0 where
  pub audit_events : List Row
  pub audit_checkpoints : List Checkpoint
  pub audit_retention_hashes : List RetentionHash
  pub last_checkpoint_id : ℕ

-- hashlib's hex digest, Python's `str` of an int and `repr` of a timestamp.
pub record Digests : Type 0 where
  pub sha256 : String → String
  pub str_of_int : ℕ → String
  pub repr : ℕ → String

abbrev pub genesis : String
genesis = "GENESIS"

abbrev pub field_sep : String
field_sep = "\u{1e}"

abbrev pub or_empty : Option String → String
or_empty none = ""
or_empty (some s) = s

-- `_FIELD_SEP.join(...)` over the six columns
unfoldable pub row_text : Digests → Row → String
row_text d row =
    d.str_of_int row.id
    <> field_sep
    <> d.repr row.timestamp
    <> field_sep
    <> row.level
    <> field_sep
    <> row.module_source
    <> field_sep
    <> row.message
    <> field_sep
    <> or_empty row.context_data

unfoldable pub row_fingerprint : Digests → Row → String
row_fingerprint d row = d.sha256 (row_text d row)

unfoldable pub fold : Digests → String → String → String
fold d running row_fp = d.sha256 (running <> "|" <> row_fp)

-- `for ...: running = _fold(running, fp)`
unfoldable pub fold_all : Digests → String → List String → String
fold_all d running [] = running
fold_all d running (fp ∷ fps) = fold_all d (fold d running fp) fps
