-- ===== src/Logs/Integrity/Seal.antt =====
-- logs/integrity.py: `seal_audit_log`.
use intrusion_detection_syst.Prelude.{
  ℕ, suc, String, Bool, true, false, Option, none, some, List, [], ◌∷◌, ◌++◌, map, ltb, nat_eq,
  string_eq,
}
use intrusion_detection_syst.Prelude.Lists.{keep, length, get_last?}
use intrusion_detection_syst.Logs.Integrity.Chain.{
  Row, Checkpoint, Log, Digests, genesis, row_fingerprint, fold_all,
}

-- The fields of `SealResult`, without its message.
pub record SealResult : Type 0 where
  pub sealed : Bool
  pub from_id : ℕ
  pub through_id : ℕ
  pub row_count : ℕ
  pub chain_hash : String

-- SELECT * FROM audit_checkpoints ORDER BY id DESC LIMIT 1
abbrev pub last_checkpoint : Log → Option Checkpoint
last_checkpoint log = get_last? log.audit_checkpoints

abbrev pub through_of : Option Checkpoint → ℕ
through_of none = 0
through_of (some cp) = cp.through_id

abbrev pub chain_of : Option Checkpoint → String
chain_of none = genesis
chain_of (some cp) = cp.chain_hash

abbrev pub is_after : ℕ → Row → Bool
is_after id row = ltb id row.id

abbrev pub last_id : Row → List Row → ℕ
last_id row [] = row.id
last_id row (next ∷ rows) = last_id next rows

-- The body after the SELECT: nothing to do, or the INSERT of one checkpoint.
unfoldable pub seal_rows : Digests → String → List Row → Log → SealResult × Log
unfolding fold_all row_fingerprint
seal_rows d prev_chain [] log =
    (record { sealed = false; from_id = 0; through_id = 0; row_count = 0; chain_hash = "" }, log)
seal_rows d prev_chain (row ∷ rows) log =
    let running = fold_all d prev_chain (map (row_fingerprint d) (row ∷ rows)) in
    (
      record {
        sealed = true;
        from_id = row.id;
        through_id = last_id row rows;
        row_count = length (row ∷ rows);
        chain_hash = running;
      },
      record log {
        audit_checkpoints =
            log.audit_checkpoints
            ++ record {
              id = suc log.last_checkpoint_id;
              from_id = row.id;
              through_id = last_id row rows;
              row_count = length (row ∷ rows);
              chain_hash = running;
              prev_chain_hash = prev_chain;
            }
              ∷ [];
        last_checkpoint_id = suc log.last_checkpoint_id;
      },
    )

unfoldable pub seal_audit_log : Digests → Log → SealResult × Log
unfolding seal_rows
seal_audit_log d log =
    let last = last_checkpoint log in
    seal_rows d (chain_of last) (keep (is_after (through_of last)) log.audit_events) log
