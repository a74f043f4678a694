-- ===== src/Logs/Integrity/Verify.antt =====
-- logs/integrity.py: `verify_audit_log`.
use intrusion_detection_syst.Prelude.{
  ℕ, ◌+◌, String, Bool, true, false, not, ◌&&◌, ◌||◌, Option, none, some, List, [], ◌∷◌, ◌++◌, map,
  leb, ◌==◌, nat_eq, string_eq, if◌then◌else◌,
}
use intrusion_detection_syst.Prelude.Lists.{keep, length, contains}
use intrusion_detection_syst.Prelude.Sorting.{sort}
use intrusion_detection_syst.Logs.Integrity.Chain.{
  Row, Checkpoint, RetentionHash, Log, Digests, genesis, row_fingerprint, fold_all,
}
use intrusion_detection_syst.Logs.Integrity.Seal.{last_checkpoint, is_after}

-- What `failures` says of a checkpoint, by its id.
pub data Failure : Type 0 where
  seed_broken wrong_count hash_mismatch : ℕ → Failure

pub record VerifyResult : Type 0 where
  pub ok : Bool
  pub checkpoints_total : ℕ
  pub verified : ℕ
  pub aged_out : ℕ
  pub partial : ℕ
  pub unsealed_events : ℕ
  pub failures : List Failure
  pub last_chain_hash : String

abbrev pub in_range : Checkpoint → ℕ → Bool
in_range cp id = leb cp.from_id id && leb id cp.through_id

abbrev pub present : Log → Checkpoint → List Row
present log cp = keep (λ r. in_range cp r.id) log.audit_events

abbrev pub retired : Log → Checkpoint → List RetentionHash
retired log cp = keep (λ r. in_range cp r.event_id) log.audit_retention_hashes

abbrev pub id_of : ℕ × String → ℕ
id_of p = p.0

-- The list `fingerprints` of a checkpoint: the rows that are there, then the retired ones.
unfoldable pub fingerprints : Digests → Log → Checkpoint → List (ℕ × String)
fingerprints d log cp =
    map (λ r. (r.id, row_fingerprint d r)) (present log cp)
    ++ map (λ r. (r.event_id, r.fingerprint)) (retired log cp)

-- `len({item[0] for item in fps}) != len(fps)`, negated
unfoldable pub distinct : List ℕ → Bool
distinct [] = true
distinct (x ∷ xs) = not (contains x xs) && distinct xs

-- `running` after the loop. `sorted` compares ids first; equal ids fail the test above all the same.
unfoldable pub recompute : Digests → Log → Checkpoint → String
recompute d log cp =
    fold_all d cp.prev_chain_hash (map (λ p. p.1) (sort id_of (fingerprints d log cp)))

abbrev pub fail : Failure → VerifyResult → VerifyResult
fail f r = record r { ok = false; failures = r.failures ++ f ∷ [] }

abbrev pub is_empty {ℓ} : {A : Type ℓ} → List A → Bool
is_empty [] = true
is_empty (_ ∷ _) = false

-- The ladder over one segment.
unfoldable pub check_segment : Digests → Log → Checkpoint → VerifyResult → VerifyResult
unfolding distinct
check_segment d log cp r =
    let fps = fingerprints d log cp in
    if not (length fps == cp.row_count) || not (distinct (map id_of fps))
    then fail (wrong_count cp.id) r
    else if not (recompute d log cp == cp.chain_hash)
    then fail (hash_mismatch cp.id) r
    else if is_empty (present log cp)
    then record r { aged_out = r.aged_out + 1 }
    else record r {
      verified = r.verified + 1;
      partial = if is_empty (retired log cp) then r.partial else r.partial + 1;
    }

-- The continuity test of the loop's first lines.
unfoldable pub check_seed : String → Checkpoint → VerifyResult → VerifyResult
check_seed prev_chain cp r =
    if cp.prev_chain_hash == prev_chain then r else fail (seed_broken cp.id) r

unfoldable pub check_all : Digests → Log → String → List Checkpoint → VerifyResult → VerifyResult
unfolding check_segment check_seed
check_all d log prev_chain [] r = r
check_all d log prev_chain (cp ∷ cps) r =
    check_all d log cp.chain_hash cps (check_segment d log cp (check_seed prev_chain cp r))

-- `max_present > last["through_id"]` only spares a count of 0.
unfoldable pub count_unsealed : Log → Checkpoint → ℕ
count_unsealed log last = length (keep (is_after last.through_id) log.audit_events)

abbrev pub fresh_result : Log → VerifyResult
fresh_result log = record {
  ok = true;
  checkpoints_total = length log.audit_checkpoints;
  verified = 0;
  aged_out = 0;
  partial = 0;
  unsealed_events = 0;
  failures = [];
  last_chain_hash = "";
}

unfoldable pub finish_verify : Log → Option Checkpoint → VerifyResult → VerifyResult
unfolding count_unsealed
finish_verify log none r = r
finish_verify log (some last) r = record r {
  last_chain_hash = last.chain_hash;
  unsealed_events = count_unsealed log last;
}

unfoldable pub verify_audit_log : Digests → Log → VerifyResult
unfolding finish_verify check_all
verify_audit_log d log =
    finish_verify log (last_checkpoint log)
      (check_all d log genesis log.audit_checkpoints (fresh_result log))
