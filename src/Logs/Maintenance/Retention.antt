-- ===== src/Logs/Maintenance/Retention.antt =====
-- Retention keeps a verified log verified.
use mathlib.Core.List.{append_assoc, map-append, append-nil}
use intrusion_detection_syst.Prelude.{
  ℕ, suc, ◌≤◌, String, ◌≡◌, refl, sym, ◌∙◌, ap, ap₂, Bool, true, false, not, ◌&&◌, ◌||◌, List, [],
  ◌∷◌, ◌++◌, map, ◌==◌, nat_eq, arith, Bool-cases, inl, inr,
}
use intrusion_detection_syst.Prelude.Lists.{contains, keep, keep-append, length, All}
use intrusion_detection_syst.Prelude.Sorting.{sort, insert}
use intrusion_detection_syst.Logs.Integrity.Chain.{
  Row, Checkpoint, RetentionHash, Log, Digests, row_fingerprint, genesis, fold_all,
}
use intrusion_detection_syst.Logs.Integrity.Verify.{
  id_of, distinct, in_range, present, retired, fingerprints, recompute, verify_audit_log,
}
use intrusion_detection_syst.Logs.Integrity.Verdict.{
  IsIntact, Intact, Intact-map, verify_audit_log-ok_iff,
}
use intrusion_detection_syst.Logs.Integrity.Sealing.{stamped}
use intrusion_detection_syst.Logs.Maintenance.{
  Tables, Store, PurgeResult, purged, purge_old_events, is_old, last_sealed, retires, hash_of,
  purge_log,
}
use intrusion_detection_syst.Logs.Maintenance.Reordering.{
  sort-middle, contains-middle, distinct-middle, length-middle, contains_left,
}

module _ (d : Digests) (old : Row → Bool) (T : List (ℕ × String)) where
  -- The fingerprints before, and after the old rows have moved behind the others.
  abbrev before : List Row → List (ℕ × String)
  before rows = stamped d rows ++ T

  abbrev after : List Row → List (ℕ × String)
  after rows = (stamped d (keep (λ r. not (old r)) rows) ++ T) ++ stamped d (keep old rows)

  abbrev front : List Row → List (ℕ × String)
  front rows = stamped d (keep (λ r. not (old r)) rows) ++ T

  contains-after :
      (a : ℕ) (rows : List Row)
      → contains a (map id_of (after rows)) ≡ contains a (map id_of (before rows))
  contains-after a [] = rw append-nil refl
  contains-after a (row ∷ rows) = elim (Bool-cases (old row)) [
    | inl h ↦ simp h (
        contains-middle a (front rows) (row.id, row_fingerprint d row) (stamped d (keep old rows))
        ∙ ap (◌||◌ (row.id == a)) (contains-after a rows))
    | inr h ↦ simp h (ap (◌||◌ (row.id == a)) (contains-after a rows))
  ]

  length-after : (rows : List Row) → length (after rows) ≡ length (before rows)
  length-after [] = rw append-nil refl
  length-after (row ∷ rows) = elim (Bool-cases (old row)) [
    | inl h ↦ simp h (
        length-middle (front rows) (row.id, row_fingerprint d row) (stamped d (keep old rows))
        ∙ ap suc (length-after rows))
    | inr h ↦ simp h (ap suc (length-after rows))
  ]

  distinct-after :
      (rows : List Row) → distinct (map id_of (after rows)) ≡ distinct (map id_of (before rows))
  unfolding distinct
  distinct-after [] = rw append-nil refl
  distinct-after (row ∷ rows) = elim (Bool-cases (old row)) [
    | inl h ↦ simp h (
        distinct-middle (front rows) (row.id, row_fingerprint d row) (stamped d (keep old rows))
        ∙ ap₂ (λ b c. not b && c) (contains-after row.id rows) (distinct-after rows))
    | inr h ↦ simp h (ap₂ (λ b c. not b && c) (contains-after row.id rows) (distinct-after rows))
  ]

  sort-after :
      (rows : List Row)
      → distinct (map id_of (before rows)) ≡ true
      → sort id_of (after rows) ≡ sort id_of (before rows)
  unfolding distinct sort
  sort-after [] h = rw append-nil refl
  sort-after (row ∷ rows) h =
      let rest = sort-after rows (ground arith) in
      let new : contains row.id (map id_of (after rows)) ≡ false =
        contains-after row.id rows ∙ ground arith in
      elim (Bool-cases (old row)) [
        | inl o ↦ simp o (
            sort-middle (front rows) (row.id, row_fingerprint d row) (stamped d (keep old rows))
              (contains_left row.id (front rows) (stamped d (keep old rows)) new)
            ∙ ap (insert id_of (row.id, row_fingerprint d row)) rest)
        | inr o ↦ simp o (ap (insert id_of (row.id, row_fingerprint d row)) rest)
      ]

keep_comm {ℓ} :
    {A : Type ℓ} (p q : A → Bool) (xs : List A) → keep p (keep q xs) ≡ keep q (keep p xs)
keep_comm p q [] = refl
keep_comm p q (x ∷ xs) = ground (arith, keep_comm p q xs)

module _ (d : Digests) (days now : ℕ) where
  abbrev old_row : Row → Bool
  old_row r = is_old days now r.timestamp

  -- The hashes that retention adds in a sealed range are those of the range's old rows.
  keep-retires :
      (cp : Checkpoint) (sealed : ℕ) (rows : List Row)
      → cp.through_id ≤ sealed
      → keep (λ h. in_range cp h.event_id) (map (hash_of d) (keep (retires days now sealed) rows))
        ≡ map (hash_of d) (keep old_row (keep (λ r. in_range cp r.id) rows))
  keep-retires cp sealed [] h = refl
  keep-retires cp sealed (row ∷ rows) h = ground (arith, keep-retires cp sealed rows h)

  stamp_hashes :
      (rows : List Row)
      → map (λ (h : RetentionHash). (h.event_id, h.fingerprint)) (map (hash_of d) rows)
        ≡ stamped d rows
  stamp_hashes [] = refl
  stamp_hashes (row ∷ rows) = ap (◌∷◌ (row.id, row_fingerprint d row)) (stamp_hashes rows)

  abbrev kept_hashes : Log → Checkpoint → List (ℕ × String)
  kept_hashes log cp = map (λ h. (h.event_id, h.fingerprint)) (retired log cp)

  fingerprints-purge_log :
      (log : Log) (cp : Checkpoint)
      → cp.through_id ≤ last_sealed log.audit_checkpoints
      → fingerprints d (purge_log d days now log) cp
        ≡ after d old_row (kept_hashes log cp) (present log cp)
  unfolding fingerprints purge_log
  fingerprints-purge_log log cp h =
      let sealed = last_sealed log.audit_checkpoints in
      let events = log.audit_events in
      let rows = present log cp in
      let kept : keep (λ r. in_range cp r.id) (keep (λ r. not (old_row r)) events)
          ≡ keep (λ r. not (old_row r)) rows =
        keep_comm (λ r. in_range cp r.id) (λ r. not (old_row r)) events in
      let added : retired (purge_log d days now log) cp
          ≡ retired log cp ++ map (hash_of d) (keep old_row rows) =
        keep-append (λ h. in_range cp h.event_id) log.audit_retention_hashes
          (map (hash_of d) (keep (retires days now sealed) events))
        ∙ ap (λ l. retired log cp ++ l) (keep-retires cp sealed events h) in
      rw (kept, added)
        (ap (λ l. stamped d (keep (λ r. not (old_row r)) rows) ++ l)
            (map-append (λ (h : RetentionHash). (h.event_id, h.fingerprint)) (retired log cp)
                (map (hash_of d) (keep old_row rows))
              ∙ ap (λ l. kept_hashes log cp ++ l) (stamp_hashes (keep old_row rows)))
          ∙ sym (append_assoc _ (kept_hashes log cp) _))

  purge_log-IsIntact :
      (log : Log) (cp : Checkpoint)
      → cp.through_id ≤ last_sealed log.audit_checkpoints
      → IsIntact d log cp
      → IsIntact d (purge_log d days now log) cp
  unfolding recompute fingerprints
  purge_log-IsIntact log cp h i =
      let rows = present log cp in
      let T = kept_hashes log cp in
      let moved = fingerprints-purge_log log cp h in
      record {
        counted = ap length moved ∙ (length-after d old_row T rows ∙ i.counted);
        distinct_ids =
            ap (λ l. distinct (map id_of l)) moved
            ∙ (distinct-after d old_row T rows ∙ i.distinct_ids);
        same_hash =
            ap (λ l. fold_all d cp.prev_chain_hash (map (λ p. p.1) (sort id_of l))) moved
            ∙ (ap (λ l. fold_all d cp.prev_chain_hash (map (λ p. p.1) l))
                  (sort-after d old_row T rows i.distinct_ids)
                ∙ i.same_hash);
      }

through-le :
    (cps : List Checkpoint) (n : ℕ) → last_sealed cps ≤ n → All (λ cp. cp.through_id ≤ n) cps
unfolding last_sealed
through-le [] n h = tt
through-le (cp ∷ cps) n h = (omega arith, through-le cps n (omega arith))

-- A log that verifies without failures still does after a purge, whatever the retention period: the
-- fingerprints of the purged sealed rows stand in for the rows.
pub purge_old_events-ok :
    (d : Digests) (tables : Tables) (days now : ℕ) (s : Store) (r : PurgeResult) (s' : Store)
    → purge_old_events d tables days now s ≡ purged r s'
    → (verify_audit_log d s.log).ok ≡ true
    → (verify_audit_log d s'.log).ok ≡ true
unfolding purge_old_events
purge_old_events-ok d tables days now s r s' e h =
    let log' = purge_log d days now s.log in
    let cps = s.log.audit_checkpoints in
    let kept : Intact d log' genesis cps =
      Intact-map d s.log log' (λ cp. cp.through_id ≤ last_sealed cps)
        (λ cp le i. purge_log-IsIntact d days now s.log cp le i) genesis cps
        (through-le cps (last_sealed cps) (omega arith)) ((verify_audit_log-ok_iff d s.log).0 h) in
    let same : s'.log ≡ log' = ground arith in
    rw same ((verify_audit_log-ok_iff d log').1 (unfold purge_log in kept))
