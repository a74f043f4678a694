-- ===== src/Logs/Integrity/Sealing/Preserves.antt =====
-- The theorems on `seal_audit_log`: the log stays verified, and nothing is left to seal.
use intrusion_detection_syst.Prelude.{
  ℕ, suc, ◌≤◌, String, ◌≡◌, refl, sym, subst, ◌∙◌, ap, true, false, List, [], ◌∷◌, arith,
  Bool-cases, inl, inr, ltb,
}
use intrusion_detection_syst.Prelude.Lists.{keep, All, All-append, get_last?-append}
use intrusion_detection_syst.Logs.Integrity.Chain.{
  Row, Checkpoint, RetentionHash, Log, Digests, genesis,
}
use intrusion_detection_syst.Logs.Integrity.Seal.{
  last_checkpoint, through_of, chain_of, is_after, last_id, seal_rows, seal_audit_log,
}
use intrusion_detection_syst.Logs.Integrity.Verify.{fingerprints, recompute, verify_audit_log}
use intrusion_detection_syst.Logs.Integrity.Verdict.{
  Intact, Intact-map, Intact-append, chain_of-get_last?, verify_audit_log-ok_iff,
}
use intrusion_detection_syst.Logs.Integrity.Sealing.{
  Above, Above-keep_after, keep_after_all, IsOrdered, new_checkpoint, new_checkpoint-IsIntact,
  id-le-last_id,
}

All_tt : (cps : List Checkpoint) → All (λ (cp : Checkpoint). Unit {0}) cps
All_tt [] = tt
All_tt (cp ∷ cps) = (tt, All_tt cps)

seal_rows-Intact :
    (d : Digests) (log : Log) (rows : List Row)
    → IsOrdered log
    → keep (is_after (through_of (last_checkpoint log))) log.audit_events ≡ rows
    → Intact d log genesis log.audit_checkpoints
    → Intact d
        (seal_rows d (chain_of (last_checkpoint log)) rows log).1
        genesis
        (seal_rows d (chain_of (last_checkpoint log)) rows log).1.audit_checkpoints
unfolding seal_rows fingerprints recompute
seal_rows-Intact d log [] o h i = i
seal_rows-Intact d log (row ∷ rows) o h i =
    let prev_chain = chain_of (last_checkpoint log) in
    let log' = (seal_rows d prev_chain (row ∷ rows) log).1 in
    let cp = new_checkpoint d prev_chain (suc log.last_checkpoint_id) row rows in
    let own =
      new_checkpoint-IsIntact d log prev_chain (suc log.last_checkpoint_id)
        (through_of (last_checkpoint log)) row rows o.events o.retired_sealed h in
    Intact-append d log' genesis log.audit_checkpoints cp
      (Intact-map d log log' (λ _. Unit)
        (λ c _ k. record {
          counted = k.counted;
          distinct_ids = k.distinct_ids;
          same_hash = k.same_hash;
        })
        genesis log.audit_checkpoints (All_tt log.audit_checkpoints) i)
      (chain_of-get_last? log.audit_checkpoints)
      (record { counted = own.counted; distinct_ids = own.distinct_ids; same_hash = own.same_hash })

All_raise :
    {A : Type 0} (f : A → ℕ) (t u : ℕ) (xs : List A)
    → t ≤ u
    → All (λ x. f x ≤ t) xs
    → All (λ x. f x ≤ u) xs
All_raise f t u [] h a = tt
All_raise f t u (x ∷ xs) h a = (omega (arith, a.0, h), All_raise f t u xs h a.1)

seal_rows-IsOrdered :
    (d : Digests) (log : Log) (prev_chain : String) (rows : List Row)
    → IsOrdered log
    → keep (is_after (through_of (last_checkpoint log))) log.audit_events ≡ rows
    → IsOrdered (seal_rows d prev_chain rows log).1
unfolding seal_rows
seal_rows-IsOrdered d log prev_chain [] o h = o
seal_rows-IsOrdered d log prev_chain (row ∷ rows) o h =
    let t = through_of (last_checkpoint log) in
    let u = last_id row rows in
    let fresh : Above t (row ∷ rows) =
      subst (Above t) h (Above-keep_after 0 t log.audit_events o.events) in
    let up : t ≤ u = omega (arith, fresh.0, id-le-last_id row rows fresh.1) in
    let cp = new_checkpoint d prev_chain (suc log.last_checkpoint_id) row rows in
    let last = get_last?-append log.audit_checkpoints cp in
    record {
      events = o.events;
      sealed = rw last (
          All-append _ log.audit_checkpoints (cp ∷ [])
            (All_raise (λ (c : Checkpoint). c.through_id) t u log.audit_checkpoints up o.sealed)
            (omega arith, tt));
      retired_sealed = rw last (
          All_raise (λ (r : RetentionHash). r.event_id) t u log.audit_retention_hashes up
            o.retired_sealed);
    }

-- Sealing keeps a log that verifies without failures verified, if its rows ascend by positive ids, no
-- checkpoint ends after the last one, and a retention hash is kept only for ids up to the end of the
-- last checkpoint; and it keeps these conditions.
pub seal_audit_log-ok :
    (d : Digests) (log : Log)
    → IsOrdered log
    → (verify_audit_log d log).ok ≡ true
    → ((verify_audit_log d (seal_audit_log d log).1).ok ≡ true) × IsOrdered (seal_audit_log d log).1
unfolding seal_audit_log
seal_audit_log-ok d log o h = (
  (verify_audit_log-ok_iff d (seal_audit_log d log).1).1
      (seal_rows-Intact d log _ o refl ((verify_audit_log-ok_iff d log).0 h)),
  seal_rows-IsOrdered d log (chain_of (last_checkpoint log)) _ o refl,
)

keep_after_none : (t : ℕ) (rows : List Row) → All (λ r. r.id ≤ t) rows → keep (is_after t) rows ≡ []
keep_after_none t [] a = refl
keep_after_none t (row ∷ rows) a = ground (arith, keep_after_none t rows a.1)

le-last_id :
    (row : Row) (rows : List Row)
    → Above row.id rows
    → All (λ r. r.id ≤ last_id row rows) (row ∷ rows)
le-last_id row [] a = (omega arith, tt)
le-last_id row (next ∷ rows) a =
    (omega (arith, id-le-last_id row (next ∷ rows) a), le-last_id next rows a.1)

le-last_id_all :
    (lo t : ℕ) (events : List Row) (row : Row) (rows : List Row)
    → Above lo events
    → keep (is_after t) events ≡ row ∷ rows
    → All (λ r. r.id ≤ last_id row rows) events
le-last_id_all lo t [] row rows a h = tt
le-last_id_all lo t (e ∷ es) row rows a h =
    let sealed : Above t (row ∷ rows) = subst (Above t) h (Above-keep_after lo t (e ∷ es) a) in
    elim (Bool-cases (ltb t e.id)) [
      | inl after ↦
          let all : keep (is_after t) es ≡ es = keep_after_all e.id t es (ground arith) a.1 in
          let same : row ∷ rows ≡ e ∷ es = sym (simp after at h) ∙ ap (◌∷◌ e) all in
          subst (All (λ r. r.id ≤ last_id row rows)) same (le-last_id row rows sealed.1)
      | inr before ↦ (
        ground (arith, id-le-last_id row rows sealed.1),
        le-last_id_all e.id t es row rows a.1 (simp before at h),
      )
    ]

abbrev pub unsealed : Log → List Row
unsealed log = keep (is_after (through_of (last_checkpoint log))) log.audit_events

unsealed-seal_rows :
    (d : Digests) (log : Log) (prev_chain : String) (rows : List Row)
    → IsOrdered log
    → unsealed log ≡ rows
    → unsealed (seal_rows d prev_chain rows log).1 ≡ []
unfolding seal_rows
unsealed-seal_rows d log prev_chain [] o h = h
unsealed-seal_rows d log prev_chain (row ∷ rows) o h =
    rw
      (get_last?-append log.audit_checkpoints
        (new_checkpoint d prev_chain (suc log.last_checkpoint_id) row rows))
      (keep_after_none (last_id row rows) log.audit_events
        (le-last_id_all 0 (through_of (last_checkpoint log)) log.audit_events row rows o.events h))

-- After a seal of a log ordered as above (rows, checkpoints and retention hashes) every event is
-- sealed: a second seal has nothing to do and changes nothing.
pub seal_audit_log_again :
    (d : Digests) (log : Log)
    → IsOrdered log
    → let after = (seal_audit_log d log).1 in
      (unsealed after ≡ [])
      × ((seal_audit_log d after).0.sealed ≡ false)
      × ((seal_audit_log d after).1 ≡ after)
unfolding seal_audit_log
seal_audit_log_again d log o =
    let none_left = unsealed-seal_rows d log (chain_of (last_checkpoint log)) _ o refl in
    (none_left, rw none_left refl, rw none_left refl)
