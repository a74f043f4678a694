-- ===== src/Logs/Integrity/Sealing.antt =====
-- Sealing keeps a verified log verified, and leaves nothing unsealed.
use intrusion_detection_syst.Prelude.{
  ℕ, suc, ◌+◌, ◌≤◌, ◌<◌, String, ◌≡◌, refl, sym, subst, ◌∙◌, ap, Bool, true, false, not, ◌&&◌, ◌||◌,
  Option, none, some, List, [], ◌∷◌, ◌++◌, map, ◌↔◌, ◌==◌, nat_eq, string_eq, if◌then◌else◌, arith,
  nat_beq_iff, Bool-cases, inl, inr, leb, ltb,
}
pub mod Preserves
use mathlib.Core.List.{append-nil}
use intrusion_detection_syst.Prelude.Lists.{length, keep, All, contains, keep_all, get_last?}
use intrusion_detection_syst.Prelude.Sorting.{sort, insert}
use intrusion_detection_syst.Logs.Integrity.Chain.{
  Row, Checkpoint, RetentionHash, Log, Digests, genesis, row_fingerprint, fold_all,
}
use intrusion_detection_syst.Logs.Integrity.Seal.{
  last_checkpoint, through_of, chain_of, is_after, last_id, seal_rows, seal_audit_log,
}
use intrusion_detection_syst.Logs.Integrity.Verify.{
  VerifyResult, Failure, in_range, present, retired, fingerprints, distinct, recompute, id_of,
  verify_audit_log, count_unsealed,
}
use intrusion_detection_syst.Logs.Integrity.Verdict.{IsIntact, Intact, verify_audit_log-ok_iff}

-- The ids ascend, from above a bound: the table in the order of its key.
abbrev pub Above : ℕ → List Row → Type 0
Above lo [] = Unit
Above lo (row ∷ rows) = (lo < row.id) × Above row.id rows

Above-weaken : (lo t : ℕ) (rows : List Row) → t ≤ lo → Above lo rows → Above t rows
Above-weaken lo t [] h a = a
Above-weaken lo t (row ∷ rows) h a = (omega arith, a.1)

pub keep_after_all :
    (lo t : ℕ) (rows : List Row) → t ≤ lo → Above lo rows → keep (is_after t) rows ≡ rows
keep_after_all lo t [] h a = refl
keep_after_all lo t (row ∷ rows) h a = ground (arith, keep_after_all row.id t rows)

pub Above-keep_after :
    (lo t : ℕ) (rows : List Row) → Above lo rows → Above t (keep (is_after t) rows)
Above-keep_after lo t [] a = tt
Above-keep_after lo t (row ∷ rows) a = elim (Bool-cases (ltb t row.id)) [
  | inl after ↦
      simp after (rw (keep_after_all row.id t rows (ground arith) a.1) (ground arith, a.1))
  | inr before ↦ simp before (Above-keep_after row.id t rows a.1)
]

id-le-last_id : (row : Row) (rows : List Row) → Above row.id rows → row.id ≤ last_id row rows
id-le-last_id row [] a = omega arith
id-le-last_id row (next ∷ rows) a = omega (arith, id-le-last_id next rows a.1)

in_range_tail :
    (from : ℕ) (row : Row) (rows : List Row)
    → from ≤ row.id
    → Above row.id rows
    → All (λ r. (leb from r.id && leb r.id (last_id row rows)) ≡ true) (row ∷ rows)
in_range_tail from row [] h a = (ground arith, tt)
in_range_tail from row (next ∷ rows) h a =
    (ground (arith, id-le-last_id next rows a.1), in_range_tail from next rows (omega arith) a.1)

-- The segment's range holds exactly the rows after the last seal.
keep_in_range :
    (lo t : ℕ) (events : List Row) (row : Row) (rows : List Row)
    → Above lo events
    → keep (is_after t) events ≡ row ∷ rows
    → keep (λ r. leb row.id r.id && leb r.id (last_id row rows)) events ≡ row ∷ rows
keep_in_range lo t [] row rows a h = h
keep_in_range lo t (e ∷ es) row rows a h =
    let sealed : Above t (row ∷ rows) = subst (Above t) h (Above-keep_after lo t (e ∷ es) a) in
    elim (Bool-cases (ltb t e.id)) [
      | inl after ↦
          let all : keep (is_after t) es ≡ es = keep_after_all e.id t es (ground arith) a.1 in
          let same : e ∷ es ≡ row ∷ rows = ap (◌∷◌ e) (sym all) ∙ simp after at h in
          ap (keep (λ r. leb row.id r.id && leb r.id (last_id row rows))) same
          ∙ keep_all _ (row ∷ rows) (in_range_tail row.id row rows (omega arith) sealed.1)
      | inr before ↦
          ground (arith, sealed.0, keep_in_range e.id t es row rows a.1 (simp before at h))
    ]

-- What the table of a row's fingerprints is, in the form of `fingerprints`.
abbrev pub stamped : Digests → List Row → List (ℕ × String)
stamped d = map (λ r. (r.id, row_fingerprint d r))

pub sort-stamped :
    (d : Digests) (lo : ℕ) (rows : List Row)
    → Above lo rows
    → sort id_of (stamped d rows) ≡ stamped d rows
unfolding sort insert
sort-stamped d lo [] a = refl
sort-stamped d lo (row ∷ []) a = refl
sort-stamped d lo (row ∷ next ∷ rows) a =
    rw (sort-stamped d row.id (next ∷ rows) a.1) (ground arith)

contains_below :
    (d : Digests) (id lo : ℕ) (rows : List Row)
    → id ≤ lo
    → Above lo rows
    → contains id (map id_of (stamped d rows)) ≡ false
contains_below d id lo [] h a = refl
contains_below d id lo (row ∷ rows) h a = ground (arith, contains_below d id row.id rows)

distinct-stamped :
    (d : Digests) (lo : ℕ) (rows : List Row)
    → Above lo rows
    → distinct (map id_of (stamped d rows)) ≡ true
unfolding distinct
distinct-stamped d lo [] a = refl
distinct-stamped d lo (row ∷ rows) a =
    ground (arith, contains_below d row.id row.id rows, distinct-stamped d row.id rows a.1)

pub length-stamped : (d : Digests) (rows : List Row) → length (stamped d rows) ≡ length rows
length-stamped d [] = refl
length-stamped d (row ∷ rows) = ap suc (length-stamped d rows)

pub seconds-stamped :
    (d : Digests) (rows : List Row) → map (λ p. p.1) (stamped d rows) ≡ map (row_fingerprint d) rows
seconds-stamped d [] = refl
seconds-stamped d (row ∷ rows) = ap (◌∷◌ (row_fingerprint d row)) (seconds-stamped d rows)

-- The rows ascend by positive ids, no checkpoint ends after the last one, and only events up to its
-- end are retired.
pub record IsOrdered (log : Log) : Type 0 where
  pub events : Above 0 log.audit_events
  pub sealed : All (λ cp. cp.through_id ≤ through_of (last_checkpoint log)) log.audit_checkpoints
  pub retired_sealed :
      All (λ h. h.event_id ≤ through_of (last_checkpoint log)) log.audit_retention_hashes

none_retired :
    (t from through : ℕ) (hs : List RetentionHash)
    → t < from
    → All (λ h. h.event_id ≤ t) hs
    → keep (λ h. leb from h.event_id && leb h.event_id through) hs ≡ []
none_retired t from through [] lt a = refl
none_retired t from through (h ∷ hs) lt a = ground (arith, none_retired t from through hs lt a.1)

-- The checkpoint that `seal_audit_log` inserts for the rows after the last one.
abbrev pub new_checkpoint : Digests → String → ℕ → Row → List Row → Checkpoint
new_checkpoint d prev_chain id row rows = record {
  id = id;
  from_id = row.id;
  through_id = last_id row rows;
  row_count = length (row ∷ rows);
  chain_hash = fold_all d prev_chain (map (row_fingerprint d) (row ∷ rows));
  prev_chain_hash = prev_chain;
}

new_checkpoint-IsIntact :
    (d : Digests) (log : Log) (prev_chain : String) (id t : ℕ) (row : Row) (rows : List Row)
    → Above 0 log.audit_events
    → All (λ h. h.event_id ≤ t) log.audit_retention_hashes
    → keep (is_after t) log.audit_events ≡ row ∷ rows
    → IsIntact d log (new_checkpoint d prev_chain id row rows)
unfolding fingerprints recompute
new_checkpoint-IsIntact d log prev_chain id t row rows a r h =
    let cp = new_checkpoint d prev_chain id row rows in
    let sealed : Above t (row ∷ rows) =
      subst (Above t) h (Above-keep_after 0 t log.audit_events a) in
    let here : present log cp ≡ row ∷ rows = keep_in_range 0 t log.audit_events row rows a h in
    let gone : retired log cp ≡ [] =
      none_retired t row.id (last_id row rows) log.audit_retention_hashes (omega arith) r in
    let all : fingerprints d log cp ≡ stamped d (row ∷ rows) =
      rw (here, gone) (append-nil (stamped d (row ∷ rows))) in
    record {
      counted = ap length all ∙ length-stamped d (row ∷ rows);
      distinct_ids =
          ap (λ l. distinct (map id_of l)) all ∙ distinct-stamped d t (row ∷ rows) sealed;
      same_hash =
          ap (λ l. fold_all d prev_chain (map (λ p. p.1) (sort id_of l))) all
          ∙ ap (λ l. fold_all d prev_chain (map (λ p. p.1) l))
              (sort-stamped d t (row ∷ rows) sealed)
          ∙ ap (fold_all d prev_chain) (seconds-stamped d (row ∷ rows));
    }
