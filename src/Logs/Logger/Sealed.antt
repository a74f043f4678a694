-- ===== src/Logs/Logger/Sealed.antt =====
-- logs/logger.py: what the handler writes breaks no seal of logs/integrity.py.
use intrusion_detection_syst.Prelude.{
  ℕ, suc, ◌≤◌, ◌<◌, String, true, Option, none, some, List, [], ◌∷◌, ◌++◌, map, ◌≡◌, ap, ◌∙◌,
  Bool-cases, inl, inr, arith,
}
use mathlib.Core.List.{append-nil}
use intrusion_detection_syst.Prelude.Lists.{length, keep, keep-append, All}
use intrusion_detection_syst.Prelude.Sorting.{sort}
use intrusion_detection_syst.Logs.Integrity.Chain.{
  Row, Log, Checkpoint, Digests, row_fingerprint, fold_all, genesis,
}
use intrusion_detection_syst.Logs.Integrity.Verify.{
  fingerprints, recompute, distinct, id_of, in_range, present, retired, verify_audit_log,
}
use intrusion_detection_syst.Logs.Integrity.Verdict.{IsIntact, Intact-map, verify_audit_log-ok_iff}
use intrusion_detection_syst.Logs.Logger.{
  LogRecord, Faults, Sink, Dumped, dumped, raised, write_failsafe, insert_event, emit, emit_all,
  insert_or_fail, emit_context, emit_dumped,
}

-- Every checkpoint ends at an id that the table has given.
abbrev pub IsGiven : Sink → Type 0
IsGiven s = All (λ cp. cp.through_id ≤ s.last_event_id) s.log.audit_checkpoints

abbrev with_row : Row → Log → Log
with_row row log = record log { audit_events = log.audit_events ++ row ∷ [] }

present-with_row :
    (row : Row) (log : Log) (cp : Checkpoint)
    → cp.through_id < row.id
    → present (with_row row log) cp ≡ present log cp
present-with_row row log cp h =
    keep-append (λ r. in_range cp r.id) log.audit_events (row ∷ [])
    ∙ ap (λ xs. present log cp ++ xs) (beyond row h)
    ∙ append-nil (present log cp)
  where
    beyond : (row : Row) → cp.through_id < row.id → keep (λ r. in_range cp r.id) (row ∷ []) ≡ []
    beyond row h = ground (arith, h)

IsIntact-with_row :
    (d : Digests) (row : Row) (log : Log) (cp : Checkpoint)
    → cp.through_id < row.id
    → IsIntact d log cp
    → IsIntact d (with_row row log) cp
unfolding fingerprints recompute
IsIntact-with_row d row log cp h i =
    let same : fingerprints d (with_row row log) cp ≡ fingerprints d log cp =
      ap
        (λ rows.
          map (λ r. (r.id, row_fingerprint d r)) rows
          ++ map (λ r. (r.event_id, r.fingerprint)) (retired log cp))
        (present-with_row row log cp h) in
    record {
      counted = ap length same ∙ i.counted;
      distinct_ids = ap (λ fps. distinct (map id_of fps)) same ∙ i.distinct_ids;
      same_hash =
          ap (λ fps. fold_all d cp.prev_chain_hash (map (λ p. p.1) (sort id_of fps))) same
          ∙ i.same_hash;
    }

with_row-ok :
    (d : Digests) (row : Row) (log : Log)
    → All (λ cp. cp.through_id < row.id) log.audit_checkpoints
    → (verify_audit_log d log).ok ≡ true
    → (verify_audit_log d (with_row row log)).ok ≡ true
with_row-ok d row log new h = (verify_audit_log-ok_iff d (with_row row log)).1 (
    Intact-map d log (with_row row log) (λ cp. cp.through_id < row.id) (IsIntact-with_row d row log)
      genesis log.audit_checkpoints new ((verify_audit_log-ok_iff d log).0 h))

All_suc :
    (n : ℕ) (cps : List Checkpoint)
    → All (λ cp. cp.through_id ≤ n) cps
    → All (λ cp. cp.through_id < suc n) cps
All_suc n [] a = tt
All_suc n (cp ∷ cps) a = (omega (arith, a.0), All_suc n cps a.1)

All_later :
    (n : ℕ) (cps : List Checkpoint)
    → All (λ cp. cp.through_id ≤ n) cps
    → All (λ cp. cp.through_id ≤ suc n) cps
All_later n [] a = tt
All_later n (cp ∷ cps) a = (omega (arith, a.0), All_later n cps a.1)

-- What a step keeps: a log without failures, and checkpoints within the given ids.
record Keeps (d : Digests) (s : Sink) : Type 0 where
  given : IsGiven s
  verified : (verify_audit_log d s.log).ok ≡ true

module _ {C : Type 0} (d : Digests) (dumps : C → Dumped) where
  insert_event-Keeps :
      (r : LogRecord C) (context : Option String) (s : Sink)
      → Keeps d s
      → Keeps d (insert_event r context s)
  unfolding insert_event
  insert_event-Keeps r context s k = record {
    given = All_later s.last_event_id s.log.audit_checkpoints k.given;
    verified =
        with_row-ok d
          (record {
            id = suc s.last_event_id;
            timestamp = r.created;
            level = r.levelname;
            module_source = r.name;
            message = r.message;
            context_data = context;
          })
          s.log (All_suc s.last_event_id s.log.audit_checkpoints k.given) k.verified;
  }

  write_failsafe-Keeps :
      (f : Faults) (e : String) (r : LogRecord C) (s : Sink)
      → Keeps d s
      → Keeps d (write_failsafe f e r s)
  unfolding write_failsafe
  write_failsafe-Keeps f e r s k = elim (Bool-cases f.file_fails) [
    | inl t ↦ simp t (record { given = k.given; verified = k.verified })
    | inr t ↦ simp t (record { given = k.given; verified = k.verified })
  ]

  insert_or_fail-Keeps :
      (r : LogRecord C) (context error : Option String) (f : Faults) (s : Sink)
      → Keeps d s
      → Keeps d (insert_or_fail r context error f s)
  insert_or_fail-Keeps r context none f s k = insert_event-Keeps r context s k
  insert_or_fail-Keeps r context (some e) f s k = write_failsafe-Keeps f e r s k

  emit-Keeps : (r : LogRecord C) (f : Faults) (s : Sink) → Keeps d s → Keeps d (emit dumps r f s)
  unfolding emit
  emit-Keeps r f s k = by_context r.context
    where
      by_dump : (x : Dumped) → Keeps d (emit_dumped r x f s)
      by_dump (dumped json) = insert_or_fail-Keeps r (some json) f.database_error f s k
      by_dump (raised e) = write_failsafe-Keeps f e r s k

      by_context : (context : Option C) → Keeps d (emit_context dumps r context f s)
      by_context none = insert_or_fail-Keeps r none f.database_error f s k
      by_context (some context) = by_dump (dumps context)

  all-Keeps :
      (calls : List (LogRecord C × Faults)) (s : Sink)
      → Keeps d s
      → Keeps d (emit_all dumps calls s)
  unfolding emit_all
  all-Keeps [] s k = k
  all-Keeps ((r, f) ∷ calls) s k = all-Keeps calls (emit dumps r f s) (emit-Keeps r f s k)

  -- A log that verifies without failures does so after any sequence of records, whatever fails at
  -- each, if no checkpoint ends beyond the last id that the table gave.
  pub emit_all-verify_audit_log :
      (calls : List (LogRecord C × Faults)) (s : Sink)
      → IsGiven s
      → (verify_audit_log d s.log).ok ≡ true
      → (verify_audit_log d (emit_all dumps calls s).log).ok ≡ true
  emit_all-verify_audit_log calls s g h =
      let k = all-Keeps calls s (record { given = g; verified = h }) in k.verified
