-- ===== src/Logs/Logger/Fallbacks.antt =====
-- logs/logger.py: where each record goes, whatever fails.
use mathlib.Core.List.{append-nil, append_assoc}
use intrusion_detection_syst.Prelude.{
  ℕ, suc, String, ◌<>◌, Option, none, some, List, [], ◌∷◌, ◌++◌, ◌≡◌, refl, sym, ap, ◌∙◌,
  Bool-cases, inl, inr, if◌then◌else◌,
}
use intrusion_detection_syst.Logs.Integrity.Chain.{Row}
use intrusion_detection_syst.Logs.Logger.{
  LogRecord, Faults, Sink, Dumped, dumped, raised, failsafe_msg, write_failsafe, insert_event, emit,
  emit_all, insert_or_fail, emit_context, emit_dumped,
}

-- What becomes of a record: the row with this context is stored, or this error prevents it.
pub data Fate : Type 0 where
  stored : Option String → Fate
  prevented : String → Fate

abbrev fate_in : Option String → Option String → Fate
fate_in context none = stored context
fate_in context (some error) = prevented error

abbrev fate_dumped : Dumped → Option String → Fate
fate_dumped (dumped json) database_error = fate_in (some json) database_error
fate_dumped (raised error) database_error = prevented error

abbrev fate_of : {C : Type 0} → (C → Dumped) → Option C → Option String → Fate
fate_of dumps none database_error = fate_in none database_error
fate_of dumps (some context) database_error = fate_dumped (dumps context) database_error

-- The context is encoded, if there is one, before the database is asked.
abbrev pub fate : {C : Type 0} → (C → Dumped) → LogRecord C × Faults → Fate
fate dumps (r, f) = fate_of dumps r.context f.database_error

-- The text line of a record that an error kept from the database.
abbrev pub line_of : {C : Type 0} → LogRecord C × Faults → String → String
line_of (r, f) error =
    "[" <> f.now <> "] SQLITE_FAIL (" <> error <> ") | " <> r.levelname <> " - " <> r.name <> " - "
    <> r.message <> "\n"

abbrev id_after : ℕ → Fate → ℕ
id_after last_id (stored context) = suc last_id
id_after last_id (prevented error) = last_id

-- A list that grew by a step and then by the rest grew by both.
grows_on :
    {A : Type 0} (before middle after step rest : List A)
    → middle ≡ before ++ step
    → after ≡ middle ++ rest
    → after ≡ before ++ (step ++ rest)
grows_on before middle after step rest h k =
    k ∙ (ap (λ xs. xs ++ rest) h ∙ append_assoc before step rest)

module _ {C : Type 0} where
  abbrev rows_at : LogRecord C × Faults → ℕ → Fate → List Row
  rows_at (r, f) last_id (prevented error) = []
  rows_at (r, f) last_id (stored context) =
      record {
        id = suc last_id;
        timestamp = r.created;
        level = r.levelname;
        module_source = r.name;
        message = r.message;
        context_data = context;
      }
      ∷ []

  abbrev lines_at : LogRecord C × Faults → Fate → List String
  lines_at call (stored context) = []
  lines_at call (prevented error) = if call.1.file_fails then [] else line_of call error ∷ []

  abbrev writes_at : LogRecord C × Faults → Fate → List String
  writes_at call (stored context) = []
  writes_at call (prevented error) =
      if call.1.file_fails
      then ("FATAL FALLBACK ERROR: " <> line_of call error) ∷ call.1.error_report
      else []

  -- What one call adds to the three places.
  record Adds (call : LogRecord C × Faults) (fate : Fate) (before after : Sink) : Type 0 where
    rows :
        after.log.audit_events ≡ before.log.audit_events ++ rows_at call before.last_event_id fate
    next_id : after.last_event_id ≡ id_after before.last_event_id fate
    lines : after.failsafe ≡ before.failsafe ++ lines_at call fate
    writes : after.standard_error ≡ before.standard_error ++ writes_at call fate

  write_failsafe-Adds :
      (f : Faults) (e : String) (r : LogRecord C) (s : Sink)
      → Adds (r, f) (prevented e) s (write_failsafe f e r s)
  unfolding write_failsafe failsafe_msg
  write_failsafe-Adds f e r s = elim (Bool-cases f.file_fails) [
    | inl t ↦ record {
      rows = simp t (sym (append-nil s.log.audit_events));
      next_id = simp t refl;
      lines = simp t (sym (append-nil s.failsafe));
      writes = simp t refl;
    }
    | inr t ↦ record {
      rows = simp t (sym (append-nil s.log.audit_events));
      next_id = simp t refl;
      lines = simp t refl;
      writes = simp t (sym (append-nil s.standard_error));
    }
  ]

  insert_event-Adds :
      (f : Faults) (r : LogRecord C) (context : Option String) (s : Sink)
      → Adds (r, f) (stored context) s (insert_event r context s)
  unfolding insert_event
  insert_event-Adds f r context s = record {
    rows = refl;
    next_id = refl;
    lines = sym (append-nil s.failsafe);
    writes = sym (append-nil s.standard_error);
  }

  insert_or_fail-Adds :
      (r : LogRecord C) (context error : Option String) (f : Faults) (s : Sink)
      → Adds (r, f) (fate_in context error) s (insert_or_fail r context error f s)
  insert_or_fail-Adds r context none f s = insert_event-Adds f r context s
  insert_or_fail-Adds r context (some e) f s = write_failsafe-Adds f e r s

  emit-Adds :
      (dumps : C → Dumped) (r : LogRecord C) (f : Faults) (s : Sink)
      → Adds (r, f) (fate dumps (r, f)) s (emit dumps r f s)
  unfolding emit
  emit-Adds dumps r f s = by_context r.context
    where
      by_dump : (d : Dumped) → Adds (r, f) (fate_dumped d f.database_error) s (emit_dumped r d f s)
      by_dump (dumped json) = insert_or_fail-Adds r (some json) f.database_error f s
      by_dump (raised e) = write_failsafe-Adds f e r s

      by_context :
          (context : Option C)
          → Adds
              (r, f)
              (fate_of dumps context f.database_error)
              s
              (emit_context dumps r context f s)
      by_context none = insert_or_fail-Adds r none f.database_error f s
      by_context (some context) = by_dump (dumps context)

  -- The rows of the records that are stored, numbered on from the last id.
  abbrev pub stored_rows : (C → Dumped) → ℕ → List (LogRecord C × Faults) → List Row
  stored_rows dumps last_id [] = []
  stored_rows dumps last_id (call ∷ calls) =
      rows_at call last_id (fate dumps call)
      ++ stored_rows dumps (id_after last_id (fate dumps call)) calls

  -- The lines of the others for which the failsafe file can be written.
  abbrev pub failsafe_lines : (C → Dumped) → List (LogRecord C × Faults) → List String
  failsafe_lines dumps [] = []
  failsafe_lines dumps (call ∷ calls) =
      lines_at call (fate dumps call) ++ failsafe_lines dumps calls

  -- For each of the rest its line after a prefix, and what `handleError` reports.
  abbrev pub error_writes : (C → Dumped) → List (LogRecord C × Faults) → List String
  error_writes dumps [] = []
  error_writes dumps (call ∷ calls) = writes_at call (fate dumps call) ++ error_writes dumps calls

  -- Over any sequence of records and whatever fails at each, the audit table gets the rows of the
  -- records whose context can be encoded and for which the database raises nothing, with their
  -- columns and in order, on new ids; the failsafe file gets the lines of the others for which it
  -- can be written; the standard error stream gets the lines of the rest, each with the report of
  -- `handleError`; and nothing else changes in the three places.
  pub emit_all-contents :
      (dumps : C → Dumped) (calls : List (LogRecord C × Faults)) (s : Sink)
      → ((emit_all dumps calls s).log.audit_events
          ≡ s.log.audit_events ++ stored_rows dumps s.last_event_id calls)
        × ((emit_all dumps calls s).failsafe ≡ s.failsafe ++ failsafe_lines dumps calls)
        × ((emit_all dumps calls s).standard_error ≡ s.standard_error ++ error_writes dumps calls)
  unfolding emit_all
  emit_all-contents dumps [] s = (
    sym (append-nil s.log.audit_events),
    sym (append-nil s.failsafe),
    sym (append-nil s.standard_error),
  )
  emit_all-contents dumps ((r, f) ∷ calls) s =
      let step = emit-Adds dumps r f s in
      let (rows, lines, writes) = emit_all-contents dumps calls (emit dumps r f s) in
      (
        grows_on _ _ _ _ _ step.rows (
            rows
            ∙ ap (λ n. (emit dumps r f s).log.audit_events ++ stored_rows dumps n calls)
                step.next_id),
        grows_on _ _ _ _ _ step.lines lines,
        grows_on _ _ _ _ _ step.writes writes,
      )
