-- ===== src/Detection/Correlation/Sweep/Idempotence.antt =====
-- A sweep over the same events adds its incidents once.
use intrusion_detection_syst.Prelude.{
  ℕ, suc, ◌+◌, String, ◌≡◌, refl, ◌∙◌, ap, subst, true, Option, none, some, List, [], ◌∷◌, ◌++◌,
  if◌then◌else◌, ◌==◌, string_eq, arith, ==_self,
}
use intrusion_detection_syst.Prelude.Lists.{any-append, All}
use intrusion_detection_syst.Detection.Event.{NormalizedEvent}
use intrusion_detection_syst.Detection.Correlation.Candidate.{
  IncidentCandidate, Keying, severity, dedupe_key, min_by, max_by,
}
use intrusion_detection_syst.Detection.Correlation.Failures.{time}
use intrusion_detection_syst.Detection.Correlation.Sweep.{
  Incident, row_from, row_of, has_key, insert_or_ignore, and_then, insert_all, run_rules, sweep,
}

abbrev stamp : ℕ → Option Incident → Option Incident
stamp b none = none
stamp b (some row) = some (record row { created_at = b })

row_from_at :
    (c : IncidentCandidate) (level : Option String) (first last : Option NormalizedEvent)
    (key : Option String) (a b : ℕ) (row : Incident)
    → row_from a c level first last key ≡ some row
    → row_from b c level first last key ≡ some (record row { created_at = b })
row_from_at c (some l) (some f) (some g) (some key) a b row h = ap (stamp b) h
row_from_at c none f g key a b row h = absurd (cc)
row_from_at c (some l) none g key a b row h = absurd (cc)
row_from_at c (some l) (some f) none key a b row h = absurd (cc)
row_from_at c (some l) (some f) (some g) none a b row h = absurd (cc)

row_of_at :
    (k : Keying) (c : IncidentCandidate) (a b : ℕ) (row : Incident)
    → row_of k a c ≡ some row
    → row_of k b c ≡ some (record row { created_at = b })
unfolding row_of
row_of_at k c a b row h =
    row_from_at c (severity c) (min_by time c.events) (max_by time c.events) (dedupe_key k c) a b
      row h

-- The candidate's row can be built and its key is in the table.
abbrev IsStored : Keying → List Incident → IncidentCandidate → Type 0
IsStored k table c =
    (row : Incident) × (row_of k 0 c ≡ some row) × (has_key row.dedupe_key table ≡ true)

insert_or_ignore-has_key :
    (key : String) (i : Incident) (acc : ℕ × List Incident)
    → has_key key acc.1 ≡ true
    → has_key key (insert_or_ignore i acc).1 ≡ true
unfolding insert_or_ignore
insert_or_ignore-has_key key i (count, table) h =
    ground (arith, any-append (λ j. j.dedupe_key == key) table (i ∷ []))

insert_or_ignore_own :
    (i : Incident) (acc : ℕ × List Incident)
    → has_key i.dedupe_key (insert_or_ignore i acc).1 ≡ true
unfolding insert_or_ignore
insert_or_ignore_own i (count, table) =
    ground
      (arith, any-append (λ j. j.dedupe_key == i.dedupe_key) table (i ∷ []), ==_self i.dedupe_key)

and_then-some {ℓ κ} :
    {A : Type ℓ} {B : Type κ} (o : Option A) (f : A → Option B) (b : B)
    → and_then o f ≡ some b
    → (a : A) × (o ≡ some a) × (f a ≡ some b)
and_then-some none f b h = absurd (cc)
and_then-some (some a) f b h = (a, refl, h)

module _ (k : Keying) where
  insert_all_step :
      (times : ℕ → ℕ) (n : ℕ) (c : IncidentCandidate) (cs : List IncidentCandidate)
      (acc out : ℕ × List Incident)
      → insert_all k times n (c ∷ cs) acc ≡ some out
      → (i : Incident) × (row_of k (times n) c ≡ some i)
        × (insert_all k times (suc n) cs (insert_or_ignore i acc) ≡ some out)
  unfolding insert_all
  insert_all_step times n c cs acc out h =
      and_then-some (row_of k (times n) c)
        (λ i. insert_all k times (suc n) cs (insert_or_ignore i acc)) out h

  insert_all-has_key :
      (times : ℕ → ℕ) (n : ℕ) (cs : List IncidentCandidate) (acc out : ℕ × List Incident)
      (key : String)
      → insert_all k times n cs acc ≡ some out
      → has_key key acc.1 ≡ true
      → has_key key out.1 ≡ true
  unfolding insert_all
  insert_all-has_key times n [] acc out key h e =
      let same : acc ≡ out = cc in subst (λ r. has_key key r.1 ≡ true) same e
  insert_all-has_key times n (c ∷ cs) acc out key h e =
      let (i, row, rest) = insert_all_step times n c cs acc out h in
      insert_all-has_key times (suc n) cs (insert_or_ignore i acc) out key rest
        (insert_or_ignore-has_key key i acc e)

  insert_all-IsStored :
      (times : ℕ → ℕ) (n : ℕ) (cs : List IncidentCandidate) (acc out : ℕ × List Incident)
      → insert_all k times n cs acc ≡ some out
      → All (IsStored k out.1) cs
  insert_all-IsStored times n [] acc out h = tt
  insert_all-IsStored times n (c ∷ cs) acc out h =
      let (i, row, rest) = insert_all_step times n c cs acc out h in
      let acc' = insert_or_ignore i acc in
      let known =
        insert_all-has_key times (suc n) cs acc' out i.dedupe_key rest
          (insert_or_ignore_own i acc) in
      (
        (record i { created_at = 0 }, row_of_at k c (times n) 0 i row, known),
        insert_all-IsStored times (suc n) cs acc' out rest,
      )

  insert_all_stored :
      (times : ℕ → ℕ) (n : ℕ) (cs : List IncidentCandidate) (count : ℕ) (table : List Incident)
      → All (IsStored k table) cs
      → insert_all k times n cs (count, table) ≡ some (count, table)
  unfolding insert_all insert_or_ignore
  insert_all_stored times n [] count table a = refl
  insert_all_stored times n (c ∷ cs) count table a =
      let (row, is, known) = a.0 in
      let stored = insert_all_stored times (suc n) cs count table a.1 in
      ap (λ o. and_then o (λ i. insert_all k times (suc n) cs (insert_or_ignore i (count, table))))
        (row_of_at k c 0 (times n) row is)
      ∙ (ap
            (λ b. insert_all k times (suc n) cs (
              if b
              then (count, table)
              else (count + 1, table ++ record row { created_at = times n } ∷ [])))
            known
          ∙ stored)

  -- A second sweep with the same rules over the same events succeeds, adds no incident and leaves
  -- the table as the first one did, whatever the clock shows.
  pub sweep_again :
      (times times' : ℕ → ℕ) (rules : List (List NormalizedEvent → Option (List IncidentCandidate)))
      (events : List NormalizedEvent) (table table' : List Incident) (count : ℕ)
      → sweep k times rules events table ≡ some (count, table')
      → sweep k times' rules events table' ≡ some (0, table')
  unfolding sweep
  sweep_again times times' rules events table table' count h =
      insert_all_stored times' 0 (run_rules rules events) 0 table'
        (insert_all-IsStored times 0 (run_rules rules events) (0, table) (count, table') h)
