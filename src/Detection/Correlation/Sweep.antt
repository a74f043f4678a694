-- ===== src/Detection/Correlation/Sweep.antt =====
-- detection/correlation.py: `CorrelationEngine.sweep` and the table of detection/schema.sql that it
-- writes to. The two JSON columns are the lists they encode.
pub mod Idempotence
use intrusion_detection_syst.Prelude.{
  ℕ, suc, ◌+◌, String, Bool, Option, none, some, List, [], ◌∷◌, ◌++◌, if◌then◌else◌, ◌==◌,
  string_eq,
}
use intrusion_detection_syst.Prelude.Lists.{length, any}
use intrusion_detection_syst.Detection.Mitre.{or_nil}
use intrusion_detection_syst.Detection.Event.{NormalizedEvent}
use intrusion_detection_syst.Detection.Correlation.Candidate.{
  IncidentCandidate, Keying, severity, entities, mitre_techniques, risk_score, dedupe_key, min_by,
  max_by,
}
use intrusion_detection_syst.Detection.Correlation.Failures.{time}

pub record Incident : Type 0 where
  pub created_at : ℕ
  pub rule_name : String
  pub title : String
  pub severity : String
  pub risk_score : ℕ
  pub mitre_techniques : List String
  pub entities : List String
  pub event_count : ℕ
  pub first_event_ts : ℕ
  pub last_event_ts : ℕ
  pub summary : String
  pub status : String
  pub dedupe_key : String

-- The values of the row; `none` is the ValueError of a candidate without events.
abbrev pub row_from :
    ℕ
    → IncidentCandidate
    → Option String
    → Option NormalizedEvent
    → Option NormalizedEvent
    → Option String
    → Option Incident
row_from now c (some level) (some first) (some last) (some key) = some (record {
  created_at = now;
  rule_name = c.rule_name;
  title = c.title;
  severity = level;
  risk_score = risk_score c;
  mitre_techniques = mitre_techniques c;
  entities = entities c;
  event_count = length c.events;
  first_event_ts = first.timestamp;
  last_event_ts = last.timestamp;
  summary = c.summary;
  status = "open";
  dedupe_key = key;
})
row_from now c _ _ _ _ = none

unfoldable pub row_of : Keying → ℕ → IncidentCandidate → Option Incident
row_of k now c =
    row_from now c (severity c) (min_by time c.events) (max_by time c.events) (dedupe_key k c)

abbrev pub has_key : String → List Incident → Bool
has_key key table = any (λ i. i.dedupe_key == key) table

-- `INSERT OR IGNORE`, and the sum of `rowcount`
unfoldable pub insert_or_ignore : Incident → ℕ × List Incident → ℕ × List Incident
insert_or_ignore i (count, table) =
    if has_key i.dedupe_key table then (count, table) else (count + 1, table ++ i ∷ [])

-- A raised error ends the loop.
abbrev pub and_then {ℓ κ} : {A : Type ℓ} {B : Type κ} → Option A → (A → Option B) → Option B
and_then none f = none
and_then (some a) f = f a

-- `times n` is the clock when the n-th row is written.
unfoldable pub insert_all :
    Keying → (ℕ → ℕ) → ℕ → List IncidentCandidate → ℕ × List Incident → Option (ℕ × List Incident)
insert_all k times n [] acc = some acc
insert_all k times n (c ∷ cs) acc =
    and_then (row_of k (times n) c) (λ i. insert_all k times (suc n) cs (insert_or_ignore i acc))

-- The candidates of all rules; a rule that raises (`none`) is logged and adds nothing.
unfoldable pub run_rules :
    List (List NormalizedEvent → Option (List IncidentCandidate))
    → List NormalizedEvent
    → List IncidentCandidate
run_rules [] events = []
run_rules (rule ∷ rules) events = or_nil (rule events) ++ run_rules rules events

-- `none`: the sweep raises before its commit, and the table stays as it was.
unfoldable pub sweep :
    Keying
    → (ℕ → ℕ)
    → List (List NormalizedEvent → Option (List IncidentCandidate))
    → List NormalizedEvent
    → List Incident
    → Option (ℕ × List Incident)
unfolding insert_all run_rules
sweep k times rules events table = insert_all k times 0 (run_rules rules events) (0, table)
