-- ===== src/Tests/Detection.antt =====
-- Deduplication, scores and correlation at a few events.
use intrusion_detection_syst.Prelude.{
  ℕ, ◌+◌, ◌≤◌, ◌<◌, ◌≡◌, refl, min, Bool, true, false, String, Option, none, some, List, [], ◌∷◌,
  ltb, arith,
}
use intrusion_detection_syst.Prelude.Lists.{All, any}
use intrusion_detection_syst.Detection.Dedup.{Deduplicator, is_duplicate}
use intrusion_detection_syst.Detection.Dedup.Window.{is_duplicate_repeat}
use intrusion_detection_syst.Detection.Scoring.{Context, text, explain}
use intrusion_detection_syst.Detection.Scoring.Bounds.{explain_adds_up}
use intrusion_detection_syst.Detection.Event.{NormalizedEvent}
use intrusion_detection_syst.Detection.Correlation.Candidate.{Keying, IncidentCandidate}
use intrusion_detection_syst.Detection.Correlation.Failures.{rule_brute_force, rule_replay_attack}
use intrusion_detection_syst.Detection.Correlation.Failures.Accusations.{
  IsJustified, accuses, rule_brute_force-IsJustified, rule_brute_force-accuses,
}
use intrusion_detection_syst.Detection.Correlation.Sweep.{Incident, sweep}
use intrusion_detection_syst.Detection.Correlation.Sweep.Idempotence.{sweep_again}

abbrev deduplicator : Deduplicator
deduplicator = record { window_seconds = 300; max_entries = 4; seen = ("a", 10) ∷ [] }

is_duplicate_repeat_example :
    (is_duplicate "b" 25 (is_duplicate "b" 20 deduplicator).1).0 ≡ ltb 25 (20 + 300)
unfolding is_duplicate intrusion_detection_syst.Detection.Dedup.evict
    intrusion_detection_syst.Prelude.Dict.get intrusion_detection_syst.Prelude.Dict.put
is_duplicate_repeat_example =
    is_duplicate_repeat "b" 20 25 deduplicator refl (let below : 2 < 4 = omega arith in below)

abbrev context : Context
context = ("reason_code", text "invalid_token") ∷ []

abbrev failure : ℕ → NormalizedEvent
failure timestamp = record {
  timestamp = timestamp;
  severity = "WARNING";
  category = "auth";
  event_name = "AUTH_FAILURE";
  message = "Authentication failed for user 'alice'.";
  entity = some "alice";
  source_module = "auth";
  event_id = some timestamp;
  context = [];
  mitre_techniques = "T1110" ∷ [];
  risk_score = 40;
}

abbrev failures : List NormalizedEvent
failures = failure 10 ∷ failure 500 ∷ failure 20 ∷ []

abbrev str : ℕ → String
str n = "n"

rule_brute_force-IsJustified_example : All (IsJustified 2 60) (rule_brute_force str failures 2 60)
rule_brute_force-IsJustified_example = rule_brute_force-IsJustified str 2 60 failures

rule_brute_force-accuses_example : any (accuses "alice") (rule_brute_force str failures 2 60) ≡ true
rule_brute_force-accuses_example =
    rule_brute_force-accuses str 2 60 "alice" 5 failures (ground arith) (ground arith)

abbrev keying : Keying
keying = record { str_of_int = str; sorted = λ xs. xs; sha256 = λ s. s; ticks = 1 }

abbrev rules : List (List NormalizedEvent → Option (List IncidentCandidate))
rules = (λ es. some (rule_brute_force str es 2 60)) ∷ (λ es. none) ∷ []

abbrev swept : Option (ℕ × List Incident)
swept = sweep keying (λ n. 600) rules failures []

abbrev table_of : Option (ℕ × List Incident) → List Incident
table_of none = []
table_of (some r) = r.1

sweep_again_example :
    sweep keying (λ n. 900) rules failures (table_of swept) ≡ some (0, table_of swept)
unfolding sweep rule_brute_force
    intrusion_detection_syst.Detection.Correlation.Failures.group_failures
    intrusion_detection_syst.Prelude.Dict.put
    intrusion_detection_syst.Detection.Correlation.Failures.first_burst
    intrusion_detection_syst.Prelude.Sorting.sort intrusion_detection_syst.Prelude.Dict.get
    intrusion_detection_syst.Prelude.Sorting.insert
    intrusion_detection_syst.Detection.Correlation.Sweep.row_of
    intrusion_detection_syst.Detection.Correlation.Candidate.severity
    intrusion_detection_syst.Detection.Correlation.Candidate.max_by
    intrusion_detection_syst.Detection.Correlation.Candidate.severity_rank
    intrusion_detection_syst.Detection.Correlation.Candidate.min_by
    intrusion_detection_syst.Detection.Correlation.Candidate.dedupe_key
    intrusion_detection_syst.Detection.Correlation.Sweep.insert_or_ignore
sweep_again_example =
    sweep_again keying (λ n. 600) (λ n. 900) rules failures [] (table_of swept) 1 refl

explain_adds_up_example :
    let e = explain (λ s. s) "CRITICAL" "syn_scan" context in
    (e.total
      ≡ min 100
          (e.severity_base + e.attack_mapped_bonus + e.high_impact_bonus + e.context_amplifier))
    × (e.severity_base ≤ 75)
    × (e.attack_mapped_bonus ≤ 5)
    × (e.high_impact_bonus ≤ 5)
    × (e.context_amplifier ≤ 15)
explain_adds_up_example = explain_adds_up (λ s. s) "CRITICAL" "syn_scan" context
