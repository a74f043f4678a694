-- ===== src/Detection/Correlation/Candidate.antt =====
-- detection/correlation.py: `IncidentCandidate` and its derived properties.
use intrusion_detection_syst.Prelude.{
  ℕ, ◌/◌, String, ◌<>◌, Option, none, some, List, [], ◌∷◌, map, ltb, if◌then◌else◌, ◌==◌, nat_eq,
  string_eq,
}
use intrusion_detection_syst.Prelude.Lists.{length, add_new}
use intrusion_detection_syst.Prelude.Dict.{Dict, get}
use intrusion_detection_syst.Detection.Event.{NormalizedEvent}
use intrusion_detection_syst.Detection.Scoring.{incident_score}

pub record IncidentCandidate : Type 0 where
  pub rule_name : String
  pub title : String
  pub summary : String
  pub events : List NormalizedEvent
  pub extra_techniques : List String
  pub extra_entities : List String

unfoldable pub severity_order : Dict String ℕ
severity_order = ("DEBUG", 0) ∷ ("INFO", 1) ∷ ("WARNING", 2) ∷ ("ERROR", 3) ∷ ("CRITICAL", 4) ∷ []

abbrev pub or_zero : Option ℕ → ℕ
or_zero none = 0
or_zero (some n) = n

unfoldable pub severity_rank : NormalizedEvent → ℕ
unfolding severity_order
severity_rank e = or_zero (get severity_order e.severity)

-- `max(events, key=...)`: the first of the greatest; `none` is the ValueError of an empty list.
unfoldable pub max_by {ℓ} : {A : Type ℓ} → (A → ℕ) → List A → Option A
max_by key [] = none
max_by key (x ∷ xs) = elim (max_by key xs) [
  | none ↦ some x
  | some y ↦ if ltb (key x) (key y) then some y else some x
]

-- `min(events, key=...)`: the first of the least.
unfoldable pub min_by {ℓ} : {A : Type ℓ} → (A → ℕ) → List A → Option A
min_by key [] = none
min_by key (x ∷ xs) = elim (min_by key xs) [
  | none ↦ some x
  | some y ↦ if ltb (key y) (key x) then some y else some x
]

unfoldable pub severity : IncidentCandidate → Option String
severity c = elim (max_by severity_rank c.events) [ none ↦ none | some e ↦ some e.severity ]

-- `e.entity and e.entity not in seen`
abbrev pub add_entity : List String → Option String → List String
add_entity seen none = seen
add_entity seen (some entity) = if entity == "" then seen else add_new seen entity

unfoldable pub event_entities : List String → List NormalizedEvent → List String
event_entities seen [] = seen
event_entities seen (e ∷ es) = event_entities (add_entity seen e.entity) es

unfoldable pub add_all : List String → List String → List String
add_all seen [] = seen
add_all seen (x ∷ xs) = add_all (add_new seen x) xs

unfoldable pub entities : IncidentCandidate → List String
unfolding event_entities add_all
entities c = add_all (event_entities [] c.events) c.extra_entities

unfoldable pub event_techniques : List String → List NormalizedEvent → List String
unfolding add_all
event_techniques seen [] = seen
event_techniques seen (e ∷ es) = event_techniques (add_all seen e.mitre_techniques) es

unfoldable pub mitre_techniques : IncidentCandidate → List String
unfolding event_techniques add_all
mitre_techniques c = add_all (event_techniques [] c.events) c.extra_techniques

-- A set of texts, by its members in order of arrival.
unfoldable pub distinct_of : List String → List String
unfolding add_all
distinct_of xs = add_all [] xs

unfoldable pub risk_score : IncidentCandidate → ℕ
unfolding distinct_of
risk_score c =
    incident_score (map (λ e. e.risk_score) c.events)
      (length (distinct_of (map (λ e. e.category) c.events)))

-- Python's `str` of an int, `sorted` on texts, hashlib's hex digest, and the ticks of a second.
pub record Keying : Type 0 where
  pub str_of_int : ℕ → String
  pub sorted : List String → List String
  pub sha256 : String → String
  pub ticks : ℕ

abbrev pub join_bar : List String → String
join_bar [] = ""
join_bar (x ∷ []) = x
join_bar (x ∷ y ∷ xs) = x <> "|" <> join_bar (y ∷ xs)

-- The id of the first event, or its time in whole seconds.
abbrev pub anchor_of : Keying → NormalizedEvent → ℕ
anchor_of k first = elim first.event_id [ some id ↦ id | none ↦ first.timestamp / k.ticks ]

unfoldable pub dedupe_key : Keying → IncidentCandidate → Option String
dedupe_key k c = elim (min_by (λ e. e.timestamp) c.events) [
  | none ↦ none
  | some first ↦ some (
      k.sha256 (
        c.rule_name
        <> "|"
        <> join_bar (k.sorted (entities c))
        <> "|"
        <> k.str_of_int (anchor_of k first)))
]
