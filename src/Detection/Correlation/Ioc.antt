-- ===== src/Detection/Correlation/Ioc.antt =====
-- detection/correlation.py: `rule_ioc_match`.
use intrusion_detection_syst.Prelude.{
  ℕ, String, ◌<>◌, Option, none, some, List, [], ◌∷◌, ◌++◌, map, if◌then◌else◌, ◌==◌, string_eq,
}
use intrusion_detection_syst.Prelude.Lists.{length, add_new}
use intrusion_detection_syst.Prelude.Dict.{Dict, get, put}
use intrusion_detection_syst.Detection.Event.{NormalizedEvent, text_of}
use intrusion_detection_syst.Detection.Intel.{Library, ThreatIntel, has_indicators, match_indicator}
use intrusion_detection_syst.Detection.Correlation.Candidate.{IncidentCandidate}

-- The entities of an event that are texts and not empty, each once.
abbrev pub add_text : Option String → List String → List String
add_text none seen = seen
add_text (some s) seen = if s == "" then seen else add_new seen s

unfoldable pub ioc_entities : NormalizedEvent → List String
ioc_entities e = add_text (text_of (get e.context "ip_address")) (
    add_text (text_of (get e.context "source_ip"))
      (add_text (text_of (get e.context "domain")) (add_text e.entity [])))

-- entity -> [indicator, [events]]
abbrev pub Matched : Type 0
Matched = Dict String (String × List NormalizedEvent)

abbrev pub slot_or : Option (String × List NormalizedEvent) → String → String × List NormalizedEvent
slot_or none indicator = (indicator, [])
slot_or (some slot) indicator = slot

abbrev pub note_match : NormalizedEvent → String → Option String → Matched → Matched
note_match e entity none matched = matched
note_match e entity (some indicator) matched =
    if indicator == ""
    then matched
    else let (first, events) = slot_or (get matched entity) indicator in
      put matched entity (first, events ++ e ∷ [])

module _ (lib : Library) (str : ℕ → String) (intel : ThreatIntel lib) where
  unfoldable pub match_entities : NormalizedEvent → List String → Matched → Matched
  match_entities e [] matched = matched
  match_entities e (entity ∷ rest) matched =
      match_entities e rest (note_match e entity (match_indicator lib intel entity) matched)

  unfoldable pub match_events : List NormalizedEvent → Matched → Matched
  match_events [] matched = matched
  match_events (e ∷ es) matched = match_events es (match_entities e (ioc_entities e) matched)

  unfoldable pub ioc_candidate : String × (String × List NormalizedEvent) → IncidentCandidate
  ioc_candidate (entity, (indicator, events)) = record {
    rule_name = "ioc_match";
    title = "Threat-intel match: " <> entity;
    summary =
        "Entity '"
        <> entity
        <> "' matched the known-bad indicator '"
        <> indicator
        <> "' across "
        <> str (length events)
        <> " event(s). Treat the associated activity as hostile and investigate the source"
        <> " immediately.";
    events = events;
    extra_techniques = [];
    extra_entities = entity ∷ [];
  }

  unfoldable pub rule_ioc_match : List NormalizedEvent → List IncidentCandidate
  rule_ioc_match events =
      if has_indicators lib intel then map ioc_candidate (match_events events []) else []
