-- ===== src/Detection/Playbook/Enrich.antt =====
-- detection/playbook.py: `enrich_incident`, which only adds keys.
use intrusion_detection_syst.Prelude.{
  ℕ, String, sym, Option, none, some, ◌≡◌, refl, ◌≢◌, ◌∙◌, ap, ◌==◌, string_eq, inl, inr,
  Bool-cases,
}
use intrusion_detection_syst.Prelude.Dict.{get, put, get-put}
use intrusion_detection_syst.Detection.Scoring.{Json, text, number, array, Context}
use intrusion_detection_syst.Detection.Playbook.{playbook_for, confidence_for}

-- `incident.setdefault(key, value)`
abbrev pub put_missing : String → Json → Context → Option Json → Context
put_missing key value incident none = put incident key value
put_missing key value incident (some present) = incident

unfoldable pub put_default : String → Json → Context → Context
put_default key value incident = put_missing key value incident (get incident key)

-- `incident.get("rule_name", "")`, a text
abbrev pub rule_of : Option Json → String
rule_of (some (text name)) = name
rule_of _ = ""

-- `incident.get("event_count", 1)`, a number
abbrev pub event_count_of : Option Json → ℕ
event_count_of (some (number n)) = n
event_count_of _ = 1

unfoldable pub enrich_incident : Context → Context
enrich_incident incident =
    let pb = playbook_for (rule_of (get incident "rule_name")) in
    let named = put_default "tactic" (text pb.tactic) incident in
    let confidence =
      confidence_for (rule_of (get named "rule_name")) (event_count_of (get named "event_count")) in
    put_default "references" (array pb.references) (
      put_default "remediation" (array pb.remediation)
        (put_default "confidence" (number confidence) named))

put_missing-keeps :
    (key k : String) (value v : Json) (incident : Context) (present : Option Json)
    → get incident key ≡ present
    → get incident k ≡ some v
    → get (put_missing key value incident present) k ≡ some v
put_missing-keeps key k value v incident none e h = elim (Bool-cases (key == k)) [
  | inl t ↦ absurd (none≢some (sym e ∙ (ap (get incident) ((string_eq.test_iff key k).0 t) ∙ h)))
  | inr t ↦ get-put incident key k value ∙ simp t h
]
  where
    none≢some : none ≢ some v
    none≢some q = absurd cc
put_missing-keeps key k value v incident (some present) e h = h

put_default-keeps :
    (key k : String) (value v : Json) (incident : Context)
    → get incident k ≡ some v
    → get (put_default key value incident) k ≡ some v
unfolding put_default
put_default-keeps key k value v incident h = put_missing-keeps key k value v incident _ refl h

-- The enrichment overwrites no key of the incident.
pub enrich_incident-keeps :
    (incident : Context) (k : String) (v : Json)
    → get incident k ≡ some v
    → get (enrich_incident incident) k ≡ some v
unfolding enrich_incident
enrich_incident-keeps incident k v h = put_default-keeps "references" k _ v _ (
    put_default-keeps "remediation" k _ v _
      (put_default-keeps "confidence" k _ v _ (put_default-keeps "tactic" k _ v incident h)))
