-- ===== src/Detection/Scoring.antt =====
-- detection/scoring.py: risk scores of events and incidents.
pub mod Bounds
use intrusion_detection_syst.Prelude.{
  ℕ, ◌+◌, ◌-◌, ◌*◌, ◌/◌, String, Bool, true, false, ◌||◌, Option, none, some, List, [], ◌∷◌, ltb,
  min, max, if◌then◌else◌, ◌==◌, nat_eq, string_eq,
}
use intrusion_detection_syst.Prelude.Lists.{length, contains}
use intrusion_detection_syst.Prelude.Dict.{Dict, get}
use intrusion_detection_syst.Detection.Mitre.{technique_ids_for}

-- A value of a context dict, as `json.loads` gives it. Of an array the code reads the length, and
-- of numbers the natural ones.
pub data Json : Type 0 where
  text : String → Json
  number : ℕ → Json
  flag : Bool → Json
  array : List String → Json
  null : Json

abbrev pub Context : Type 0
Context = Dict String Json

unfoldable pub severity_base : Dict String ℕ
severity_base =
    ("DEBUG", 0) ∷ ("INFO", 10) ∷ ("WARNING", 40) ∷ ("ERROR", 55) ∷ ("CRITICAL", 75) ∷ []

abbrev pub high_impact_events : List String
high_impact_events =
    "arp_spoofing" ∷ "REPLAY_ATTACK" ∷ "FIM_MODIFIED" ∷ "FIM_DELETED" ∷ "dns_ioc_query" ∷ []

-- Python's truth of a value of the dict; a missing key is None.
unfoldable pub truthy : Option Json → Bool
truthy none = false
truthy (some (text s)) = if s == "" then false else true
truthy (some (number n)) = ltb 0 n
truthy (some (flag b)) = b
truthy (some (array [])) = false
truthy (some (array (_ ∷ _))) = true
truthy (some null) = false

-- `isinstance(port_count, int) and port_count > 0`; a Python bool is an int.
unfoldable pub port_bonus : Option Json → ℕ
port_bonus (some (number n)) = if ltb 0 n then min 10 (n / 10) else 0
port_bonus (some (flag b)) = 0
port_bonus _ = 0

unfoldable pub mac_bonus : Option Json → ℕ
mac_bonus (some (array macs)) = if ltb 2 (length macs) then 5 else 0
mac_bonus _ = 0

unfoldable pub context_amplifier : Context → ℕ
context_amplifier context =
    min
      (port_bonus (get context "port_count")
        + mac_bonus (get context "mac_history")
        + (if truthy (get context "alert_threshold_exceeded") then 10 else 0))
      15

abbrev pub or_ten : Option ℕ → ℕ
or_ten none = 10
or_ten (some n) = n

abbrev pub is_mapped : List String → Bool
is_mapped [] = false
is_mapped (_ ∷ _) = true

-- `upper` is Python's `str.upper`.
module _ (upper : String → String) where
  unfoldable pub base_score : String → ℕ
  unfolding severity_base
  base_score severity =
      or_ten (get severity_base (upper (if severity == "" then "INFO" else severity)))

  unfoldable pub mapped_bonus : String → ℕ
  mapped_bonus event_name = if is_mapped (technique_ids_for event_name) then 5 else 0

  unfoldable pub high_impact_bonus : String → ℕ
  high_impact_bonus event_name = if contains event_name high_impact_events then 5 else 0

  unfoldable pub risk_score : String → String → Context → ℕ
  risk_score severity event_name context = max 0 (
      min 100 (
        base_score severity
        + mapped_bonus event_name
        + high_impact_bonus event_name
        + context_amplifier context))

  pub record Explanation : Type 0 where
    pub severity_base : ℕ
    pub attack_mapped_bonus : ℕ
    pub high_impact_bonus : ℕ
    pub context_amplifier : ℕ
    pub total : ℕ

  unfoldable pub explain : String → String → Context → Explanation
  explain severity event_name context = record {
    severity_base = base_score severity;
    attack_mapped_bonus = mapped_bonus event_name;
    high_impact_bonus = high_impact_bonus event_name;
    context_amplifier = context_amplifier context;
    total = risk_score severity event_name context;
  }

abbrev pub maximum : List ℕ → ℕ
maximum [] = 0
maximum (x ∷ xs) = max x (maximum xs)

unfoldable pub incident_score : List ℕ → ℕ → ℕ
incident_score [] distinct_categories = 0
incident_score (x ∷ xs) distinct_categories = max 0 (
    min 100 (maximum (x ∷ xs) + min 10 ((length (x ∷ xs) - 1) * 2) + (distinct_categories - 1) * 5))
