-- ===== src/Detection/Mitre.antt =====
-- detection/mitre.py: the techniques that an event name evidences.
use intrusion_detection_syst.Prelude.{String, Option, none, some, List, [], ◌∷◌, map, string_eq}
use intrusion_detection_syst.Prelude.Dict.{Dict, get, put}

pub record Technique : Type 0 where
  pub technique_id : String
  pub name : String
  pub tactic : String

abbrev technique : String → String → String → List Technique
technique technique_id name tactic =
    record { technique_id = technique_id; name = name; tactic = tactic } ∷ []

unfoldable pub event_technique_map : Dict String (List Technique)
event_technique_map =
    ("syn_scan", technique "T1046" "Network Service Discovery" "discovery")
    ∷ (
      "arp_spoofing",
      technique "T1557.002" "Adversary-in-the-Middle: ARP Cache Poisoning" "credential-access",
    )
    ∷ ("icmp_sweep", technique "T1018" "Remote System Discovery" "discovery")
    ∷ (
      "dns_ioc_query",
      technique "T1071.004" "Application Layer Protocol: DNS" "command-and-control",
    )
    ∷ ("AUTH_FAILURE", technique "T1110" "Brute Force" "credential-access")
    ∷ ("RATE_LIMITED", technique "T1110" "Brute Force" "credential-access")
    ∷ (
      "REPLAY_ATTACK",
      technique "T1550" "Use Alternate Authentication Material" "lateral-movement",
    )
    ∷ ("FIM_MODIFIED", technique "T1565.001" "Data Manipulation: Stored Data" "impact")
    ∷ ("FIM_DELETED", technique "T1070.004" "Indicator Removal: File Deletion" "defense-evasion")
    ∷ ("FIM_CREATED", technique "T1105" "Ingress Tool Transfer" "command-and-control")
    ∷ ("password_spray", technique "T1110.003" "Brute Force: Password Spraying" "credential-access")
    ∷ (
      "credential_stuffing",
      technique "T1110.004" "Brute Force: Credential Stuffing" "credential-access",
    )
    ∷ ("valid_accounts_suspected", technique "T1078" "Valid Accounts" "defense-evasion")
    ∷ []

abbrev pub or_nil {ℓ} : {A : Type ℓ} → Option (List A) → List A
or_nil none = []
or_nil (some xs) = xs

unfoldable pub techniques_for : String → List Technique
unfolding event_technique_map
techniques_for event_name = or_nil (get event_technique_map event_name)

unfoldable pub technique_ids_for : String → List String
unfolding techniques_for
technique_ids_for event_name = map (λ t. t.technique_id) (techniques_for event_name)

-- The dict comprehension over the map's values.
unfoldable pub register : List Technique → Dict String Technique → Dict String Technique
register [] registry = registry
register (t ∷ ts) registry = register ts (put registry t.technique_id t)

unfoldable pub register_all :
    Dict String (List Technique) → Dict String Technique → Dict String Technique
unfolding register
register_all [] registry = registry
register_all ((_, ts) ∷ rest) registry = register_all rest (register ts registry)

unfoldable pub technique_by_id : String → Option Technique
unfolding register_all event_technique_map
technique_by_id technique_id = get (register_all event_technique_map []) technique_id
