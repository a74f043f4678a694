-- ===== src/Detection/Correlation/Chains.antt =====
-- detection/correlation.py: `rule_recon_then_auth` and `rule_network_then_fim`.
use intrusion_detection_syst.Prelude.{
  ℕ, ◌+◌, String, ◌<>◌, Bool, false, ◌&&◌, ◌||◌, Option, none, some, List, [], ◌∷◌, leb,
  if◌then◌else◌, ◌==◌, nat_eq, string_eq,
}
use intrusion_detection_syst.Prelude.Lists.{keep, length}
use intrusion_detection_syst.Prelude.Dict.{get}
use intrusion_detection_syst.Detection.Scoring.{Json, text, truthy}
use intrusion_detection_syst.Detection.Event.{NormalizedEvent}
use intrusion_detection_syst.Detection.Correlation.Candidate.{IncidentCandidate}
use intrusion_detection_syst.Detection.Correlation.Failures.{or_text, cons_some}

-- A non-empty text, as `isinstance(v, str) and v`.
abbrev pub nonempty_text : Option Json → Option String
nonempty_text (some (text s)) = if s == "" then none else some s
nonempty_text _ = none

abbrev pub opt_eq : Option String → Option String → Bool
opt_eq (some a) (some b) = a == b
opt_eq _ _ = false

-- `host == second.context.get("host_id")` for a non-empty text `host`.
unfoldable pub same_host : NormalizedEvent → NormalizedEvent → Bool
same_host first second =
    opt_eq (nonempty_text (get first.context "host_id"))
      (nonempty_text (get second.context "host_id"))

-- `a or b` on two looked-up values
abbrev pub or_else : Option Json → Option Json → Option Json
or_else a b = if truthy a then a else b

unfoldable pub source_ip : NormalizedEvent → Option String
unfolding truthy
source_ip e = nonempty_text (or_else (get e.context "source_ip") (get e.context "ip_address"))

-- `0 <= b.timestamp - a.timestamp <= window_seconds`
abbrev pub follows : ℕ → NormalizedEvent → NormalizedEvent → Bool
follows window a b = leb a.timestamp b.timestamp && leb b.timestamp (a.timestamp + window)

abbrev pub is_recon : NormalizedEvent → Bool
is_recon e =
    e.event_name == "syn_scan" || e.event_name == "arp_spoofing" || e.event_name == "icmp_sweep"

abbrev pub auth_follower : ℕ → NormalizedEvent → NormalizedEvent → Bool
auth_follower window r a = follows window r a && same_host r a && opt_eq (source_ip r) (source_ip a)

abbrev pub is_critical_network : NormalizedEvent → Bool
is_critical_network e = e.category == "network" && e.severity == "CRITICAL"

abbrev pub is_fim : NormalizedEvent → Bool
is_fim e = e.category == "fim"

abbrev pub tampering_follower : ℕ → NormalizedEvent → NormalizedEvent → Bool
tampering_follower window n f = follows window n f && same_host n f

module _ (str : ℕ → String) where
  -- A chain of an event and its followers, if there are any.
  unfoldable pub chain_candidate :
      String
      → String
      → String
      → ℕ
      → NormalizedEvent
      → List NormalizedEvent
      → Option IncidentCandidate
  chain_candidate rule_name title noun window first [] = none
  chain_candidate rule_name title noun window first (f ∷ fs) = some (record {
    rule_name = rule_name;
    title = title;
    summary =
        first.event_name
        <> " from "
        <> or_text "unknown source" first.entity
        <> " followed by "
        <> str (length (f ∷ fs))
        <> noun
        <> str window
        <> "s.";
    events = first ∷ f ∷ fs;
    extra_techniques = [];
    extra_entities = [];
  })

  unfoldable pub chains :
      String
      → String
      → String
      → ℕ
      → (NormalizedEvent → NormalizedEvent → Bool)
      → List NormalizedEvent
      → List NormalizedEvent
      → List IncidentCandidate
  unfolding chain_candidate
  chains rule_name title noun window follower pool [] = []
  chains rule_name title noun window follower pool (first ∷ rest) =
      cons_some (chain_candidate rule_name title noun window first (keep (follower first) pool))
        (chains rule_name title noun window follower pool rest)

  unfoldable pub rule_recon_then_auth : List NormalizedEvent → ℕ → List IncidentCandidate
  unfolding chains
  rule_recon_then_auth events window =
      chains "recon_then_auth" "Recon followed by authentication attempts"
        " auth failure(s) within " window (auth_follower window)
        (keep (λ e. e.event_name == "AUTH_FAILURE") events) (keep is_recon events)

  unfoldable pub rule_network_then_fim : List NormalizedEvent → ℕ → List IncidentCandidate
  unfolding chains
  rule_network_then_fim events window =
      chains "network_then_fim" "Network attack followed by file integrity violation"
        " file integrity event(s) within " window (tampering_follower window) (keep is_fim events)
        (keep is_critical_network events)
