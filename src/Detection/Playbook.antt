-- ===== src/Detection/Playbook.antt =====
-- detection/playbook.py: the playbooks, and the confidence of an incident.
pub mod Enrich
use intrusion_detection_syst.Prelude.{
  ℕ, ◌+◌, ◌-◌, ◌*◌, ◌≤◌, String, Option, none, some, List, [], ◌∷◌, min, string_eq, arith,
}
use intrusion_detection_syst.Prelude.Dict.{Dict, get}

pub record Playbook : Type 0 where
  pub rule_name : String
  pub tactic : String
  pub confidence : ℕ
  pub remediation : List String
  pub references : List String

abbrev pub brute_force_burst : Playbook
brute_force_burst = record {
  rule_name = "brute_force_burst";
  tactic = "Credential Access";
  confidence = 70;
  remediation =
      "Confirm whether the source is a legitimate user failing repeatedly or an attacker."
      ∷ "If malicious, block the source at the firewall/reverse proxy and consider revoking the targeted account: python -m auth.cli revoke <user>."
      ∷ "Verify MFA_BACKOFF_MODE=reject and the dashboard login rate limit are active." ∷ [];
  references = "https://attack.mitre.org/techniques/T1110/" ∷ [];
}

abbrev pub password_spray : Playbook
password_spray = record {
  rule_name = "password_spray";
  tactic = "Credential Access";
  confidence = 65;
  remediation =
      "Identify the common source(s) of the failures and block them upstream."
      ∷ "Notify targeted users; require secret rotation for any account that then succeeded."
      ∷ "Only raise CORRELATION_PASSWORD_SPRAY_USER_THRESHOLD after confirming a benign cause."
      ∷ [];
  references = "https://attack.mitre.org/techniques/T1110/003/" ∷ [];
}

abbrev pub auth_success_after_failures : Playbook
auth_success_after_failures = record {
  rule_name = "auth_success_after_failures";
  tactic = "Credential Access / Valid Accounts";
  confidence = 80;
  remediation =
      "Treat the account as potentially compromised until verified with the user."
      ∷ "Revoke then re-enroll the user's TOTP: python -m auth.cli revoke <user>."
      ∷ "Review activity following the successful login for signs of lateral movement." ∷ [];
  references = "https://attack.mitre.org/techniques/T1078/" ∷ [];
}

abbrev pub replay_attack : Playbook
replay_attack = record {
  rule_name = "replay_attack";
  tactic = "Lateral Movement";
  confidence = 85;
  remediation =
      "A TOTP or recovery code was reused within its window — assume token interception."
      ∷ "Revoke the affected user and re-enroll; investigate for a stolen device or MITM."
      ∷ "Preserve the audit trail before remediation: python -m logs seal." ∷ [];
  references = "https://attack.mitre.org/techniques/T1550/" ∷ [];
}

abbrev pub recon_then_auth : Playbook
recon_then_auth = record {
  rule_name = "recon_then_auth";
  tactic = "Discovery → Credential Access";
  confidence = 60;
  remediation =
      "Correlate the scanning source IP with the subsequent authentication failures."
      ∷ "Block the source and watch for follow-on exploitation attempts." ∷ [];
  references = "https://attack.mitre.org/techniques/T1046/" ∷ [];
}

abbrev pub network_then_fim : Playbook
network_then_fim = record {
  rule_name = "network_then_fim";
  tactic = "Impact / Defense Evasion";
  confidence = 75;
  remediation =
      "A monitored file changed right after a network attack — treat as a likely intrusion."
      ∷ "Isolate the host, restore the file from a known-good baseline, then run: python -m logs check."
      ∷ "Preserve logs and the audit database for forensics before remediating." ∷ [];
  references = "https://attack.mitre.org/techniques/T1565/" ∷ [];
}

abbrev pub ioc_match : Playbook
ioc_match = record {
  rule_name = "ioc_match";
  tactic = "Command and Control";
  confidence = 90;
  remediation =
      "The entity matches your threat-intel watchlist — block it at the perimeter now."
      ∷ "Hunt for other activity involving the same indicator across the audit log."
      ∷ "Confirm the indicator is still valid; stale IOCs cause avoidable noise." ∷ [];
  references = [];
}

abbrev pub generic : Playbook
generic = record {
  rule_name = "generic";
  tactic = "Unknown";
  confidence = 50;
  remediation =
      "Review the correlated events and the involved entities."
      ∷ "Confirm whether the activity is expected before taking action." ∷ [];
  references = [];
}

unfoldable pub playbooks : Dict String Playbook
playbooks =
    ("brute_force_burst", brute_force_burst)
    ∷ ("password_spray", password_spray)
    ∷ ("auth_success_after_failures", auth_success_after_failures)
    ∷ ("replay_attack", replay_attack)
    ∷ ("recon_then_auth", recon_then_auth)
    ∷ ("network_then_fim", network_then_fim)
    ∷ ("ioc_match", ioc_match)
    ∷ []

abbrev pub or_generic : Option Playbook → Playbook
or_generic none = generic
or_generic (some p) = p

unfoldable pub playbook_for : String → Playbook
unfolding playbooks
playbook_for rule_name = or_generic (get playbooks rule_name)

-- `max(0, event_count - 1)` is the subtraction that stops at 0.
unfoldable pub confidence_for : String → ℕ → ℕ
confidence_for rule_name event_count =
    min 100 ((playbook_for rule_name).confidence + min 10 ((event_count - 1) * 2))

-- The confidence never falls as events are added, and never passes 100.
pub confidence_for_mono :
    (rule_name : String) (event_count more : ℕ)
    → (confidence_for rule_name event_count ≤ confidence_for rule_name (event_count + more))
      × (confidence_for rule_name event_count ≤ 100)
unfolding confidence_for
confidence_for_mono rule_name event_count more = (omega arith, omega arith)
