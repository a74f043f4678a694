-- ===== src/Tests/Sources.antt =====
-- Files, indicators, links, queries and mails at small inputs.
use text.Mathlib.TextLemmas.{cons≢nil}
use intrusion_detection_syst.Prelude.{
  ℕ, ◌+◌, ◌*◌, ◌≤◌, ◌<◌, ◌≡◌, refl, String, Bool, true, false, Option, none, some, List, [], ◌∷◌,
  if◌then◌else◌, ◌==◌, string_eq, nat_eq,
}
use intrusion_detection_syst.Prelude.Lists.{length, keep}
use intrusion_detection_syst.Prelude.Text.{codes}
use intrusion_detection_syst.Fim.{FimStore, Disk, check_integrity, check_directories_for_created}
use intrusion_detection_syst.Fim.Initialize.{DirectoryItem, initialize_baselines}
use intrusion_detection_syst.Fim.Directories.{check_directories_for_created_once}
use intrusion_detection_syst.Fim.Changed.{initialize_baselines-check_integrity}
use intrusion_detection_syst.Detection.Phishing as Phishing
use intrusion_detection_syst.Detection.Phishing.{PhishingVerdict, candidate_of}
use intrusion_detection_syst.Detection.Phishing.Levenshtein.{levenshtein}
use intrusion_detection_syst.Detection.Phishing.Levenshtein.Scripts.{
  Script, edits, levenshtein_least,
}
use intrusion_detection_syst.Detection.Phishing.Analysis.{analyze_url}
use intrusion_detection_syst.Detection.Phishing.Verdict.{IsCoherent, analyze_url-IsCoherent}
use intrusion_detection_syst.Detection.Intel as Intel
use intrusion_detection_syst.Detection.Intel.{ThreatIntel, host_of, match_domain}
use intrusion_detection_syst.Detection.Intel.Domains.{IsAnswer, match_domain-IsAnswer}
use intrusion_detection_syst.Network.Dns.{DnsPacket, dns_alerts, is_reported}
use intrusion_detection_syst.Network.Dns.Once.{is_for, dns_alerts_once}
use intrusion_detection_syst.Network.Sensor.{
  Detection, SensorState, raised, quiet, found, dispatch_packet,
}
use intrusion_detection_syst.Network.Sensor.Evidence.{IsEvidenced, dispatch_packet-IsEvidenced}
use intrusion_detection_syst.Detection.Dedup.{Deduplicator}
use intrusion_detection_syst.Alerts.{Environment, Mail, Mailer, Transmission, AttachmentFile}
use intrusion_detection_syst.Alerts.Delivery.{alert}

abbrev disk : Disk
disk = record {
  content = λ path. if path == "/etc/gone" then none else some path;
  glob = λ dir recursive. if dir == "/etc" then some ("/etc/passwd" ∷ "/etc/hosts" ∷ []) else none;
  sorted = λ paths. paths;
  hexdigest = λ s. s;
}

abbrev watched : FimStore
watched = record {
  file_baselines = ("/etc/passwd", record { hash_sha256 = "/etc/passwd"; is_active = true }) ∷ [];
  fim_directories =
      ("/etc", record { recursive = true; created_severity = some "CRITICAL"; is_active = true })
      ∷ [];
  persisted = [];
  alerted = [];
}

check_directories_for_created_once_example :
    check_directories_for_created
      (λ e. true)
      disk
      9
      (check_directories_for_created (λ e. false) disk 5 watched)
    ≡ check_directories_for_created (λ e. false) disk 5 watched
unfolding intrusion_detection_syst.Fim.iter_directory_files
    intrusion_detection_syst.Fim.calculate_sha256
check_directories_for_created_once_example =
    check_directories_for_created_once disk 5 9 (λ e. true) watched
      ((λ a. (("/etc/passwd", refl), (("/etc/hosts", refl), tt))), tt)

abbrev config : Option (List String × List DirectoryItem)
config = some (
  "/etc/shadow" ∷ "/etc/gone" ∷ [],
  record { path = "/etc"; recursive = true; created_severity = none } ∷ [],
)

abbrev unwatched : FimStore
unwatched = record { file_baselines = []; fim_directories = []; persisted = []; alerted = [] }

initialize_baselines-check_integrity_example :
    check_integrity (λ e. false) disk 9 (initialize_baselines (λ s. s) disk config unwatched)
    ≡ check_directories_for_created
        (λ e. false)
        disk
        9
        (initialize_baselines (λ s. s) disk config unwatched)
initialize_baselines-check_integrity_example =
    initialize_baselines-check_integrity (λ s. s) disk 9 (λ e. false) config unwatched tt

levenshtein_least_example :
    ((s : Script (codes "paypa1") (codes "paypal")) × (edits s ≤ levenshtein "paypa1" "paypal"))
    × ((s : Script (codes "paypa1") (codes "paypal")) → levenshtein "paypa1" "paypal" ≤ edits s)
levenshtein_least_example = levenshtein_least "paypa1" "paypal"

abbrev library : Phishing.Library
library = record {
  strip = λ s. s;
  lower = λ s. s;
  netloc = λ s. if s == "http://paypa1.xyz/login" then some "paypa1.xyz" else none;
  is_decimal = λ c. false;
  is_digit = λ c. c == b'1';
  sorted = λ words. words;
  str = λ n. "3";
  repr = λ labels. "[]";
}

analyze_url-IsCoherent_example :
    (v : PhishingVerdict) × (analyze_url library [] [] "paypa1.xyz/login" ≡ some v) × IsCoherent v
unfolding candidate_of intrusion_detection_syst.Prelude.Text.occurs
analyze_url-IsCoherent_example =
    analyze_url-IsCoherent library [] [] "paypa1.xyz/login" "paypa1.xyz" refl

abbrev ip_library : Intel.Library
ip_library = record {
  Address = String;
  Network = String;
  ip_address = λ s. none;
  ip_network = λ s. none;
  address_text = λ a. a;
  network_text = λ n. n;
  address_version = λ a. 4;
  network_version = λ n. 4;
  is_in = λ a n. false;
  strip = λ s. s;
  lower = λ s. s;
}

abbrev intel : ThreatIntel ip_library
intel = record { ips = []; cidrs = []; domains = "evil.com" ∷ [] }

match_domain-IsAnswer_example :
    IsAnswer
      ("evil.com" ∷ [])
      (host_of ip_library "login.evil.com.")
      (match_domain ip_library intel "login.evil.com.")
unfolding host_of
match_domain-IsAnswer_example =
    match_domain-IsAnswer ip_library intel "login.evil.com." cons≢nil cons≢nil

abbrev query : ℕ → DnsPacket
query now = record {
  question = some (0, "login.evil.com.");
  ip_source = some "10.0.0.9";
  ipv6_source = none;
  time = now;
}

dns_alerts_once_example :
    length (
      keep
        (is_for "10.0.0.9" "login.evil.com")
        (dns_alerts ip_library intel (query 1 ∷ query 2 ∷ []) []))
    ≤ (if is_reported "10.0.0.9" "login.evil.com" [] then 0 else 1)
dns_alerts_once_example =
    dns_alerts_once ip_library intel (query 1 ∷ query 2 ∷ []) [] "10.0.0.9" "login.evil.com"

abbrev environment : Environment
environment = record {
  window = 60;
  sender = some "ids@example.org";
  password = some "secret";
  receiver = some "soc@example.org";
}

abbrev mailer : Mailer
mailer = record {
  throttle = record { window_seconds = 0; max_entries = 4096; seen = [] };
  sent = [];
}

abbrev deleted : (Mail → Transmission) → ℕ → Mailer → Bool × Mailer
deleted smtp now m =
    alert (λ s. s) (λ s. s) (λ p. AttachmentFile.absent) environment "CRITICAL" "fim" "deleted" none
      [] smtp now m

abbrev scan : Detection
scan = record {
  level = "CRITICAL";
  module_source = "network";
  detector_name = "syn_scan";
  message = "scan";
  timestamp = 5;
  context = [];
}

abbrev sensor : SensorState
sensor = record { deduplicator = none; logged = []; alerted = []; suppressed = 0; errors = 0 }

dispatch_packet-IsEvidenced_example : IsEvidenced "gate" (
    dispatch_packet
      (λ s. s)
      "gate"
      (λ e. false)
      (λ e. false)
      9
      (raised ∷ found scan ∷ quiet ∷ [])
      sensor)
dispatch_packet-IsEvidenced_example =
    dispatch_packet-IsEvidenced (λ s. s) "gate" (λ e. false) (λ e. false) 9
      (raised ∷ found scan ∷ quiet ∷ []) sensor tt
