-- ===== src/Network/Dns.antt =====
-- network/detectors/dns_detector.py: `DnsWatchlistDetector.process_packet`.
pub mod Once
use intrusion_detection_syst.Prelude.{
  ℕ, String, ◌<>◌, Bool, not, Option, none, some, List, [], ◌∷◌, ◌++◌, if◌then◌else◌, ◌==◌, nat_eq,
  string_eq, Equality, ◌&&◌,
}
use intrusion_detection_syst.Prelude.Lists.{any}
use intrusion_detection_syst.Prelude.Text.{rstrip_dots}
use intrusion_detection_syst.Detection.Intel.{Library, ThreatIntel, has_indicators, match_domain}

-- The DNS layer with a question, if the packet has both: its `qr` and its decoded name; and the
-- sources of the IP and the IPv6 layer.
pub record DnsPacket : Type 0 where
  pub question : Option (ℕ × String)
  pub ip_source : Option String
  pub ipv6_source : Option String
  pub time : ℕ

pub record DnsEvent : Type 0 where
  pub level : String
  pub detector_name : String
  pub message : String
  pub timestamp : ℕ
  pub source_ip : String
  pub domain : String
  pub indicator : String

abbrev pub is_reported : String → String → List (String × String) → Bool
is_reported source domain reported = any (λ k. k.0 == source && k.1 == domain) reported

abbrev pub source_of : Option String → Option String → String
source_of (some source) ipv6 = source
source_of none (some source) = source
source_of none none = "unknown"

unfoldable pub dns_alert : ℕ → String → String → String → DnsEvent
dns_alert now source domain indicator = record {
  level = "CRITICAL";
  detector_name = "dns_ioc_query";
  message =
      "DNS query for watchlisted domain from " <> source <> ": '" <> domain
      <> "' matches indicator '" <> indicator <> "'.";
  timestamp = now;
  source_ip = source;
  domain = domain;
  indicator = indicator;
}

-- One alert for each pair of a source and a domain; an empty indicator is no match.
unfoldable pub report_match :
    DnsPacket
    → String
    → Option String
    → List (String × String)
    → Option DnsEvent × List (String × String)
unfolding dns_alert
report_match p domain none reported = (none, reported)
report_match p domain (some indicator) reported =
    if indicator == ""
    then (none, reported)
    else let source = source_of p.ip_source p.ipv6_source in
      if is_reported source domain reported
      then (none, reported)
      else (some (dns_alert p.time source domain indicator), reported ++ (source, domain) ∷ [])

abbrev pub add_event {ℓ} : {A : Type ℓ} → Option A → List A → List A
add_event none events = events
add_event (some e) events = e ∷ events

module _ (lib : Library) (intel : ThreatIntel lib) where
  unfoldable pub process_question :
      DnsPacket
      → Option (ℕ × String)
      → List (String × String)
      → Option DnsEvent × List (String × String)
  unfolding report_match
  process_question p none reported = (none, reported)
  process_question p (some (qr, qname)) reported =
      if not (qr == 0)
      then (none, reported)
      else let domain = lib.lower (rstrip_dots qname) in
        if domain == ""
        then (none, reported)
        else report_match p domain (match_domain lib intel domain) reported

  unfoldable pub process_dns :
      DnsPacket → List (String × String) → Option DnsEvent × List (String × String)
  unfolding process_question
  process_dns p reported =
      if has_indicators lib intel then process_question p p.question reported else (none, reported)

  -- The alerts of a run of packets.
  unfoldable pub dns_alerts : List DnsPacket → List (String × String) → List DnsEvent
  unfolding process_dns
  dns_alerts [] reported = []
  dns_alerts (p ∷ packets) reported =
      let (event, reported') = process_dns p reported in
      add_event event (dns_alerts packets reported')
