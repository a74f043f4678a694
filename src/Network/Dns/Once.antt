-- ===== src/Network/Dns/Once.antt =====
-- network/detectors/dns_detector.py: one alert for a source and a domain.
use intrusion_detection_syst.Prelude.{
  ℕ, ◌≤◌, String, Bool, true, false, ◌&&◌, Option, none, some, List, [], ◌∷◌, ◌++◌, if◌then◌else◌,
  ◌==◌, nat_eq, string_eq, ◌≡◌, inl, inr, refl, sym, subst, ap, ◌∙◌, Bool-cases, arith,
}
use intrusion_detection_syst.Prelude.Lists.{keep, length, any-append}
use intrusion_detection_syst.Prelude.Text.{rstrip_dots}
use intrusion_detection_syst.Detection.Intel.{Library, ThreatIntel, has_indicators, match_domain}
use intrusion_detection_syst.Network.Dns.{
  DnsPacket, DnsEvent, is_reported, report_match, process_question, process_dns, dns_alerts,
  source_of, add_event,
}

abbrev pub is_for : String → String → DnsEvent → Bool
is_for source domain e = e.source_ip == source && e.domain == domain

-- A step alerts for a pair that was not reported and now is, or changes nothing.
abbrev IsStep : List (String × String) → Option DnsEvent × List (String × String) → Type 0
IsStep reported (none, after) = after ≡ reported
IsStep reported (some e, after) =
    (is_reported e.source_ip e.domain reported ≡ false)
    × (after ≡ reported ++ (e.source_ip, e.domain) ∷ [])

report_match-IsStep :
    (p : DnsPacket) (domain : String) (indicator : Option String)
    (reported : List (String × String))
    → IsStep reported (report_match p domain indicator reported)
unfolding report_match
report_match-IsStep p domain none reported = refl
report_match-IsStep p domain (some indicator) reported = elim (Bool-cases (indicator == "")) [
  | inl t ↦ simp t refl
  | inr t ↦ elim (Bool-cases (is_reported (source_of p.ip_source p.ipv6_source) domain reported)) [
    | inl r ↦ simp (t, r) refl
    | inr r ↦ simp (t, r) (refl, refl)
  ]
]

process_question-IsStep :
    (lib : Library) (intel : ThreatIntel lib) (p : DnsPacket) (question : Option (ℕ × String))
    (reported : List (String × String))
    → IsStep reported (process_question lib intel p question reported)
unfolding process_question
process_question-IsStep lib intel p none reported = refl
process_question-IsStep lib intel p (some (qr, qname)) reported = elim (Bool-cases (qr == 0)) [
  | inl q ↦ elim (Bool-cases (lib.lower (rstrip_dots qname) == "")) [
    | inl t ↦ simp (q, t) refl
    | inr t ↦
        let domain = lib.lower (rstrip_dots qname) in
        simp (q, t) (report_match-IsStep p domain (match_domain lib intel domain) reported)
  ]
  | inr q ↦ simp q refl
]

process_dns-IsStep :
    (lib : Library) (intel : ThreatIntel lib) (p : DnsPacket) (reported : List (String × String))
    → IsStep reported (process_dns lib intel p reported)
unfolding process_dns
process_dns-IsStep lib intel p reported = elim (Bool-cases (has_indicators lib intel)) [
  | inl t ↦ simp t (process_question-IsStep lib intel p p.question reported)
  | inr t ↦ simp t refl
]

is_reported-is_for :
    (source domain : String) (e : DnsEvent) (reported : List (String × String))
    → is_reported e.source_ip e.domain reported ≡ false
    → is_for source domain e ≡ true
    → is_reported source domain reported ≡ false
is_reported-is_for source domain e reported r f =
    let (h, k) = both (e.source_ip == source) (e.domain == domain) f in
    ap (λ x. is_reported x domain reported) (sym ((string_eq.test_iff e.source_ip source).0 h))
    ∙ ap (λ x. is_reported e.source_ip x reported) (sym ((string_eq.test_iff e.domain domain).0 k))
    ∙ r
  where
    both : (a b : Bool) → (a && b) ≡ true → (a ≡ true) × (b ≡ true)
    both true true h = (refl, refl)
    both true false h = absurd cc
    both false b h = absurd cc

module _ (source domain : String) where
  -- how many alerts for the pair may still follow
  abbrev left : List (String × String) → ℕ
  left reported = if is_reported source domain reported then 0 else 1

  alerts-add_event-le :
      (reported : List (String × String)) (event : Option DnsEvent) (after : List (String × String))
      (rest : List DnsEvent)
      → IsStep reported (event, after)
      → length (keep (is_for source domain) rest) ≤ left after
      → length (keep (is_for source domain) (add_event event rest)) ≤ left reported
  alerts-add_event-le reported none after rest i h =
      subst (λ r. length (keep (is_for source domain) rest) ≤ left r) i h
  alerts-add_event-le reported (some e) after rest i h =
      let grown =
        ap (is_reported source domain) i.1
        ∙ any-append (λ k. k.0 == source && k.1 == domain) reported
            ((e.source_ip, e.domain) ∷ []) in
      elim (Bool-cases (is_for source domain e)) [
        | inl f ↦
            let fresh = is_reported-is_for source domain e reported i.0 f in
            let none_left = simp (grown, f, fresh) at h in
            simp (f, fresh) (omega (arith, none_left))
        | inr f ↦ elim (Bool-cases (is_reported source domain reported)) [
          | inl r ↦ let k = simp (grown, f, r) at h in simp (f, r) k
          | inr r ↦ let k = simp (grown, f, r) at h in simp (f, r) k
        ]
      ]

  alerts-le-left :
      (lib : Library) (intel : ThreatIntel lib) (packets : List DnsPacket)
      (reported : List (String × String))
      → length (keep (is_for source domain) (dns_alerts lib intel packets reported)) ≤ left reported
  unfolding dns_alerts
  alerts-le-left lib intel [] reported = ground arith
  alerts-le-left lib intel (p ∷ packets) reported =
      let (event, after) = process_dns lib intel p reported in
      alerts-add_event-le reported event after (dns_alerts lib intel packets after)
        (process_dns-IsStep lib intel p reported) (alerts-le-left lib intel packets after)

-- Over any run of packets, the detector raises at most one alert for a source and a domain, and
-- none for a pair that was reported before the run.
pub dns_alerts_once :
    (lib : Library) (intel : ThreatIntel lib) (packets : List DnsPacket)
    (reported : List (String × String)) (source domain : String)
    → length (keep (is_for source domain) (dns_alerts lib intel packets reported))
      ≤ (if is_reported source domain reported then 0 else 1)
dns_alerts_once lib intel packets reported source domain =
    alerts-le-left source domain lib intel packets reported
