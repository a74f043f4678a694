-- ===== src/Detection/Phishing/Analysis.antt =====
-- detection/phishing.py: `analyze_url`, its signals in the order of the code.
use mathlib.Core.Option as Options
use intrusion_detection_syst.Prelude.{
  ℕ, ◌-◌, ◌*◌, min, String, ◌<>◌, true, not, ◌&&◌, ◌||◌, Option, none, some, List, [], ◌∷◌, ltb,
  leb, if◌then◌else◌, ◌==◌, string_eq, nat_eq,
}
use intrusion_detection_syst.Prelude.Lists.{length, keep, any, contains, find?, count}
use intrusion_detection_syst.Prelude.Text.{codes, occurs, starts_with, split_dots}
use intrusion_detection_syst.Detection.Phishing.{
  Library, PhishingVerdict, suspicious_tlds, shorteners, scam_keywords, protected_brands,
  split_host, brand_at_boundary, is_ipv4, tld_of, main_label_of, host_without_tld, join_comma,
  Findings, flag, is_typo_of,
}

module _ (lib : Library) where
  -- The raw address, the userinfo, and punycode or else a character beyond ASCII.
  unfoldable pub host_signals : String → String → Findings → Findings
  host_signals host userinfo f =
      let puny = keep (λ label. starts_with label "xn--") (split_dots host) in
      let f1 =
        flag (is_ipv4 lib host) 35 "Host is a raw IP address (legitimate brands use names)." f in
      let f2 =
        flag (not (userinfo == "")) 30
          ("URL embeds userinfo before '@' ('" <> userinfo
            <> "@...') - a classic trick to make the real host look trusted.")
          f1 in
      if ltb 0 (length puny)
      then flag true 30
          ("Internationalized (punycode) label(s) "
            <> lib.repr puny
            <> " - common in homoglyph look-alike domains.")
          f2
      else flag (any (ltb 127) (codes host)) 25
          "Host contains non-ASCII characters (possible homoglyph attack)." f2

  unfoldable pub impersonation : Option String → String → String → Findings → Findings
  impersonation none main tld f = f
  impersonation (some brand) main tld f =
      flag true 30
        ("Brand '" <> brand <> "' appears in the host but the registrable domain is '" <> main
          <> "." <> tld <> "', not the brand's own domain (impersonation).")
        f

  -- A label near a brand, or else a brand elsewhere in the host. An empty brand is no hit.
  unfoldable pub typo_or_impersonation :
      Option String → Option String → String → String → Findings → Findings
  typo_or_impersonation none impersonated main tld f = impersonation impersonated main tld f
  typo_or_impersonation (some brand) impersonated main tld f =
      if brand == ""
      then impersonation impersonated main tld f
      else flag (any lib.is_digit (codes main)) 10
          "Typosquat uses digit-for-letter substitution (e.g. '1'->'l', '0'->'o')."
          (flag true 40
            ("Registrable label '" <> main <> "' is one or two edits from the brand '" <> brand
              <> "' (typosquatting).")
            f)

  -- `if impersonated`: an empty brand is no hit.
  abbrev pub nonempty : Option String → Option String
  nonempty none = none
  nonempty (some brand) = if brand == "" then none else some brand

  unfoldable pub brand_signals : List String → String → Findings → Findings
  brand_signals brands host f =
      let main = main_label_of (split_dots host) in
      if contains main brands
      then f
      else typo_or_impersonation (find? (is_typo_of main) brands)
          (nonempty (find? (brand_at_boundary (host_without_tld host)) brands)) main
          (tld_of (split_dots host)) f

  unfoldable pub lexical_signals : String → Findings → Findings
  lexical_signals host f =
      let labels = split_dots host in
      let tld = tld_of labels in
      let registrable = if tld == "" then host else main_label_of labels <> "." <> tld in
      flag (contains registrable shorteners || contains host shorteners) 12
        "URL shortener host - the true destination is hidden."
        (flag (contains tld suspicious_tlds) 15 ("Uses a frequently-abused TLD ('." <> tld <> "').")
          f)

  unfoldable pub structural_signals : String → Findings → Findings
  structural_signals host f =
      let is_ip = is_ipv4 lib host in
      let subdomains = length (split_dots host) - 2 in
      let f1 =
        if not is_ip && leb 3 subdomains
        then flag true 12
            ("Deeply nested subdomains (" <> lib.str subdomains <> ") - often used to bury intent.")
            f
        else flag (not is_ip && subdomains == 2) 6 "Multiple subdomain levels." f in
      let f2 =
        flag (not is_ip && leb 3 (count b'-' (codes host))) 8
          "Host crowded with hyphens (look-alike construction)." f1 in
      let f3 =
        flag (leb 4 (length (keep lib.is_digit (codes host))) && not is_ip) 8
          "Host packed with digits (uncommon for legitimate brand domains)." f2 in
      flag (ltb 40 (length (codes host))) 6 "Unusually long hostname." f3

  unfoldable pub keyword_signals : String → Findings → Findings
  keyword_signals url f =
      let hits = lib.sorted (keep (λ word. occurs word (lib.lower url)) scam_keywords) in
      flag (ltb 0 (length hits)) (min (length hits * 5) 20)
        ("Contains alarm/credential keywords: " <> join_comma hits <> ".") f

  abbrev pub risk_of : ℕ → String
  risk_of score = if leb 60 score then "high" else if leb 30 score then "suspicious" else "low"

  abbrev pub or_nothing_found : List String → List String
  or_nothing_found [] = "No phishing indicators found." ∷ []
  or_nothing_found (r ∷ rs) = r ∷ rs

  unfoldable pub verdict_of : String → String → Findings → PhishingVerdict
  verdict_of url host (total, reasons) =
      let score = min 100 total in
      record {
        target = url;
        host = host;
        score = score;
        risk = risk_of score;
        reasons = or_nothing_found reasons;
        techniques = if risk_of score == "low" then [] else "T1566.002" ∷ [];
      }

  unfoldable pub all_signals : List String → String → String → String → Findings
  all_signals brands url host userinfo = keyword_signals url (
      structural_signals host
        (lexical_signals host (brand_signals brands host (host_signals host userinfo (0, [])))))

  unfoldable pub analyze_host : List String → String → String × String → PhishingVerdict
  analyze_host brands url (host, userinfo) =
      if host == ""
      then record {
        target = url;
        host = "";
        score = 0;
        risk = "low";
        reasons = "No host could be parsed." ∷ [];
        techniques = [];
      }
      else verdict_of url host (all_signals brands url host userinfo)

  -- `none` where `urlsplit` raises.
  unfoldable pub analyze_url : List String → List String → String → Option PhishingVerdict
  analyze_url env extra url =
      Options.map (analyze_host (protected_brands lib env extra) url) (split_host lib url)

  unfoldable pub rank : String → ℕ
  rank risk = if risk == "high" then 2 else if risk == "suspicious" then 1 else 0

  abbrev pub worse : String → PhishingVerdict → String
  worse worst v = if ltb (rank worst) (rank v.risk) then v.risk else worst

  -- The loop of `_main`: the worst risk, unless a URL raises.
  unfoldable pub worst_of : List String → String → List String → Option String
  unfolding analyze_url rank
  worst_of env worst [] = some worst
  worst_of env worst (url ∷ urls) = elim (analyze_url env [] url) [
    | none ↦ none
    | some v ↦ worst_of env (worse worst v) urls
  ]

  -- The exit code of `_main`, unless a URL raises.
  unfoldable pub main : List String → List String → Option ℕ
  unfolding worst_of
  main env [] = some 2
  main env (url ∷ urls) =
      Options.map (λ worst. if worst == "low" then 0 else 1) (worst_of env "low" (url ∷ urls))
