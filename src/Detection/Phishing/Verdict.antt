-- ===== src/Detection/Phishing/Verdict.antt =====
-- detection/phishing.py: the score against the reasons, and the risk against both.
use intrusion_detection_syst.Prelude.{
  ℕ, ◌*◌, ◌≤◌, min, String, Bool, true, false, not, Option, none, some, List, [], ◌∷◌, leb,
  if◌then◌else◌, ◌==◌, string_eq, nat_eq, ◌≡◌, ◌≢◌, refl, inl, inr, ap, sym, ◌∙◌, Bool-cases, arith,
  leb→le, le→leb,
}
use intrusion_detection_syst.Prelude.Lists.{length, length-append}
use intrusion_detection_syst.Detection.Phishing.{
  Library, PhishingVerdict, protected_brands, split_host, candidate_of, host_parts, Findings, flag,
  is_ipv4,
}
use intrusion_detection_syst.Detection.Phishing.Analysis.{
  host_signals, impersonation, typo_or_impersonation, brand_signals, lexical_signals,
  structural_signals, keyword_signals, verdict_of, all_signals, analyze_host, analyze_url, risk_of,
}

-- No reason is worth more than 40 points.
record IsExplained (f : Findings) : Type 0 where
  bound : f.0 ≤ 40 * length f.1

flag-IsExplained :
    (test : Bool) (points : ℕ) (reason : String) (f : Findings)
    → points ≤ 40
    → IsExplained f
    → IsExplained (flag test points reason f)
unfolding flag
flag-IsExplained true points reason (score, reasons) le h = record {
  bound = omega (arith, h.bound, length-append {0} reasons (reason ∷ []));
}
flag-IsExplained false points reason (score, reasons) le h = h

if-IsExplained :
    (test : Bool) (f g : Findings)
    → IsExplained f
    → IsExplained g
    → IsExplained (if test then f else g)
if-IsExplained true f g h k = h
if-IsExplained false f g h k = k

module _ (lib : Library) where
  host_signals-IsExplained :
      (host userinfo : String) (f : Findings)
      → IsExplained f
      → IsExplained (host_signals lib host userinfo f)
  unfolding host_signals
  host_signals-IsExplained host userinfo f h =
      let k =
        flag-IsExplained _ 30 _ _ (omega arith)
          (flag-IsExplained (is_ipv4 lib host) 35 _ f (omega arith) h) in
      if-IsExplained _ _ _ (flag-IsExplained true 30 _ _ (omega arith) k)
        (flag-IsExplained _ 25 _ _ (omega arith) k)

  impersonation-IsExplained :
      (brand : Option String) (main tld : String) (f : Findings)
      → IsExplained f
      → IsExplained (impersonation lib brand main tld f)
  unfolding impersonation
  impersonation-IsExplained none main tld f h = h
  impersonation-IsExplained (some brand) main tld f h = flag-IsExplained true 30 _ f (omega arith) h

  typo_or_impersonation-IsExplained :
      (typo impersonated : Option String) (main tld : String) (f : Findings)
      → IsExplained f
      → IsExplained (typo_or_impersonation lib typo impersonated main tld f)
  unfolding typo_or_impersonation
  typo_or_impersonation-IsExplained none impersonated main tld f h =
      impersonation-IsExplained impersonated main tld f h
  typo_or_impersonation-IsExplained (some brand) impersonated main tld f h =
      if-IsExplained (brand == "") _ _ (impersonation-IsExplained impersonated main tld f h)
        (flag-IsExplained _ 10 _ _ (omega arith) (flag-IsExplained true 40 _ f (omega arith) h))

  brand_signals-IsExplained :
      (brands : List String) (host : String) (f : Findings)
      → IsExplained f
      → IsExplained (brand_signals lib brands host f)
  unfolding brand_signals
  brand_signals-IsExplained brands host f h =
      if-IsExplained _ f _ h (typo_or_impersonation-IsExplained _ _ _ _ f h)

  lexical_signals-IsExplained :
      (host : String) (f : Findings) → IsExplained f → IsExplained (lexical_signals lib host f)
  unfolding lexical_signals
  lexical_signals-IsExplained host f h =
      flag-IsExplained _ 12 _ _ (omega arith) (flag-IsExplained _ 15 _ f (omega arith) h)

  structural_signals-IsExplained :
      (host : String) (f : Findings) → IsExplained f → IsExplained (structural_signals lib host f)
  unfolding structural_signals
  structural_signals-IsExplained host f h = flag-IsExplained _ 6 _ _ (omega arith) (
      flag-IsExplained _ 8 _ _ (omega arith) (
        flag-IsExplained _ 8 _ _ (omega arith) (
          if-IsExplained _ _ _ (flag-IsExplained true 12 _ f (omega arith) h)
            (flag-IsExplained _ 6 _ f (omega arith) h))))

  keyword_signals-IsExplained :
      (url : String) (f : Findings) → IsExplained f → IsExplained (keyword_signals lib url f)
  unfolding keyword_signals
  keyword_signals-IsExplained url f h = flag-IsExplained _ _ _ f (omega arith) h

  all_signals-IsExplained :
      (brands : List String) (url host userinfo : String)
      → IsExplained (all_signals lib brands url host userinfo)
  unfolding all_signals
  all_signals-IsExplained brands url host userinfo = keyword_signals-IsExplained url _ (
      structural_signals-IsExplained host _ (
        lexical_signals-IsExplained host _ (
          brand_signals-IsExplained brands host _
            (host_signals-IsExplained host userinfo (0, []) (record { bound = omega arith })))))

-- What a verdict's score, risk, reasons and techniques are to each other: the score is at most 100
-- and at most 40 for each reason, the risk is that of the score, and a technique is named just when
-- the risk is not low.
pub record IsCoherent (v : PhishingVerdict) : Type 0 where
  pub score_le : v.score ≤ 100
  pub risk_of_score :
      v.risk ≡ (if leb 60 v.score then "high" else if leb 30 v.score then "suspicious" else "low")
  pub score_explained : v.score ≤ 40 * length v.reasons
  pub has_reason : 1 ≤ length v.reasons
  pub technique : v.techniques ≡ (if leb 30 v.score then "T1566.002" ∷ [] else [])

risk_of-low : (lib : Library) (n : ℕ) → (risk_of lib n == "low") ≡ not (leb 30 n)
risk_of-low lib n = elim (Bool-cases (leb 60 n)) [
  | inl t ↦ simp (t, le→leb 30 n (ground (arith, t))) refl
  | inr t ↦ elim (Bool-cases (leb 30 n)) [ inl u ↦ simp (t, u) refl | inr u ↦ simp (t, u) refl ]
]

abbrev technique_at : ℕ → List String
technique_at n = if leb 30 n then "T1566.002" ∷ [] else []

unless_low :
    (lib : Library) (n : ℕ)
    → (techniques : List String)
    → techniques ≡ (if risk_of lib n == "low" then [] else "T1566.002" ∷ [])
    → techniques ≡ technique_at n
unless_low lib n techniques e = e ∙ ap either (risk_of-low lib n) ∙ either_not (leb 30 n)
  where
    either : Bool → List String
    either b = if b then [] else "T1566.002" ∷ []

    either_not : (b : Bool) → either (not b) ≡ (if b then "T1566.002" ∷ [] else [])
    either_not true = refl
    either_not false = refl

reported-IsCoherent :
    (lib : Library) (url host : String) (f : Findings)
    → IsExplained f
    → IsCoherent (verdict_of lib url host f)
unfolding verdict_of
reported-IsCoherent lib url host (total, []) h = record {
  score_le = omega arith;
  risk_of_score = refl;
  score_explained = omega (arith, h.bound);
  has_reason = omega arith;
  technique = unless_low lib (min 100 total) _ refl;
}
reported-IsCoherent lib url host (total, r ∷ rs) h = record {
  score_le = omega arith;
  risk_of_score = refl;
  score_explained = omega (arith, h.bound);
  has_reason = omega arith;
  technique = unless_low lib (min 100 total) _ refl;
}

analyze_host-IsCoherent :
    (lib : Library) (url : String) (brands : List String) (parts : String × String)
    → IsCoherent (analyze_host lib brands url parts)
unfolding analyze_host
analyze_host-IsCoherent lib url brands (host, userinfo) = elim (Bool-cases (host == "")) [
  | inl t ↦ simp t (record {
    score_le = omega arith;
    risk_of_score = refl;
    score_explained = omega arith;
    has_reason = omega arith;
    technique = refl;
  })
  | inr t ↦ simp t (
      reported-IsCoherent lib url host (all_signals lib brands url host userinfo)
        (all_signals-IsExplained lib brands url host userinfo))
]

-- A URL whose netloc `urlsplit` finds gets a verdict, with a score of at most 100, which is at most
-- 40 for each of its reasons; it has a reason, has the risk that its score stands for (high from 60
-- on, suspicious from 30 on), and names the phishing technique just when the risk is not low.
pub analyze_url-IsCoherent :
    (lib : Library) (env extra : List String) (url netloc : String)
    → lib.netloc (candidate_of lib url) ≡ some netloc
    → (v : PhishingVerdict) × (analyze_url lib env extra url ≡ some v) × IsCoherent v
unfolding analyze_url split_host
analyze_url-IsCoherent lib env extra url netloc h = (
  analyze_host lib (protected_brands lib env extra) url (host_parts lib netloc),
  simp h refl,
  analyze_host-IsCoherent lib url (protected_brands lib env extra) (host_parts lib netloc),
)

-- A verdict of high risk has two reasons or more.
pub IsCoherent-high : (v : PhishingVerdict) → IsCoherent v → v.risk ≡ "high" → 2 ≤ length v.reasons
IsCoherent-high v c e = elim (Bool-cases (leb 60 v.score)) [
  | inl t ↦ omega (arith, leb→le 60 _ t, c.score_explained)
  | inr t ↦ let low = simp t at c.risk_of_score in absurd (not_high (leb 30 v.score) (sym e ∙ low))
]
  where
    not_high : (b : Bool) → ◌≢◌ {A = String} "high" (if b then "suspicious" else "low")
    not_high true h = absurd cc
    not_high false h = absurd cc
