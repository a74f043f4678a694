-- ===== src/Detection/Phishing.antt =====
-- detection/phishing.py: the heuristics that score a URL, each with its reason.
pub mod Levenshtein
pub mod Analysis
pub mod Verdict
use mathlib.Core.Option as Options
use Prim.Native.Char.{Char, code}
use Prim.Native.String
use intrusion_detection_syst.Prelude.{
  ℕ, zero, suc, ◌+◌, ◌-◌, ◌*◌, min, String, ◌<>◌, Bool, true, false, not, ◌&&◌, ◌||◌, Option, none,
  some, List, [], ◌∷◌, ◌++◌, map, ltb, leb, if◌then◌else◌, ◌==◌, string_eq, nat_eq,
}
use intrusion_detection_syst.Prelude.Lists.{
  length, keep, any, all, contains, find?, add_new, get_last?, count,
}
use intrusion_detection_syst.Prelude.Text.{
  codes, occurs, before, starts_with, split_dots, join_dots, rstrip_dots,
}
use intrusion_detection_syst.Detection.Phishing.Levenshtein.{levenshtein}

-- What the code takes from Python: `netloc` is that of urllib's `urlsplit`, `is_decimal` the class
-- \d, `is_digit` str.isdigit on a character, and `sorted`, `str` and `repr` are on texts, numbers
-- and lists of texts. `brands` is a set in the order in which it is iterated.
pub record Library : Type 0 where
  pub strip : String → String
  pub lower : String → String
  pub netloc : String → Option String
  pub is_decimal : ℕ → Bool
  pub is_digit : ℕ → Bool
  pub sorted : List String → List String
  pub str : ℕ → String
  pub repr : List String → String

pub record PhishingVerdict : Type 0 where
  pub target : String
  pub host : String
  pub score : ℕ
  pub risk : String
  pub reasons : List String
  pub techniques : List String

abbrev pub default_brands : List String
default_brands =
    "paypal" ∷ "google" ∷ "microsoft" ∷ "apple" ∷ "amazon" ∷ "facebook" ∷ "instagram" ∷ "whatsapp"
    ∷ "netflix" ∷ "linkedin" ∷ "outlook" ∷ "office365" ∷ "icloud" ∷ "coinbase" ∷ "binance"
    ∷ "metamask" ∷ "wellsfargo" ∷ "chase" ∷ "bankofamerica" ∷ "citibank" ∷ "hsbc" ∷ "santander"
    ∷ "dhl" ∷ "fedex" ∷ "ups" ∷ "usps" ∷ "irs" ∷ "steam" ∷ "dropbox" ∷ "adobe" ∷ "github" ∷ []

abbrev pub suspicious_tlds : List String
suspicious_tlds =
    "zip" ∷ "mov" ∷ "xyz" ∷ "top" ∷ "gq" ∷ "tk" ∷ "ml" ∷ "cf" ∷ "ga" ∷ "work" ∷ "click" ∷ "link"
    ∷ "country" ∷ "kim" ∷ "loan" ∷ "download" ∷ "review" ∷ "rest" ∷ "fit" ∷ "host" ∷ "support"
    ∷ "icu" ∷ "cam" ∷ "quest" ∷ []

abbrev pub shorteners : List String
shorteners =
    "bit.ly" ∷ "tinyurl.com" ∷ "goo.gl" ∷ "t.co" ∷ "ow.ly" ∷ "is.gd" ∷ "buff.ly" ∷ "rebrand.ly"
    ∷ "cutt.ly" ∷ "shorturl.at" ∷ "rb.gy" ∷ "t.ly" ∷ []

abbrev pub scam_keywords : List String
scam_keywords =
    "verify" ∷ "account" ∷ "secure" ∷ "security" ∷ "login" ∷ "signin" ∷ "update" ∷ "confirm"
    ∷ "suspend" ∷ "suspended" ∷ "unlock" ∷ "billing" ∷ "invoice" ∷ "payment" ∷ "password" ∷ "wallet"
    ∷ "recover" ∷ "bonus" ∷ "prize" ∷ "gift" ∷ "free" ∷ "winner" ∷ "urgent" ∷ "alert" ∷ "validate"
    ∷ "restricted" ∷ "limited" ∷ "support" ∷ "service" ∷ []

-- The loop that adds the brands of the environment, given as the parts between its commas.
abbrev pub add_brands : (String → String) → List String → List String → List String
add_brands clean brands [] = brands
add_brands clean brands (b ∷ bs) =
    add_brands clean (if clean b == "" then brands else add_new brands (clean b)) bs

abbrev pub add_extra : (String → String) → List String → List String → List String
add_extra lower brands [] = brands
add_extra lower brands (b ∷ bs) = add_extra lower (add_new brands (lower b)) bs

unfoldable pub protected_brands : Library → List String → List String → List String
protected_brands lib env extra =
    add_extra lib.lower (add_brands (λ b. lib.lower (lib.strip b)) default_brands env) extra

abbrev pub last_at_cons : Char → String → Option (String × String) → Option (String × String)
last_at_cons c s (some (userinfo, rest)) = some (String.◌∷◌ c userinfo, rest)
last_at_cons c s none = if code c == b'@' then some ("", s) else none

-- `netloc.rsplit("@", 1)`, if there is an "@"
abbrev pub split_last_at : String → Option (String × String)
split_last_at String.[] = none
split_last_at (String.◌∷◌ c s) = last_at_cons c s (split_last_at s)

abbrev pub userinfo_and_rest : String → Option (String × String) → String × String
userinfo_and_rest netloc none = ("", netloc)
userinfo_and_rest netloc (some (userinfo, rest)) = (userinfo, rest)

-- The address that is parsed, with a scheme.
unfoldable pub candidate_of : Library → String → String
unfolding occurs
candidate_of lib url =
    let stripped = lib.strip url in
    if occurs "://" stripped then stripped else "http://" <> stripped

-- The host and the userinfo of a netloc.
unfoldable pub host_parts : Library → String → String × String
unfolding before rstrip_dots
host_parts lib netloc =
    let (userinfo, rest) = userinfo_and_rest netloc (split_last_at netloc) in
    (lib.lower (rstrip_dots (before b':' rest)), userinfo)

-- The host and the userinfo of a URL; `none` is the ValueError of `urlsplit`, which is not caught.
unfoldable pub split_host : Library → String → Option (String × String)
split_host lib url = Options.map (host_parts lib) (lib.netloc (candidate_of lib url))

abbrev pub is_letter : ℕ → Bool
is_letter c = leb b'a' c && leb c b'z'

-- What follows a prefix.
abbrev pub after_prefix : List ℕ → List ℕ → Option (List ℕ)
after_prefix [] s = some s
after_prefix (c ∷ prefix) [] = none
after_prefix (c ∷ prefix) (d ∷ s) =
    let rest = after_prefix prefix s in if c == d then rest else none

abbrev pub starts_with_letter : List ℕ → Bool
starts_with_letter [] = false
starts_with_letter (c ∷ s) = is_letter c

abbrev pub ends_at_boundary : Option (List ℕ) → Bool
ends_at_boundary none = false
ends_at_boundary (some rest) = not (starts_with_letter rest)

-- `re.search(rf"(?<![a-z])...(?![a-z])")` from a position on; `inside` if a letter stands before it.
abbrev pub boundary_search : List ℕ → Bool → List ℕ → Bool
boundary_search brand inside [] = not inside && ends_at_boundary (after_prefix brand [])
boundary_search brand inside (c ∷ s) =
    (not inside && ends_at_boundary (after_prefix brand (c ∷ s)))
    || boundary_search brand (is_letter c) s

unfoldable pub brand_at_boundary : String → String → Bool
unfolding codes
brand_at_boundary haystack brand = boundary_search (codes brand) false (codes haystack)

abbrev pub is_octet : (ℕ → Bool) → String → Bool
is_octet is_decimal part =
    let cs = codes part in all is_decimal cs && leb 1 (length cs) && leb (length cs) 3

-- _IPV4_RE.match; urlsplit leaves no newline in a host.
unfoldable pub is_ipv4 : Library → String → Bool
unfolding codes split_dots
is_ipv4 lib host =
    let parts = split_dots host in length parts == 4 && all (is_octet lib.is_decimal) parts

-- `labels[-1]` if there are two, or ""
abbrev pub tld_of : List String → String
tld_of [] = ""
tld_of (a ∷ []) = ""
tld_of (a ∷ b ∷ []) = b
tld_of (a ∷ b ∷ c ∷ labels) = tld_of (b ∷ c ∷ labels)

-- `labels[-2]`, or `labels[0]` if there is one
abbrev pub main_label_of : List String → String
main_label_of [] = ""
main_label_of (a ∷ []) = a
main_label_of (a ∷ b ∷ []) = a
main_label_of (a ∷ b ∷ c ∷ labels) = main_label_of (b ∷ c ∷ labels)

-- `labels[:-1]`
abbrev pub without_last : List String → List String
without_last [] = []
without_last (a ∷ []) = []
without_last (a ∷ b ∷ labels) = a ∷ without_last (b ∷ labels)

unfoldable pub host_without_tld : String → String
unfolding split_dots join_dots
host_without_tld host =
    let labels = split_dots host in
    if ltb 1 (length labels) then join_dots (without_last labels) else host

abbrev pub join_comma : List String → String
join_comma [] = ""
join_comma (x ∷ []) = x
join_comma (x ∷ y ∷ xs) = x <> ", " <> join_comma (y ∷ xs)

-- The score and the reasons so far.
abbrev pub Findings : Type 0
Findings = ℕ × List String

-- `if test: score += points; reasons.append(reason)`
unfoldable pub flag : Bool → ℕ → String → Findings → Findings
flag test points reason (score, reasons) =
    if test then (score + points, reasons ++ reason ∷ []) else (score, reasons)

-- `1 <= _levenshtein(main_label, b) <= 2`, for a label of four characters or more
abbrev pub is_typo_of : String → String → Bool
is_typo_of main b =
    leb 4 (length (codes main)) && leb 1 (levenshtein main b) && leb (levenshtein main b) 2
