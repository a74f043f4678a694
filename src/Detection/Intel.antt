-- ===== src/Detection/Intel.antt =====
-- detection/intel.py: indicator lists read through a cache, and the matching of addresses and domains.
pub mod Parents
pub mod Domains
use intrusion_detection_syst.Prelude.{
  ℕ, String, Bool, true, false, not, ◌&&◌, ◌||◌, Option, none, some, List, [], ◌∷◌, ◌++◌, map,
  if◌then◌else◌, ◌==◌, string_eq, nat_eq,
}
use intrusion_detection_syst.Prelude.Lists.{contains, find?, add_new}
use intrusion_detection_syst.Prelude.Dict.{Dict, get, put}
use intrusion_detection_syst.Prelude.Text.{before, occurs, split_dots, join_dots, rstrip_dots}

-- The `ipaddress` module and the text methods that depend on Unicode tables.
pub record Library : Type 1 where
  pub Address : Type 0
  pub Network : Type 0
  pub ip_address : String → Option Address
  pub ip_network : String → Option Network
  pub address_text : Address → String
  pub network_text : Network → String
  pub address_version : Address → ℕ
  pub network_version : Network → ℕ
  pub is_in : Address → Network → Bool
  pub strip : String → String
  pub lower : String → String

-- What the disk answers for a path: the time of the last change and, unless the read fails, the
-- lines of the text.
abbrev pub File : Type 0
File = Option (ℕ × Option (List String))

abbrev pub Cache : Type 0
Cache = Dict String (ℕ × List String)

-- The entries of a file: what stands before a comment, without the blank ones.
unfoldable pub entries : (String → String) → List String → List String
entries strip [] = []
entries strip (raw ∷ lines) =
    let rest = entries strip lines in
    let entry = strip (before b'#' raw) in if entry == "" then rest else entry ∷ rest

abbrev pub read_lines :
    (String → String) → String → ℕ → Option (List String) → Cache → List String × Cache
read_lines strip path mtime none cache = ([], cache)
read_lines strip path mtime (some content) cache =
    let lines = entries strip content in (lines, put cache path (mtime, lines))

abbrev pub load_file :
    (String → String) → String → File → Option (ℕ × List String) → Cache → List String × Cache
load_file strip path none cached cache = ([], cache)
load_file strip path (some (mtime, content)) none cache = read_lines strip path mtime content cache
load_file strip path (some (mtime, content)) (some (seen, lines)) cache =
    if seen == mtime then (lines, cache) else read_lines strip path mtime content cache

-- An unset path and an empty one give no line.
unfoldable pub load_lines :
    (String → String) → (String → File) → Option String → Cache → List String × Cache
unfolding entries
load_lines strip disk none cache = ([], cache)
load_lines strip disk (some path) cache =
    if path == "" then ([], cache) else load_file strip path (disk path) (get cache path) cache

abbrev pub add_some {ℓ} : {A : Type ℓ} → Option A → List A → List A
add_some none xs = xs
add_some (some x) xs = xs ++ x ∷ []

abbrev pub is_nil {ℓ} : {A : Type ℓ} → List A → Bool
is_nil [] = true
is_nil (x ∷ xs) = false

-- The loop over `labels[i:]`, from `i = 1` on.
abbrev pub find_parent : List String → List String → Option String
find_parent domains [] = none
find_parent domains (label ∷ []) = none
find_parent domains (label ∷ next ∷ labels) =
    let parent = join_dots (next ∷ labels) in
    if contains parent domains then some parent else find_parent domains (next ∷ labels)

abbrev pub match_host : List String → String → Option String
match_host domains host =
    if host == ""
    then none
    else if contains host domains
    then some host
    else find_parent domains (split_dots host)

-- `a or b` for a text that may be missing
abbrev pub or_else : Option String → Option String → Option String
or_else none b = b
or_else (some a) b = if a == "" then b else some a

module _ (lib : Library) where
  pub record ThreatIntel : Type 0 where
    pub ips : List String
    pub cidrs : List lib.Network
    pub domains : List String

  abbrev pub add_address : Option lib.Address → List String → List String
  add_address none ips = ips
  add_address (some a) ips = add_new ips (lib.address_text a)

  -- The loop over the lines of the address list; a malformed one is skipped.
  unfoldable pub read_addresses :
      List String → List String × List lib.Network → List String × List lib.Network
  unfolding occurs
  read_addresses [] acc = acc
  read_addresses (entry ∷ rest) (ips, cidrs) = read_addresses rest (
      if occurs "/" entry
      then (ips, add_some (lib.ip_network entry) cidrs)
      else (add_address (lib.ip_address entry) ips, cidrs))

  unfoldable pub from_files :
      (String → File) → Option String → Option String → Cache → ThreatIntel × Cache
  unfolding load_lines read_addresses rstrip_dots
  from_files disk ip_path domain_path cache =
      let (ip_lines, cache') = load_lines lib.strip disk ip_path cache in
      let (ips, cidrs) = read_addresses ip_lines ([], []) in
      let (domain_lines, cache'') = load_lines lib.strip disk domain_path cache' in
      (
        record {
          ips = ips;
          cidrs = cidrs;
          domains = map (λ d. rstrip_dots (lib.lower d)) domain_lines;
        },
        cache'',
      )

  unfoldable pub has_indicators : ThreatIntel → Bool
  has_indicators ti = not (is_nil ti.ips && is_nil ti.cidrs && is_nil ti.domains)

  abbrev pub find_network : lib.Address → List lib.Network → Option String
  find_network a [] = none
  find_network a (n ∷ rest) =
      if lib.address_version a == lib.network_version n && lib.is_in a n
      then some (lib.network_text n)
      else find_network a rest

  abbrev pub match_address : ThreatIntel → Option lib.Address → Option String
  match_address ti none = none
  match_address ti (some a) =
      if contains (lib.address_text a) ti.ips
      then some (lib.address_text a)
      else find_network a ti.cidrs

  unfoldable pub match_ip : ThreatIntel → String → Option String
  match_ip ti value =
      if value == "" then none else match_address ti (lib.ip_address (lib.strip value))

  unfoldable pub host_of : String → String
  unfolding rstrip_dots
  host_of value = rstrip_dots (lib.lower (lib.strip value))

  unfoldable pub match_domain : ThreatIntel → String → Option String
  unfolding host_of
  match_domain ti value =
      if value == "" || is_nil ti.domains then none else match_host ti.domains (host_of value)

  unfoldable pub match_indicator : ThreatIntel → String → Option String
  unfolding match_ip match_domain
  match_indicator ti value = or_else (match_ip ti value) (match_domain ti value)
