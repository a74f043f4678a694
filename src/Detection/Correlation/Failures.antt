-- ===== src/Detection/Correlation/Failures.antt =====
-- detection/correlation.py: `rule_brute_force` and `rule_replay_attack`. Windows are in the unit of
-- the timestamps; `str` is Python's `str` of an int, used in the titles and summaries.
pub mod Grouping
pub mod Burst
pub mod Accusations
use intrusion_detection_syst.Prelude.{
  ℕ, ◌+◌, String, ◌<>◌, Bool, true, false, not, ◌&&◌, ◌||◌, Option, none, some, List, [], ◌∷◌, ◌++◌,
  map, ltb, leb, if◌then◌else◌, ◌==◌, nat_eq, string_eq,
}
use intrusion_detection_syst.Prelude.Lists.{keep, length, contains, add_new}
use intrusion_detection_syst.Prelude.Dict.{Dict, get, put}
use intrusion_detection_syst.Prelude.Sorting.{sort}
use intrusion_detection_syst.Detection.Mitre.{or_nil}
use intrusion_detection_syst.Detection.Scoring.{Json, text, Context, truthy}
use intrusion_detection_syst.Detection.Event.{NormalizedEvent}
use intrusion_detection_syst.Detection.Correlation.Candidate.{IncidentCandidate, distinct_of}

abbrev pub time : NormalizedEvent → ℕ
time e = e.timestamp

abbrev pub is_failure_name : String → Bool
is_failure_name name = name == "AUTH_FAILURE" || name == "RATE_LIMITED"

-- Python's truth of an entity
abbrev pub is_named : Option String → Bool
is_named none = false
is_named (some s) = not (s == "")

abbrev pub or_text : String → Option String → String
or_text d none = d
or_text d (some s) = if s == "" then d else s

abbrev pub is_failure : NormalizedEvent → Bool
is_failure e = is_failure_name e.event_name && is_named e.entity

-- `d[k].append(e)` on a defaultdict
abbrev pub append_to :
    Dict String (List NormalizedEvent)
    → String
    → NormalizedEvent
    → Dict String (List NormalizedEvent)
append_to d k e = put d k (or_nil (get d k) ++ e ∷ [])

abbrev pub add_failure :
    Dict String (List NormalizedEvent) → NormalizedEvent → Dict String (List NormalizedEvent)
add_failure d e = if is_failure e then append_to d (or_text "" e.entity) e else d

unfoldable pub group_failures :
    Dict String (List NormalizedEvent) → List NormalizedEvent → Dict String (List NormalizedEvent)
group_failures d [] = d
group_failures d (e ∷ es) = group_failures (add_failure d e) es

-- `x.timestamp - anchor.timestamp <= window_seconds`, for x not before the anchor
abbrev pub within : ℕ → NormalizedEvent → NormalizedEvent → Bool
within window anchor x = leb x.timestamp (anchor.timestamp + window)

-- The loop over the anchors, up to its `break`.
unfoldable pub first_burst : ℕ → ℕ → List NormalizedEvent → Option (List NormalizedEvent)
first_burst threshold window [] = none
first_burst threshold window (anchor ∷ rest) =
    let later = first_burst threshold window rest in
    let cluster = keep (within window anchor) (anchor ∷ rest) in
    if leb threshold (length cluster) then some cluster else later

abbrev pub cons_some {ℓ} : {A : Type ℓ} → Option A → List A → List A
cons_some none xs = xs
cons_some (some x) xs = x ∷ xs

module _ (str : ℕ → String) where
  unfoldable pub burst_candidate :
      ℕ → ℕ → String → Option (List NormalizedEvent) → Option IncidentCandidate
  burst_candidate threshold window user none = none
  burst_candidate threshold window user (some cluster) = some (record {
    rule_name = "brute_force_burst";
    title = "Brute force suspected against user '" <> user <> "'";
    summary =
        str (length cluster)
        <> " authentication failures for '"
        <> user
        <> "' within "
        <> str window
        <> "s (threshold "
        <> str threshold
        <> ").";
    events = cluster;
    extra_techniques = [];
    extra_entities = [];
  })

  unfoldable pub bursts : ℕ → ℕ → Dict String (List NormalizedEvent) → List IncidentCandidate
  unfolding burst_candidate
  bursts threshold window [] = []
  bursts threshold window ((user, evts) ∷ rest) =
      cons_some
        (burst_candidate threshold window user (first_burst threshold window (sort time evts)))
        (bursts threshold window rest)

  unfoldable pub rule_brute_force : List NormalizedEvent → ℕ → ℕ → List IncidentCandidate
  unfolding bursts
  rule_brute_force events threshold window = bursts threshold window (group_failures [] events)

  unfoldable pub replay_candidate : NormalizedEvent → IncidentCandidate
  replay_candidate e = record {
    rule_name = "replay_attack";
    title = "Token replay attack against user '" <> or_text "unknown" e.entity <> "'";
    summary = e.message;
    events = e ∷ [];
    extra_techniques = [];
    extra_entities = [];
  }

  unfoldable pub rule_replay_attack : List NormalizedEvent → List IncidentCandidate
  unfolding replay_candidate
  rule_replay_attack events =
      map replay_candidate (keep (λ e. e.event_name == "REPLAY_ATTACK") events)
