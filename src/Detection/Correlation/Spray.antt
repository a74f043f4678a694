-- ===== src/Detection/Correlation/Spray.antt =====
-- detection/correlation.py: `rule_password_spray` and `rule_auth_success_after_failures`.
use intrusion_detection_syst.Prelude.{
  ℕ, String, ◌<>◌, Bool, ◌&&◌, Option, none, some, List, [], ◌∷◌, ◌++◌, map, ltb, leb,
  if◌then◌else◌, ◌==◌, nat_eq, string_eq,
}
use intrusion_detection_syst.Prelude.Lists.{keep, length}
use intrusion_detection_syst.Prelude.Dict.{Dict, get}
use intrusion_detection_syst.Prelude.Sorting.{sort}
use intrusion_detection_syst.Detection.Mitre.{or_nil}
use intrusion_detection_syst.Detection.Event.{NormalizedEvent}
use intrusion_detection_syst.Detection.Correlation.Candidate.{IncidentCandidate, distinct_of}
use intrusion_detection_syst.Detection.Correlation.Failures.{
  time, is_named, or_text, is_failure, group_failures, within,
}
use intrusion_detection_syst.Detection.Correlation.Chains.{follows}

abbrev pub users_of : List NormalizedEvent → List String
users_of es = distinct_of (map (λ e. or_text "" e.entity) es)

-- The anchor scan of the password spray, up to its `return`.
unfoldable pub first_spray : ℕ → ℕ → List NormalizedEvent → Option (List NormalizedEvent)
first_spray user_threshold window [] = none
first_spray user_threshold window (anchor ∷ rest) =
    let later = first_spray user_threshold window rest in
    let cluster = keep (within window anchor) (anchor ∷ rest) in
    if leb user_threshold (length (users_of cluster)) then some cluster else later

module _ (str : ℕ → String) where
  unfoldable pub spray_candidate : ℕ → ℕ → Option (List NormalizedEvent) → List IncidentCandidate
  spray_candidate user_threshold window none = []
  spray_candidate user_threshold window (some cluster) =
      let users = str (length (users_of cluster)) in
      record {
        rule_name = "password_spray";
        title = "Password spray suspected across " <> users <> " accounts";
        summary =
            "Authentication failures against "
            <> users
            <> " distinct users within "
            <> str window
            <> "s (threshold "
            <> str user_threshold
            <> ") — characteristic of password spraying (low-and-slow brute force spread across many"
            <> " accounts).";
        events = cluster;
        extra_techniques = "T1110.003" ∷ [];
        extra_entities = [];
      }
      ∷ []

  unfoldable pub rule_password_spray : List NormalizedEvent → ℕ → ℕ → List IncidentCandidate
  unfolding spray_candidate
  rule_password_spray events user_threshold window =
      let failures = keep is_failure events in
      if ltb (length (users_of failures)) user_threshold
      then []
      else spray_candidate user_threshold window
          (first_spray user_threshold window (sort time failures))

  -- `0 <= s.timestamp - f.timestamp <= window_seconds`
  unfoldable pub success_candidate : ℕ → NormalizedEvent → List NormalizedEvent → IncidentCandidate
  success_candidate window s prior =
      let user = or_text "" s.entity in
      record {
        rule_name = "auth_success_after_failures";
        title =
            "Successful login after "
            <> str (length prior)
            <> " failures for user '"
            <> user
            <> "'";
        summary =
            "User '"
            <> user
            <> "' authenticated successfully after "
            <> str (length prior)
            <> " failed attempt(s) within "
            <> str window
            <> "s — possible successful brute force or a compromised credential in use. Verify the"
            <> " login is legitimate.";
        events = sort time prior ++ s ∷ [];
        extra_techniques = "T1078" ∷ [];
        extra_entities = [];
      }

  unfoldable pub after_failures :
      ℕ → ℕ → Dict String (List NormalizedEvent) → List NormalizedEvent → List IncidentCandidate
  unfolding success_candidate
  after_failures threshold window failures [] = []
  after_failures threshold window failures (s ∷ rest) =
      let later = after_failures threshold window failures rest in
      let prior = keep (λ f. follows window f s) (or_nil (get failures (or_text "" s.entity))) in
      if leb threshold (length prior) then success_candidate window s prior ∷ later else later

  abbrev pub is_success : NormalizedEvent → Bool
  is_success e = is_named e.entity && e.event_name == "AUTH_SUCCESS"

  unfoldable pub rule_auth_success_after_failures :
      List NormalizedEvent → ℕ → ℕ → List IncidentCandidate
  unfolding after_failures group_failures
  rule_auth_success_after_failures events threshold window =
      after_failures threshold window (group_failures [] events) (keep is_success events)
