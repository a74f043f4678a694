-- ===== src/Detection/Correlation/Failures/Grouping.antt =====
-- The dict of failures by user is the list of events, filtered by user.
use mathlib.Core.List.{append_assoc, append-nil}
use intrusion_detection_syst.Prelude.{
  String, ◌≡◌, sym, ◌∙◌, ap, Bool, ◌&&◌, List, [], ◌∷◌, ◌++◌, ◌==◌, string_eq, Bool-cases, inl, inr,
}
use intrusion_detection_syst.Prelude.Lists.{keep, keep-append}
use intrusion_detection_syst.Prelude.Dict.{Dict, get, get-put}
use intrusion_detection_syst.Detection.Mitre.{or_nil}
use intrusion_detection_syst.Detection.Event.{NormalizedEvent}
use intrusion_detection_syst.Detection.Correlation.Failures.{
  or_text, is_failure, add_failure, group_failures,
}

-- An authentication failure of the user.
abbrev pub is_failure_of : String → NormalizedEvent → Bool
is_failure_of user e = is_failure e && or_text "" e.entity == user

step :
    (d : Dict String (List NormalizedEvent)) (user : String) (e : NormalizedEvent)
    → or_nil (get (add_failure d e) user)
      ≡ or_nil (get d user) ++ keep (is_failure_of user) (e ∷ [])
step d user e =
    let name = or_text "" e.entity in
    elim (Bool-cases (is_failure e)) [
      | inl failure ↦ elim (Bool-cases (name == user)) [
        | inl mine ↦
            simp (failure, get-put d name user (or_nil (get d name) ++ e ∷ []), mine)
              (ap (λ n. or_nil (get d n) ++ e ∷ []) ((string_eq.test_iff name user).0 mine))
        | inr other ↦
            simp (failure, get-put d name user (or_nil (get d name) ++ e ∷ []), other)
              (sym (append-nil _))
      ]
      | inr other_event ↦ simp other_event (sym (append-nil _))
    ]

group_from :
    (d : Dict String (List NormalizedEvent)) (user : String) (events : List NormalizedEvent)
    → or_nil (get (group_failures d events) user)
      ≡ or_nil (get d user) ++ keep (is_failure_of user) events
unfolding group_failures
group_from d user [] = sym (append-nil _)
group_from d user (e ∷ es) =
    group_from (add_failure d e) user es
    ∙ (ap (λ l. l ++ keep (is_failure_of user) es) (step d user e)
        ∙ (append_assoc (or_nil (get d user)) (keep (is_failure_of user) (e ∷ [])) _
            ∙ ap (λ l. or_nil (get d user) ++ l)
                (sym (keep-append (is_failure_of user) (e ∷ []) es))))

-- What is stored for a user is the user's failures, in the order of the events.
pub group_failures_lem :
    (user : String) (events : List NormalizedEvent)
    → or_nil (get (group_failures [] events) user) ≡ keep (is_failure_of user) events
unfolding get
group_failures_lem user events = group_from [] user events
