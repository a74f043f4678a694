-- ===== src/Detection/Correlation/Failures/Accusations.antt =====
-- Whom `rule_brute_force` accuses, over all the events it is given.
use intrusion_detection_syst.Prelude.{
  ℕ, ◌≤◌, ◌<◌, String, ◌≡◌, refl, sym, subst, Bool, true, ◌&&◌, List, [], ◌∷◌, ◌++◌, ◌==◌,
  string_eq, arith, Bool-cases, inl, inr, leb, Option-cases,
}
use intrusion_detection_syst.Prelude.Lists.{keep, length, All, any, all, All-append}
use intrusion_detection_syst.Prelude.Sorting.{sort, sort-IsSorted, All-sort, length-keep-sort}
use intrusion_detection_syst.Prelude.Dict.{Dict, get, put}
use intrusion_detection_syst.Detection.Mitre.{or_nil}
use intrusion_detection_syst.Detection.Event.{NormalizedEvent}
use intrusion_detection_syst.Detection.Correlation.Candidate.{IncidentCandidate}
use intrusion_detection_syst.Detection.Correlation.Failures.{
  time, first_burst, burst_candidate, bursts, is_failure, or_text, add_failure, group_failures,
  rule_brute_force,
}
use intrusion_detection_syst.Detection.Correlation.Failures.Grouping.{
  is_failure_of, group_failures_lem,
}
use intrusion_detection_syst.Detection.Correlation.Failures.Burst.{
  in_window, first_burst_complete, first_burst_sound,
}

-- Each list of the dict holds failures of its key.
abbrev Bucket : String × List NormalizedEvent → Type 0
Bucket kv = All (λ e. is_failure_of kv.0 e ≡ true) kv.1

All-put {κ} :
    {V : Type 0} (P : String × V → Type κ) (d : Dict String V) (k : String) (v : V)
    → All P d
    → P (k, v)
    → All P (put d k v)
unfolding put
All-put P [] k v a p = (p, tt)
All-put P ((j, w) ∷ d) k v a p = elim (Bool-cases (j == k)) [
  | inl same ↦ simp same (subst (λ i. P (i, v)) (sym ((string_eq.test_iff j k).0 same)) p, a.1)
  | inr other ↦ simp other (a.0, All-put P d k v a.1 p)
]

Bucket-get :
    (d : Dict String (List NormalizedEvent)) (k : String)
    → All Bucket d
    → All (λ e. is_failure_of k e ≡ true) (or_nil (get d k))
unfolding get
Bucket-get [] k a = tt
Bucket-get ((j, w) ∷ d) k a = elim (Bool-cases (j == k)) [
  | inl same ↦
      simp same
        (subst (λ i. All (λ e. is_failure_of i e ≡ true) w) ((string_eq.test_iff j k).0 same) a.0)
  | inr other ↦ simp other (Bucket-get d k a.1)
]

Bucket-add_failure :
    (d : Dict String (List NormalizedEvent)) (e : NormalizedEvent)
    → All Bucket d
    → All Bucket (add_failure d e)
Bucket-add_failure d e a = elim (Bool-cases (is_failure e)) [
  | inl failure ↦
      let name = or_text "" e.entity in
      simp failure (
        All-put Bucket d name (or_nil (get d name) ++ e ∷ []) a (
          All-append _ (or_nil (get d name)) (e ∷ []) (Bucket-get d name a)
            (simp failure ((string_eq.test_iff name name).1 refl), tt)))
  | inr other ↦ simp other a
]

Bucket-group_failures :
    (d : Dict String (List NormalizedEvent)) (events : List NormalizedEvent)
    → All Bucket d
    → All Bucket (group_failures d events)
unfolding group_failures
Bucket-group_failures d [] a = a
Bucket-group_failures d (e ∷ es) a =
    Bucket-group_failures (add_failure d e) es (Bucket-add_failure d e a)

-- A justified accusation: enough failures, all of one user and in one window.
abbrev pub IsJustified : ℕ → ℕ → IncidentCandidate → Type 0
IsJustified threshold window c =
    (threshold ≤ length c.events)
    × ((user : String) × All (λ e. is_failure_of user e ≡ true) c.events)
    × ((t : ℕ) × All (λ e. in_window t window e ≡ true) c.events)

-- The candidate reports failures of the user.
abbrev pub accuses : String → IncidentCandidate → Bool
accuses user c = all (is_failure_of user) c.events && leb 1 (length c.events)

All_all {ℓ} : {A : Type ℓ} (p : A → Bool) (xs : List A) → All (λ x. p x ≡ true) xs → all p xs ≡ true
All_all p [] a = refl
All_all p (x ∷ xs) a = ground (arith, a.0, All_all p xs a.1)

module _ (str : ℕ → String) (threshold window : ℕ) where
  bursts-IsJustified :
      (d : Dict String (List NormalizedEvent))
      → All Bucket d
      → All (IsJustified threshold window) (bursts str threshold window d)
  unfolding bursts burst_candidate
  bursts-IsJustified [] a = tt
  bursts-IsJustified ((user, evts) ∷ d) a =
      let rest = bursts-IsJustified d a.1 in
      elim (Option-cases (first_burst threshold window (sort time evts))) [
        | inl quiet ↦ rw quiet rest
        | inr (cluster, found) ↦
            let mine = All-sort time (λ e. is_failure_of user e ≡ true) evts a.0 in
            let s =
              first_burst_sound (λ e. is_failure_of user e ≡ true) threshold window (sort time evts)
                cluster (sort-IsSorted time evts) mine found in
            rw found ((s.0, (user, s.1), s.2), rest)
      ]

  -- Every candidate of the brute-force rule holds at least `threshold` failures of one user that
  -- lie in one window of the given length.
  pub rule_brute_force-IsJustified :
      (events : List NormalizedEvent)
      → All (IsJustified threshold window) (rule_brute_force str events threshold window)
  unfolding rule_brute_force
  rule_brute_force-IsJustified events =
      bursts-IsJustified (group_failures [] events) (Bucket-group_failures [] events tt)

  bursts-accuses :
      (user : String) (t : ℕ) (d : Dict String (List NormalizedEvent))
      → All Bucket d
      → 0 < threshold
      → threshold ≤ length (keep (in_window t window) (or_nil (get d user)))
      → any (accuses user) (bursts str threshold window d) ≡ true
  unfolding bursts burst_candidate get
  bursts-accuses user t [] a p h = absurd (omega arith)
  bursts-accuses user t ((name, evts) ∷ d) a p h = elim (Bool-cases (name == user)) [
    | inl same ↦
        let sorted = sort time evts in
        let many : threshold ≤ length (keep (in_window t window) sorted) =
          rw (length-keep-sort time (in_window t window) evts) (simp same at h) in
        let some_burst =
          first_burst_complete threshold window t sorted (sort-IsSorted time evts) p many in
        elim (Option-cases (first_burst threshold window sorted)) [
          | inl quiet ↦ absurd (some_burst quiet)
          | inr (cluster, found) ↦
              let mine =
                subst (λ u. All (λ e. is_failure_of u e ≡ true) sorted)
                  ((string_eq.test_iff name user).0 same)
                  (All-sort time (λ e. is_failure_of name e ≡ true) evts a.0) in
              let s =
                first_burst_sound (λ e. is_failure_of user e ≡ true) threshold window sorted cluster
                  (sort-IsSorted time evts) mine found in
              rw found (ground (arith, All_all (is_failure_of user) cluster s.1, s.0))
        ]
    | inr other ↦
        let later = bursts-accuses user t d a.1 p (simp other at h) in
        elim (Option-cases (first_burst threshold window (sort time evts))) [
          | inl quiet ↦ rw quiet later
          | inr (cluster, found) ↦ rw found (ground (arith, later))
        ]
  ]

  -- A user with `threshold` failures (at least one) in some window of the given length is accused
  -- by some candidate of the brute-force rule.
  pub rule_brute_force-accuses :
      (user : String) (t : ℕ) (events : List NormalizedEvent)
      → 0 < threshold
      → threshold ≤ length (keep (in_window t window) (keep (is_failure_of user) events))
      → any (accuses user) (rule_brute_force str events threshold window) ≡ true
  unfolding rule_brute_force
  rule_brute_force-accuses user t events p h =
      bursts-accuses user t (group_failures [] events) (Bucket-group_failures [] events tt) p (
        subst (λ l. threshold ≤ length (keep (in_window t window) l))
          (sym (group_failures_lem user events)) h)
