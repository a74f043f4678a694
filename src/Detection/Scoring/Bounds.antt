-- ===== src/Detection/Scoring/Bounds.antt =====
-- The range of the scores, and what raises them.
use intrusion_detection_syst.Prelude.{ℕ, ◌+◌, ◌≤◌, String, ◌≡◌, List, [], ◌∷◌, min, arith}
use intrusion_detection_syst.Prelude.Lists.{All}
use intrusion_detection_syst.Prelude.Dict.{get}
use intrusion_detection_syst.Detection.Scoring.{
  Context, context_amplifier, base_score, mapped_bonus, high_impact_bonus, risk_score, explain,
  maximum, incident_score,
}

-- The explanation of a score adds up to it: the total is the sum of the components, cut at 100;
-- each component keeps to its own bound.
pub explain_adds_up :
    (upper : String → String) (severity event_name : String) (context : Context)
    → let e = explain upper severity event_name context in
      (e.total
        ≡ min 100
            (e.severity_base + e.attack_mapped_bonus + e.high_impact_bonus + e.context_amplifier))
      × (e.severity_base ≤ 75)
      × (e.attack_mapped_bonus ≤ 5)
      × (e.high_impact_bonus ≤ 5)
      × (e.context_amplifier ≤ 15)
unfolding explain risk_score base_score get mapped_bonus high_impact_bonus context_amplifier
explain_adds_up upper severity event_name context =
    (omega arith, ground arith, ground arith, ground arith, omega arith)

le-maximum : (xs : List ℕ) → All (λ x. x ≤ maximum xs) xs
le-maximum [] = tt
le-maximum (x ∷ xs) = (omega arith, weaken xs (le-maximum xs))
  where
    weaken : (ys : List ℕ) → All (λ y. y ≤ maximum xs) ys → All (λ y. y ≤ maximum (x ∷ xs)) ys
    weaken [] h = tt
    weaken (y ∷ ys) h = (omega (arith, h.0), weaken ys h.1)

maximum-le : (n : ℕ) (xs : List ℕ) → All (λ x. x ≤ n) xs → maximum xs ≤ n
maximum-le n [] h = omega arith
maximum-le n (x ∷ xs) h = omega (arith, maximum-le n xs h.1, h.0)

-- An incident scores at most 100, at least the highest of its events' scores (which are at most
-- 100), and never less for one more event or for more categories.
pub incident_score_bounds :
    (scores : List ℕ) (score categories more : ℕ)
    → All (λ x. x ≤ 100) scores
    → (incident_score scores categories ≤ 100)
      × (maximum scores ≤ incident_score scores categories)
      × (incident_score scores categories ≤ incident_score (score ∷ scores) (categories + more))
unfolding incident_score
incident_score_bounds [] score categories more h = omega arith
incident_score_bounds (x ∷ xs) score categories more h = omega (arith, maximum-le 100 (x ∷ xs) h)
