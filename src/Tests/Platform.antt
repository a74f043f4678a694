-- ===== src/Tests/Platform.antt =====
-- The packet window, the login limiter, the blink counter and the playbooks at small inputs.
use intrusion_detection_syst.Prelude.{
  ℕ, ◌+◌, ◌-◌, ◌≤◌, ◌≡◌, refl, ◌||◌, ltb, Bool, true, false, String, List, [], ◌∷◌, nat_eq, arith,
}
use intrusion_detection_syst.Prelude.Dict.{Dict}
use intrusion_detection_syst.Network.Counter.{observe}
use intrusion_detection_syst.Network.Counter.Agreement.{Observes, observe-Observes}
use intrusion_detection_syst.Dashboard.Limiter.{LoginRateLimiter}
use intrusion_detection_syst.Dashboard.Limiter.Window.{allowed, allowed-le}
use intrusion_detection_syst.Vision.{initial, observe_all, blinks, observe_all-blinks}

observe-Observes_example :
    Observes {K = ℕ} 60 100 443
      ((10, 22) ∷ (70, 80) ∷ [])
      (observe 60 100 443 ((10, 22) ∷ (70, 80) ∷ []) ((22, 1) ∷ (80, 1) ∷ [])).0
      (observe 60 100 443 ((10, 22) ∷ (70, 80) ∷ []) ((22, 1) ∷ (80, 1) ∷ [])).1
unfolding intrusion_detection_syst.Prelude.Dict.get
observe-Observes_example =
    observe-Observes 60 100 443 ((10, 22) ∷ (70, 80) ∷ []) ((22, 1) ∷ (80, 1) ∷ [])
      (λ j. ground arith)

abbrev limiter : LoginRateLimiter
limiter = record { max_attempts = 5; window = 60; ticks = 1; windows = ("10.0.0.9", (7, 3)) ∷ [] }

abbrev calls : List (String × ℕ)
calls = ("10.0.0.9", 8) ∷ ("10.0.0.7", 9) ∷ ("10.0.0.9", 10) ∷ ("10.0.0.9", 66) ∷ []

allowed-le_example : allowed "10.0.0.9" calls limiter ≤ 5 - 3
unfolding intrusion_detection_syst.Prelude.Dict.get
allowed-le_example =
    allowed-le "10.0.0.9" calls 7 3 limiter refl
      (ground arith, (ground arith, (ground arith, (ground arith, tt))))

abbrev frames : List Bool
frames = true ∷ false ∷ false ∷ true ∷ false ∷ []

observe_all-blinks_example :
    ((observe_all initial frames).blink_count ≡ 0 + blinks false frames)
    × ((observe_all initial frames).is_live ≡ (false || ltb 0 (blinks false frames)))
observe_all-blinks_example = observe_all-blinks initial frames
