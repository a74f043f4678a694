-- ===== src/Vision.antt =====
-- vision/liveness.py: the blink counter.
use intrusion_detection_syst.Prelude.{
  ℕ, suc, ◌+◌, ◌≡◌, ◌||◌, ltb, Bool, true, false, List, [], ◌∷◌, Bool-cases, inl, inr,
  if◌then◌else◌, arith,
}

pub record LivenessState : Type 0 where
  pub blink_count : ℕ
  pub eyes_were_open : Bool
  pub is_live : Bool

unfoldable pub observe_frame : Bool → LivenessState → LivenessState
observe_frame eyes_visible s =
    if eyes_visible
    then record s { eyes_were_open = true }
    else if s.eyes_were_open
    then record s { blink_count = s.blink_count + 1; eyes_were_open = false; is_live = true }
    else s

abbrev pub initial : LivenessState
initial = record { blink_count = 0; eyes_were_open = false; is_live = false }

-- The frames of a run, the first one first.
unfoldable pub observe_all : LivenessState → List Bool → LivenessState
observe_all s [] = s
observe_all s (f ∷ fs) = observe_all (observe_frame f s) fs

-- How often an open frame is followed by a closed one, when the eyes were open before.
unfoldable pub blinks : Bool → List Bool → ℕ
blinks was_open [] = 0
blinks was_open (true ∷ fs) = blinks true fs
blinks true (false ∷ fs) = suc (blinks false fs)
blinks false (false ∷ fs) = blinks false fs

-- After any frames the counter has grown by the number of open frames that a closed one follows,
-- and the state is live exactly if it was or one was counted.
pub observe_all-blinks :
    (s : LivenessState) (frames : List Bool)
    → ((observe_all s frames).blink_count ≡ s.blink_count + blinks s.eyes_were_open frames)
      × ((observe_all s frames).is_live ≡ (s.is_live || ltb 0 (blinks s.eyes_were_open frames)))
unfolding observe_all observe_frame blinks
observe_all-blinks s [] = ground arith
observe_all-blinks s (true ∷ fs) = observe_all-blinks (record s { eyes_were_open = true }) fs
observe_all-blinks s (false ∷ fs) = elim (Bool-cases s.eyes_were_open) [
  | inl was ↦ ground (arith, was, observe_all-blinks (observe_frame false s) fs)
  | inr shut ↦ ground (arith, shut, observe_all-blinks s fs)
]
