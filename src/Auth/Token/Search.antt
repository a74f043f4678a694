-- ===== src/Auth/Token/Search.antt =====
-- auth/core.py: the search for the counter that a token belongs to.
use intrusion_detection_syst.Prelude.{
  ℕ, ◌+◌, String, ◌≡◌, refl, subst, true, false, Option, some, List, [], ◌∷◌, ◌⊎◌, ◌==◌, nat_eq,
  Bool, arith, inl, inr, Bool-cases,
}
use intrusion_detection_syst.Prelude.Lists.{All}
use intrusion_detection_syst.Auth.Token.{
  Attempted, returned, raised, Crypto, candidates, find_step, compared, try_code,
}

-- The token compares equal to a counter's code.
pub record Matches (crypto : Crypto) (secret token : String) (counter : ℕ) : Type 0 where
  pub code : String
  pub expected : crypto.totp_at secret counter ≡ returned code
  pub equal : crypto.compare_digest token code ≡ returned true

compared-found :
    (counter step : ℕ) (test : Attempted Bool) (later : Attempted (Option ℕ))
    → compared counter test later ≡ returned (some step)
    → ((test ≡ returned true) × (counter ≡ step)) ⊎ (later ≡ returned (some step))
compared-found counter step (raised e) later h = absurd cc
compared-found counter step (returned true) later h = inl (refl, cc)
compared-found counter step (returned false) later h = inr h

try_code-found :
    (crypto : Crypto) (secret token : String) (counter step : ℕ) (code : Attempted String)
    (later : Attempted (Option ℕ))
    → crypto.totp_at secret counter ≡ code
    → try_code crypto token counter code later ≡ returned (some step)
    → (Matches crypto secret token counter × (counter ≡ step)) ⊎ (later ≡ returned (some step))
try_code-found crypto secret token counter step (raised e) later t h = absurd cc
try_code-found crypto secret token counter step (returned code) later t h =
    elim (compared-found counter step (crypto.compare_digest token code) later h) [
      | inl (c, same) ↦ inl (record { code = code; expected = t; equal = c }, same)
      | inr rest ↦ inr rest
    ]

-- The search finds one of its counters, whose code the token equals.
pub find_step-found :
    (crypto : Crypto) (P : ℕ → Type 0) (secret token : String) (counters : List ℕ) (step : ℕ)
    → All P counters
    → find_step crypto secret token counters ≡ returned (some step)
    → P step × Matches crypto secret token step
unfolding find_step
find_step-found crypto P secret token [] step a h = absurd cc
find_step-found crypto P secret token (counter ∷ rest) step a h =
    elim (try_code-found crypto secret token counter step (crypto.totp_at secret counter)
      (find_step crypto secret token rest) refl h) [
        | inl (m, same) ↦ subst (λ k. P k × Matches crypto secret token k) same (a.0, m)
        | inr later ↦ find_step-found crypto P secret token rest step a.1 later
      ]

-- A counter is the current interval, the one before or the next.
abbrev pub IsTried : ℕ → ℕ → Type 0
IsTried current step = (step ≡ current) ⊎ ((step + 1 ≡ current) ⊎ (step ≡ current + 1))

pub candidates-IsTried : (current : ℕ) → All (IsTried current) (candidates current)
unfolding candidates
candidates-IsTried current = elim (Bool-cases (current == 0)) [
  | inl z ↦ simp z (inl refl, (inr (inr refl), tt))
  | inr z ↦ simp z (inl refl, (inr (inl (ground arith)), (inr (inr refl), tt)))
]
