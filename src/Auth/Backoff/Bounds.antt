-- ===== src/Auth/Backoff/Bounds.antt =====
-- The delays of the backoff: bounds, growth, and what the "reject" mode answers.
use native.Mathlib.Nat.{pow-suc, mul-le-mul_left}
use intrusion_detection_syst.Prelude.{
  ℕ, zero, suc, ◌+◌, ◌-◌, ◌*◌, ◌/◌, ◌^◌, ◌≤◌, ◌<◌, String, ◌≡◌, ◌≢◌, Option, none, some, arith,
  nat_eq, string_eq, ◌↔◌,
}
use intrusion_detection_syst.Auth.Events.{Context, Outbox, Sinks}
use intrusion_detection_syst.Auth.Store.{Db, recent_failures, last_failure}
use intrusion_detection_syst.Auth.Backoff.{
  Config, ticks, or_zero, recovery_codes_count, calculate_backoff_delay, remaining_ticks,
  enforce_backoff,
}

pow_pos : (n : ℕ) → 0 < 2 ^ n
pow_pos zero = omega arith
pow_pos (suc n) = rw pow-suc (omega (arith, pow_pos n))

pow_mono : (n d : ℕ) → 2 ^ n ≤ 2 ^ (d + n)
pow_mono n zero = let e : zero + n ≡ n = omega arith in rw e (omega arith)
pow_mono n (suc d) =
    let e : suc d + n ≡ suc (d + n) = omega arith in rw (e, pow-suc) (omega (arith, pow_mono n d))

pow-le : (m n : ℕ) → m ≤ n → 2 ^ m ≤ 2 ^ n
pow-le m n h = let e : n ≡ (n - m) + m = omega arith in rw e (pow_mono m (n - m))

-- The delay never passes the cap, is zero exactly without recent failures (where the base and the
-- cap are positive), and the count that comes with it is the number of recent failures.
pub calculate_backoff_delay_bounds :
    (cfg : Config) (u now : ℕ) (db : Db)
    → 0 < cfg.base_delay
    → 0 < cfg.max_delay
    → ((calculate_backoff_delay cfg u now db).0 ≤ cfg.max_delay)
      × (((calculate_backoff_delay cfg u now db).0 ≡ 0) ↔ (recent_failures u cfg.window now db ≡ 0))
      × ((calculate_backoff_delay cfg u now db).1 ≡ recent_failures u cfg.window now db)
unfolding calculate_backoff_delay
calculate_backoff_delay_bounds cfg u now db hb hm =
    let n = recent_failures u cfg.window now db in
    let positive : 0 < cfg.base_delay * 2 ^ n = grind (arith, pow_pos n) in
    (grind arith, (λ h. ground arith, λ h. ground arith), ground arith)

-- More recent failures never mean a shorter delay.
pub calculate_backoff_delay_mono :
    (cfg : Config) (u v now later : ℕ) (db db' : Db)
    → recent_failures u cfg.window now db ≤ recent_failures v cfg.window later db'
    → (calculate_backoff_delay cfg u now db).0 ≤ (calculate_backoff_delay cfg v later db').0
unfolding calculate_backoff_delay
calculate_backoff_delay_mono cfg u v now later db db' h =
    let m = recent_failures u cfg.window now db in
    let n = recent_failures v cfg.window later db' in
    let scaled : cfg.base_delay * 2 ^ m ≤ cfg.base_delay * 2 ^ n =
      mul-le-mul_left cfg.base_delay (pow-le m n h) in
    ground arith

-- However MFA_RECOVERY_CODES_COUNT is set, between 1 and 50 codes are issued.
pub recovery_codes_count_bounds :
    (setting : Option ℕ) → (1 ≤ recovery_codes_count setting) × (recovery_codes_count setting ≤ 50)
unfolding recovery_codes_count
recovery_codes_count_bounds none = omega arith
recovery_codes_count_bounds (some n) = omega arith

-- The end of the delay, in ticks: the last failure and the delay after it.
abbrev pub backoff_end : Config → ℕ → ℕ → Db → ℕ
backoff_end cfg u now db =
    (or_zero (last_failure u db) + (calculate_backoff_delay cfg u (now / ticks) db).0) * ticks

-- In the "reject" mode a user with a positive delay is rejected exactly before the delay's end,
-- and the announced seconds are the least number of whole seconds that reach it.
pub enforce_backoff_reject :
    (cfg : Config) (sinks : Sinks) (username : String) (u : ℕ) (context : Context) (now : ℕ)
    (db : Db) (out : Outbox)
    → cfg.mode ≡ "reject"
    → 0 < (calculate_backoff_delay cfg u (now / ticks) db).0
    → let answer = enforce_backoff cfg sinks username u context now db out in
      ((now < backoff_end cfg u now db)
        → (answer.0.2 ≢ none)
          × (backoff_end cfg u now db ≤ now + answer.0.0 * ticks)
          × (now + (answer.0.0 - 1) * ticks < backoff_end cfg u now db))
      × ((backoff_end cfg u now db ≤ now) → (answer.0.2 ≡ none) × (answer.0.0 ≡ 0))
unfolding enforce_backoff remaining_ticks
enforce_backoff_reject cfg sinks username u context now db out mode positive = (
  λ early. (
    ground (arith, string_eq.test_iff cfg.mode "reject"),
    ground (arith, string_eq.test_iff cfg.mode "reject"),
    ground (arith, string_eq.test_iff cfg.mode "reject"),
  ),
  λ late. (
    ground (arith, string_eq.test_iff cfg.mode "reject"),
    ground (arith, string_eq.test_iff cfg.mode "reject"),
  ),
)

-- In the "reject" mode a user with a positive delay is rejected before the delay's end, and the
-- announced seconds are the least number of whole seconds that reach it.
pub enforce_backoff_early :
    (cfg : Config) (sinks : Sinks) (username : String) (u : ℕ) (context : Context) (now : ℕ)
    (db : Db) (out : Outbox)
    → cfg.mode ≡ "reject"
    → 0 < (calculate_backoff_delay cfg u (now / ticks) db).0
    → now < backoff_end cfg u now db
    → let answer = enforce_backoff cfg sinks username u context now db out in
      (answer.0.2 ≢ none)
      × (backoff_end cfg u now db ≤ now + answer.0.0 * ticks)
      × (now + (answer.0.0 - 1) * ticks < backoff_end cfg u now db)
enforce_backoff_early cfg sinks username u context now db out mode positive early =
    (enforce_backoff_reject cfg sinks username u context now db out mode positive).0 early
