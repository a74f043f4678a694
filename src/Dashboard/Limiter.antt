-- ===== src/Dashboard/Limiter.antt =====
-- dashboard/security.py: `LoginRateLimiter.check`. The lock makes each call one step.
pub mod Window
use intrusion_detection_syst.Prelude.{
  ℕ, suc, ◌+◌, ◌-◌, ◌/◌, String, Bool, true, false, Option, none, some, ltb, leb, if◌then◌else◌,
  string_eq,
}
use intrusion_detection_syst.Prelude.Lists.{keep, length}
use intrusion_detection_syst.Prelude.Dict.{Dict, get, put}

-- `window` is `window_seconds` in ticks, `ticks` how many make a second.
pub record LoginRateLimiter : Type 0 where
  pub max_attempts : ℕ
  pub window : ℕ
  pub ticks : ℕ
  pub windows : Dict String (ℕ × ℕ)

-- (window_start, count) of a client, before the attempt is counted
abbrev pub opened : ℕ → ℕ → Option (ℕ × ℕ) → ℕ × ℕ
opened window ts none = (ts, 0)
opened window ts (some (start, count)) = if leb (start + window) ts then (ts, 0) else (start, count)

-- `wc[0] >= cutoff`
abbrev pub is_current : ℕ → ℕ → String × (ℕ × ℕ) → Bool
is_current window ts kv = leb ts (kv.1.0 + window)

abbrev pub cleanup : ℕ → ℕ → Dict String (ℕ × ℕ) → Dict String (ℕ × ℕ)
cleanup window ts windows =
    if ltb 10_000 (length windows) then keep (is_current window ts) windows else windows

-- (allowed, retry_after_seconds)
unfoldable pub check : String → ℕ → LoginRateLimiter → (Bool × ℕ) × LoginRateLimiter
unfolding put
check client_ip ts l =
    let before = opened l.window ts (get l.windows client_ip) in
    let count = suc before.1 in
    let windows = cleanup l.window ts (put l.windows client_ip (before.0, count)) in
    let answer =
      if ltb l.max_attempts count
      then (false, (l.window - (ts - before.0)) / l.ticks + 1)
      else (true, 0) in
    (answer, record l { windows = windows })
