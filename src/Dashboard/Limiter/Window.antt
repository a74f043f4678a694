-- ===== src/Dashboard/Limiter/Window.antt =====
-- How many attempts a client gets in one window of the limiter.
use intrusion_detection_syst.Prelude.{
  ℕ, suc, ◌+◌, ◌-◌, ◌≤◌, ◌<◌, String, ◌≡◌, refl, sym, ◌∙◌, ap, subst, Bool, true, false, some, List,
  [], ◌∷◌, ltb, if◌then◌else◌, ◌==◌, string_eq, arith, Bool-cases, inl, inr,
}
use intrusion_detection_syst.Prelude.Lists.{keep, length, All}
use intrusion_detection_syst.Prelude.Dict.{Dict, get, get-put}
use intrusion_detection_syst.Dashboard.Limiter.{
  LoginRateLimiter, opened, is_current, cleanup, check,
}

get-keep :
    (p : String × (ℕ × ℕ) → Bool) (d : Dict String (ℕ × ℕ)) (k : String) (v : ℕ × ℕ)
    → get d k ≡ some v
    → ((j : String) → p (j, v) ≡ true)
    → get (keep p d) k ≡ some v
unfolding get
get-keep p [] k v h q = h
get-keep p ((j, w) ∷ d) k v h q = elim (Bool-cases (j == k)) [
  | inl same ↦
      let found : w ≡ v = (let g = simp same at h in cc) in
      let passes : p (j, w) ≡ true = subst (λ x. p (j, x) ≡ true) (sym found) (q j) in
      simp (passes, same) (ap some found)
  | inr other ↦
      let below = get-keep p d k v (simp other at h) q in
      elim (Bool-cases (p (j, w))) [
        | inl kept ↦ simp (kept, other) below
        | inr gone ↦ simp gone below
      ]
]

get-cleanup :
    (window ts : ℕ) (d : Dict String (ℕ × ℕ)) (k : String) (v : ℕ × ℕ)
    → get d k ≡ some v
    → ts ≤ v.0 + window
    → get (cleanup window ts d) k ≡ some v
get-cleanup window ts d k v h fresh = elim (Bool-cases (ltb 10_000 (length d))) [
  | inl full ↦ simp full (get-keep (is_current window ts) d k v h (λ j. ground arith))
  | inr small ↦ simp small h
]

-- The attempts of the schedule that the limiter allows to one client.
unfoldable pub allowed : String → List (String × ℕ) → LoginRateLimiter → ℕ
allowed client [] l = 0
allowed client ((ip, ts) ∷ rest) l =
    let (answer, l') = check ip ts l in
    let later = allowed client rest l' in
    if ip == client then (if answer.0 then suc later else later) else later

opened_inside :
    (ip : String) (ts start count : ℕ) (l : LoginRateLimiter)
    → get l.windows ip ≡ some (start, count)
    → ts < start + l.window
    → opened l.window ts (get l.windows ip) ≡ (start, count)
opened_inside ip ts start count l h inside = ap (opened l.window ts) h ∙ ground arith

check_answer :
    (ip : String) (ts start count : ℕ) (l : LoginRateLimiter)
    → get l.windows ip ≡ some (start, count)
    → ts < start + l.window
    → (check ip ts l).0.0 ≡ (if ltb l.max_attempts (suc count) then false else true)
unfolding check
check_answer ip ts start count l h inside =
    rw (opened_inside ip ts start count l h inside) (ground arith)

window_step :
    (client ip : String) (ts start count : ℕ) (l : LoginRateLimiter)
    → get l.windows client ≡ some (start, count)
    → ts < start + l.window
    → get (check ip ts l).1.windows client ≡ some (start, if ip == client then suc count else count)
unfolding check
window_step client ip ts start count l h inside = elim (Bool-cases (ip == client)) [
  | inl same ↦
      let found : get l.windows ip ≡ some (start, count) =
        ap (get l.windows) ((string_eq.test_iff ip client).0 same) ∙ h in
      rw (opened_inside ip ts start count l found inside) (
        simp same (
          get-cleanup l.window ts _ client (start, suc count)
            (get-put l.windows ip client _ ∙ simp same refl) (omega arith)))
  | inr other ↦ simp other (
      get-cleanup l.window ts _ client (start, count) (get-put l.windows ip client _ ∙ simp other h)
        (omega arith))
]

-- While a client's window is open, whatever other clients do and however often the table is
-- cleaned, the client is allowed at most the attempts that the window has left.
pub allowed-le :
    (client : String) (schedule : List (String × ℕ)) (start count : ℕ) (l : LoginRateLimiter)
    → get l.windows client ≡ some (start, count)
    → All (λ call. call.1 < start + l.window) schedule
    → allowed client schedule l ≤ l.max_attempts - count
unfolding allowed check
allowed-le client [] start count l h inside = omega arith
allowed-le client ((ip, ts) ∷ rest) start count l h inside =
    let l' = (check ip ts l).1 in
    let step = window_step client ip ts start count l h inside.0 in
    elim (Bool-cases (ip == client)) [
      | inl same ↦
          let found : get l.windows ip ≡ some (start, count) =
            ap (get l.windows) ((string_eq.test_iff ip client).0 same) ∙ h in
          let rest_le = allowed-le client rest start (suc count) l' (simp same at step) inside.1 in
          let answer = check_answer ip ts start count l found inside.0 in
          ground (arith, rest_le, answer, same)
      | inr other ↦
          let rest_le = allowed-le client rest start count l' (simp other at step) inside.1 in
          ground (arith, rest_le, other)
    ]
