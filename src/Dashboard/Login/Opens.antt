-- ===== src/Dashboard/Login/Opens.antt =====
-- When a login opens a session.
use intrusion_detection_syst.Prelude.{
  ℕ, zero, suc, ◌≤◌, String, ◌≡◌, refl, sym, ◌∙◌, ap, true, Option, none, some, List, [], ◌∷◌,
  arith, Bool-cases, Option-cases, inl, inr, min,
}
use intrusion_detection_syst.Prelude.Lists.{keep, length, take}
use intrusion_detection_syst.Prelude.Sorting.{sort_newest, length-sort_newest}
use intrusion_detection_syst.Auth.Events.{EventName, auth_success, AuthEvent, Sinks}
use intrusion_detection_syst.Auth.Store.{User, Db, find_user}
use intrusion_detection_syst.Auth.Backoff.{Config}
use intrusion_detection_syst.Auth.Token.{Crypto, Times, verify_token}
use intrusion_detection_syst.Auth.Token.Verdicts.{Accepts, verify_token-Accepts}
use intrusion_detection_syst.Auth.Users.{get_user_role}
use intrusion_detection_syst.Detection.Correlation.Sweep.{Incident}
use intrusion_detection_syst.Dashboard.Limiter.{check}
use intrusion_detection_syst.Dashboard.Queries.{
  at_most, negative, get_incidents, has_status, limited,
}
use intrusion_detection_syst.Dashboard.Login.Form.{
  HasForm, IsDigit, IsNameChar, is_username-HasForm, is_totp-HasForm,
}
use intrusion_detection_syst.Dashboard.Login.{
  is_rate_limited, is_success, home, LoginForm, Visit, open_session, after_verify, submit_checked,
  is_blank, is_wellformed, login_submit, api_incidents, is_status, cap_limit,
}

success_only : (name : EventName) → is_success name ≡ true → name ≡ auth_success
success_only name h = ground arith

module _ (cfg : Config) (sinks : Sinks) (crypto : Crypto) where
  -- What stands behind a session that was opened.
  pub record Opens (form : LoginForm) (times : Times) (others later : Db → Db) (now : ℕ)
      (before after : Visit) : Type 0 where
    pub user : User
    pub found : find_user form.username before.world.db ≡ some user
    pub active : user.is_active ≡ true
    pub accepted :
        Accepts cfg sinks crypto user form.token times.resume
          (others before.world.db)
          after.world.db
    pub role : String
    pub current : get_user_role form.username (later after.world.db) ≡ some role
    pub session :
        after.session
        ≡ record { user_id = some form.username; authenticated_at = some now; role = some role }

  after_verify_home :
      (username : String) (now : ℕ) (later : Db → Db) (event : AuthEvent) (v : Visit)
      → (after_verify cfg sinks crypto username now later event v).0 ≡ home
      → (event.event_name ≡ auth_success)
        × ((role : String) × (get_user_role username (later v.world.db) ≡ some role)
            × ((after_verify cfg sinks crypto username now later event v).1 ≡ record v {
              session = record {
                user_id = some username;
                authenticated_at = some now;
                role = some role;
              };
            }))
  unfolding after_verify open_session
  after_verify_home username now later event v h =
      elim (Bool-cases (is_rate_limited event.event_name)) [
        | inl limited ↦ absurd (let bad = simp limited at h in cc)
        | inr other ↦ elim (Bool-cases (is_success event.event_name)) [
          | inr refused ↦ absurd (let bad = simp (other, refused) at h in cc)
          | inl success ↦ elim (Option-cases (get_user_role username (later v.world.db))) [
            | inl gone ↦ absurd (let bad = simp (other, success, gone) at h in cc)
            | inr (role, has) ↦ (
              success_only event.event_name success,
              (role, has, simp (other, success, has) refl),
            )
          ]
        ]
      ]

  checked-Opens :
      (form : LoginForm) (times : Times) (others : Db → Db) (now : ℕ) (later : Db → Db) (v : Visit)
      → (submit_checked cfg sinks crypto form times others now later v).0 ≡ home
      → Opens form times others later now v
          (submit_checked cfg sinks crypto form times others now later v).1
  unfolding submit_checked
  checked-Opens form times others now later v h =
      let answer =
        verify_token cfg sinks crypto times others form.username form.token (some form.client_ip)
          v.world in
      let (success, (role, has, same)) =
        after_verify_home form.username now later answer.0 (record v { world = answer.1 }) h in
      let (user, found, active, accepts) =
        verify_token-Accepts cfg sinks crypto times others form.username form.token
          (some form.client_ip) v.world success in
      rw same (record {
        user = user;
        found = found;
        active = active;
        accepted = accepts;
        role = role;
        current = has;
        session = refl;
      })

  -- A login opens a session only if the limiter allows the attempt, the name has 1 to 64 characters
  -- out of ASCII letters, digits, ".", "_" and "-", the token 6 to 8 digits, each with at most a
  -- newline after it, and `verify_token` accepts the token of an active user: it compares equal to
  -- the code of the interval at the resumed time or of one beside it, which was not consumed. The
  -- session is that user's, from now on, in the role that the database has.
  pub login_submit-Opens :
      (form : LoginForm) (ts : ℕ) (times : Times) (others : Db → Db) (now : ℕ) (later : Db → Db)
      (v : Visit)
      → (login_submit cfg sinks crypto form ts times others now later v).0 ≡ home
      → ((check form.client_ip ts v.limiter).0.0 ≡ true)
        × HasForm IsNameChar 1 64 form.username
        × HasForm IsDigit 6 8 form.token
        × Opens form times others later now v
            (login_submit cfg sinks crypto form ts times others now later v).1
  unfolding login_submit
  login_submit-Opens form ts times others now later v h =
      let answer = (check form.client_ip ts v.limiter).0 in
      let v' = record v { limiter = (check form.client_ip ts v.limiter).1 } in
      elim (Bool-cases answer.0) [
        | inr over ↦ absurd (let bad = simp over at h in cc)
        | inl allowed ↦ elim (Bool-cases (is_blank form)) [
          | inl blank ↦ absurd (let bad = simp (allowed, blank) at h in cc)
          | inr given ↦ elim (Bool-cases (is_wellformed form)) [
            | inr bad_form ↦ absurd (let bad = simp (allowed, given, bad_form) at h in cc)
            | inl good ↦
                let o =
                  checked-Opens form times others now later v' (simp (allowed, given, good) at h) in
                (
                  allowed,
                  is_username-HasForm form.username (ground arith),
                  is_totp-HasForm form.token (ground arith),
                  simp (allowed, given, good)
                      (record {
                        user = o.user;
                        found = o.found;
                        active = o.active;
                        accepted = o.accepted;
                        role = o.role;
                        current = o.current;
                        session = o.session;
                      }),
                )
          ]
        ]
      ]

length-take-le {ℓ} : {A : Type ℓ} (n : ℕ) (xs : List A) → length (take n xs) ≤ n
length-take-le zero xs = omega arith
length-take-le (suc n) [] = omega arith
length-take-le (suc n) (x ∷ xs) = omega (arith, length-take-le n xs)

limited_cap :
    (n : ℕ) (xs rows : List Incident)
    → some (limited (cap_limit (some (at_most n))) xs) ≡ some rows
    → length rows ≤ 200
limited_cap zero xs rows h =
    let same : take 50 xs ≡ rows = cc in omega (arith, ap length same, length-take-le 50 xs)
limited_cap (suc n) xs rows h =
    let same : take (min (suc n) 200) xs ≡ rows = cc in
    omega (arith, ap length same, length-take-le (min (suc n) 200) xs)

-- A listing that asks for a limit that is not negative has at most 200 incidents.
pub api_incidents-le :
    (status : Option String) (n : ℕ) (table : Option (List Incident)) (rows : List Incident)
    → api_incidents status (some (at_most n)) table ≡ some rows
    → length rows ≤ 200
unfolding api_incidents get_incidents
api_incidents-le status n none rows h = ground arith
api_incidents-le status n (some table) rows h = elim (Bool-cases (is_status status)) [
  | inl valid ↦
      limited_cap n (sort_newest (λ (i : Incident). i.created_at) (keep (has_status status) table))
        rows (simp valid at h)
  | inr bad ↦ absurd (let none_of = simp bad at h in cc)
]

-- A negative limit passes the cap of 200: the answer is every incident of the asked status.
pub api_incidents_negative :
    (status : Option String) (n : ℕ) (table rows : List Incident)
    → api_incidents status (some (negative n)) (some table) ≡ some rows
    → length rows ≡ length (keep (has_status status) table)
unfolding api_incidents get_incidents
api_incidents_negative status n table rows h =
    let sorted =
      length-sort_newest (λ (i : Incident). i.created_at) (keep (has_status status) table) in
    elim (Bool-cases (is_status status)) [
      | inl valid ↦
          let given : some
                (sort_newest (λ (i : Incident). i.created_at) (keep (has_status status) table))
              ≡ some rows =
            simp valid at h in
          let same : sort_newest (λ (i : Incident). i.created_at) (keep (has_status status) table)
              ≡ rows =
            cc in
          ap length (sym same) ∙ sorted
      | inr bad ↦ absurd (let none_of = simp bad at h in cc)
    ]
