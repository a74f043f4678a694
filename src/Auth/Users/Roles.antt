-- ===== src/Auth/Users/Roles.antt =====
-- What `set_user_role` leaves for `get_user_role`.
use intrusion_detection_syst.Prelude.{
  ℕ, String, ◌≡◌, refl, ◌≢◌, true, false, none, some, List, [], ◌∷◌, map, nat_eq, string_eq, arith,
  inl, inr, Bool-cases, ◌⊎◌,
}
use intrusion_detection_syst.Prelude.Lists.{any, find?}
use intrusion_detection_syst.Auth.Events.{Sinks}
use intrusion_detection_syst.Auth.Store.{User}
use intrusion_detection_syst.Auth.Backoff.{Config}
use intrusion_detection_syst.Auth.Token.{World}
use intrusion_detection_syst.Auth.Users.{
  has_name, is_active_named, role_of, get_user_role, changed, is_valid_role, assign_role,
  set_user_role,
}

find-assign_role :
    (username role : String) (us : List User)
    → role_of (find? (is_active_named username) us) ≢ none
    → role_of (find? (is_active_named username) (map (assign_role username role) us)) ≡ some role
find-assign_role username role [] h = absurd (h refl)
find-assign_role username role (u ∷ us) h = ground (arith, find-assign_role username role us)

-- A role change that succeeds sets a valid role, which `get_user_role` then returns if the user is
-- active; one that fails leaves everything as it was, for an invalid role or an unknown name.
pub set_user_role-get_user_role :
    (cfg : Config) (sinks : Sinks) (now : ℕ) (username role : String) (w : World)
    → let (answer, after) = set_user_role cfg sinks now username role w in
      (answer ≡ changed
        → (is_valid_role role ≡ true)
          × (get_user_role username w.db ≢ none → get_user_role username after.db ≡ some role))
      × (answer ≢ changed
          → (after ≡ w)
            × ((is_valid_role role ≡ false) ⊎ (any (has_name username) w.db.users ≡ false)))
unfolding set_user_role get_user_role
set_user_role-get_user_role cfg sinks now username role w = elim (Bool-cases (is_valid_role role)) [
  | inr bad ↦ simp bad (λ e. absurd (cc), λ _. (refl, inl refl))
  | inl good ↦ elim (Bool-cases (any (has_name username) w.db.users)) [
    | inr absent ↦ simp (good, absent) (λ e. absurd (cc), λ _. (refl, inr refl))
    | inl present ↦
        simp (good, present)
          (λ _. (refl, find-assign_role username role w.db.users), λ e. absurd (e refl))
  ]
]

-- A role change that succeeds sets a valid role, which `get_user_role` then returns for an active
-- user.
pub set_user_role-changed :
    (cfg : Config) (sinks : Sinks) (now : ℕ) (username role : String) (w : World)
    → (set_user_role cfg sinks now username role w).0 ≡ changed
    → get_user_role username w.db ≢ none
    → (is_valid_role role ≡ true)
      × (get_user_role username (set_user_role cfg sinks now username role w).1.db ≡ some role)
set_user_role-changed cfg sinks now username role w h known =
    let (valid, stored) = (set_user_role-get_user_role cfg sinks now username role w).0 h in
    (valid, stored known)
