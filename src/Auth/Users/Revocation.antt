-- ===== src/Auth/Users/Revocation.antt =====
-- What `revoke_user` does to later logins.
use intrusion_detection_syst.Prelude.{
  ℕ, String, ◌≡◌, refl, true, false, Option, none, some, List, [], ◌∷◌, map, nat_eq, string_eq,
  arith, nat_beq_iff, inl, inr, Bool-cases,
}
use intrusion_detection_syst.Prelude.Lists.{find?}
use intrusion_detection_syst.Auth.Events.{Sinks, auth_failure}
use intrusion_detection_syst.Auth.Token.Verdicts.{verify_user_inactive}
use intrusion_detection_syst.Auth.Store.{User, Db, find_user}
use intrusion_detection_syst.Auth.Backoff.{Config}
use intrusion_detection_syst.Auth.Token.{World, Crypto, Times, verify_token}
use intrusion_detection_syst.Auth.Users.{has_name, deactivate, revoke_found, revoke_user}

find_user-deactivate :
    (username : String) (u : User) (us : List User)
    → find? (has_name username) us ≡ some u
    → find? (has_name username) (map (deactivate u.id) us) ≡ some (record u { is_active = false })
find_user-deactivate username u [] h = absurd (ground arith)
find_user-deactivate username u (v ∷ us) h =
    ground (arith, find_user-deactivate username u us, nat_beq_iff v.id u.id, nat_beq_iff u.id u.id)

module _ (cfg : Config) (sinks : Sinks) (now : ℕ) (username : String) where
  pub revoke_found-find_user :
      (found : Option User) (w : World)
      → find_user username w.db ≡ found
      → (revoke_found cfg sinks now username found w).0.0 ≡ true
      → (u : User) × (find_user username (revoke_found cfg sinks now username found w).1.db
          ≡ some u)
        × (u.is_active ≡ false)
  unfolding revoke_found find_user
  revoke_found-find_user none w e h = absurd (cc)
  revoke_found-find_user (some u) w e h = elim (Bool-cases u.is_active) [
    | inl live ↦ (
      record u { is_active = false },
      simp live (find_user-deactivate username u w.db.users e),
      refl,
    )
    | inr gone ↦ absurd (ground arith)
  ]

  -- After a successful revocation every TOTP login of the user fails and changes no table, whatever
  -- the token, the times and the other connections.
  pub revoke_user-verify_token :
      (crypto : Crypto) (times : Times) (others : Db → Db) (token : String) (ip : Option String)
      (w : World)
      → (revoke_user cfg sinks now username w).0.0 ≡ true
      → let after = (revoke_user cfg sinks now username w).1 in
        ((verify_token cfg sinks crypto times others username token ip after).0.event_name
          ≡ auth_failure)
        × ((verify_token cfg sinks crypto times others username token ip after).1.db ≡ after.db)
  unfolding revoke_user verify_token
  revoke_user-verify_token crypto times others token ip w h =
      let (u, found, gone) = revoke_found-find_user (find_user username w.db) w refl h in
      let after = (revoke_user cfg sinks now username w).1 in
      simp found (verify_user_inactive cfg sinks crypto u times others username token ip after gone)
