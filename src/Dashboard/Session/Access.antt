-- ===== src/Dashboard/Session/Access.antt =====
-- Who enters a view: the current, active user with a current role.
use intrusion_detection_syst.Prelude.{
  ℕ, ◌+◌, ◌≤◌, ◌<◌, String, ◌≡◌, refl, sym, ◌∙◌, ap, true, ◌&&◌, Option, none, some, List, [], ◌∷◌,
  map, nat_eq, string_eq, nat_beq_iff, if◌then◌else◌, arith, Bool-cases, Option-cases, inl, inr,
  ltb, leb,
}
use intrusion_detection_syst.Prelude.Lists.{find?, keep, length}
use intrusion_detection_syst.Auth.Events.{Sinks}
use intrusion_detection_syst.Auth.Store.{User, Db, find_user}
use intrusion_detection_syst.Auth.Backoff.{Config}
use intrusion_detection_syst.Auth.Token.{World}
use intrusion_detection_syst.Auth.Users.{
  has_name, is_active_named, role_of, deactivate, revoke_found, revoke_user, get_user_role,
}
use intrusion_detection_syst.Auth.Users.Enrolling.{NamesUnique}
use intrusion_detection_syst.Dashboard.Queries.{get_active_role}
use intrusion_detection_syst.Dashboard.Session.{
  Session, entered, refused, unauthorized, to_login, cleared, is_api, enter, role_now,
  is_valid_time, login_required,
}

-- What lets a session in.
pub record Admits (now lifetime : ℕ) (db : Option Db) (before after : Session) : Type 0 where
  pub username : String
  pub named : before.user_id ≡ some username
  pub since : ℕ
  pub stamped : before.authenticated_at ≡ some since
  pub begun : since ≤ now
  pub unexpired : now < since + lifetime
  pub role : String
  pub current : get_active_role username db ≡ some role
  pub carried : after ≡ record before { role = some role }

enter-Admits :
    (now lifetime : ℕ) (path : String) (db : Option Db) (user_id : Option String) (since : Option ℕ)
    (s s' : Session)
    → s.user_id ≡ user_id
    → s.authenticated_at ≡ since
    → enter path s (role_now (is_valid_time now lifetime since) user_id db) ≡ entered s'
    → Admits now lifetime db s s'
unfolding enter
enter-Admits now lifetime path db none since s s' u t h = absurd (cc)
enter-Admits now lifetime path db (some name) none s s' u t h = absurd (cc)
enter-Admits now lifetime path db (some name) (some at) s s' u t h =
    elim (Bool-cases (leb at now && ltb now (at + lifetime))) [
      | inr stale ↦ absurd (let bad = rw stale at h in cc)
      | inl valid ↦
          let opened : enter path s (get_active_role name db) ≡ entered s' =
            sym (ap (λ b. enter path s (if b then get_active_role name db else none)) valid) ∙ h in
          elim (Option-cases (get_active_role name db)) [
            | inl gone ↦ absurd (let bad = sym (ap (enter path s) gone) ∙ opened in cc)
            | inr (role, has) ↦
                let open_with : entered (record s { role = some role }) ≡ entered s' =
                  sym (ap (enter path s) has) ∙ opened in
                record {
                  username = name;
                  named = u;
                  since = at;
                  stamped = t;
                  begun = ground (arith, valid);
                  unexpired = ground (arith, valid);
                  role = role;
                  current = has;
                  carried = cc;
                }
          ]
    ]

-- A view is entered only by a session whose user is active in the database as it is read for this
-- request, within its lifetime, and it is entered with the role that the user has there.
pub login_required-Admits :
    (now lifetime : ℕ) (path : String) (db : Option Db) (s s' : Session)
    → login_required now lifetime path db s ≡ entered s'
    → Admits now lifetime db s s'
unfolding login_required
login_required-Admits now lifetime path db s s' h =
    enter-Admits now lifetime path db s.user_id s.authenticated_at s s' refl refl h

-- A deactivated user is not found as an active one.
find-no_name :
    (username : String) (us : List User)
    → length (keep (has_name username) us) ≡ 0
    → find? (is_active_named username) us ≡ none
find-no_name username [] h = refl
find-no_name username (v ∷ us) h = ground (arith, find-no_name username us)

keep-deactivate :
    (username : String) (id : ℕ) (us : List User)
    → length (keep (has_name username) (map (deactivate id) us))
      ≡ length (keep (has_name username) us)
keep-deactivate username id [] = refl
keep-deactivate username id (v ∷ us) = ground (arith, keep-deactivate username id us)

find-deactivate :
    (username : String) (u : User) (us : List User)
    → find? (has_name username) us ≡ some u
    → length (keep (has_name username) us) ≤ 1
    → find? (is_active_named username) (map (deactivate u.id) us) ≡ none
find-deactivate username u [] h one = refl
find-deactivate username u (v ∷ us) h one = ground (
  arith,
  find-deactivate username u us,
  find-no_name username (map (deactivate u.id) us),
  keep-deactivate username u.id us,
  nat_beq_iff v.id u.id,
  nat_beq_iff u.id u.id,
)

module _ (cfg : Config) (sinks : Sinks) (now : ℕ) (username : String) where
  role-revoke_found :
      (found : Option User) (w : World)
      → find_user username w.db ≡ found
      → NamesUnique w.db
      → (revoke_found cfg sinks now username found w).0.0 ≡ true
      → get_user_role username (revoke_found cfg sinks now username found w).1.db ≡ none
  unfolding revoke_found find_user get_user_role
  role-revoke_found none w e unique h = absurd (cc)
  role-revoke_found (some u) w e unique h = elim (Bool-cases u.is_active) [
    | inl live ↦ simp live (ap role_of (find-deactivate username u w.db.users e (unique username)))
    | inr gone ↦ absurd (ground arith)
  ]

  -- A revocation ends the user's sessions: the next request of each is refused and its cookie
  -- cleared, whatever it holds and whenever it comes, if user names are unique.
  pub revoke_user-login_required :
      (w : World) (later lifetime : ℕ) (path : String) (s : Session)
      → NamesUnique w.db
      → (revoke_user cfg sinks now username w).0.0 ≡ true
      → s.user_id ≡ some username
      → login_required later lifetime path (some (revoke_user cfg sinks now username w).1.db) s
        ≡ refused (if is_api path then unauthorized else to_login) cleared
  unfolding revoke_user login_required enter get_active_role
  revoke_user-login_required w later lifetime path s unique h named =
      let gone = role-revoke_found (find_user username w.db) w refl unique h in
      let db = (revoke_user cfg sinks now username w).1.db in
      let valid = is_valid_time later lifetime s.authenticated_at in
      ap (λ u. enter path s (role_now valid u (some db))) named ∙ elim (Bool-cases valid) [
        | inl v ↦
            ap (λ b. enter path s (if b then get_user_role username db else none)) v
            ∙ ap (enter path s) gone
        | inr v ↦ ap (λ b. enter path s (if b then get_user_role username db else none)) v
      ]
