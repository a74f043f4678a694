-- ===== src/Auth/Users/Enrolling.antt =====
-- What `enroll_user` leaves in the tables.
use intrusion_detection_syst.Prelude.{
  ℕ, zero, suc, ◌+◌, ◌≤◌, String, ◌≡◌, refl, ◌∙◌, ap, sym, subst, Bool, true, false, Option, none,
  some, List, [], ◌∷◌, ◌++◌, map, ◌==◌, nat_eq, string_eq, arith, nat_beq_iff,
}
use intrusion_detection_syst.Prelude.Lists.{
  any, find?, keep, length, length-append, length-map, keep-append,
}
use intrusion_detection_syst.Auth.Store.{User, RecoveryCode, Db, find_user}
use intrusion_detection_syst.Auth.Backoff.{recovery_codes_count}
use intrusion_detection_syst.Auth.Backoff.Bounds.{recovery_codes_count_bounds}
use intrusion_detection_syst.Auth.Users.{
  Enrollment, enrolled, draw_codes, has_name, insert_user, insert_codes, store_user, enroll_found,
  enroll_user,
}

abbrev pub NamesUnique : Db → Type 0
NamesUnique db = (name : String) → length (keep (has_name name) db.users) ≤ 1

keep_none :
    (name : String) (us : List User)
    → any (has_name name) us ≡ false
    → length (keep (has_name name) us) ≡ 0
keep_none name [] h = refl
keep_none name (u ∷ us) h = ground (arith, keep_none name us)

pub insert_user-NamesUnique :
    (username secret : String) (now : ℕ) (db db' : Db)
    → insert_user username secret now db ≡ some db'
    → NamesUnique db
    → NamesUnique db'
unfolding insert_user
insert_user-NamesUnique username secret now db db' h unique name =
    let row : User = record {
      id = suc db.last_user_id;
      username = username;
      encrypted_secret = secret;
      is_active = true;
      role = "analyst";
      created_at = now;
    } in
    ground (
      arith,
      unique name,
      keep_none name db.users,
      keep-append (has_name name) db.users (row ∷ []),
      length-append {0} (keep (has_name name) db.users) (keep (has_name name) (row ∷ [])),
      string_eq.test_iff username name,
    )

users-insert_codes :
    (scrypt : String → String → String) (u : ℕ) (codes : List (String × String)) (db : Db)
    → (insert_codes scrypt u codes db).users ≡ db.users
unfolding insert_codes
users-insert_codes scrypt u [] db = refl
users-insert_codes scrypt u ((c, s) ∷ codes) db = users-insert_codes scrypt u codes _

length-draw_codes : (draw : ℕ → String × String) (n : ℕ) → length (draw_codes draw n) ≡ n
unfolding draw_codes
length-draw_codes draw zero = refl
length-draw_codes draw (suc n) = ap suc (length-draw_codes draw n)

abbrev pub has_user : ℕ → RecoveryCode → Bool
has_user u c = c.user_id == u

-- The rows that the loop of inserts adds are the user's, one for each code.
codes-insert_codes :
    (scrypt : String → String → String) (u : ℕ) (codes : List (String × String)) (db : Db)
    → length (keep (has_user u) (insert_codes scrypt u codes db).recovery_codes)
      ≡ length (keep (has_user u) db.recovery_codes) + length codes
unfolding insert_codes
codes-insert_codes scrypt u [] db = omega arith
codes-insert_codes scrypt u ((c, s) ∷ codes) db =
    let row : RecoveryCode = record {
      id = suc db.last_code_id;
      user_id = u;
      hashed_code = scrypt c s;
      salt = s;
    } in
    let db1 : Db = record db {
      recovery_codes = db.recovery_codes ++ row ∷ [];
      last_code_id = suc db.last_code_id;
    } in
    ground (
      arith,
      codes-insert_codes scrypt u codes db1,
      keep-append (has_user u) db.recovery_codes (row ∷ []),
      length-append {0} (keep (has_user u) db.recovery_codes) (keep (has_user u) (row ∷ [])),
      nat_beq_iff u u,
    )

find-append_new :
    (name : String) (us : List User) (u : User)
    → any (has_name name) us ≡ false
    → u.username ≡ name
    → find? (has_name name) (us ++ u ∷ []) ≡ some u
find-append_new name [] u h e = ground (arith, string_eq.test_iff u.username name)
find-append_new name (v ∷ us) u h e = ground (arith, find-append_new name us u)

insert_user-find :
    (username secret : String) (now : ℕ) (db db' : Db)
    → insert_user username secret now db ≡ some db'
    → (any (has_name username) db.users ≡ false)
      × (db'.recovery_codes ≡ db.recovery_codes)
      × ((u : User) × (find? (has_name username) db'.users ≡ some u)
          × (u.id ≡ db'.last_user_id)
          × (u.is_active ≡ true)
          × (u.role ≡ "analyst")
          × (u.encrypted_secret ≡ secret))
unfolding insert_user
insert_user-find username secret now db db' h =
    let row : User = record {
      id = suc db.last_user_id;
      username = username;
      encrypted_secret = secret;
      is_active = true;
      role = "analyst";
      created_at = now;
    } in
    (
      ground arith,
      ground arith,
      (row, ground (arith, find-append_new username db.users row), ground arith, refl, refl, refl),
    )

-- What a successful enrollment leaves: `before` is the database that the inserts see.
pub record Enrolls (e : Enrollment) (username : String) (codes : List String) (before after : Db)
    : Type 0 where
  pub new_name : any (has_name username) before.users ≡ false
  pub enough_codes : 1 ≤ length codes
  pub few_codes : length codes ≤ 50
  pub user : User
  pub found : find_user username after ≡ some user
  pub active : user.is_active ≡ true
  pub analyst : user.role ≡ "analyst"
  pub sealed : user.encrypted_secret ≡ e.encrypt e.raw_secret
  pub stored :
      length (keep (has_user user.id) after.recovery_codes)
      ≡ length (keep (has_user user.id) before.recovery_codes) + length codes

store_user-Enrolls :
    (e : Enrollment) (setting : Option ℕ) (username : String) (now : ℕ) (before : Db)
    (inserted : Option Db) (uri : String) (codes : List String) (after : Db)
    → insert_user username (e.encrypt e.raw_secret) now before ≡ inserted
    → store_user e username (draw_codes e.draw (recovery_codes_count setting)) before inserted
      ≡ (enrolled uri codes, after)
    → Enrolls e username codes before after
unfolding store_user find_user
store_user-Enrolls e setting username now before none uri codes after i h = absurd (ground arith)
store_user-Enrolls e setting username now before (some db') uri codes after i h =
    let n = recovery_codes_count setting in
    let drawn = draw_codes e.draw n in
    let (new, kept, (u, found, id, active, analyst, secret)) =
      insert_user-find username (e.encrypt e.raw_secret) now before db' i in
    let names : codes ≡ map (λ c. c.0) drawn = cc in
    let size : length codes ≡ n =
      ap length names
      ∙ (length-map (λ (c : String × String). c.0) drawn ∙ length-draw_codes e.draw n) in
    let final : after ≡ insert_codes e.scrypt db'.last_user_id drawn db' = cc in
    record {
      new_name = new;
      enough_codes = omega (arith, recovery_codes_count_bounds setting, size);
      few_codes = omega (arith, recovery_codes_count_bounds setting, size);
      user = u;
      found = rw (final, users-insert_codes) found;
      active = active;
      analyst = analyst;
      sealed = secret;
      stored =
          subst
            (λ i.
              length (keep (has_user i) after.recovery_codes)
              ≡ length (keep (has_user i) before.recovery_codes) + length codes)
            (sym id)
            (rw (final, ← kept)
              (codes-insert_codes e.scrypt db'.last_user_id drawn db'
                ∙ ap (λ n. length (keep (has_user db'.last_user_id) db'.recovery_codes) + n)
                    (length-draw_codes e.draw n ∙ sym size)));
    }

enroll_found-Enrolls :
    (e : Enrollment) (setting : Option ℕ) (username : String) (now : ℕ) (race : Db → Db)
    (found : Option User) (db : Db) (uri : String) (codes : List String) (after : Db)
    → enroll_found e (draw_codes e.draw (recovery_codes_count setting)) username now race found db
      ≡ (enrolled uri codes, after)
    → (found ≡ none) × Enrolls e username codes (race db) after
unfolding enroll_found
enroll_found-Enrolls e setting username now race (some u) db uri codes after h =
    absurd (ground arith)
enroll_found-Enrolls e setting username now race none db uri codes after h =
    (refl, store_user-Enrolls e setting username now (race db) _ uri codes after refl h)

-- A successful enrollment is of a name that no row had when the inserts ran, issues between 1 and
-- 50 codes however many are configured, stores one row for each of them, and the name is then found
-- with an active account of role "analyst" that holds the encrypted secret.
pub enroll_user-Enrolls :
    (e : Enrollment) (setting : Option ℕ) (username : String) (now : ℕ) (race : Db → Db) (db : Db)
    (uri : String) (codes : List String) (after : Db)
    → enroll_user e setting username now race db ≡ (enrolled uri codes, after)
    → (find_user username db ≡ none) × Enrolls e username codes (race db) after
unfolding enroll_user
enroll_user-Enrolls e setting username now race db uri codes after h =
    enroll_found-Enrolls e setting username now race (find_user username db) db uri codes after h

users-store_user-NamesUnique :
    (e : Enrollment) (username : String) (now : ℕ) (codes : List (String × String)) (before : Db)
    (inserted : Option Db)
    → insert_user username (e.encrypt e.raw_secret) now before ≡ inserted
    → NamesUnique before
    → NamesUnique (store_user e username codes before inserted).1
unfolding store_user
users-store_user-NamesUnique e username now codes before none i h = h
users-store_user-NamesUnique e username now codes before (some db') i h = λ name.
    rw users-insert_codes
      (insert_user-NamesUnique username (e.encrypt e.raw_secret) now before db' i h name)

enroll_found-NamesUnique :
    (e : Enrollment) (codes : List (String × String)) (username : String) (now : ℕ) (race : Db → Db)
    (found : Option User) (db : Db)
    → NamesUnique (race db)
    → NamesUnique db
    → NamesUnique (enroll_found e codes username now race found db).1
unfolding enroll_found
enroll_found-NamesUnique e codes username now race (some u) db r h = h
enroll_found-NamesUnique e codes username now race none db r h =
    users-store_user-NamesUnique e username now codes (race db) _ refl r

-- Enrollment, failed or not, keeps user names unique, if the other connections do.
pub enroll_user-NamesUnique :
    (e : Enrollment) (setting : Option ℕ) (username : String) (now : ℕ) (race : Db → Db) (db : Db)
    → NamesUnique (race db)
    → NamesUnique db
    → NamesUnique (enroll_user e setting username now race db).1
unfolding enroll_user
enroll_user-NamesUnique e setting username now race db r h =
    enroll_found-NamesUnique e _ username now race (find_user username db) db r h
