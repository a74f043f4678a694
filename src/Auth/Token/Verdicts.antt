-- ===== src/Auth/Token/Verdicts.antt =====
-- What `verify_token` answers, on every path.
use intrusion_detection_syst.Prelude.{
  ℕ, ◌/◌, ◌*◌, String, ◌≡◌, refl, true, false, Option, none, some, nat_eq, arith, inl, inr,
  Bool-cases,
}
use intrusion_detection_syst.Auth.Events.{
  AuthEvent, EventName, Level, Reason, Context, Outbox, Sinks, auth_success, auth_failure,
  rate_limited, dispatch_event,
}
use intrusion_detection_syst.Auth.Store.{User, Db, find_user, find_user_id, is_consumed}
use intrusion_detection_syst.Auth.Backoff.{Config, ticks, enforce_backoff}
use intrusion_detection_syst.Auth.Token.Consume.{Outcome, accepted, is_active_row, consume}
use intrusion_detection_syst.Auth.Token.SingleUse.{consume-accepted}
use intrusion_detection_syst.Auth.Token.{
  Attempted, returned, raised, Decrypted, plain, Crypto, Times, World, candidates, find_step,
  token_fingerprint, emit, settle, finish, check_token, invalid, failed, after_backoff, verify_user,
  backoff_context, verify_token,
}
use intrusion_detection_syst.Auth.Token.Search.{
  Matches, IsTried, find_step-found, candidates-IsTried,
}

pub event_name-dispatch :
    (sinks : Sinks) (e : AuthEvent) (out : Outbox)
    → (dispatch_event sinks e out).0.event_name ≡ e.event_name
unfolding dispatch_event
event_name-dispatch sinks e out = ground arith

module _ (cfg : Config) (sinks : Sinks) (crypto : Crypto) where
  pub event_name-emit :
      (username : String) (ip : Option String) (now : ℕ) (name : EventName) (level : Level)
      (reason : Reason) (backoff failures : ℕ) (extra : Context) (w : World)
      → (emit cfg sinks crypto username ip now name level reason backoff failures extra
          w).0.event_name
        ≡ name
  unfolding emit
  event_name-emit username ip now name level reason backoff failures extra w =
      rw event_name-dispatch refl

  pub db-emit :
      (username : String) (ip : Option String) (now : ℕ) (name : EventName) (level : Level)
      (reason : Reason) (backoff failures : ℕ) (extra : Context) (w : World)
      → (emit cfg sinks crypto username ip now name level reason backoff failures extra w).1.db
        ≡ w.db
  unfolding emit
  db-emit username ip now name level reason backoff failures extra w = refl

  db-settle :
      (username : String) (ip : Option String) (now backoff failures : ℕ) (outcome : Outcome)
      (w : World)
      → (settle cfg sinks crypto username ip now backoff failures outcome w).1.db ≡ w.db
  unfolding settle
  db-settle username ip now backoff failures outcome w = grind (arith, db-emit)

  settle-accepted :
      (username : String) (ip : Option String) (now backoff failures : ℕ) (outcome : Outcome)
      (w : World)
      → (settle cfg sinks crypto username ip now backoff failures outcome w).0.event_name
        ≡ auth_success
      → outcome ≡ accepted
  unfolding settle
  settle-accepted username ip now backoff failures outcome w h = grind (arith, event_name-emit)

  -- What an accepted call of `check_token` has read and written.
  pub record Accepts (user : User) (token : String) (now : ℕ) (before after : Db) : Type 0 where
    pub secret : String
    pub step : ℕ
    pub decrypts : crypto.decrypt user.encrypted_secret ≡ plain secret
    pub tried : IsTried (now / (crypto.interval * ticks)) step
    pub matches : Matches crypto secret token step
    pub active : is_active_row (find_user_id user.id before) ≡ true
    pub fresh : is_consumed user.id step before ≡ false
    pub consumed : is_consumed user.id step after ≡ true

  finish-accepted :
      (u : ℕ) (username token : String) (ip : Option String) (now backoff failures : ℕ)
      (r : Attempted (Option ℕ)) (w : World)
      → (finish cfg sinks crypto u username token ip now backoff failures r w).0.event_name
        ≡ auth_success
      → (step : Option ℕ) × (r ≡ returned step)
        × (consume u (token_fingerprint crypto u token) step now (now / ticks) w.db ≡ (
          accepted,
          (finish cfg sinks crypto u username token ip now backoff failures r w).1.db,
        ))
  unfolding finish
  finish-accepted u username token ip now backoff failures (raised e) w h =
      grind (arith, event_name-emit)
  finish-accepted u username token ip now backoff failures (returned step) w h =
      let tried = consume u (token_fingerprint crypto u token) step now (now / ticks) w.db in
      let w' : World = record w { db = tried.1 } in
      (
        step,
        refl,
        ground (
          arith,
          settle-accepted username ip now backoff failures tried.0 w' h,
          db-settle username ip now backoff failures tried.0 w',
        ),
      )

  check_token-Accepts :
      (user : User) (username token : String) (ip : Option String) (now backoff failures : ℕ)
      (d : Decrypted) (w : World)
      → crypto.decrypt user.encrypted_secret ≡ d
      → (check_token cfg sinks crypto user.id username token ip now backoff failures d
          w).0.event_name
        ≡ auth_success
      → Accepts user token now w.db
          (check_token cfg sinks crypto user.id username token ip now backoff failures d w).1.db
  unfolding check_token
  check_token-Accepts user username token ip now backoff failures invalid w e h =
      grind (arith, event_name-emit)
  check_token-Accepts user username token ip now backoff failures (failed x) w e h =
      grind (arith, event_name-emit)
  check_token-Accepts user username token ip now backoff failures (plain secret) w e h =
      let found = find_step crypto secret token (candidates (now / (crypto.interval * ticks))) in
      let (step, searched, used) =
        finish-accepted user.id username token ip now backoff failures found w h in
      let (k, is_k, active, fresh, consumed) =
        consume-accepted user.id (token_fingerprint crypto user.id token) step now (now / ticks)
          w.db _ used in
      let found_k : found ≡ returned (some k) = cc in
      let (tried, matches) =
        find_step-found crypto (IsTried (now / (crypto.interval * ticks))) secret token
          (candidates (now / (crypto.interval * ticks))) k
          (candidates-IsTried (now / (crypto.interval * ticks))) found_k in
      record {
        secret = secret;
        step = k;
        decrypts = e;
        tried = tried;
        matches = matches;
        active = active;
        fresh = fresh;
        consumed = consumed;
      }

  rejection-rate_limited :
      (username : String) (u : ℕ) (context : Context) (now : ℕ) (db : Db) (out : Outbox)
      (event : AuthEvent)
      → (enforce_backoff cfg sinks username u context now db out).0.2 ≡ some event
      → event.event_name ≡ rate_limited
  unfolding enforce_backoff dispatch_event
  rejection-rate_limited username u context now db out event h = ground arith

  after_backoff-Accepts :
      (user : User) (username token : String) (ip : Option String) (times : Times)
      (others : Db → Db) (backoff failures : ℕ) (rejection : Option AuthEvent) (w : World)
      → ((event : AuthEvent) → rejection ≡ some event → event.event_name ≡ rate_limited)
      → (after_backoff cfg sinks crypto user username token ip times others backoff failures
          rejection w).0.event_name
        ≡ auth_success
      → Accepts user token times.resume
          (others w.db)
          (after_backoff cfg sinks crypto user username token ip times others backoff failures
            rejection w).1.db
  unfolding after_backoff
  after_backoff-Accepts user username token ip times others backoff failures (some event) w r h =
      cc (r event refl)
  after_backoff-Accepts user username token ip times others backoff failures none w r h =
      check_token-Accepts user username token ip times.resume backoff failures
        (crypto.decrypt user.encrypted_secret) (record w { db = others w.db }) refl h

  verify_user-Accepts :
      (found : Option User) (times : Times) (others : Db → Db) (username token : String)
      (ip : Option String) (w : World)
      → (verify_user cfg sinks crypto found times others username token ip w).0.event_name
        ≡ auth_success
      → (user : User) × (found ≡ some user)
        × (user.is_active ≡ true)
        × Accepts user token times.resume
            (others w.db)
            (verify_user cfg sinks crypto found times others username token ip w).1.db
  unfolding verify_user
  verify_user-Accepts none times others username token ip w h = grind (arith, event_name-emit)
  verify_user-Accepts (some user) times others username token ip w h =
      elim (Bool-cases user.is_active) [
        | inl live ↦
            let called =
              enforce_backoff cfg sinks username user.id
                (backoff_context cfg sinks crypto username ip) times.arrive w.db w.out in
            (
              user,
              refl,
              live,
              simp live (
                  after_backoff-Accepts user username token ip times others called.0.0 called.0.1
                    called.0.2 (record w { out = called.1 })
                    (rejection-rate_limited username user.id
                      (backoff_context cfg sinks crypto username ip) times.arrive w.db w.out)
                    (simp live at h)),
            )
        | inr gone ↦ absurd (grind (arith, event_name-emit))
      ]

  -- A call of `verify_token` answers AUTH_SUCCESS only if the user was found and active, the stored
  -- secret decrypts, the token compares equal to the code of a counter that is the current interval
  -- when the call goes on after the backoff, the one before or the next, and in the transaction's
  -- database the user is still active and that counter was not consumed; afterwards it is consumed.
  pub verify_token-Accepts :
      (times : Times) (others : Db → Db) (username token : String) (ip : Option String) (w : World)
      → (verify_token cfg sinks crypto times others username token ip w).0.event_name ≡ auth_success
      → (user : User) × (find_user username w.db ≡ some user)
        × (user.is_active ≡ true)
        × Accepts user token times.resume
            (others w.db)
            (verify_token cfg sinks crypto times others username token ip w).1.db
  unfolding verify_token
  verify_token-Accepts times others username token ip w h =
      verify_user-Accepts (find_user username w.db) times others username token ip w h

  -- A user who is not found, or found inactive, is answered AUTH_FAILURE, and the tables stay.
  pub verify_user_inactive :
      (user : User) (times : Times) (others : Db → Db) (username token : String)
      (ip : Option String) (w : World)
      → user.is_active ≡ false
      → ((verify_user cfg sinks crypto (some user) times others username token ip w).0.event_name
          ≡ auth_failure)
        × ((verify_user cfg sinks crypto (some user) times others username token ip w).1.db ≡ w.db)
  unfolding verify_user emit
  verify_user_inactive user times others username token ip w gone =
      (simp gone (event_name-dispatch _ _ _), simp gone refl)
