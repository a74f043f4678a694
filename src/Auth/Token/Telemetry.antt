-- ===== src/Auth/Token/Telemetry.antt =====
-- Every answer of `verify_token` is logged once, and mailed when it has to be.
use intrusion_detection_syst.Prelude.{
  ℕ, ◌/◌, String, ◌≡◌, refl, false, Option, none, some, [], ◌∷◌, ◌++◌, if◌then◌else◌, inl, inr,
  Bool-cases, ◌==◌, nat_eq, string_eq,
}
use intrusion_detection_syst.Auth.Events.{
  AuthEvent, EventName, Level, Reason, Context, Outbox, Sinks, dispatch_event, alertable,
}
use intrusion_detection_syst.Auth.Store.{User, Db, find_user}
use intrusion_detection_syst.Auth.Backoff.{
  Config, ticks, remaining_ticks, calculate_backoff_delay, enforce_backoff,
}
use intrusion_detection_syst.Auth.Token.Consume.{Outcome, consume}
use intrusion_detection_syst.Auth.Token.{
  Attempted, returned, raised, Decrypted, plain, invalid, failed, Crypto, Times, World,
  token_fingerprint, emit, settle, finish, check_token, after_backoff, verify_user, backoff_context,
  verify_token,
}

-- `event` is the one event logged since `before`, and mailed exactly if it is alertable.
pub record IsDispatched (before : Outbox) (event : AuthEvent) (after : Outbox) : Type 0 where
  pub logged : after.logged ≡ before.logged ++ event ∷ []
  pub alerted :
      after.alerted ≡ (if alertable event then before.alerted ++ event ∷ [] else before.alerted)

module _ (cfg : Config) (sinks : Sinks) (never : (e : AuthEvent) → sinks.log_raises e ≡ false) where
  pub dispatch_event-IsDispatched :
      (e : AuthEvent) (out : Outbox)
      → IsDispatched out (dispatch_event sinks e out).0 (dispatch_event sinks e out).1
  unfolding dispatch_event
  dispatch_event-IsDispatched e out = simp never (record { logged = refl; alerted = refl })

  -- The backoff hands its one event back as the rejection, or sends nothing.
  abbrev Sends : Outbox → Option AuthEvent → Outbox → Type 0
  Sends before none after = after ≡ before
  Sends before (some event) after = IsDispatched before event after

  enforce_backoff-Sends :
      (username : String) (u : ℕ) (context : Context) (now : ℕ) (db : Db) (out : Outbox)
      → Sends out
          (enforce_backoff cfg sinks username u context now db out).0.2
          (enforce_backoff cfg sinks username u context now db out).1
  unfolding enforce_backoff
  enforce_backoff-Sends username u context now db out =
      let delay = (calculate_backoff_delay cfg u (now / ticks) db).0 in
      elim (Bool-cases (delay == 0)) [
        | inl free ↦ simp free refl
        | inr wait ↦ elim (Bool-cases (cfg.mode == "reject")) [
          | inl strict ↦ elim (Bool-cases (remaining_ticks u delay now db == 0)) [
            | inl over ↦ simp (wait, strict, over) refl
            | inr early ↦ simp (wait, strict, early) (dispatch_event-IsDispatched _ out)
          ]
          | inr patient ↦ simp (wait, patient) refl
        ]
      ]

  module _ (crypto : Crypto) where
    abbrev Answers : World → AuthEvent × World → Type 0
    Answers w (event, w') = IsDispatched w.out event w'.out

    emit-Answers :
        (username : String) (ip : Option String) (now : ℕ) (name : EventName) (level : Level)
        (reason : Reason) (backoff failures : ℕ) (extra : Context) (w : World)
        → Answers w
            (emit cfg sinks crypto username ip now name level reason backoff failures extra w)
    unfolding emit
    emit-Answers username ip now name level reason backoff failures extra w =
        dispatch_event-IsDispatched _ w.out

    settle-Answers :
        (username : String) (ip : Option String) (now backoff failures : ℕ) (outcome : Outcome)
        (w : World)
        → Answers w (settle cfg sinks crypto username ip now backoff failures outcome w)
    unfolding settle
    settle-Answers username ip now backoff failures Outcome.inactive w = search emit-Answers
    settle-Answers username ip now backoff failures _ w = search emit-Answers

    finish-Answers :
        (u : ℕ) (username token : String) (ip : Option String) (now backoff failures : ℕ)
        (r : Attempted (Option ℕ)) (w : World)
        → Answers w (finish cfg sinks crypto u username token ip now backoff failures r w)
    unfolding finish
    finish-Answers u username token ip now backoff failures (raised e) w =
        emit-Answers username ip now _ _ _ backoff failures _ w
    finish-Answers u username token ip now backoff failures (returned step) w =
        let tried = consume u (token_fingerprint crypto u token) step now (now / ticks) w.db in
        settle-Answers username ip now backoff failures tried.0 (record w { db = tried.1 })

    check_token-Answers :
        (u : ℕ) (username token : String) (ip : Option String) (now backoff failures : ℕ)
        (d : Decrypted) (w : World)
        → Answers w (check_token cfg sinks crypto u username token ip now backoff failures d w)
    unfolding check_token
    check_token-Answers u username token ip now backoff failures invalid w =
        emit-Answers username ip now _ _ _ backoff failures _ w
    check_token-Answers u username token ip now backoff failures (failed x) w =
        emit-Answers username ip now _ _ _ backoff failures _ w
    check_token-Answers u username token ip now backoff failures (plain secret) w =
        finish-Answers u username token ip now backoff failures _ w

    after_backoff-IsDispatched :
        (user : User) (username token : String) (ip : Option String) (times : Times)
        (others : Db → Db) (backoff failures : ℕ) (rejection : Option AuthEvent) (before : Outbox)
        (w : World)
        → Sends before rejection w.out
        → IsDispatched before
            (after_backoff cfg sinks crypto user username token ip times others backoff failures
              rejection w).0
            (after_backoff cfg sinks crypto user username token ip times others backoff failures
              rejection w).1.out
    unfolding after_backoff
    after_backoff-IsDispatched user username token ip times others b f (some event) before w s = s
    after_backoff-IsDispatched user username token ip times others b f none before w s = rw (← s) (
        check_token-Answers user.id username token ip times.resume b f
          (crypto.decrypt user.encrypted_secret) (record w { db = others w.db }))

    verify_user-Answers :
        (found : Option User) (times : Times) (others : Db → Db) (username token : String)
        (ip : Option String) (w : World)
        → Answers w (verify_user cfg sinks crypto found times others username token ip w)
    unfolding verify_user
    verify_user-Answers none times others username token ip w =
        emit-Answers username ip times.arrive _ _ _ 0 0 _ w
    verify_user-Answers (some user) times others username token ip w =
        elim (Bool-cases user.is_active) [
          | inl live ↦ simp live (
              after_backoff-IsDispatched user username token ip times others _ _ _ w.out _ (
                enforce_backoff-Sends username user.id
                  (backoff_context cfg sinks crypto username ip) times.arrive w.db w.out))
          | inr gone ↦ simp gone (emit-Answers username ip times.arrive _ _ _ 0 0 _ w)
        ]

    -- Where the logger does not raise, every call of `verify_token`, whatever its answer, logs
    -- exactly the event that it returns, and mails it exactly if it is critical or carries the
    -- exceeded threshold.
    pub verify_token-IsDispatched :
        (times : Times) (others : Db → Db) (username token : String) (ip : Option String)
        (w : World)
        → IsDispatched w.out
            (verify_token cfg sinks crypto times others username token ip w).0
            (verify_token cfg sinks crypto times others username token ip w).1.out
    unfolding verify_token
    verify_token-IsDispatched times others username token ip w =
        verify_user-Answers (find_user username w.db) times others username token ip w
