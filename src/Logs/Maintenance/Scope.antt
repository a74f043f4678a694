-- ===== src/Logs/Maintenance/Scope.antt =====
-- What a purge may delete, and what it never touches.
use intrusion_detection_syst.Prelude.{
  ℕ, ◌+◌, ◌-◌, ◌*◌, ◌/◌, ◌≤◌, ◌<◌, ◌≡◌, refl, Bool, true, not, List, [], ◌∷◌, nat_eq, string_eq,
  nat_beq_iff, arith,
}
use intrusion_detection_syst.Prelude.Lists.{keep, any, All, All-keep_passes, length}
use intrusion_detection_syst.Auth.Store.{Consumption, is_consumption, is_consumed}
use intrusion_detection_syst.Auth.Backoff.{ticks}
use intrusion_detection_syst.Logs.Integrity.Chain.{Digests}
use intrusion_detection_syst.Logs.Maintenance.{
  Tables, Store, PurgeResult, purged, purge_old_events, is_old, is_spent, purge_consumptions,
  purge_attempts, seconds_per_day,
}

any-keep_spent :
    (days now u k : ℕ) (cs : List Consumption)
    → (now - days * seconds_per_day * ticks) / (30 * ticks) ≤ k
    → any (is_consumption u k) (keep (λ c. not (is_spent days now c)) cs)
      ≡ any (is_consumption u k) cs
any-keep_spent days now u k [] h = refl
any-keep_spent days now u k (c ∷ cs) h =
    ground (arith, any-keep_spent days now u k cs, nat_beq_iff c.time_step k)

old_steps :
    (days now k : ℕ)
    → 0 < days
    → now / (30 * ticks) ≤ k + 1
    → (now - days * seconds_per_day * ticks) / (30 * ticks) ≤ k
old_steps days now k p h =
    let span : seconds_per_day * ticks ≤ days * seconds_per_day * ticks = grind arith in omega arith

-- A purge never deletes the consumption of a TOTP interval that a login could still use: at the
-- purge's time the counters from the one before the current on are consumed exactly if they were.
pub purge_old_events-is_consumed :
    (d : Digests) (tables : Tables) (days now : ℕ) (s : Store) (r : PurgeResult) (s' : Store)
    (u k : ℕ)
    → purge_old_events d tables days now s ≡ purged r s'
    → now / (30 * ticks) ≤ k + 1
    → is_consumed u k s'.auth ≡ is_consumed u k s.auth
unfolding purge_old_events is_consumed
purge_old_events-is_consumed d tables days now s r s' u k e h =
    let positive : 0 < days = ground arith in
    let recent = old_steps days now k positive h in
    let same : s'.auth
        ≡ purge_consumptions tables.has_totp_consumptions days now
            (purge_attempts tables.has_auth_attempts days now s.auth) =
      ground arith in
    rw same (ground (arith, any-keep_spent days now u k s.auth.totp_consumptions recent))

length-keep-not {ℓ} :
    {A : Type ℓ} (p : A → Bool) (xs : List A)
    → length (keep p xs) + length (keep (λ x. not (p x)) xs) ≡ length xs
length-keep-not p [] = omega arith
length-keep-not p (x ∷ xs) = ground (arith, length-keep-not p xs)

-- A purge touches no user, no recovery code and no checkpoint; it leaves no audit row older than
-- the horizon, and reports the number of audit rows that it deleted.
pub purge_old_events_scope :
    (d : Digests) (tables : Tables) (days now : ℕ) (s : Store) (r : PurgeResult) (s' : Store)
    → purge_old_events d tables days now s ≡ purged r s'
    → (s'.auth.users ≡ s.auth.users)
      × (s'.auth.recovery_codes ≡ s.auth.recovery_codes)
      × (s'.log.audit_checkpoints ≡ s.log.audit_checkpoints)
      × All (λ row. not (is_old days now row.timestamp) ≡ true) s'.log.audit_events
      × (r.audit_events + length s'.log.audit_events ≡ length s.log.audit_events)
unfolding purge_old_events
purge_old_events_scope d tables days now s r s' e =
    let rows = s.log.audit_events in
    let same : s'.log.audit_events ≡ keep (λ r. not (is_old days now r.timestamp)) rows =
      ground arith in
    (
      ground arith,
      ground arith,
      ground arith,
      rw same (All-keep_passes (λ r. not (is_old days now r.timestamp)) rows),
      ground (arith, same, length-keep-not (λ r. is_old days now r.timestamp) rows),
    )
