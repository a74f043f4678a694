-- ===== src/Auth/Token/SingleUse.antt =====
-- The transaction of `verify_token`: no TOTP interval of a user is accepted twice.
use intrusion_detection_syst.Prelude.{
  ℕ, suc, ◌≤◌, String, ◌≡◌, refl, ◌≢◌, Bool, true, false, ◌&&◌, ◌||◌, Option, none, some, List, [],
  ◌∷◌, arith, if◌then◌else◌, ◌==◌, nat_eq, nat_beq_iff,
}
use intrusion_detection_syst.Prelude.Lists.{any-append, All}
use intrusion_detection_syst.Auth.Events.{token_reused_race_condition}
use intrusion_detection_syst.Auth.Store.{
  Db, is_consumption, find_user_id, is_consumed, insert_consumption, insert_attempt,
}
use intrusion_detection_syst.Auth.Token.Consume.{
  Outcome, accepted, rejected, is_active_row, consume, replayed,
}

-- The consumptions after the insert are those before and the new one.
insert_consumption-is_consumed :
    (u k v j now : ℕ) (db db' : Db)
    → insert_consumption u k now db ≡ some db'
    → (is_consumed u k db ≡ false)
      × (is_consumed v j db' ≡ (is_consumed v j db || (u == v && k == j)))
unfolding insert_consumption
insert_consumption-is_consumed u k v j now db db' h = ground (
  arith,
  any-append (is_consumption v j) db.totp_consumptions
      (record { user_id = u; time_step = k; consumed_at = now } ∷ []),
)

-- `is_consumed` reads the consumptions alone.
is_consumed-insert_attempt :
    (v j u t : ℕ) (ok : Bool) (fp : String) (step : Option ℕ) (db : Db)
    → is_consumed v j (insert_attempt u t ok fp step db) ≡ is_consumed v j db
unfolding is_consumed insert_attempt
is_consumed-insert_attempt v j u t ok fp step db = refl

-- An interval is accepted only for an active user, only if it was not consumed, and is consumed
-- after.
pub consume-accepted :
    (u : ℕ) (fp : String) (step : Option ℕ) (now seconds : ℕ) (db db' : Db)
    → consume u fp step now seconds db ≡ (accepted, db')
    → (k : ℕ) × (step ≡ some k)
      × (is_active_row (find_user_id u db) ≡ true)
      × (is_consumed u k db ≡ false)
      × (is_consumed u k db' ≡ true)
unfolding consume insert_consumption
consume-accepted u fp none now seconds db db' h = ground arith
consume-accepted u fp (some k) now seconds db db' h = (
  k,
  refl,
  ground arith,
  ground arith,
  ground (
    arith,
    nat_beq_iff u u,
    nat_beq_iff k k,
    any-append (is_consumption u k) db.totp_consumptions
        (record { user_id = u; time_step = k; consumed_at = now } ∷ []),
  ),
)

-- No call of the transaction forgets a consumption.
pub is_consumed-consume :
    (v j u : ℕ) (fp : String) (step : Option ℕ) (now seconds : ℕ) (db : Db)
    → is_consumed v j db ≡ true
    → is_consumed v j (consume u fp step now seconds db).1 ≡ true
unfolding consume insert_consumption
is_consumed-consume v j u fp none now seconds db h = ground arith
is_consumed-consume v j u fp (some k) now seconds db h = ground (
  arith,
  any-append (is_consumption v j) db.totp_consumptions
      (record { user_id = u; time_step = k; consumed_at = now } ∷ []),
)

-- The IntegrityError handler is never reached: the transaction has looked for the key before.
pub consume-ne-race :
    (u : ℕ) (fp : String) (step : Option ℕ) (now seconds : ℕ) (db : Db)
    → (consume u fp step now seconds db).0 ≢ replayed token_reused_race_condition
unfolding consume insert_consumption
consume-ne-race u fp none now seconds db h = ground arith
consume-ne-race u fp (some k) now seconds db h = ground arith

-- A token that matches no counter reserves nothing and leaves one failed attempt.
pub consume_invalid :
    (u : ℕ) (fp : String) (now seconds : ℕ) (db : Db)
    → is_active_row (find_user_id u db) ≡ true
    → consume u fp none now seconds db ≡ (rejected, insert_attempt u seconds false fp none db)
unfolding consume
consume_invalid u fp now seconds db h = ground arith

-- One call of the transaction, by any of the processes that share the database.
pub record Request : Type 0 where
  pub user_id : ℕ
  pub fingerprint : String
  pub step : Option ℕ
  pub now : ℕ
  pub seconds : ℕ

-- A schedule: the transactions in the order in which the database admits them, with what else is
-- committed between them.
pub data Action : Type 0 where
  verify : Request → Action
  elsewhere : (Db → Db) → Action

abbrev pub Keeps : Action → Type 0
Keeps (verify r) = Unit
Keeps (elsewhere f) =
    (v j : ℕ) (db : Db) → is_consumed v j db ≡ true → is_consumed v j (f db) ≡ true

abbrev pub has_step : ℕ → Option ℕ → Bool
has_step j none = false
has_step j (some k) = k == j

abbrev pub is_acceptance : ℕ → ℕ → ℕ → Option ℕ → Outcome → Bool
is_acceptance v j u step accepted = u == v && has_step j step
is_acceptance v j u step _ = false

-- How many requests of the schedule are accepted for user `v` and counter `j`.
unfoldable pub acceptances : ℕ → ℕ → List Action → Db → ℕ
acceptances v j [] db = 0
acceptances v j (verify r ∷ as') db =
    let (outcome, db') = consume r.user_id r.fingerprint r.step r.now r.seconds db in
    let rest = acceptances v j as' db' in
    if is_acceptance v j r.user_id r.step outcome then suc rest else rest
acceptances v j (elsewhere f ∷ as') db = acceptances v j as' (f db)

acceptance_fresh :
    (v j u : ℕ) (fp : String) (step : Option ℕ) (now seconds : ℕ) (db : Db)
    → is_acceptance v j u step (consume u fp step now seconds db).0 ≡ true
    → (is_consumed v j db ≡ false) × (is_consumed v j (consume u fp step now seconds db).1 ≡ true)
unfolding consume insert_consumption
acceptance_fresh v j u fp none now seconds db h = ground arith
acceptance_fresh v j u fp (some k) now seconds db h = (
  ground (arith, nat_beq_iff u v, nat_beq_iff k j),
  ground (
    arith,
    nat_beq_iff u v,
    nat_beq_iff k j,
    any-append (is_consumption v j) db.totp_consumptions
        (record { user_id = u; time_step = k; consumed_at = now } ∷ []),
  ),
)

-- In every schedule whose other commits keep the consumptions, an interval of a user is accepted
-- at most once, and not at all if it was consumed before.
pub acceptances-le :
    (v j : ℕ) (schedule : List Action) (db : Db)
    → All Keeps schedule
    → acceptances v j schedule db ≤ (if is_consumed v j db then 0 else 1)
unfolding acceptances
acceptances-le v j [] db h = ground arith
acceptances-le v j (elsewhere f ∷ as') db h =
    ground (arith, acceptances-le v j as' (f db) h.1, h.0 v j db)
acceptances-le v j (verify r ∷ as') db h =
    let db' = (consume r.user_id r.fingerprint r.step r.now r.seconds db).1 in
    ground (
      arith,
      acceptances-le v j as' db' h.1,
      acceptance_fresh v j r.user_id r.fingerprint r.step r.now r.seconds db,
      is_consumed-consume v j r.user_id r.fingerprint r.step r.now r.seconds db,
    )
