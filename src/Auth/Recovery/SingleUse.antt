-- ===== src/Auth/Recovery/SingleUse.antt =====
-- A recovery code is redeemed at most once.
use intrusion_detection_syst.Prelude.{
  ℕ, zero, suc, ◌≤◌, ◌<◌, String, ◌≡◌, refl, Bool, true, false, not, Option, none, some, List, [],
  ◌∷◌, ◌==◌, nat_eq, string_eq, if◌then◌else◌, arith, nat_beq_iff, inl, inr, Bool-cases,
}
use intrusion_detection_syst.Prelude.Lists.{keep, length, All}
use intrusion_detection_syst.Auth.Store.{Db, RecoveryCode, insert_attempt}
use intrusion_detection_syst.Auth.Recovery.Redeem.{
  Redeemed, redeemed, recently_used, matched_code, has_id, rows_with_id, delete_code, consume_code,
  settle_match, id_of, redeem,
}

keep_other :
    (i j : ℕ) (cs : List RecoveryCode)
    → length (keep (has_id j) (keep (λ c. not (has_id i c)) cs))
      ≡ (if i == j then 0 else length (keep (has_id j) cs))
keep_other i j [] = ground arith
keep_other i j (c ∷ cs) =
    ground (arith, keep_other i j cs, nat_beq_iff c.id i, nat_beq_iff c.id j, nat_beq_iff i j)

-- A DELETE that succeeds removes the one row with the id, and no other.
pub rows-delete_code :
    (i j : ℕ) (db db' : Db)
    → delete_code i db ≡ some db'
    → (rows_with_id i db ≡ 1) × (rows_with_id j db' ≡ (if i == j then 0 else rows_with_id j db))
unfolding delete_code
rows-delete_code i j db db' h = ground (arith, keep_other i j db.recovery_codes)

rows-insert_attempt :
    (j u now : ℕ) (ok : Bool) (fp : String) (step : Option ℕ) (db : Db)
    → rows_with_id j (insert_attempt u now ok fp step db) ≡ rows_with_id j db
unfolding insert_attempt
rows-insert_attempt j u now ok fp step db = refl

abbrev pub Deletes : ℕ → Db → Db → Type 0
Deletes i before after =
    (rows_with_id i before ≡ 1)
    × ((j : ℕ) → rows_with_id j after ≡ (if i == j then 0 else rows_with_id j before))

consume_code-Deletes :
    (u i : ℕ) (fp : String) (now : ℕ) (deleted : Option Db) (db : Db)
    → delete_code i db ≡ deleted
    → (consume_code u fp now deleted db).0 ≡ redeemed
    → Deletes i db (consume_code u fp now deleted db).1
unfolding consume_code
consume_code-Deletes u i fp now none db e h = absurd (ground arith)
consume_code-Deletes u i fp now (some db') db e h =
    ((rows-delete_code i i db db' e).0, λ j. (rows-delete_code i j db db' e).1)

settle_match-Deletes :
    (u : ℕ) (fp : String) (now : ℕ) (found : Option ℕ) (db : Db)
    → (settle_match u fp now found db).0 ≡ redeemed
    → (i : ℕ) × (found ≡ some i) × (0 < i) × Deletes i db (settle_match u fp now found db).1
unfolding settle_match
settle_match-Deletes u fp now none db h = absurd (ground arith)
settle_match-Deletes u fp now (some zero) db h = absurd (ground arith)
settle_match-Deletes u fp now (some (suc i)) db h =
    (suc i, refl, omega arith, consume_code-Deletes u (suc i) fp now _ db refl h)

-- Redemption answers `redeemed` only if no attempt with the fingerprint is recent and a stored code
-- of the user matches; then exactly that code's row is deleted, and it was there.
pub redeem-Deletes :
    (scrypt : String → String → String) (u : ℕ) (fp code : String) (now : ℕ) (race : Db → Db)
    (db : Db)
    → (redeem scrypt u fp code now race db).0 ≡ redeemed
    → (recently_used u fp now db ≡ false)
      × ((i : ℕ) × (id_of (matched_code scrypt u code db) ≡ some i)
          × Deletes i (race db) (redeem scrypt u fp code now race db).1)
unfolding redeem
redeem-Deletes scrypt u fp code now race db h = elim (Bool-cases (recently_used u fp now db)) [
  | inl recent ↦ absurd (ground arith)
  | inr fresh ↦
      let (i, found, _, deletes) =
        settle_match-Deletes u fp now (id_of (matched_code scrypt u code db)) (race db)
          (simp fresh at h) in
      (fresh, (i, found, simp fresh deletes))
]

rows-consume_code-le :
    (j u i : ℕ) (fp : String) (now : ℕ) (deleted : Option Db) (db : Db)
    → delete_code i db ≡ deleted
    → rows_with_id j (consume_code u fp now deleted db).1 ≤ rows_with_id j db
unfolding consume_code
rows-consume_code-le j u i fp now none db e = omega arith
rows-consume_code-le j u i fp now (some db') db e =
    ground (arith, (rows-delete_code i j db db' e).1, rows-insert_attempt j u now true fp none db')

rows-settle_match-le :
    (j u : ℕ) (fp : String) (now : ℕ) (found : Option ℕ) (db : Db)
    → rows_with_id j (settle_match u fp now found db).1 ≤ rows_with_id j db
unfolding settle_match
rows-settle_match-le j u fp now none db = omega arith
rows-settle_match-le j u fp now (some zero) db = omega arith
rows-settle_match-le j u fp now (some (suc i)) db =
    rows-consume_code-le j u (suc i) fp now (delete_code (suc i) db) db refl

rows-redeem-le :
    (j : ℕ) (scrypt : String → String → String) (u : ℕ) (fp code : String) (now : ℕ)
    (race : Db → Db) (db : Db)
    → rows_with_id j (race db) ≤ rows_with_id j db
    → rows_with_id j (redeem scrypt u fp code now race db).1 ≤ rows_with_id j db
unfolding redeem
rows-redeem-le j scrypt u fp code now race db h =
    let found = id_of (matched_code scrypt u code db) in
    elim (Bool-cases (recently_used u fp now db)) [
      | inl recent ↦ simp recent (omega arith)
      | inr fresh ↦ simp fresh (omega (arith, rows-settle_match-le j u fp now found (race db), h))
    ]

-- A call of phase 3, with what others commit between its reads and its DELETE.
pub record Redemption : Type 0 where
  pub user_id : ℕ
  pub fingerprint : String
  pub code : String
  pub now : ℕ
  pub race : Db → Db

-- The calls in the order of their commits, with what else is committed between them.
pub data Action : Type 0 where
  redeems : Redemption → Action
  elsewhere : (Db → Db) → Action

-- Others may delete the row `j`, and never insert it again: ids are given by AUTOINCREMENT.
abbrev pub AddsNone : ℕ → Action → Type 0
AddsNone j (redeems r) = (db : Db) → rows_with_id j (r.race db) ≤ rows_with_id j db
AddsNone j (elsewhere f) = (db : Db) → rows_with_id j (f db) ≤ rows_with_id j db

abbrev pub is_redemption : ℕ → Option ℕ → Redeemed → Bool
is_redemption j (some i) redeemed = i == j
is_redemption j found outcome = false

-- How many calls of the schedule redeem the row `j`.
unfoldable pub redemptions : (String → String → String) → ℕ → List Action → Db → ℕ
redemptions scrypt j [] db = 0
redemptions scrypt j (redeems r ∷ as') db =
    let (outcome, db') = redeem scrypt r.user_id r.fingerprint r.code r.now r.race db in
    let rest = redemptions scrypt j as' db' in
    if is_redemption j (id_of (matched_code scrypt r.user_id r.code db)) outcome
    then suc rest
    else rest
redemptions scrypt j (elsewhere f ∷ as') db = redemptions scrypt j as' (f db)

is_redemption-redeemed :
    (j : ℕ) (found : Option ℕ) (outcome : Redeemed)
    → is_redemption j found outcome ≡ true
    → (found ≡ some j) × (outcome ≡ redeemed)
is_redemption-redeemed j (some i) redeemed h = ground (arith, nat_beq_iff i j)
is_redemption-redeemed j none redeemed h = ground arith
is_redemption-redeemed j none _ h = ground arith
is_redemption-redeemed j (some i) _ h = ground arith

redemption_step :
    (j : ℕ) (scrypt : String → String → String) (u : ℕ) (fp code : String) (now : ℕ)
    (race : Db → Db) (db : Db)
    → is_redemption j
        (id_of (matched_code scrypt u code db))
        (redeem scrypt u fp code now race db).0
      ≡ true
    → (rows_with_id j (race db) ≡ 1) × (rows_with_id j (redeem scrypt u fp code now race db).1 ≡ 0)
redemption_step j scrypt u fp code now race db h =
    let outcome = (redeem scrypt u fp code now race db).0 in
    let (chosen, answered) =
      is_redemption-redeemed j (id_of (matched_code scrypt u code db)) outcome h in
    let (fresh, (i, found, deletes)) = redeem-Deletes scrypt u fp code now race db answered in
    let same : i ≡ j = cc in
    (ground (arith, deletes.0), ground (arith, deletes.1 j, nat_beq_iff i j))

-- Whatever other connections commit, as long as they do not insert the row again, a stored
-- recovery code is redeemed at most as often as the table has rows with its id, which is a key.
pub redemptions-le :
    (scrypt : String → String → String) (j : ℕ) (schedule : List Action) (db : Db)
    → All (AddsNone j) schedule
    → redemptions scrypt j schedule db ≤ rows_with_id j db
unfolding redemptions
redemptions-le scrypt j [] db h = omega arith
redemptions-le scrypt j (elsewhere f ∷ as') db h =
    omega (arith, redemptions-le scrypt j as' (f db) h.1, h.0 db)
redemptions-le scrypt j (redeems r ∷ as') db h =
    let db' = (redeem scrypt r.user_id r.fingerprint r.code r.now r.race db).1 in
    ground (
      arith,
      redemptions-le scrypt j as' db' h.1,
      h.0 db,
      redemption_step j scrypt r.user_id r.fingerprint r.code r.now r.race db,
      rows-redeem-le j scrypt r.user_id r.fingerprint r.code r.now r.race db,
    )
