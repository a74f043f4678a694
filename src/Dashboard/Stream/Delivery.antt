-- ===== src/Dashboard/Stream/Delivery.antt =====
-- Which events a stream sends: each one once, in the order of the table.
use intrusion_detection_syst.Prelude.{
  ℕ, zero, suc, ◌+◌, ◌-◌, ◌*◌, ◌≤◌, ◌≡◌, refl, sym, subst, ◌∙◌, ap, false, Option, none, some, List,
  [], ◌∷◌, ◌++◌, map, arith, Bool-cases, inl, inr, max,
}
use mathlib.Core.List.{append_assoc, append-nil}
use intrusion_detection_syst.Prelude.Lists.{
  length, keep, take, drop, All, keep-append, length-append,
}
use intrusion_detection_syst.Logs.Integrity.Chain.{Row}
use intrusion_detection_syst.Logs.Integrity.Seal.{is_after}
use intrusion_detection_syst.Logs.Integrity.Sealing.{Above, Above-keep_after, keep_after_all}
use intrusion_detection_syst.Dashboard.Queries.{get_audit_events_since}
use intrusion_detection_syst.Dashboard.Stream.{
  Chunk, event, heartbeat, Round, Stream, advance, chunks_of, is_over, generate,
}

-- The events among the chunks.
abbrev pub sent : List Chunk → List Row
sent [] = []
sent (heartbeat ∷ cs) = sent cs
sent (event r ∷ cs) = r ∷ sent cs

sent-append : (cs ds : List Chunk) → sent (cs ++ ds) ≡ sent cs ++ sent ds
sent-append [] ds = refl
sent-append (heartbeat ∷ cs) ds = sent-append cs ds
sent-append (event r ∷ cs) ds = ap (◌∷◌ r) (sent-append cs ds)

sent-map : (rows : List Row) → sent (map event rows) ≡ rows
sent-map [] = refl
sent-map (r ∷ rows) = ap (◌∷◌ r) (sent-map rows)

sent-chunks_of : (rows : List Row) → sent (chunks_of rows) ≡ rows
sent-chunks_of [] = refl
sent-chunks_of (r ∷ rows) = ap (◌∷◌ r) (sent-map rows)

take-drop {ℓ} : {A : Type ℓ} (n : ℕ) (xs : List A) → take n xs ++ drop n xs ≡ xs
take-drop zero xs = refl
take-drop (suc n) [] = refl
take-drop (suc n) (x ∷ xs) = ap (◌∷◌ x) (take-drop n xs)

length-take {ℓ} :
    {A : Type ℓ} (n : ℕ) (xs : List A) → length xs ≤ length (take n xs) + (length xs - n)
length-take zero xs = omega arith
length-take (suc n) [] = omega arith
length-take (suc n) (x ∷ xs) = omega (arith, length-take n xs)

length-zero {ℓ} : {A : Type ℓ} (xs : List A) → length xs ≡ 0 → xs ≡ []
length-zero [] h = refl
length-zero (x ∷ xs) h = absurd (omega arith)

advance-le : (last : ℕ) (rows : List Row) → last ≤ advance last rows
unfolding advance
advance-le last [] = omega arith
advance-le last (r ∷ rows) = omega (arith, advance-le (max last r.id) rows)

keep_after_after :
    (s t : ℕ) (rows : List Row)
    → s ≤ t
    → keep (is_after t) rows ≡ keep (is_after t) (keep (is_after s) rows)
keep_after_after s t [] h = refl
keep_after_after s t (r ∷ rows) h = ground (arith, keep_after_after s t rows h)

keep_after_head :
    (t : ℕ) (r : Row) (rows : List Row)
    → r.id ≤ t
    → keep (is_after t) (r ∷ rows) ≡ keep (is_after t) rows
keep_after_head t r rows h = ground arith

-- After a batch of the pending rows, the rows behind it are pending.
keep_after_batch :
    (last : ℕ) (batch rest : List Row)
    → Above last (batch ++ rest)
    → keep (is_after (advance last batch)) (batch ++ rest) ≡ rest
unfolding advance
keep_after_batch last [] rest a = keep_after_all last last rest (omega arith) a
keep_after_batch last (r ∷ batch) rest a =
    let top : max last r.id ≡ r.id = omega (arith, a.0) in
    let on = keep_after_batch r.id batch rest a.1 in
    ap (λ t. keep (is_after (advance t batch)) (r ∷ batch ++ rest)) top
    ∙ (keep_after_head (advance r.id batch) r (batch ++ rest) (advance-le r.id batch) ∙ on)

-- A table that the database had earlier: later inserts went behind it.
abbrev pub IsEarlier : List Row → Option (List Row) → Type 0
IsEarlier final none = Unit
IsEarlier final (some rows) = (more : List Row) × (rows ++ more ≡ final)

pending-split :
    (last : ℕ) (final : List Row) (rows : Option (List Row))
    → IsEarlier final rows
    → (rest : List Row) × (get_audit_events_since last 20 rows ++ rest ≡ keep (is_after last) final)
unfolding get_audit_events_since
pending-split last final none e = (keep (is_after last) final, refl)
pending-split last final (some rows) (more, e) =
    let pending = keep (is_after last) rows in
    (
      drop 20 pending ++ keep (is_after last) more,
      sym (append_assoc (take 20 pending) (drop 20 pending) (keep (is_after last) more))
          ∙ (ap (λ l. l ++ keep (is_after last) more) (take-drop 20 pending)
              ∙ (sym (keep-append (is_after last) rows more) ∙ ap (keep (is_after last)) e)),
    )

module _ (s : Stream) (final : List Row) (ordered : Above 0 final) where
  batch_step :
      (last : ℕ) (rows : Option (List Row))
      → IsEarlier final rows
      → get_audit_events_since last 20 rows
          ++ keep (is_after (advance last (get_audit_events_since last 20 rows))) final
        ≡ keep (is_after last) final
  batch_step last rows e =
      let batch = get_audit_events_since last 20 rows in
      let (rest, split) = pending-split last final rows e in
      let above : Above last (batch ++ rest) =
        subst (Above last) (sym split) (Above-keep_after 0 last final ordered) in
      let left : keep (is_after (advance last batch)) final ≡ rest =
        keep_after_after last (advance last batch) final (advance-le last batch)
        ∙ (ap (keep (is_after (advance last batch))) (sym split)
            ∙ keep_after_batch last batch rest above) in
      ap (λ l. batch ++ l) left ∙ split

  -- However many rounds a stream makes and however the table grows in between, even where queries
  -- fail, what it has sent is followed by exactly the rows after the last id that it remembers: no
  -- event is skipped, sent twice or out of order.
  pub generate_exact :
      (last : ℕ) (rounds : List Round)
      → All (λ r. IsEarlier final r.rows) rounds
      → sent (generate s last rounds).0 ++ keep (is_after (generate s last rounds).1) final
        ≡ keep (is_after last) final
  unfolding generate
  generate_exact last [] a = refl
  generate_exact last (r ∷ rounds) a =
      let batch = get_audit_events_since last 20 r.rows in
      let (later, end) = generate s (advance last batch) rounds in
      let ih = generate_exact (advance last batch) rounds a.1 in
      elim (Bool-cases (is_over s r)) [
        | inl over ↦ simp over refl
        | inr on ↦
            let K = keep (is_after (generate s (advance last batch) rounds).1) final in
            simp on (
              ap (λ l. l ++ K)
                (sent-append (chunks_of batch) (generate s (advance last batch) rounds).0)
              ∙ (ap (λ l. (l ++ sent (generate s (advance last batch) rounds).0) ++ K)
                    (sent-chunks_of batch)
                  ∙ (append_assoc batch (sent (generate s (advance last batch) rounds).0) K
                      ∙ (ap (λ l. batch ++ l) ih ∙ batch_step last r.rows a.0))))
      ]

  -- A round on the whole table, in a session that goes on.
  abbrev pub IsLive : Round → Type 0
  IsLive r = (r.rows ≡ some final) × (is_over s r ≡ false)

  length-batch :
      (last : ℕ) (rows : Option (List Row))
      → rows ≡ some final
      → length (keep (is_after (advance last (get_audit_events_since last 20 rows))) final)
        ≤ length (keep (is_after last) final) - 20
  unfolding get_audit_events_since
  length-batch last none h = absurd (cc)
  length-batch last (some rows) h =
      let pending = keep (is_after last) rows in
      let same : rows ≡ final = cc in
      let step = batch_step last (some rows) ([], append-nil rows ∙ same) in
      omega (
        arith,
        ap length step,
        length-append {0} (take 20 pending)
            (keep (is_after (advance last (take 20 pending))) final),
        length-take 20 pending,
        ap (λ l. length (keep (is_after last) l)) same,
      )

  drained :
      (last : ℕ) (rounds : List Round)
      → All IsLive rounds
      → length (keep (is_after last) final) ≤ 20 * length rounds
      → length (keep (is_after (generate s last rounds).1) final) ≡ 0
  unfolding generate
  drained last [] a h = omega arith
  drained last (r ∷ rounds) a h =
      let batch = get_audit_events_since last 20 r.rows in
      let less = length-batch last r.rows a.0.0 in
      let ih = drained (advance last batch) rounds a.1 (omega arith) in simp a.0.1 ih

  -- A session that goes on sends every pending event: on a table of which at most 20 events for each
  -- round are pending, all of them are sent, in the order of the table.
  pub generate_all :
      (last : ℕ) (rounds : List Round)
      → All IsLive rounds
      → length (keep (is_after last) final) ≤ 20 * length rounds
      → sent (generate s last rounds).0 ≡ keep (is_after last) final
  generate_all last rounds a h =
      let end = keep (is_after (generate s last rounds).1) final in
      let none_left : end ≡ [] = length-zero end (drained last rounds a h) in
      sym (append-nil (sent (generate s last rounds).0))
      ∙ (ap (λ l. sent (generate s last rounds).0 ++ l) (sym none_left)
          ∙ generate_exact last rounds (earlier rounds a))
    where
      earlier : (rs : List Round) → All IsLive rs → All (λ r. IsEarlier final r.rows) rs
      earlier [] a = tt
      earlier (r ∷ rs) a =
          (subst (IsEarlier final) (sym a.0.0) ([], append-nil final), earlier rs a.1)
