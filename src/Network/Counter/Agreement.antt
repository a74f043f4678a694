-- ===== src/Network/Counter/Agreement.antt =====
-- The counter agrees with the deque.
use intrusion_detection_syst.Prelude.{
  ℕ, zero, suc, ◌+◌, ◌≤◌, ◌<◌, ◌≡◌, refl, sym, ◌∙◌, ap, Option, none, some, List, [], ◌∷◌, ◌++◌,
  ltb, if◌then◌else◌, Equality, ◌==◌, arith, Bool-cases, inl, inr, ==_self,
}
use intrusion_detection_syst.Prelude.Lists.{keep, length, All, keep-append, length-append}
use intrusion_detection_syst.Prelude.Dict.{Dict, get, get-put}
use intrusion_detection_syst.Network.Counter.{
  without, drop_counted, drop_one, expire, plus_one, sight, observe,
}

abbrev pub counted : ℕ → Option ℕ
counted zero = none
counted (suc n) = some (suc n)

plus_one_counted : (n : ℕ) → plus_one (counted n) ≡ suc n
plus_one_counted zero = refl
plus_one_counted (suc n) = refl

module _ {K : Type 0} ⦃e : Equality K⦄ where
  abbrev pub sightings : K → List (ℕ × K) → ℕ
  sightings j deque = length (keep (λ x. x.1 == j) deque)

  -- Each key's count is the number of its sightings in the deque, and no count is 0.
  abbrev pub Agrees : List (ℕ × K) → Dict K ℕ → Type 0
  Agrees deque counts = (j : K) → get counts j ≡ counted (sightings j deque)

  get-without :
      (k j : K) (counts : Dict K ℕ)
      → get (without k counts) j ≡ (if k == j then none else get counts j)
  unfolding get
  get-without k j [] = ground arith
  get-without k j ((i, n) ∷ counts) =
      ground (arith, get-without k j counts, e.test_iff i k, e.test_iff k j, e.test_iff i j)

  get-drop_counted :
      (n : ℕ) (k j : K) (counts : Dict K ℕ)
      → get (drop_counted k counts (some (suc n))) j ≡ (if k == j then counted n else get counts j)
  get-drop_counted zero k j counts = get-without k j counts
  get-drop_counted (suc n) k j counts = get-put counts k j (suc n)

  drop_one-Agrees :
      (t : ℕ) (k : K) (rest : List (ℕ × K)) (counts : Dict K ℕ)
      → Agrees ((t, k) ∷ rest) counts
      → Agrees rest (drop_one k counts)
  unfolding drop_one
  drop_one-Agrees t k rest counts a j =
      let here : get counts k ≡ some (suc (sightings k rest)) = a k ∙ ground (arith, ==_self k) in
      ap (λ o. get (drop_counted k counts o) j) here
      ∙ (get-drop_counted (sightings k rest) k j counts ∙ elim (Bool-cases (k == j)) [
        | inl same ↦ simp same (ap (λ i. counted (sightings i rest)) ((e.test_iff k j).0 same))
        | inr other ↦ simp other (a j ∙ simp other refl)
      ])

  expire-Agrees :
      (window now : ℕ) (deque : List (ℕ × K)) (counts : Dict K ℕ)
      → Agrees deque counts
      → Agrees (expire window now deque counts).0 (expire window now deque counts).1
  unfolding expire
  expire-Agrees window now [] counts a = a
  expire-Agrees window now ((t, k) ∷ rest) counts a = elim (Bool-cases (ltb (t + window) now)) [
    | inl old ↦
        simp old
          (expire-Agrees window now rest (drop_one k counts) (drop_one-Agrees t k rest counts a))
    | inr fresh ↦ simp fresh a
  ]

  sight-Agrees :
      (now : ℕ) (k : K) (deque : List (ℕ × K)) (counts : Dict K ℕ)
      → Agrees deque counts
      → Agrees (sight now k (deque, counts)).0 (sight now k (deque, counts)).1
  unfolding sight
  sight-Agrees now k deque counts a j =
      let more : sightings j (deque ++ (now, k) ∷ [])
          ≡ (if k == j then suc (sightings j deque) else sightings j deque) =
        ground (
          arith,
          ap length (keep-append (λ (x : ℕ × K). x.1 == j) deque ((now, k) ∷ [])),
          length-append {0} (keep (λ (x : ℕ × K). x.1 == j) deque)
              (keep (λ (x : ℕ × K). x.1 == j) ((now, k) ∷ [])),
        ) in
      get-put counts k j _
      ∙ (elim (Bool-cases (k == j)) [
        | inl same ↦ simp same (
            ap (λ o. some (plus_one o)) (a k)
            ∙ (ap some (plus_one_counted (sightings k deque))
                ∙ ap (λ i. some (suc (sightings i deque))) ((e.test_iff k j).0 same)))
        | inr other ↦ simp other (a j)
      ]
          ∙ sym (ap counted more))

  -- No sighting, or a first one that is within the window.
  abbrev StartsFresh : ℕ → ℕ → List (ℕ × K) → Type 0
  StartsFresh window now [] = Unit
  StartsFresh window now ((t, k) ∷ rest) = now ≤ t + window

  -- What a packet leaves: the deque without the run of sightings at its left end that are older
  -- than the window, with the new one at its right end, and a counter that agrees with it.
  pub record Observes (window now : ℕ) (k : K) (deque deque' : List (ℕ × K)) (counts' : Dict K ℕ)
      : Type 0 where
    pub dropped : List (ℕ × K)
    pub left : List (ℕ × K)
    pub split : deque ≡ dropped ++ left
    pub expired : All (λ s. s.0 + window < now) dropped
    pub fresh : StartsFresh window now left
    pub appended : deque' ≡ left ++ (now, k) ∷ []
    pub agrees : Agrees deque' counts'

  expire-splits :
      (window now : ℕ) (deque : List (ℕ × K)) (counts : Dict K ℕ)
      → (dropped : List (ℕ × K)) × (deque ≡ dropped ++ (expire window now deque counts).0)
        × All (λ s. s.0 + window < now) dropped
        × StartsFresh window now (expire window now deque counts).0
  unfolding expire
  expire-splits window now [] counts = ([], refl, tt, tt)
  expire-splits window now ((t, k) ∷ rest) counts = elim (Bool-cases (ltb (t + window) now)) [
    | inl old ↦
        let (dropped, split, expired, fresh) = expire-splits window now rest (drop_one k counts) in
        simp old ((t, k) ∷ dropped, ap (◌∷◌ (t, k)) split, (ground arith, expired), fresh)
    | inr young ↦ simp young ([], refl, tt, ground arith)
  ]

  -- A packet drops from the deque of its source just the run of sightings at the left end that are
  -- older than the window, and appends its own; the counter stays equal to the sightings of each
  -- key in the deque, and a key without a sighting has no count.
  pub observe-Observes :
      (window now : ℕ) (k : K) (deque : List (ℕ × K)) (counts : Dict K ℕ)
      → Agrees deque counts
      → Observes window now k deque
          (observe window now k deque counts).0
          (observe window now k deque counts).1
  unfolding observe sight
  observe-Observes window now k deque counts a =
      let (dropped, split, expired, fresh) = expire-splits window now deque counts in
      record {
        dropped = dropped;
        left = (expire window now deque counts).0;
        split = split;
        expired = expired;
        fresh = fresh;
        appended = refl;
        agrees =
            sight-Agrees now k (expire window now deque counts).0 (expire window now deque counts).1
              (expire-Agrees window now deque counts a);
      }
