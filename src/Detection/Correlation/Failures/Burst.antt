-- ===== src/Detection/Correlation/Failures/Burst.antt =====
-- When the brute-force rule accuses a user: exactly if some window holds enough failures.
use intrusion_detection_syst.Prelude.{
  ℕ, ◌+◌, ◌≤◌, ◌<◌, ◌≡◌, sym, ◌∙◌, ap, subst, ◌≢◌, Bool, true, ◌&&◌, none, some, List, [], ◌∷◌,
  if◌then◌else◌, string_eq, arith, Bool-cases, inl, inr, leb, leb→le,
}
use intrusion_detection_syst.Prelude.Lists.{keep, length, All, All-keep, All-keep_passes}
use intrusion_detection_syst.Prelude.Sorting.{IsSorted}
use intrusion_detection_syst.Detection.Event.{NormalizedEvent}
use intrusion_detection_syst.Detection.Correlation.Failures.{time, within, first_burst}

-- The event lies in the window that starts at `t`.
abbrev pub in_window : ℕ → ℕ → NormalizedEvent → Bool
in_window t window e = leb t e.timestamp && leb e.timestamp (t + window)

length-keep_mono {ℓ} :
    {A : Type ℓ} (p q : A → Bool) (xs : List A)
    → All (λ x. p x ≡ true → q x ≡ true) xs
    → length (keep p xs) ≤ length (keep q xs)
length-keep_mono p q [] h = omega arith
length-keep_mono p q (x ∷ xs) h = ground (arith, length-keep_mono p q xs h.1, h.0)

All_true {ℓ κ} : {A : Type ℓ} (P : A → Type κ) (xs : List A) → ((x : A) → P x) → All P xs
All_true P [] f = tt
All_true P (x ∷ xs) f = (f x, All_true P xs f)

All_both {ℓ κ μ ν} :
    {A : Type ℓ} (P : A → Type κ) (Q : A → Type μ) (R : A → Type ν) (xs : List A)
    → All P xs
    → All Q xs
    → ((x : A) → P x → Q x → R x)
    → All R xs
All_both P Q R [] p q f = tt
All_both P Q R (x ∷ xs) p q f = (f x p.0 q.0, All_both P Q R xs p.1 q.1 f)

-- Completeness of the anchor scan over a sorted list.
pub first_burst_complete :
    (threshold window t : ℕ) (es : List NormalizedEvent)
    → IsSorted time es
    → 0 < threshold
    → threshold ≤ length (keep (in_window t window) es)
    → first_burst threshold window es ≢ none
unfolding first_burst
first_burst_complete threshold window t [] s p h = absurd (omega arith)
first_burst_complete threshold window t (e ∷ es) s p h = elim (Bool-cases (leb t e.timestamp)) [
  | inl late ↦
      let more =
        length-keep_mono {0} (in_window t window) (within window e) (e ∷ es)
          (All_true _ (e ∷ es) (λ x i. ground arith)) in
      ground arith
  | inr early ↦ ground (arith, first_burst_complete threshold window t es s.1 p)
]

-- What the scan returns: enough events, all from one anchor on and inside its window.
pub first_burst_sound :
    (P : NormalizedEvent → Type 0) (threshold window : ℕ) (es cluster : List NormalizedEvent)
    → IsSorted time es
    → All P es
    → first_burst threshold window es ≡ some cluster
    → (threshold ≤ length cluster)
      × All P cluster
      × ((t : ℕ) × All (λ e. in_window t window e ≡ true) cluster)
unfolding first_burst
first_burst_sound P threshold window [] cluster s a h = absurd (cc)
first_burst_sound P threshold window (e ∷ es) cluster s a h =
    let found = keep (within window e) (e ∷ es) in
    elim (Bool-cases (leb threshold (length found))) [
      | inl big ↦
          let later = first_burst threshold window es in
          let chosen : some found ≡ some cluster =
            sym (ap (λ b. if b then some found else later) big) ∙ h in
          let is : found ≡ cluster = cc in
          let after =
            All-keep (λ x. e.timestamp ≤ x.timestamp) (within window e) (e ∷ es)
              (omega arith, s.0) in
          subst
            (λ c.
              (threshold ≤ length c)
              × All P c
              × ((t : ℕ) × All (λ x. in_window t window x ≡ true) c))
            is
            (
              leb→le _ _ big,
              All-keep P (within window e) (e ∷ es) a,
              (
                e.timestamp,
                All_both _ _ _ found after (All-keep_passes (within window e) (e ∷ es))
                    (λ x i j. ground (arith, i, j)),
              ),
            )
      | inr small ↦ first_burst_sound P threshold window es cluster s.1 a.1 (simp small at h)
    ]
