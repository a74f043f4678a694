-- ===== src/Network/Counter.antt =====
-- The sliding window that syn_detector.py and icmp_detector.py share: a deque of sightings, and a
-- `Counter` of the keys in it.
pub mod Agreement
use intrusion_detection_syst.Prelude.{
  ℕ, zero, suc, ◌+◌, String, Bool, not, Option, none, some, List, [], ◌∷◌, ◌++◌, ltb, if◌then◌else◌,
  Equality, ◌==◌,
}
use intrusion_detection_syst.Prelude.Lists.{keep}
use intrusion_detection_syst.Prelude.Dict.{Dict, get, put}

-- What a detector reports; `targets` are the first keys of its context.
pub record DetectionEvent (K : Type 0) : Type 0 where
  pub level : String
  pub detector_name : String
  pub message : String
  pub timestamp : ℕ
  pub source_ip : String
  pub distinct_count : ℕ
  pub targets : List K

-- A packet's effect; `raised` is the error of an absent IP layer.
pub data Processed (K : Type 0) : Type 0 where
  ignored raised : Processed K
  handled : Option (DetectionEvent K) → Processed K

abbrev pub deque_or_empty {ℓ} : {A : Type ℓ} → Option (List A) → List A
deque_or_empty none = []
deque_or_empty (some xs) = xs

abbrev pub plus_one : Option ℕ → ℕ
plus_one none = 1
plus_one (some n) = suc n

module _ {K : Type 0} ⦃e : Equality K⦄ where
  -- `del counts[k]`
  abbrev pub without : K → Dict K ℕ → Dict K ℕ
  without k counts = keep (λ kv. not (kv.0 == k)) counts

  -- `counts[k] -= 1`, and `del counts[k]` at 0. A key of the deque always has a count.
  abbrev pub drop_counted : K → Dict K ℕ → Option ℕ → Dict K ℕ
  drop_counted k counts (some (suc (suc n))) = put counts k (suc n)
  drop_counted k counts (some (suc zero)) = without k counts
  drop_counted k counts _ = counts

  unfoldable pub drop_one : K → Dict K ℕ → Dict K ℕ
  drop_one k counts = drop_counted k counts (get counts k)

  -- The `while` loop, from the left end.
  unfoldable pub expire : ℕ → ℕ → List (ℕ × K) → Dict K ℕ → List (ℕ × K) × Dict K ℕ
  unfolding drop_one
  expire window now [] counts = ([], counts)
  expire window now ((t, k) ∷ rest) counts =
      let later = expire window now rest (drop_one k counts) in
      if ltb (t + window) now then later else ((t, k) ∷ rest, counts)

  -- `deque.append((now, k))` and `counts[k] += 1`
  unfoldable pub sight : ℕ → K → List (ℕ × K) × Dict K ℕ → List (ℕ × K) × Dict K ℕ
  sight now k (deque, counts) = (deque ++ (now, k) ∷ [], put counts k (plus_one (get counts k)))

  -- Both steps of `process_packet` on a source's window.
  unfoldable pub observe : ℕ → ℕ → K → List (ℕ × K) → Dict K ℕ → List (ℕ × K) × Dict K ℕ
  unfolding expire sight
  observe window now k deque counts = sight now k (expire window now deque counts)
