-- ===== src/Prelude/Sorting.antt =====
-- Python's stable `sorted(xs, key=f)` over a natural-number key.
use Prim.Native.Nat.{ℕ, suc, ◌≤◌}
use mathlib.Core.Path.{◌≡◌, refl, ap, ◌∙◌}
use mathlib.Core.Logic.{inl, inr}
use mathlib.Core.Bool.{Bool}
use mathlib.Core.List.{List, [], ◌∷◌}
use native.Mathlib.Omega.{arith}
use intrusion_detection_syst.Prelude.Tests.{if◌then◌else◌, leb, leb→le, Bool-cases}
use intrusion_detection_syst.Prelude.Lists.{length, All, keep}

module _ {ℓ} {A : Type ℓ} (key : A → ℕ) where
  unfoldable pub insert : A → List A → List A
  insert x [] = x ∷ []
  insert x (y ∷ ys) = if leb (key x) (key y) then x ∷ y ∷ ys else y ∷ insert x ys

  unfoldable pub sort : List A → List A
  sort [] = []
  sort (x ∷ xs) = insert x (sort xs)

  abbrev pub IsSorted : List A → Type 0
  IsSorted [] = Unit
  IsSorted (x ∷ xs) = All (λ y. key x ≤ key y) xs × IsSorted xs

  length-insert : (x : A) (ys : List A) → length (insert x ys) ≡ suc (length ys)
  unfolding insert
  length-insert x [] = refl
  length-insert x (y ∷ ys) = ground (arith, length-insert x ys)

  pub length-sort : (xs : List A) → length (sort xs) ≡ length xs
  unfolding sort
  length-sort [] = refl
  length-sort (x ∷ xs) = length-insert x (sort xs) ∙ ap suc (length-sort xs)

  All-insert {κ} : (P : A → Type κ) (x : A) (ys : List A) → P x → All P ys → All P (insert x ys)
  unfolding insert
  All-insert P x [] h k = (h, tt)
  All-insert P x (y ∷ ys) h k = elim (Bool-cases (leb (key x) (key y))) [
    | inl t ↦ rw t (h, k)
    | inr t ↦ rw t (k.0, All-insert P x ys h k.1)
  ]

  -- Sorting keeps what holds of every item.
  pub All-sort {κ} : (P : A → Type κ) (xs : List A) → All P xs → All P (sort xs)
  unfolding sort
  All-sort P [] h = h
  All-sort P (x ∷ xs) h = All-insert P x (sort xs) h.0 (All-sort P xs h.1)

  All-le_trans : (a b : ℕ) (ys : List A) → a ≤ b → All (λ y. b ≤ key y) ys → All (λ y. a ≤ key y) ys
  All-le_trans a b [] h k = k
  All-le_trans a b (y ∷ ys) h k = (omega arith, All-le_trans a b ys h k.1)

  insert-IsSorted : (x : A) (ys : List A) → IsSorted ys → IsSorted (insert x ys)
  unfolding insert
  insert-IsSorted x [] s = (tt, tt)
  insert-IsSorted x (y ∷ ys) s = elim (Bool-cases (leb (key x) (key y))) [
    | inl t ↦ rw t ((leb→le _ _ t, All-le_trans (key x) (key y) ys (leb→le _ _ t) s.0), s)
    | inr t ↦
        rw t (All-insert (λ z. key y ≤ key z) x ys (ground arith) s.0, insert-IsSorted x ys s.1)
  ]

  pub sort-IsSorted : (xs : List A) → IsSorted (sort xs)
  unfolding sort
  sort-IsSorted [] = tt
  sort-IsSorted (x ∷ xs) = insert-IsSorted x (sort xs) (sort-IsSorted xs)

  length-keep-insert :
      (p : A → Bool) (x : A) (ys : List A)
      → length (keep p (insert x ys)) ≡ length (keep p (x ∷ ys))
  unfolding insert
  length-keep-insert p x [] = refl
  length-keep-insert p x (y ∷ ys) = ground (arith, length-keep-insert p x ys)

  -- Sorting changes no count of the items that pass a test.
  pub length-keep-sort :
      (p : A → Bool) (xs : List A) → length (keep p (sort xs)) ≡ length (keep p xs)
  unfolding sort
  length-keep-sort p [] = refl
  length-keep-sort p (x ∷ xs) =
      ground (arith, length-keep-insert p x (sort xs), length-keep-sort p xs)

-- SQL's ORDER BY f DESC, where items of one key keep their order.
module _ {ℓ} {A : Type ℓ} (key : A → ℕ) where
  unfoldable pub place_newest : A → List A → List A
  place_newest x [] = x ∷ []
  place_newest x (y ∷ ys) = if leb (key y) (key x) then x ∷ y ∷ ys else y ∷ place_newest x ys

  unfoldable pub sort_newest : List A → List A
  unfolding place_newest
  sort_newest [] = []
  sort_newest (x ∷ xs) = place_newest x (sort_newest xs)

  length-place_newest : (x : A) (ys : List A) → length (place_newest x ys) ≡ suc (length ys)
  unfolding place_newest
  length-place_newest x [] = refl
  length-place_newest x (y ∷ ys) = ground (arith, length-place_newest x ys)

  pub length-sort_newest : (xs : List A) → length (sort_newest xs) ≡ length xs
  unfolding sort_newest
  length-sort_newest [] = refl
  length-sort_newest (x ∷ xs) =
      length-place_newest x (sort_newest xs) ∙ ap suc (length-sort_newest xs)
