-- ===== src/Detection/Phishing/Levenshtein/Table.antt =====
-- detection/phishing.py: the rows of `_levenshtein` against the recursion on prefixes.
use intrusion_detection_syst.Prelude.{
  ℕ, suc, ◌+◌, List, [], ◌∷◌, min, ◌≡◌, refl, ap, sym, ◌∙◌, arith,
}
use intrusion_detection_syst.Prelude.Lists.{length}
use intrusion_detection_syst.Detection.Phishing.Levenshtein.{
  differs, fill_row, fill_rows, count_up, last_entry, distance,
}

-- The distance of two prefixes, each read from its end.
abbrev pub dist : List ℕ → List ℕ → ℕ
dist [] b = length b
dist (x ∷ a) [] = length (x ∷ a)
dist (x ∷ a) (y ∷ b) = min (min (dist a (y ∷ b) + 1) (dist (x ∷ a) b + 1)) (dist a b + differs x y)

-- The entries of a row after the prefix `b`, for each longer prefix.
abbrev row_after : List ℕ → List ℕ → List ℕ → List ℕ
row_after a b [] = []
row_after a b (y ∷ bs) = dist a (y ∷ b) ∷ row_after a (y ∷ b) bs

fill_row-row_after :
    (x : ℕ) (a b bs : List ℕ)
    → fill_row x bs (dist a b ∷ row_after a b bs) (dist (x ∷ a) b) ≡ row_after (x ∷ a) b bs
fill_row-row_after x a b [] = refl
fill_row-row_after x a b (y ∷ bs) =
    ap (λ row. dist (x ∷ a) (y ∷ b) ∷ row) (fill_row-row_after x a (y ∷ b) bs)

-- a list read onto another, from its start
abbrev pub onto : List ℕ → List ℕ → List ℕ
onto acc [] = acc
onto acc (x ∷ xs) = onto (x ∷ acc) xs

dist_nil : (a : List ℕ) → dist a [] ≡ length a
dist_nil [] = refl
dist_nil (x ∷ a) = refl

fill_rows-onto :
    (b rest acc : List ℕ)
    → fill_rows rest b (length acc) (length acc ∷ row_after acc [] b)
      ≡ length (onto acc rest) ∷ row_after (onto acc rest) [] b
fill_rows-onto b [] acc = refl
fill_rows-onto b (x ∷ rest) acc =
    rw
      (ap (λ d. fill_row x b (d ∷ row_after acc [] b) (suc (length acc))) (sym (dist_nil acc))
        ∙ fill_row-row_after x acc [] b)
      (fill_rows-onto b rest (x ∷ acc))

count_up-row_after : (acc b : List ℕ) → count_up (length acc) b ≡ length acc ∷ row_after [] acc b
count_up-row_after acc [] = refl
count_up-row_after acc (y ∷ b) = ap (λ row. length acc ∷ row) (count_up-row_after (y ∷ acc) b)

last_entry-row_after :
    (a b bs : List ℕ) → last_entry (dist a b ∷ row_after a b bs) ≡ dist a (onto b bs)
last_entry-row_after a b [] = refl
last_entry-row_after a b (y ∷ bs) = last_entry-row_after a (y ∷ b) bs

length-onto : (acc xs : List ℕ) → length (onto acc xs) ≡ length xs + length acc
length-onto acc [] = omega arith
length-onto acc (x ∷ xs) = omega (arith, length-onto (x ∷ acc) xs)

pub distance-eq-dist : (a b : List ℕ) → distance a b ≡ dist (onto [] a) (onto [] b)
distance-eq-dist [] b = omega (arith, length-onto [] b)
distance-eq-dist (x ∷ a) [] = omega (arith, length-onto [] (x ∷ a), dist_nil (onto [] (x ∷ a)))
distance-eq-dist (x ∷ a) (y ∷ b) =
    ap last_entry (
      ap (fill_rows (x ∷ a) (y ∷ b) 0) (count_up-row_after [] (y ∷ b))
      ∙ fill_rows-onto (y ∷ b) (x ∷ a) [])
    ∙ ap (λ d. last_entry (d ∷ row_after (onto [] (x ∷ a)) [] (y ∷ b)))
        (sym (dist_nil (onto [] (x ∷ a))))
    ∙ last_entry-row_after (onto [] (x ∷ a)) [] (y ∷ b)
