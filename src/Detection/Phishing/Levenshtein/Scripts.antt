-- ===== src/Detection/Phishing/Levenshtein/Scripts.antt =====
-- detection/phishing.py: `_levenshtein` against the edit scripts between two texts.
use intrusion_detection_syst.Prelude.{
  ℕ, suc, ◌+◌, ◌≤◌, String, List, [], ◌∷◌, min, ◌≡◌, refl, subst, inl, inr, Bool-cases, leb, ◌==◌,
  nat_eq, string_eq, arith,
}
use intrusion_detection_syst.Prelude.Text.{codes}
use intrusion_detection_syst.Detection.Phishing.Levenshtein.{differs, levenshtein, distance}
use intrusion_detection_syst.Detection.Phishing.Levenshtein.Table.{dist, onto, distance-eq-dist}

-- A way to edit one list into another, character by character.
pub data Script : List ℕ → List ℕ → Type 0 where
  done : Script [] []
  remove : {x : ℕ} {a b : List ℕ} → Script a b → Script (x ∷ a) b
  add : {y : ℕ} {a b : List ℕ} → Script a b → Script a (y ∷ b)
  replace : {x y : ℕ} {a b : List ℕ} → Script a b → Script (x ∷ a) (y ∷ b)
  same : {x : ℕ} {a b : List ℕ} → Script a b → Script (x ∷ a) (x ∷ b)

-- how many characters a script removes, adds or replaces
abbrev pub edits : {a b : List ℕ} → Script a b → ℕ
edits done = 0
edits (remove s) = suc (edits s)
edits (add s) = suc (edits s)
edits (replace s) = suc (edits s)
edits (same s) = edits s

differs-le-one : (x y : ℕ) → differs x y ≤ 1
differs-le-one x y = ground arith

differs_self : (x : ℕ) → differs x x ≡ 0
differs_self x = ground arith

dist-remove-le : (x : ℕ) (a b : List ℕ) → dist (x ∷ a) b ≤ suc (dist a b)
dist-remove-le x [] [] = omega arith
dist-remove-le x (z ∷ a) [] = omega arith
dist-remove-le x a (y ∷ b) = omega arith

dist-add-le : (y : ℕ) (a b : List ℕ) → dist a (y ∷ b) ≤ suc (dist a b)
dist-add-le y [] b = omega arith
dist-add-le y (x ∷ a) b = omega arith

dist-le-edits : {a b : List ℕ} (s : Script a b) → dist a b ≤ edits s
dist-le-edits done = omega arith
dist-le-edits (remove {x} {a} {b} s) = omega (arith, dist-remove-le x a b, dist-le-edits s)
dist-le-edits (add {y} {a} {b} s) = omega (arith, dist-add-le y a b, dist-le-edits s)
dist-le-edits (replace {x} {y} s) = omega (arith, differs-le-one x y, dist-le-edits s)
dist-le-edits (same {x} s) = omega (arith, differs_self x, dist-le-edits s)

-- An edit of one list into another with at most `n` edits.
abbrev Reaches : List ℕ → List ℕ → ℕ → Type 0
Reaches a b n = (s : Script a b) × (edits s ≤ n)

Reaches-min : (a b : List ℕ) (m n : ℕ) → Reaches a b m → Reaches a b n → Reaches a b (min m n)
Reaches-min a b m n r q = elim (Bool-cases (leb m n)) [
  | inl t ↦ (r.0, ground (arith, r.1))
  | inr t ↦ (q.0, ground (arith, q.1))
]

Reaches-differs :
    (x y : ℕ) (a b : List ℕ) (n : ℕ) → Reaches a b n → Reaches (x ∷ a) (y ∷ b) (n + differs x y)
Reaches-differs x y a b n r = elim (Bool-cases (x == y)) [
  | inl t ↦
      subst (λ z. Reaches (x ∷ a) (z ∷ b) (n + differs x z)) ((nat_eq.test_iff x y).0 t)
        (same r.0, omega (arith, r.1))
  | inr t ↦ (replace r.0, ground (arith, r.1))
]

least : (a b : List ℕ) → Reaches a b (dist a b)
least [] [] = (done, omega arith)
least [] (y ∷ b) = let r = least [] b in (add r.0, omega (arith, r.1))
least (x ∷ []) [] = (remove done, omega arith)
least (x ∷ z ∷ a) [] = let r = least (z ∷ a) [] in (remove r.0, omega (arith, r.1))
least (x ∷ a) (y ∷ b) =
    let up = least a (y ∷ b) in
    let left = least (x ∷ a) b in
    Reaches-min (x ∷ a) (y ∷ b) _ _
      (Reaches-min (x ∷ a) (y ∷ b) _ _ (remove up.0, omega (arith, up.1))
        (add left.0, omega (arith, left.1)))
      (Reaches-differs x y a b (dist a b) (least a b))

onto-Script : {a b c d : List ℕ} → Script a b → Script c d → Script (onto c a) (onto d b)
onto-Script done t = t
onto-Script (remove s) t = onto-Script s (remove t)
onto-Script (add s) t = onto-Script s (add t)
onto-Script (replace s) t = onto-Script s (replace t)
onto-Script (same s) t = onto-Script s (same t)

edits-onto :
    {a b c d : List ℕ} (s : Script a b) (t : Script c d)
    → edits (onto-Script s t) ≡ edits s + edits t
unfolding onto-Script
edits-onto done t = omega arith
edits-onto (remove s) t = omega (arith, edits-onto s (remove t))
edits-onto (add s) t = omega (arith, edits-onto s (add t))
edits-onto (replace s) t = omega (arith, edits-onto s (replace t))
edits-onto (same s) t = omega (arith, edits-onto s (same t))

-- Reading two lists from their ends keeps the edits between them.
Reaches-onto : (a b : List ℕ) (n : ℕ) → Reaches a b n → Reaches (onto [] a) (onto [] b) n
Reaches-onto a b n r = (onto-Script r.0 done, omega (arith, r.1, edits-onto r.0 done))

onto_twice : (a b : List ℕ) → onto [] (onto b a) ≡ onto a b
onto_twice [] b = refl
onto_twice (x ∷ a) b = onto_twice a (x ∷ b)

distance-Reaches : (a b : List ℕ) → Reaches a b (distance a b)
distance-Reaches a b =
    let n = dist (onto [] a) (onto [] b) in
    let r = Reaches-onto (onto [] a) (onto [] b) n (least (onto [] a) (onto [] b)) in
    let q : Reaches a b n =
      subst (λ c. Reaches a c n) (onto_twice b [])
        (subst (λ c. Reaches c (onto [] (onto [] b)) n) (onto_twice a []) r) in
    (q.0, omega (arith, q.1, distance-eq-dist a b))

distance-le-edits : (a b : List ℕ) (s : Script a b) → distance a b ≤ edits s
distance-le-edits a b s =
    omega (arith, distance-eq-dist a b, dist-le-edits (onto-Script s done), edits-onto s done)

same-Script : (a : List ℕ) → Reaches a a 0
same-Script [] = (done, omega arith)
same-Script (x ∷ a) = let r = same-Script a in (same r.0, r.1)

-- `_levenshtein` is the least number of characters that must be removed, added or replaced to
-- turn one text into the other: some edit needs no more, and every edit needs at least as many.
pub levenshtein_least :
    (a b : String)
    → ((s : Script (codes a) (codes b)) × (edits s ≤ levenshtein a b))
      × ((s : Script (codes a) (codes b)) → levenshtein a b ≤ edits s)
unfolding levenshtein
levenshtein_least a b = elim (Bool-cases (a == b)) [
  | inl t ↦ simp t (
    subst (λ c. Reaches (codes a) (codes c) 0) ((string_eq.test_iff a b).0 t)
        (same-Script (codes a)),
    λ s. omega arith,
  )
  | inr t ↦ simp t (distance-Reaches (codes a) (codes b), distance-le-edits (codes a) (codes b))
]
