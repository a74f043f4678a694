-- ===== src/Logs/Maintenance/Reordering.antt =====
-- Sorting and distinctness do not see how a list is ordered, where its keys are distinct.
use intrusion_detection_syst.Prelude.{
  ℕ, suc, String, ◌≡◌, refl, ap, ◌≢◌, false, not, ◌&&◌, ◌||◌, List, [], ◌∷◌, ◌++◌, map, ◌==◌,
  nat_eq, nat_beq_iff, arith,
}
use intrusion_detection_syst.Prelude.Lists.{contains, length}
use intrusion_detection_syst.Prelude.Sorting.{sort, insert}
use intrusion_detection_syst.Logs.Integrity.Verify.{id_of, distinct}

insert_comm :
    (x y : ℕ × String) (l : List (ℕ × String))
    → x.0 ≢ y.0
    → insert id_of x (insert id_of y l) ≡ insert id_of y (insert id_of x l)
unfolding insert
insert_comm x y [] h = ground arith
insert_comm x y (z ∷ l) h = ground (arith, insert_comm x y l h)

-- An item in the middle sorts as if it stood first.
pub sort-middle :
    (xs : List (ℕ × String)) (x : ℕ × String) (ys : List (ℕ × String))
    → contains x.0 (map id_of xs) ≡ false
    → sort id_of (xs ++ x ∷ ys) ≡ insert id_of x (sort id_of (xs ++ ys))
unfolding sort
sort-middle [] x ys h = refl
sort-middle (a ∷ xs) x ys h =
    rw (sort-middle xs x ys (ground arith))
      (insert_comm a x (sort id_of (xs ++ ys)) (λ e. ground (arith, nat_beq_iff a.0 x.0)))

pub contains-middle :
    (a : ℕ) (xs : List (ℕ × String)) (x : ℕ × String) (ys : List (ℕ × String))
    → contains a (map id_of (xs ++ x ∷ ys)) ≡ (x.0 == a || contains a (map id_of (xs ++ ys)))
contains-middle a [] x ys = refl
contains-middle a (y ∷ xs) x ys = ground (arith, contains-middle a xs x ys)

pub distinct-middle :
    (xs : List (ℕ × String)) (x : ℕ × String) (ys : List (ℕ × String))
    → distinct (map id_of (xs ++ x ∷ ys))
      ≡ (not (contains x.0 (map id_of (xs ++ ys))) && distinct (map id_of (xs ++ ys)))
unfolding distinct
distinct-middle [] x ys = refl
distinct-middle (a ∷ xs) x ys = ground (
  arith,
  distinct-middle xs x ys,
  contains-middle a.0 xs x ys,
  nat_beq_iff a.0 x.0,
  nat_beq_iff x.0 a.0,
)

pub length-middle :
    (xs : List (ℕ × String)) (x : ℕ × String) (ys : List (ℕ × String))
    → length (xs ++ x ∷ ys) ≡ suc (length (xs ++ ys))
length-middle [] x ys = refl
length-middle (a ∷ xs) x ys = ap suc (length-middle xs x ys)

pub contains_left :
    (a : ℕ) (xs ys : List (ℕ × String))
    → contains a (map id_of (xs ++ ys)) ≡ false
    → contains a (map id_of xs) ≡ false
contains_left a [] ys h = refl
contains_left a (x ∷ xs) ys h = ground (arith, contains_left a xs ys)
