-- ===== src/Detection/Phishing/Levenshtein.antt =====
-- detection/phishing.py: `_levenshtein`, the distance of two texts by one row of a table at a time.
pub mod Table
pub mod Scripts
use intrusion_detection_syst.Prelude.{
  ℕ, suc, ◌+◌, String, Bool, List, [], ◌∷◌, min, if◌then◌else◌, ◌==◌, string_eq, nat_eq,
}
use intrusion_detection_syst.Prelude.Lists.{length}
use intrusion_detection_syst.Prelude.Text.{codes}

-- `(ca != cb)` as a number
abbrev pub differs : ℕ → ℕ → ℕ
differs ca cb = if ca == cb then 0 else 1

-- The inner loop: `cur` after its last entry `left`, where `prev` starts at `prev[j - 1]`.
abbrev pub fill_row : ℕ → List ℕ → List ℕ → ℕ → List ℕ
fill_row ca [] prev left = []
fill_row ca (cb ∷ bs) [] left = []
fill_row ca (cb ∷ bs) (diagonal ∷ []) left = []
fill_row ca (cb ∷ bs) (diagonal ∷ up ∷ prev) left =
    let entry = min (min (up + 1) (left + 1)) (diagonal + differs ca cb) in
    entry ∷ fill_row ca bs (up ∷ prev) entry

-- The outer loop; `i` is the number of the last row.
abbrev pub fill_rows : List ℕ → List ℕ → ℕ → List ℕ → List ℕ
fill_rows [] b i prev = prev
fill_rows (ca ∷ a) b i prev = fill_rows a b (suc i) (suc i ∷ fill_row ca b prev (suc i))

-- `list(range(len(b) + 1))`, from `i` on
abbrev pub count_up : ℕ → List ℕ → List ℕ
count_up i [] = i ∷ []
count_up i (cb ∷ b) = i ∷ count_up (suc i) b

-- `prev[-1]`; no row is empty
abbrev pub last_entry : List ℕ → ℕ
last_entry [] = 0
last_entry (x ∷ []) = x
last_entry (x ∷ y ∷ xs) = last_entry (y ∷ xs)

abbrev pub distance : List ℕ → List ℕ → ℕ
distance [] b = length b
distance (ca ∷ a) [] = length (ca ∷ a)
distance (ca ∷ a) (cb ∷ b) = last_entry (fill_rows (ca ∷ a) (cb ∷ b) 0 (count_up 0 (cb ∷ b)))

unfoldable pub levenshtein : String → String → ℕ
levenshtein a b = if a == b then 0 else distance (codes a) (codes b)
