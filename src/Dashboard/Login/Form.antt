-- ===== src/Dashboard/Login/Form.antt =====
-- dashboard/routes.py: what the regular expressions of the login form say of a text.
use intrusion_detection_syst.Prelude.{
  ℕ, ◌≤◌, String, Bool, true, ◌||◌, ◌≡◌, refl, ap, sym, ◌⊎◌, inl, inr, List, [], ◌∷◌, ◌++◌, ◌==◌,
  nat_eq, arith, Bool-cases,
}
use mathlib.Core.List.{append-nil}
use intrusion_detection_syst.Prelude.Lists.{all, All, length}
use intrusion_detection_syst.Prelude.Text.{codes}
use intrusion_detection_syst.Dashboard.Login.{
  in_chars, is_name_char, is_digit, of_class, without_newline, is_username, is_totp,
}

abbrev pub IsDigit : ℕ → Type 0
IsDigit c = (b'0' ≤ c) × (c ≤ b'9')

-- A letter of ASCII, a digit, or one of ".", "_" and "-".
abbrev pub IsNameChar : ℕ → Type 0
IsNameChar c =
    ((b'A' ≤ c) × (c ≤ b'Z'))
    ⊎ (((b'a' ≤ c) × (c ≤ b'z')) ⊎ (IsDigit c ⊎ ((c ≡ b'.') ⊎ ((c ≡ b'_') ⊎ (c ≡ b'-')))))

-- A text of so many characters of a class, after which one newline may stand.
pub record HasForm (class : ℕ → Type 0) (least most : ℕ) (s : String) : Type 0 where
  pub text : List ℕ
  pub ending : List ℕ
  pub split : codes s ≡ text ++ ending
  pub newline : (ending ≡ []) ⊎ (ending ≡ 10 ∷ [])
  pub in_class : All class text
  pub least_le : least ≤ length text
  pub le_most : length text ≤ most

is_digit→IsDigit : (c : ℕ) → is_digit c ≡ true → IsDigit c
is_digit→IsDigit c h = ground arith

is_name_char→IsNameChar : (c : ℕ) → is_name_char c ≡ true → IsNameChar c
is_name_char→IsNameChar c h = elim (Bool-cases (in_chars b'A' b'Z' c)) [
  | inl t ↦ inl (ground arith)
  | inr t ↦ elim (Bool-cases (in_chars b'a' b'z' c)) [
    | inl u ↦ inr (inl (ground arith))
    | inr u ↦ elim (Bool-cases (is_digit c)) [
      | inl v ↦ inr (inr (inl (ground arith)))
      | inr v ↦ elim (Bool-cases (c == b'.')) [
        | inl w ↦ inr (inr (inr (inl (ground arith))))
        | inr w ↦ elim (Bool-cases (c == b'_')) [
          | inl x ↦ inr (inr (inr (inr (inl (ground arith)))))
          | inr x ↦ inr (inr (inr (inr (inr (ground arith)))))
        ]
      ]
    ]
  ]
]

all-All :
    (test : ℕ → Bool) (class : ℕ → Type 0) (cs : List ℕ)
    → ((c : ℕ) → test c ≡ true → class c)
    → all test cs ≡ true
    → All class cs
all-All test class [] f h = tt
all-All test class (c ∷ cs) f h = (f c (ground arith), all-All test class cs f (ground arith))

without_newline-splits :
    (cs : List ℕ)
    → (ending : List ℕ) × (cs ≡ without_newline cs ++ ending) × ((ending ≡ []) ⊎ (ending ≡ 10 ∷ []))
without_newline-splits [] = ([], refl, inl refl)
without_newline-splits (c ∷ []) = elim (Bool-cases (c == 10)) [
  | inl t ↦ simp t (10 ∷ [], ap (λ x. x ∷ []) (ground arith), inr refl)
  | inr t ↦ simp t ([], refl, inl refl)
]
without_newline-splits (c ∷ d ∷ cs) =
    let (ending, split, newline) = without_newline-splits (d ∷ cs) in
    (ending, ap (◌∷◌ c) split, newline)

module _ (test : ℕ → Bool) (class : ℕ → Type 0) (least most : ℕ)
    (sound : (c : ℕ) → test c ≡ true → class c) where
  of_class-HasForm :
      (s : String) (text ending : List ℕ)
      → codes s ≡ text ++ ending
      → (ending ≡ []) ⊎ (ending ≡ 10 ∷ [])
      → of_class test least most text ≡ true
      → HasForm class least most s
  of_class-HasForm s text ending split newline h = record {
    text = text;
    ending = ending;
    split = split;
    newline = newline;
    in_class = all-All test class text sound (ground arith);
    least_le = ground arith;
    le_most = ground arith;
  }

  matches-HasForm :
      (s : String)
      → (of_class test least most (codes s) || of_class test least most (without_newline (codes s)))
        ≡ true
      → HasForm class least most s
  matches-HasForm s h = elim (Bool-cases (of_class test least most (codes s))) [
    | inl whole ↦ of_class-HasForm s (codes s) [] (sym (append-nil (codes s))) (inl refl) whole
    | inr other ↦
        let (ending, split, newline) = without_newline-splits (codes s) in
        of_class-HasForm s (without_newline (codes s)) ending split newline (simp other at h)
  ]

pub is_username-HasForm : (s : String) → is_username s ≡ true → HasForm IsNameChar 1 64 s
unfolding is_username
is_username-HasForm s h = matches-HasForm is_name_char IsNameChar 1 64 is_name_char→IsNameChar s h

pub is_totp-HasForm : (s : String) → is_totp s ≡ true → HasForm IsDigit 6 8 s
unfolding is_totp
is_totp-HasForm s h = matches-HasForm is_digit IsDigit 6 8 is_digit→IsDigit s h
