-- ===== src/Detection/Intel/Parents.antt =====
-- detection/intel.py: the parents of a host, as texts and as the labels that the code joins.
use Prim.Native.Char.{Char, code}
use text.Mathlib.TextLemmas.{nil-append, cons-append}
use text.Mathlib.TextEquality.{Char-path}
use intrusion_detection_syst.Prelude.{
  String, ◌<>◌, true, Option, none, some, List, [], ◌∷◌, if◌then◌else◌, ◌==◌, string_eq, nat_eq,
  ◌≡◌, inl, inr, refl, ap, sym, subst, ◌∙◌, Bool-cases, ==_self, arith,
}
use intrusion_detection_syst.Prelude.Lists.{contains}
use intrusion_detection_syst.Prelude.Text.{split_dots, join_dots, extend_first}
use intrusion_detection_syst.Detection.Intel.{find_parent}

-- What follows each dot of a host, longest first.
abbrev pub parents_of : String → List String
parents_of String.[] = []
parents_of (String.◌∷◌ c s) = if code c == b'.' then s ∷ parents_of s else parents_of s

-- the first item that is listed
abbrev pub find_listed : List String → List String → Option String
find_listed domains [] = none
find_listed domains (d ∷ ds) = if contains d domains then some d else find_listed domains ds

split_dots-cons : (s : String) → (l : String) × ((ls : List String) × (split_dots s ≡ l ∷ ls))
unfolding split_dots
split_dots-cons String.[] = (String.[], ([], refl))
split_dots-cons (String.◌∷◌ c s) =
    let r = split_dots-cons s in
    elim (Bool-cases (code c == b'.')) [
      | inl t ↦ (String.[], (split_dots s, simp t))
      | inr t ↦ (String.◌∷◌ c r.0, (r.1.0, simp (t, r.1.1)))
    ]

dot-append : (c : Char) (s : String) → (code c == b'.') ≡ true → "." <> s ≡ String.◌∷◌ c s
dot-append c s t =
    subst (λ x. "." <> s ≡ String.◌∷◌ x s)
      (Char-path "." c (sym ((nat_eq.test_iff (code c) b'.').0 t)))
      (cons-append "." "" s ∙ ap (String.◌∷◌ ".") (nil-append s))

join_dots-extend_first :
    (c : Char) (parts : List String) (l : String) (ls : List String)
    → parts ≡ l ∷ ls
    → join_dots (extend_first c parts) ≡ String.◌∷◌ c (join_dots parts)
unfolding join_dots
join_dots-extend_first c [] l ls e = absurd cc
join_dots-extend_first c (part ∷ []) l ls e = refl
join_dots-extend_first c (part ∷ next ∷ parts) l ls e = cons-append c part _

join_dots-nil :
    (parts : List String) (l : String) (ls : List String)
    → parts ≡ l ∷ ls
    → join_dots ("" ∷ parts) ≡ "." <> join_dots parts
unfolding join_dots
join_dots-nil [] l ls e = absurd cc
join_dots-nil (part ∷ parts) l ls e = nil-append ("." <> join_dots (part ∷ parts))

join_dots-split_dots : (s : String) → join_dots (split_dots s) ≡ s
unfolding split_dots join_dots
join_dots-split_dots String.[] = refl
join_dots-split_dots (String.◌∷◌ c s) =
    let (l, (ls, e)) = split_dots-cons s in
    elim (Bool-cases (code c == b'.')) [
      | inl t ↦ simp t (
          join_dots-nil (split_dots s) l ls e
          ∙ ap (λ x. "." <> x) (join_dots-split_dots s)
          ∙ dot-append c s t)
      | inr t ↦ simp t (
          join_dots-extend_first c (split_dots s) l ls e
          ∙ ap (String.◌∷◌ c) (join_dots-split_dots s))
    ]

-- The loop over the labels is the search among what follows each dot.
find_parent-extend_first :
    (domains : List String) (c : Char) (parts : List String)
    → find_parent domains (extend_first c parts) ≡ find_parent domains parts
find_parent-extend_first domains c [] = refl
find_parent-extend_first domains c (l ∷ []) = refl
find_parent-extend_first domains c (l ∷ next ∷ ls) = refl

find_parent-nil :
    (domains parts : List String) (l : String) (ls : List String)
    → parts ≡ l ∷ ls
    → find_parent domains ("" ∷ parts) ≡ (
        if contains (join_dots parts) domains
        then some (join_dots parts)
        else find_parent domains parts)
find_parent-nil domains [] l ls e = absurd cc
find_parent-nil domains (part ∷ parts) l ls e = refl

pub find_parent-split_dots :
    (domains : List String) (s : String)
    → find_parent domains (split_dots s) ≡ find_listed domains (parents_of s)
unfolding split_dots
find_parent-split_dots domains String.[] = refl
find_parent-split_dots domains (String.◌∷◌ c s) =
    let (l, (ls, e)) = split_dots-cons s in
    elim (Bool-cases (code c == b'.')) [
      | inl t ↦ simp t (
          find_parent-nil domains (split_dots s) l ls e
          ∙ rw (join_dots-split_dots s, find_parent-split_dots domains s) refl)
      | inr t ↦
          simp t
            (find_parent-extend_first domains c (split_dots s) ∙ find_parent-split_dots domains s)
    ]

-- What follows a dot of a host is a parent, and nothing else is.
parents_of-dot : (s : String) → parents_of ("." <> s) ≡ s ∷ parents_of s
parents_of-dot s = ap parents_of (dot-append "." s refl)

pub parents_of-append : (p d : String) → contains d (parents_of (p <> ("." <> d))) ≡ true
parents_of-append String.[] d =
    ap (λ h. contains d (parents_of h)) (nil-append ("." <> d))
    ∙ ap (contains d) (parents_of-dot d)
    ∙ ground (arith, ==_self d)
parents_of-append (String.◌∷◌ c p) d =
    ap (λ h. contains d (parents_of h)) (cons-append c p ("." <> d))
    ∙ elim (Bool-cases (code c == b'.')) [
      | inl t ↦ ground (arith, t, parents_of-append p d)
      | inr t ↦ simp (t, parents_of-append p d)
    ]

pub parents_of-contains :
    (s d : String) → contains d (parents_of s) ≡ true → (p : String) × (s ≡ p <> ("." <> d))
parents_of-contains String.[] d h = absurd cc
parents_of-contains (String.◌∷◌ c s) d h = elim (Bool-cases (code c == b'.')) [
  | inl t ↦ elim (Bool-cases (s == d)) [
    | inl e ↦ (
      "",
      sym (dot-append c s t)
          ∙ ap (λ x. "." <> x) ((string_eq.test_iff s d).0 e)
          ∙ sym (nil-append ("." <> d)),
    )
    | inr e ↦
        let (p, q) = parents_of-contains s d (simp (t, e) at h) in
        (String.◌∷◌ c p, ap (String.◌∷◌ c) q ∙ sym (cons-append c p ("." <> d)))
  ]
  | inr t ↦
      let (p, q) = parents_of-contains s d (simp t at h) in
      (String.◌∷◌ c p, ap (String.◌∷◌ c) q ∙ sym (cons-append c p ("." <> d)))
]
