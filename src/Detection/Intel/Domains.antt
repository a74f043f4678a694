-- ===== src/Detection/Intel/Domains.antt =====
-- detection/intel.py: `match_domain` finds exactly the listed domains and the parents that are listed.
use intrusion_detection_syst.Prelude.{
  String, ◌<>◌, true, false, Option, none, some, List, [], ◌∷◌, if◌then◌else◌, ◌==◌, string_eq,
  nat_eq, ◌≡◌, ◌≢◌, ◌⊎◌, false≢true, inl, inr, refl, ap, sym, ◌∙◌, Bool-cases, ==_self, arith,
}
use intrusion_detection_syst.Prelude.Lists.{contains}
use intrusion_detection_syst.Detection.Intel.{
  Library, ThreatIntel, match_host, match_domain, host_of, is_nil,
}
use intrusion_detection_syst.Detection.Intel.Parents.{
  parents_of, find_listed, find_parent-split_dots, parents_of-append, parents_of-contains,
}

-- A host is a domain or stands under it.
abbrev pub IsUnder : String → String → Type 0
IsUnder host d = (host ≡ d) ⊎ ((p : String) × (host ≡ p <> ("." <> d)))

-- The answer for a host: a listed domain that it is or stands under, or `none` if there is none.
abbrev pub IsAnswer : List String → String → Option String → Type 0
IsAnswer domains host none = (d : String) → contains d domains ≡ true → IsUnder host d → ⊥
IsAnswer domains host (some d) = (contains d domains ≡ true) × IsUnder host d

find_listed-cases :
    (domains ds : List String)
    → ((find_listed domains ds ≡ none)
        × ((d : String) → contains d domains ≡ true → contains d ds ≡ true → ⊥))
      ⊎ ((d : String) × ((find_listed domains ds ≡ some d)
            × ((contains d domains ≡ true) × (contains d ds ≡ true))))
find_listed-cases domains [] = inl (refl, λ d h k. absurd cc)
find_listed-cases domains (x ∷ ds) = elim (Bool-cases (contains x domains)) [
  | inl t ↦ inr (x, (simp t, (t, ground (arith, ==_self x))))
  | inr t ↦ elim (find_listed-cases domains ds) [
    | inl (e, missing) ↦ inl (
      simp (t, e),
      λ d h k. elim (Bool-cases (x == d)) [
        | inl q ↦
            false≢true (sym t ∙ ap (λ z. contains z domains) ((string_eq.test_iff x d).0 q) ∙ h)
        | inr q ↦ missing d h (simp q at k)
      ],
    )
    | inr (d, (e, (listed, there))) ↦ inr (d, (simp (t, e), (listed, ground (arith, there))))
  ]
]

match_host-IsAnswer :
    (domains : List String) (host : String)
    → (host == "") ≡ false
    → IsAnswer domains host (match_host domains host)
match_host-IsAnswer domains host nonempty = elim (Bool-cases (contains host domains)) [
  | inl t ↦ simp (nonempty, t) (refl, inl refl)
  | inr t ↦ elim (find_listed-cases domains (parents_of host)) [
    | inl (e, missing) ↦
        simp (nonempty, t, find_parent-split_dots domains host, e)
          (λ d h u. elim u [
            | inl same ↦ false≢true (sym t ∙ ap (λ z. contains z domains) same ∙ h)
            | inr (p, q) ↦
                missing d h (ap (λ z. contains d (parents_of z)) q ∙ parents_of-append p d)
          ])
    | inr (d, (e, (listed, there))) ↦
        simp (nonempty, t, find_parent-split_dots domains host, e)
          (listed, inr (parents_of-contains host d there))
  ]
]

listed-IsAnswer :
    (domains : List String) (host : String)
    → (host == "") ≡ false
    → IsAnswer domains host (if is_nil domains then none else match_host domains host)
listed-IsAnswer [] host h = λ d k u. absurd cc
listed-IsAnswer (d ∷ domains) host h = match_host-IsAnswer (d ∷ domains) host h

ne-test : (s t : String) → s ≢ t → (s == t) ≡ false
ne-test s t h = elim (Bool-cases (s == t)) [
  | inl e ↦ absurd (h ((string_eq.test_iff s t).0 e))
  | inr e ↦ e
]

-- For a value whose host, its text in lower case without blanks around it and dots at its end, is
-- not empty, `match_domain` gives a listed domain that the host is or stands under, and gives
-- nothing only if no listed domain is one.
pub match_domain-IsAnswer :
    (lib : Library) (ti : ThreatIntel lib) (value : String)
    → value ≢ ""
    → host_of lib value ≢ ""
    → IsAnswer ti.domains (host_of lib value) (match_domain lib ti value)
unfolding match_domain
match_domain-IsAnswer lib ti value v h =
    simp (ne-test value "" v) (listed-IsAnswer ti.domains (host_of lib value) (ne-test _ "" h))
