-- ===== src/Fim/Created.antt =====
-- fim/monitor.py: a created file is reported once, and then has a baseline.
use intrusion_detection_syst.Prelude.{
  String, true, false, subst, [], ◌∷◌, ◌==◌, string_eq, ◌≡◌, inl, inr, Bool-cases, ==_self, arith,
}
use intrusion_detection_syst.Prelude.Lists.{contains}
use intrusion_detection_syst.Prelude.Dict.{Dict, get}
use intrusion_detection_syst.Fim.{Baseline, replace_row, known_paths, is_active_baseline}

-- A path is known to the store if it has an active baseline.
abbrev pub IsKnown : Dict String Baseline → String → Type 0
IsKnown d path = contains path (known_paths d) ≡ true

pub IsKnown-replace_self :
    (d : Dict String Baseline) (path digest : String)
    → IsKnown (replace_row d path (record { hash_sha256 = digest; is_active = true })) path
unfolding replace_row
IsKnown-replace_self [] path digest = ground (arith, ==_self path)
IsKnown-replace_self ((q, b) ∷ d) path digest = elim (Bool-cases (q == path)) [
  | inl e ↦ simp (e, IsKnown-replace_self d path digest)
  | inr e ↦ elim (Bool-cases b.is_active) [
    | inl a ↦ simp (e, a, IsKnown-replace_self d path digest)
    | inr a ↦ simp (e, a, IsKnown-replace_self d path digest)
  ]
]

pub IsKnown-replace :
    (d : Dict String Baseline) (path digest q : String)
    → IsKnown d q
    → IsKnown (replace_row d path (record { hash_sha256 = digest; is_active = true })) q
unfolding replace_row
IsKnown-replace [] path digest q h = absurd cc
IsKnown-replace ((p, b) ∷ d) path digest q h =
    let replaced =
      replace_row ((p, b) ∷ d) path (record { hash_sha256 = digest; is_active = true }) in
    elim (Bool-cases (path == q)) [
      | inl same ↦
          subst (IsKnown replaced) ((string_eq.test_iff path q).0 same)
            (IsKnown-replace_self ((p, b) ∷ d) path digest)
      | inr differ ↦ elim (Bool-cases b.is_active) [
        | inl a ↦ elim (Bool-cases (p == q)) [
          | inl t ↦
              let e : (p == path) ≡ false = ground (
                arith,
                string_eq.test_iff p q,
                string_eq.test_iff p path,
                string_eq.test_iff path q,
              ) in
              simp (e, a, t)
          | inr t ↦
              let h' = simp (a, t) at h in
              elim (Bool-cases (p == path)) [
                | inl e ↦ simp (e, IsKnown-replace d path digest q h')
                | inr e ↦ simp (e, a, t, IsKnown-replace d path digest q h')
              ]
        ]
        | inr a ↦
            let h' = simp a at h in
            elim (Bool-cases (p == path)) [
              | inl e ↦ simp (e, IsKnown-replace d path digest q h')
              | inr e ↦ simp (e, a, IsKnown-replace d path digest q h')
            ]
      ]
    ]

pub is_active_baseline-IsKnown :
    (path : String) (d : Dict String Baseline)
    → is_active_baseline (get d path) ≡ true
    → IsKnown d path
unfolding get
is_active_baseline-IsKnown path [] h = absurd cc
is_active_baseline-IsKnown path ((p, b) ∷ d) h = elim (Bool-cases (p == path)) [
  | inl e ↦ let h' = simp e at h in simp (h', e)
  | inr e ↦
      let h' = simp e at h in
      elim (Bool-cases b.is_active) [
        | inl a ↦ simp (a, e, is_active_baseline-IsKnown path d h')
        | inr a ↦ simp (a, is_active_baseline-IsKnown path d h')
      ]
]
