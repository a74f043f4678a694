-- ===== src/Fim/Once.antt =====
-- fim/monitor.py: the check of a directory's files gives each of them a baseline.
use intrusion_detection_syst.Prelude.{
  ℕ, String, true, false, Option, some, List, [], ◌∷◌, ◌++◌, ◌==◌, string_eq, ◌≡◌, refl, ◌∙◌, ◌⊎◌,
  inl, inr, Bool-cases, arith, sym, subst,
}
use intrusion_detection_syst.Prelude.Lists.{contains, All}
use intrusion_detection_syst.Prelude.Dict.{Dict}
use intrusion_detection_syst.Detection.Event.{FimEvent}
use intrusion_detection_syst.Fim.{
  Baseline, Directory, FimStore, Disk, replace_row, store_baseline, calculate_sha256, check_created,
  check_paths, iter_directory_files, persist_fim_event, notify, store_created, has_baseline,
  created_event,
}
use intrusion_detection_syst.Fim.Created.{
  IsKnown, IsKnown-replace, IsKnown-replace_self, is_active_baseline-IsKnown,
}

notify-file_baselines :
    (e : FimEvent) (s : FimStore) → (notify e s).file_baselines ≡ s.file_baselines
unfolding notify
notify-file_baselines e s = elim (Bool-cases (e.level == "CRITICAL")) [
  | inl t ↦ simp t
  | inr t ↦ simp t
]

notify-fim_directories :
    (e : FimEvent) (s : FimStore) → (notify e s).fim_directories ≡ s.fim_directories
unfolding notify
notify-fim_directories e s = elim (Bool-cases (e.level == "CRITICAL")) [
  | inl t ↦ simp t
  | inr t ↦ simp t
]

-- The set of known paths holds only paths of the store.
abbrev pub IsSound : List String × FimStore → Type 0
IsSound (known, s) = (q : String) → contains q known ≡ true → IsKnown s.file_baselines q

-- What a check of some paths leaves.
pub record Settles (paths : List String) (before after : List String × FimStore) : Type 0 where
  pub sound : IsSound after
  pub grows : (q : String) → IsKnown before.1.file_baselines q → IsKnown after.1.file_baselines q
  pub settled : All (IsKnown after.1.file_baselines) paths
  pub directories : after.1.fim_directories ≡ before.1.fim_directories

contains-append_one :
    (q path : String) (known : List String)
    → contains q (known ++ path ∷ []) ≡ true
    → (contains q known ≡ true) ⊎ ((path == q) ≡ true)
contains-append_one q path [] h = ground (arith, h)
contains-append_one q path (x ∷ known) h = ground (arith, contains-append_one q path known)

-- The files that can be read.
abbrev pub IsReadable : Disk → String → Type 0
IsReadable disk path = (digest : String) × (calculate_sha256 disk path ≡ some digest)

Settles-skip :
    (path : String) (known : List String) (s : FimStore)
    → IsSound (known, s)
    → IsKnown s.file_baselines path
    → Settles (path ∷ []) (known, s) (known, s)
Settles-skip path known s i k = record {
  sound = i;
  grows = λ q h. h;
  settled = (k, tt);
  directories = refl;
}

module _ (disk : Disk) (now : ℕ) where
  Settles-store :
      (e : FimEvent) (path digest : String) (known : List String) (s : FimStore)
      → IsSound (known, s)
      → Settles
          (path ∷ [])
          (known, s)
          (known ++ path ∷ [], notify e (store_baseline path digest (persist_fim_event e s)))
  unfolding store_baseline persist_fim_event
  Settles-store e path digest known s i = record {
    sound = λ q h. elim (contains-append_one q path known h) [
      | inl k ↦
          subst (λ d. IsKnown d q) same (IsKnown-replace s.file_baselines path digest q (i q k))
      | inr t ↦
          subst
            (IsKnown (notify e (store_baseline path digest (persist_fim_event e s))).file_baselines)
            ((string_eq.test_iff path q).0 t) path_known
    ];
    grows = λ q h. subst (λ d. IsKnown d q) same (IsKnown-replace s.file_baselines path digest q h);
    settled = (path_known, tt);
    directories = notify-fim_directories e (store_baseline path digest (persist_fim_event e s));
  }
    where
      same :
          replace_row s.file_baselines path (record { hash_sha256 = digest; is_active = true })
          ≡ (notify e (store_baseline path digest (persist_fim_event e s))).file_baselines
      same = sym (notify-file_baselines e (store_baseline path digest (persist_fim_event e s)))

      path_known :
          IsKnown
            (notify e (store_baseline path digest (persist_fim_event e s))).file_baselines
            path
      path_known =
          subst (λ d. IsKnown d path) same (IsKnown-replace_self s.file_baselines path digest)

  check_created-Settles :
      (dirpath : String) (severity : Option String) (path : String) (known : List String)
      (s : FimStore)
      → IsReadable disk path
      → IsSound (known, s)
      → Settles
          (path ∷ [])
          (known, s)
          (check_created (λ e. false) disk now dirpath severity path (known, s))
  unfolding check_created store_created
  check_created-Settles dirpath severity path known s (digest, r) i =
      elim (Bool-cases (contains path known)) [
        | inl t ↦ simp t (Settles-skip path known s i (i path t))
        | inr t ↦ elim (Bool-cases (has_baseline path s)) [
          | inl b ↦
              simp (t, b)
                (Settles-skip path known s i (is_active_baseline-IsKnown path s.file_baselines b))
          | inr b ↦
              simp (t, b, r)
                (Settles-store (created_event now severity path dirpath) path digest known s i)
        ]
      ]

  Settles-trans :
      (path : String) (paths : List String) (a b c : List String × FimStore)
      → Settles (path ∷ []) a b
      → Settles paths b c
      → Settles (path ∷ paths) a c
  Settles-trans path paths a b c x y = record {
    sound = y.sound;
    grows = λ q h. y.grows q (x.grows q h);
    settled = (y.grows path x.settled.0, y.settled);
    directories = y.directories ∙ x.directories;
  }

  pub check_paths-Settles :
      (dirpath : String) (severity : Option String) (paths : List String)
      (ks : List String × FimStore)
      → All (IsReadable disk) paths
      → IsSound ks
      → Settles paths ks (check_paths (λ e. false) disk now dirpath severity paths ks)
  unfolding check_paths
  check_paths-Settles dirpath severity [] ks r i = record {
    sound = i;
    grows = λ q h. h;
    settled = tt;
    directories = refl;
  }
  check_paths-Settles dirpath severity (path ∷ paths) (known, s) r i =
      let first = check_created-Settles dirpath severity path known s r.0 i in
      Settles-trans path paths _ _ _ first
        (check_paths-Settles dirpath severity paths _ r.1 first.sound)

-- Each file that a monitored directory lists can be read.
abbrev pub AreReadable : Disk → Dict String Directory → Type 0
AreReadable disk [] = Unit
AreReadable disk ((dirpath, d) ∷ rest) =
    (d.is_active ≡ true → All (IsReadable disk) (iter_directory_files disk dirpath d.recursive))
    × AreReadable disk rest

-- Each file that a monitored directory lists has an active baseline.
abbrev pub AreKnown : Disk → Dict String Directory → Dict String Baseline → Type 0
AreKnown disk [] known = Unit
AreKnown disk ((dirpath, d) ∷ rest) known =
    (d.is_active ≡ true → All (IsKnown known) (iter_directory_files disk dirpath d.recursive))
    × AreKnown disk rest known
