-- ===== src/Fim/Changed.antt =====
-- fim/monitor.py: the baselines of `initialize_baselines` against the same disk.
use intrusion_detection_syst.Prelude.{
  ℕ, String, Bool, true, Option, none, some, List, [], ◌∷◌, ◌==◌, string_eq, ◌≡◌, refl, ap, inl,
  inr, Bool-cases, ==_self,
}
use intrusion_detection_syst.Prelude.Dict.{Dict}
use intrusion_detection_syst.Detection.Event.{FimEvent}
use intrusion_detection_syst.Fim.{
  Baseline, FimStore, Disk, replace_row, store_baseline, calculate_sha256, check_files, verdict,
  check_integrity, check_directories_for_created,
}
use intrusion_detection_syst.Fim.Initialize.{
  DirectoryItem, initialize_baselines, baseline_all, store_hashed, collect, add_files,
}

-- The hash of each baseline is that of the file on the disk.
abbrev pub AreCurrent : Disk → Dict String Baseline → Type 0
AreCurrent disk [] = Unit
AreCurrent disk ((path, b) ∷ rest) =
    (calculate_sha256 disk path ≡ some b.hash_sha256) × AreCurrent disk rest

AreCurrent-replace :
    (disk : Disk) (d : Dict String Baseline) (path digest : String)
    → calculate_sha256 disk path ≡ some digest
    → AreCurrent disk d
    → AreCurrent disk (replace_row d path (record { hash_sha256 = digest; is_active = true }))
unfolding replace_row
AreCurrent-replace disk [] path digest e h = (e, tt)
AreCurrent-replace disk ((q, b) ∷ d) path digest e h = elim (Bool-cases (q == path)) [
  | inl t ↦ simp t (AreCurrent-replace disk d path digest e h.1)
  | inr t ↦ simp t (h.0, AreCurrent-replace disk d path digest e h.1)
]

store_hashed-AreCurrent :
    (disk : Disk) (path : String) (s : FimStore) (digest : Option String)
    → calculate_sha256 disk path ≡ digest
    → AreCurrent disk s.file_baselines
    → AreCurrent disk (store_hashed path digest s).file_baselines
unfolding store_baseline
store_hashed-AreCurrent disk path s none e h = h
store_hashed-AreCurrent disk path s (some digest) e h =
    AreCurrent-replace disk s.file_baselines path digest e h

baseline_all-AreCurrent :
    (disk : Disk) (paths : List String) (s : FimStore)
    → AreCurrent disk s.file_baselines
    → AreCurrent disk (baseline_all disk paths s).file_baselines
unfolding baseline_all
baseline_all-AreCurrent disk [] s h = h
baseline_all-AreCurrent disk (path ∷ paths) s h =
    baseline_all-AreCurrent disk paths _
      (store_hashed-AreCurrent disk path s (calculate_sha256 disk path) refl h)

check_files_current :
    (fails : FimEvent → Bool) (disk : Disk) (now : ℕ) (d : Dict String Baseline) (s : FimStore)
    → AreCurrent disk d
    → check_files fails disk now d s ≡ s
unfolding check_files verdict
check_files_current fails disk now [] s h = refl
check_files_current fails disk now ((path, b) ∷ d) s h = elim (Bool-cases b.is_active) [
  | inl t ↦ simp (t, h.0, ==_self b.hash_sha256, check_files_current fails disk now d s h.1)
  | inr t ↦ simp (t, check_files_current fails disk now d s h.1)
]

initialize_baselines-AreCurrent :
    (upper : String → String) (disk : Disk) (config : Option (List String × List DirectoryItem))
    (s : FimStore)
    → AreCurrent disk s.file_baselines
    → AreCurrent disk (initialize_baselines upper disk config s).file_baselines
unfolding initialize_baselines
initialize_baselines-AreCurrent upper disk none s h = h
initialize_baselines-AreCurrent upper disk (some (critical_files, critical_dirs)) s h =
    let (directories, files) =
      collect upper disk critical_dirs (s.fim_directories, add_files [] critical_files) in
    baseline_all-AreCurrent disk (disk.sorted files) (record s { fim_directories = directories }) h

-- When the baselines present before `initialize_baselines`, if any, agree with the disk, an
-- integrity check after it on the same disk does what the check for created files alone does: it
-- reports no file as deleted or modified.
pub initialize_baselines-check_integrity :
    (upper : String → String) (disk : Disk) (now : ℕ) (fails : FimEvent → Bool)
    (config : Option (List String × List DirectoryItem)) (s : FimStore)
    → AreCurrent disk s.file_baselines
    → check_integrity fails disk now (initialize_baselines upper disk config s)
      ≡ check_directories_for_created fails disk now (initialize_baselines upper disk config s)
unfolding check_integrity
initialize_baselines-check_integrity upper disk now fails config s h =
    ap (check_directories_for_created fails disk now) (
      check_files_current fails disk now _ _
        (initialize_baselines-AreCurrent upper disk config s h))
