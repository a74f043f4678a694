-- ===== src/Fim/Directories.antt =====
-- fim/monitor.py: the check for created files over all directories, and over again.
use intrusion_detection_syst.Prelude.{
  ℕ, String, Bool, true, false, Option, List, [], ◌∷◌, string_eq, ◌≡◌, refl, ap, ◌∙◌, inl, inr,
  Bool-cases, sym, subst,
}
use intrusion_detection_syst.Prelude.Lists.{contains, All}
use intrusion_detection_syst.Prelude.Dict.{Dict}
use intrusion_detection_syst.Detection.Event.{FimEvent}
use intrusion_detection_syst.Fim.{
  Baseline, Directory, FimStore, Disk, known_paths, check_created, check_paths, check_directories,
  check_directories_for_created, iter_directory_files,
}
use intrusion_detection_syst.Fim.Created.{IsKnown}
use intrusion_detection_syst.Fim.Once.{IsSound, check_paths-Settles, AreReadable, AreKnown}

record Covers (disk : Disk) (directories : Dict String Directory)
    (before after : List String × FimStore) : Type 0 where
  sound : IsSound after
  grows : (q : String) → IsKnown before.1.file_baselines q → IsKnown after.1.file_baselines q
  covered : AreKnown disk directories after.1.file_baselines
  same : after.1.fim_directories ≡ before.1.fim_directories

All-grows :
    (a b : Dict String Baseline) (paths : List String)
    → ((q : String) → IsKnown a q → IsKnown b q)
    → All (IsKnown a) paths
    → All (IsKnown b) paths
All-grows a b [] g h = tt
All-grows a b (path ∷ paths) g h = (g path h.0, All-grows a b paths g h.1)

check_directories-Covers :
    (disk : Disk) (now : ℕ) (directories : Dict String Directory) (ks : List String × FimStore)
    → AreReadable disk directories
    → IsSound ks
    → Covers disk directories ks (check_directories (λ e. false) disk now directories ks)
unfolding check_directories
check_directories-Covers disk now [] ks r i = record {
  sound = i;
  grows = λ q h. h;
  covered = tt;
  same = refl;
}
check_directories-Covers disk now ((dirpath, d) ∷ rest) ks r i = elim (Bool-cases d.is_active) [
  | inl t ↦
      let paths = iter_directory_files disk dirpath d.recursive in
      let first = check_paths-Settles disk now dirpath d.created_severity paths ks (r.0 t) i in
      let next = check_paths (λ e. false) disk now dirpath d.created_severity paths ks in
      let last = check_directories (λ e. false) disk now rest next in
      let more = check_directories-Covers disk now rest next r.1 first.sound in
      simp t (record {
        sound = more.sound;
        grows = λ q h. more.grows q (first.grows q h);
        covered = (
          λ a. All-grows next.1.file_baselines last.1.file_baselines paths more.grows first.settled,
          more.covered,
        );
        same = more.same ∙ first.directories;
      })
  | inr t ↦
      let more = check_directories-Covers disk now rest ks r.1 i in
      simp t (record {
        sound = more.sound;
        grows = more.grows;
        covered = (λ a. absurd (let bad = simp t at a in cc), more.covered);
        same = more.same;
      })
]

module _ (fails : FimEvent → Bool) (disk : Disk) (now : ℕ) where
  check_paths_known :
      (dirpath : String) (severity : Option String) (paths known : List String) (s : FimStore)
      → All (λ path. contains path known ≡ true) paths
      → check_paths fails disk now dirpath severity paths (known, s) ≡ (known, s)
  unfolding check_paths check_created
  check_paths_known dirpath severity [] known s h = refl
  check_paths_known dirpath severity (path ∷ paths) known s h =
      simp (h.0, check_paths_known dirpath severity paths known s h.1)

  check_directories_known :
      (directories : Dict String Directory) (d : Dict String Baseline) (s : FimStore)
      → AreKnown disk directories d
      → check_directories fails disk now directories (known_paths d, s) ≡ (known_paths d, s)
  unfolding check_directories
  check_directories_known [] d s h = refl
  check_directories_known ((dirpath, m) ∷ rest) d s h = elim (Bool-cases m.is_active) [
    | inl t ↦
        let paths = iter_directory_files disk dirpath m.recursive in
        simp (
          t,
          check_paths_known dirpath m.created_severity paths (known_paths d) s (h.0 t),
          check_directories_known rest d s h.1,
        )
    | inr t ↦ simp (t, check_directories_known rest d s h.1)
  ]

-- When every file that the monitored directories list can be read and the database fails for no
-- event, the check for created files leaves a store on which the next check of the same disk, at
-- any time and whatever then fails, changes nothing: no created file is reported twice.
pub check_directories_for_created_once :
    (disk : Disk) (now later : ℕ) (fails : FimEvent → Bool) (s : FimStore)
    → AreReadable disk s.fim_directories
    → check_directories_for_created fails disk later
        (check_directories_for_created (λ e. false) disk now s)
      ≡ check_directories_for_created (λ e. false) disk now s
unfolding check_directories_for_created
check_directories_for_created_once disk now later fails s r =
    let ks : List String × FimStore = (known_paths s.file_baselines, s) in
    let c = check_directories-Covers disk now s.fim_directories ks r (λ q h. h) in
    let d = (check_directories_for_created (λ e. false) disk now s).file_baselines in
    ap (λ x. x.1)
      (check_directories_known fails disk later _ _ _
        (subst (λ m. AreKnown disk m d) (sym c.same) c.covered))
