-- ===== src/Fim/Initialize.antt =====
-- fim/monitor.py: `initialize_baselines`.
use intrusion_detection_syst.Prelude.{
  String, Bool, true, ◌||◌, Option, none, some, List, [], ◌∷◌, if◌then◌else◌, ◌==◌, string_eq,
}
use intrusion_detection_syst.Prelude.Lists.{add_new}
use intrusion_detection_syst.Prelude.Dict.{Dict}
use intrusion_detection_syst.Fim.{
  Directory, FimStore, Disk, replace_row, calculate_sha256, iter_directory_files, store_baseline,
}

-- An item of `critical_dirs`; `recursive` is the truth of its value, true if it is absent.
pub record DirectoryItem : Type 0 where
  pub path : String
  pub recursive : Bool
  pub created_severity : Option String

abbrev pub known_severity : String → String
known_severity level =
    if level == "INFO" || level == "WARNING" || level == "ERROR" || level == "CRITICAL"
    then level
    else "WARNING"

abbrev pub severity_of : (String → String) → Option String → String
severity_of upper none = known_severity (upper "WARNING")
severity_of upper (some level) = known_severity (upper level)

abbrev pub add_files : List String → List String → List String
add_files files [] = files
add_files files (f ∷ fs) = add_files (add_new files f) fs

-- The loop over `critical_dirs`: the rows to register, and the files to baseline.
unfoldable pub collect :
    (String → String)
    → Disk
    → List DirectoryItem
    → Dict String Directory × List String
    → Dict String Directory × List String
unfolding iter_directory_files
collect upper disk [] acc = acc
collect upper disk (item ∷ items) (directories, files) =
    collect upper disk items (elim (disk.glob item.path item.recursive) [
      | none ↦ (directories, files)
      | some _ ↦ (
        replace_row directories item.path (record {
          recursive = item.recursive;
          created_severity = some (severity_of upper item.created_severity);
          is_active = true;
        }),
        add_files files (iter_directory_files disk item.path item.recursive),
      )
    ])

abbrev pub store_hashed : String → Option String → FimStore → FimStore
store_hashed path none s = s
store_hashed path (some digest) s = store_baseline path digest s

unfoldable pub baseline_all : Disk → List String → FimStore → FimStore
baseline_all disk [] s = s
baseline_all disk (path ∷ paths) s =
    baseline_all disk paths (store_hashed path (calculate_sha256 disk path) s)

-- The configuration that was read; a missing file leaves the store as it is.
unfoldable pub initialize_baselines :
    (String → String) → Disk → Option (List String × List DirectoryItem) → FimStore → FimStore
unfolding collect baseline_all
initialize_baselines upper disk none s = s
initialize_baselines upper disk (some (critical_files, critical_dirs)) s =
    let (directories, files) =
      collect upper disk critical_dirs (s.fim_directories, add_files [] critical_files) in
    baseline_all disk (disk.sorted files) (record s { fim_directories = directories })
