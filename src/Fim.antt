-- ===== src/Fim.antt =====
-- fim/monitor.py: baselines of files, their comparison with the disk, and new files in directories.
pub mod Initialize
pub mod Created
pub mod Once
pub mod Directories
pub mod Changed
use intrusion_detection_syst.Prelude.{
  ℕ, String, ◌<>◌, Bool, true, false, not, ◌&&◌, ◌||◌, Option, none, some, List, [], ◌∷◌, ◌++◌,
  if◌then◌else◌, ◌==◌, string_eq,
}
use intrusion_detection_syst.Prelude.Lists.{contains, add_new, keep}
use intrusion_detection_syst.Prelude.Dict.{Dict, get}
use intrusion_detection_syst.Detection.Event.{FimEvent}

pub record Baseline : Type 0 where
  pub hash_sha256 : String
  pub is_active : Bool

pub record Directory : Type 0 where
  pub recursive : Bool
  pub created_severity : Option String
  pub is_active : Bool

-- The tables of fim/schema.sql by their paths, in the order of their ids, the rows that go to `fim_events` and, in the
-- same transaction, to `audit_events`, and the events handed to `send_security_alert`.
pub record FimStore : Type 0 where
  pub file_baselines : Dict String Baseline
  pub fim_directories : Dict String Directory
  pub persisted : List FimEvent
  pub alerted : List FimEvent

-- What the disk answers: a file's content, `none` if it is absent or cannot be read; the regular
-- files that a directory's glob gives, `none` if it is no directory. `hexdigest` is hashlib's SHA-256.
pub record Disk : Type 0 where
  pub content : String → Option String
  pub glob : String → Bool → Option (List String)
  pub sorted : List String → List String
  pub hexdigest : String → String

abbrev pub digest_of : (String → String) → Option String → Option String
digest_of hexdigest none = none
digest_of hexdigest (some s) = some (hexdigest s)

unfoldable pub calculate_sha256 : Disk → String → Option String
calculate_sha256 disk path = digest_of disk.hexdigest (disk.content path)

abbrev pub files_or_none : (List String → List String) → Option (List String) → List String
files_or_none sorted none = []
files_or_none sorted (some files) = sorted files

unfoldable pub iter_directory_files : Disk → String → Bool → List String
iter_directory_files disk dirpath recursive =
    files_or_none disk.sorted (disk.glob dirpath recursive)

-- INSERT OR REPLACE: the row of that path is deleted, and the new one goes to the end of the table.
unfoldable pub replace_row {ℓ} : {V : Type ℓ} → Dict String V → String → V → Dict String V
replace_row table path value = keep (λ row. not (row.0 == path)) table ++ (path, value) ∷ []

unfoldable pub store_baseline : String → String → FimStore → FimStore
unfolding replace_row
store_baseline path digest s = record s {
  file_baselines =
      replace_row s.file_baselines path (record { hash_sha256 = digest; is_active = true });
}

unfoldable pub persist_fim_event : FimEvent → FimStore → FimStore
persist_fim_event e s = record s { persisted = s.persisted ++ e ∷ [] }

unfoldable pub notify : FimEvent → FimStore → FimStore
notify e s = if e.level == "CRITICAL" then record s { alerted = s.alerted ++ e ∷ [] } else s

-- `fails` says for which events the database raises: nothing is stored and no mail is sent.
unfoldable pub dispatch_fim_event : (FimEvent → Bool) → FimEvent → FimStore → FimStore
unfolding persist_fim_event notify
dispatch_fim_event fails e s = if fails e then s else notify e (persist_fim_event e s)

unfoldable pub fim_event : ℕ → String → String → String → String → FimEvent
fim_event now level event_type path message = record {
  timestamp = now;
  level = level;
  event_type = event_type;
  filepath = path;
  message = message;
  module_source = "fim";
}

-- The three branches over one baseline.
unfoldable pub verdict : ℕ → String → String → Option String → Option FimEvent
unfolding fim_event
verdict now path stored none = some (
    fim_event now "CRITICAL" "DELETED" path
      ("CRITICAL: Protected file " <> path <> " has been deleted."))
verdict now path stored (some current) =
    if current == stored
    then none
    else some (
        fim_event now "CRITICAL" "MODIFIED" path
          ("CRITICAL: Integrity breach detected in " <> path <> "."))

abbrev pub dispatch_found : (FimEvent → Bool) → Option FimEvent → FimStore → FimStore
dispatch_found fails none s = s
dispatch_found fails (some e) s = dispatch_fim_event fails e s

-- The loop over the baselines as they were read; inactive rows are not selected.
unfoldable pub check_files :
    (FimEvent → Bool) → Disk → ℕ → Dict String Baseline → FimStore → FimStore
unfolding verdict dispatch_fim_event
check_files fails disk now [] s = s
check_files fails disk now ((path, b) ∷ rest) s = check_files fails disk now rest (
    if b.is_active
    then dispatch_found fails (verdict now path b.hash_sha256 (calculate_sha256 disk path)) s
    else s)

abbrev pub or_warning : Option String → String
or_warning none = "WARNING"
or_warning (some level) = if level == "" then "WARNING" else level

unfoldable pub created_event : ℕ → Option String → String → String → FimEvent
unfolding fim_event
created_event now severity path dirpath =
    fim_event now (or_warning severity) "CREATED" path
      ("New file created in monitored directory: " <> path <> " (watch root: " <> dirpath <> ").")

abbrev pub is_active_baseline : Option Baseline → Bool
is_active_baseline none = false
is_active_baseline (some b) = b.is_active

-- SELECT 1 FROM file_baselines WHERE filepath = ? AND is_active = 1
abbrev pub has_baseline : String → FimStore → Bool
has_baseline path s = is_active_baseline (get s.file_baselines path)

-- The transaction's second insert, and the set of known paths after it.
unfoldable pub store_created :
    String → Option String → List String × FimStore → List String × FimStore
unfolding store_baseline
store_created path none (known, s) = (known, s)
store_created path (some digest) (known, s) = (known ++ path ∷ [], store_baseline path digest s)

unfoldable pub check_created :
    (FimEvent → Bool)
    → Disk
    → ℕ
    → String
    → Option String
    → String
    → List String × FimStore
    → List String × FimStore
unfolding store_created persist_fim_event notify created_event
check_created fails disk now dirpath severity path (known, s) =
    if contains path known
    then (known, s)
    else let e = created_event now severity path dirpath in
      if fails e || has_baseline path s
      then (known, s)
      else let (known', s') =
          store_created path (calculate_sha256 disk path) (known, persist_fim_event e s) in
        (known', notify e s')

unfoldable pub check_paths :
    (FimEvent → Bool)
    → Disk
    → ℕ
    → String
    → Option String
    → List String
    → List String × FimStore
    → List String × FimStore
unfolding check_created
check_paths fails disk now dirpath severity [] ks = ks
check_paths fails disk now dirpath severity (path ∷ paths) ks =
    check_paths fails disk now dirpath severity paths
      (check_created fails disk now dirpath severity path ks)

unfoldable pub check_directories :
    (FimEvent → Bool)
    → Disk
    → ℕ
    → Dict String Directory
    → List String × FimStore
    → List String × FimStore
unfolding check_paths iter_directory_files
check_directories fails disk now [] ks = ks
check_directories fails disk now ((dirpath, d) ∷ rest) ks = check_directories fails disk now rest (
    if d.is_active
    then check_paths fails disk now dirpath d.created_severity
        (iter_directory_files disk dirpath d.recursive) ks
    else ks)

-- SELECT filepath FROM file_baselines WHERE is_active = 1
abbrev pub known_paths : Dict String Baseline → List String
known_paths [] = []
known_paths ((path, b) ∷ rest) = if b.is_active then path ∷ known_paths rest else known_paths rest

unfoldable pub check_directories_for_created : (FimEvent → Bool) → Disk → ℕ → FimStore → FimStore
unfolding check_directories
check_directories_for_created fails disk now s =
    (check_directories fails disk now s.fim_directories (known_paths s.file_baselines, s)).1

unfoldable pub check_integrity : (FimEvent → Bool) → Disk → ℕ → FimStore → FimStore
unfolding check_files check_directories_for_created
check_integrity fails disk now s =
    check_directories_for_created fails disk now (check_files fails disk now s.file_baselines s)
