-- ===== src/Dashboard/Diagnostics/Report.antt =====
-- dashboard/diagnostics.py: `format_report`.
use intrusion_detection_syst.Prelude.{
  ℕ, zero, suc, ◌-◌, String, ◌<>◌, Bool, true, false, List, [], ◌∷◌, ◌++◌, map, max, if◌then◌else◌,
  ◌==◌, nat_eq,
}
use intrusion_detection_syst.Prelude.Lists.{length, keep}
use intrusion_detection_syst.Prelude.Text.{codes}
use intrusion_detection_syst.Dashboard.Diagnostics.{
  Status, ok_status, warn_status, fail_status, Check, is_failure_line, is_ready,
}

abbrev pub symbol : Status → String
symbol ok_status = "[+]"
symbol warn_status = "[!]"
symbol fail_status = "[x]"

abbrev pub is_warning_line : Check → Bool
is_warning_line c = elim (c.status) [ warn_status ↦ true | _ ↦ false ]

abbrev pub warnings : List Check → ℕ
warnings checks = length (keep is_warning_line checks)

abbrev pub failures : List Check → ℕ
failures checks = length (keep is_failure_line checks)

abbrev pub width : List Check → ℕ
width [] = 0
width (c ∷ checks) = max (length (codes c.name)) (width checks)

unfoldable pub repeat_text : String → ℕ → String
repeat_text s zero = ""
repeat_text s (suc n) = s <> repeat_text s n

-- `text.ljust(width)`
abbrev pub ljust : String → ℕ → String
ljust s n = s <> repeat_text " " (n - length (codes s))

unfoldable pub check_text : ℕ → Check → String
check_text n c = " " <> symbol c.status <> " " <> ljust c.name n <> "  " <> c.detail

unfoldable pub result_text : (str : ℕ → String) → List Check → String
result_text str checks =
    if is_ready checks
    then "Result: READY"
      <> (if warnings checks == 0 then "" else " with warnings")
      <> " ("
      <> str (warnings checks)
      <> " warning(s))."
    else "Result: NOT READY — "
      <> str (failures checks)
      <> " blocking issue(s), "
      <> str (warnings checks)
      <> " warning(s)."

abbrev pub report_lines : (str : ℕ → String) → List Check → List String
report_lines str checks =
    ("IDS configuration diagnostics" ∷ repeat_text "=" 30 ∷ [])
    ++ (map (check_text (width checks)) checks
        ++ (repeat_text "-" 30 ∷ result_text str checks ∷ []))

-- `"\n".join(lines)`
unfoldable pub join_lines : List String → String
join_lines [] = ""
join_lines (line ∷ []) = line
join_lines (line ∷ next ∷ rest) = line <> "\n" <> join_lines (next ∷ rest)

unfoldable pub format_report : (str : ℕ → String) → List Check → String
format_report str checks = join_lines (report_lines str checks)
