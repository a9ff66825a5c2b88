-- ===== src/Command/Files.antt =====
-- cmd/monitor/main.go: runTestCheck, runImportPrivateCheck and runExportChecks, by their exit codes.
use tenpm_uptime_monitor.Prelude.{
  ℕ, suc, Bool, false, not, ◌||◌, Option, none, some, List, [], ◌∷◌, map, ltb, if◌then◌else◌,
}
use tenpm_uptime_monitor.Prelude.Text.{Text, same}
use tenpm_uptime_monitor.Model.Check.{Check, Result}
use tenpm_uptime_monitor.Store.Tables.{Db, ok, err, Faults}
use tenpm_uptime_monitor.Store.Headers.{Codec}
use tenpm_uptime_monitor.Store.Import.{import_private_check}
use tenpm_uptime_monitor.Store.Query.{list_all_checks, list_private_checks}
use tenpm_uptime_monitor.CheckFile.{
  Json, File, parsed, unusable, CheckExport, check_export_of, read_definitions,
}
use tenpm_uptime_monitor.CheckFile.Report.{failures, not_tested, Line, test_checks_from_json}

-- The exit code of runTestCheck, by the file, if it can be opened.
unfoldable pub run_test_check :
    Json → (Check → Text) → (Check → Result) → Option File → ℕ × List Line
run_test_check json redacted run none = (2, [])
run_test_check json redacted run (some file) =
    let (end, lines) = test_checks_from_json json redacted run file in
    elim end [ not_tested e ↦ (2, lines) | failures n ↦ (if ltb 0 n then 1 else 0, lines) ]

-- Whether a definition lacks its guid.
unfoldable pub some_unnamed : List Check → Bool
some_unnamed [] = false
some_unnamed (c ∷ cs) = same c.guid [] || some_unnamed cs

-- The loop of runImportPrivateCheck over ImportPrivateCheck: the exit code, and the database.
unfoldable pub import_checks : Codec → (ℕ → Faults) → ℕ → List Check → Db → ℕ × Db
import_checks codec faults n [] db = (0, db)
import_checks codec faults n (c ∷ cs) db =
    let (done, db') = import_private_check codec (faults n) c db in
    let rest = import_checks codec faults (suc n) cs db' in
    elim done [ err e ↦ (2, db') | ok _ ↦ rest ]

-- runImportPrivateCheck, by the file, if it can be opened, and the database, if it can be opened and
-- migrated.
unfoldable pub run_import_private_check :
    Json → Codec → (ℕ → Faults) → Option File → Bool → Db → ℕ × Db
unfolding some_unnamed import_checks
run_import_private_check json codec faults none opened db = (2, db)
run_import_private_check json codec faults (some file) opened db =
    elim (read_definitions json file) [
      | unusable e ↦ (2, db)
      | parsed checks ↦
          if some_unnamed checks
          then (2, db)
          else if not opened
          then (2, db)
          else import_checks codec faults 0 checks db
    ]

-- runExportChecks: the exit code, and the exports that are encoded. `encoded` says whether Encode
-- returns no error.
unfoldable pub run_export_checks : Codec → Faults → Bool → Bool → Bool → Db → ℕ × List CheckExport
run_export_checks codec faults opened encoded only_private db =
    if not opened
    then (2, [])
    else elim (if only_private
        then list_private_checks codec faults db
        else list_all_checks codec faults db) [
          | err e ↦ (2, [])
          | ok checks ↦ if encoded then (0, map check_export_of checks) else (2, [])
        ]
