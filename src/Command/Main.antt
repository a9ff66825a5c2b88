-- ===== src/Command/Main.antt =====
-- cmd/monitor/main.go: main as a whole, its exit code and the database that it leaves.
use tenpm_uptime_monitor.Prelude.{ℕ, Bool, false, not, Option, none, some, if◌then◌else◌}
use tenpm_uptime_monitor.Prelude.Text.{Text}
use tenpm_uptime_monitor.Model.Check.{Check, Result}
use tenpm_uptime_monitor.Model.Display.{DisplayUrl, redacted_url}
use tenpm_uptime_monitor.Store.Tables.{Db, Faults}
use tenpm_uptime_monitor.Store.Headers.{Codec}
use tenpm_uptime_monitor.Egress.{Policy}
use tenpm_uptime_monitor.Checker.Registry.{Registry}
use tenpm_uptime_monitor.CheckFile.{Json, File, parsed, unusable, read_definitions}
use tenpm_uptime_monitor.Agent.{
  AgentWorld, Startup, started, shut_down, failed, no_fuel, Started, start_agent,
}
use tenpm_uptime_monitor.Command.{ProxyUrl}
use tenpm_uptime_monitor.Command.Files.{
  run_test_check, some_unnamed, run_import_private_check, run_export_checks,
}
use tenpm_uptime_monitor.Command.Flags.{
  Flags, Mode, print_version, invalid_policy, invalid_proxy_url, invalid_concurrency, test,
  import_private, export, incomplete, daemon, mode_of,
}

-- What main meets: the libraries' functions, the files by their names, the checker under a policy,
-- whether the database opens and migrates, what Open and migrate.Apply make of it, whether they succeed
-- or not, what SQLite refuses, and what the agent meets. `loops` is what the loops of a started agent make of the database until its context ends.
pub record Surroundings : Type 0 where
  pub quote : Text → Text
  pub parse : Text → Option ProxyUrl
  pub json : Json
  pub codec : Codec
  pub display : Text → Option DisplayUrl
  pub open_file : Text → Option File
  pub run : Policy → Check → Result
  pub opened : Bool
  pub migrated : Db → Db
  pub import_faults : ℕ → Faults
  pub export_faults : Faults
  pub encoded : Bool
  pub registry : Registry
  pub agent : AgentWorld
  pub loops : Started → Db → Db

-- The end of main after monitor.Run; `none` stands for a startup whose fuel did not reach.
abbrev pub after_run : Surroundings → Startup × Db → Option ℕ × Db
after_run w (started s, db) = (some 0, w.loops s db)
after_run w (shut_down, db) = (some 0, db)
after_run w (failed e, db) = (some 1, db)
after_run w (no_fuel, db) = (none, db)

-- An import comes to open the database: its file is read, and every check in it has a guid.
abbrev import_opens : Surroundings → Text → Bool
import_opens w path = elim (w.open_file path) [
  | none ↦ false
  | some file ↦ elim (read_definitions w.json file) [
    | unusable e ↦ false
    | parsed checks ↦ not (some_unnamed checks)
  ]
]

-- main from the choice of what it runs: the argument of os.Exit, or 0 where main returns.
unfoldable pub run_mode : Surroundings → ℕ → Mode → Db → Option ℕ × Db
run_mode w fuel print_version db = (some 0, db)
run_mode w fuel invalid_policy db = (some 1, db)
run_mode w fuel invalid_proxy_url db = (some 1, db)
run_mode w fuel invalid_concurrency db = (some 1, db)
run_mode w fuel (test path policy) db =
    (some (run_test_check w.json (redacted_url w.display) (w.run policy) (w.open_file path)).0, db)
run_mode w fuel (import_private path) db =
    let (code, db') =
      run_import_private_check w.json w.codec w.import_faults (w.open_file path) w.opened
        (if import_opens w path then w.migrated db else db) in
    (some code, db')
run_mode w fuel (export only_private) db =
    let db' = w.migrated db in
    (some (run_export_checks w.codec w.export_faults w.opened w.encoded only_private db').0, db')
run_mode w fuel incomplete db = (some 1, db)
run_mode w fuel (daemon cfg) db =
    if w.opened
    then after_run w (start_agent w.codec w.registry cfg w.agent fuel (w.migrated db))
    else (some 1, w.migrated db)

-- main
unfoldable pub main : Surroundings → ℕ → Flags → Db → Option ℕ × Db
unfolding run_mode
main w fuel f db = run_mode w fuel (mode_of w.quote w.parse f) db
