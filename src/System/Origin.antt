-- ===== src/System/Origin.antt =====
-- Where the rows of results_buffer come from, however the goroutines of the agent interleave.
pub mod Stored
pub mod Executions
use mathlib.Core.List.{Memᴰ}
use mathlib.Core.List.Memᴰ
use mathlib.Core.List.Memᴰ.{tail}
use tenpm_uptime_monitor.Prelude.{
  ℕ, ap, ◌⊎◌, Bool, true, false, Option, List, [], ◌++◌, Bool-cases, drop, length, if◌then◌else◌,
}
use tenpm_uptime_monitor.Model.Check.{Check, Headers, Result}
use tenpm_uptime_monitor.Store.Tables.{Buffered, Db, ok, err, Res-cases}
use tenpm_uptime_monitor.Store.Headers.{Codec}
use tenpm_uptime_monitor.Store.Buffer.{insert_result}
use tenpm_uptime_monitor.Client.{Client}
use tenpm_uptime_monitor.Gate.{Gate}
use tenpm_uptime_monitor.Runner.{Runner, discards, buffered_form}
use tenpm_uptime_monitor.System.{
  System, arrivals, Step, gate_tick, list_checks, reconcile_checks, enter, acquire, give_up, go_on,
  sync, by_timer, by_flush, at_end, report, import_check, Reach, start, later,
}
use tenpm_uptime_monitor.System.Threads.{
  Execution, resolving, inserting, recording, flushing, execution_step, resolve_check,
}
use tenpm_uptime_monitor.System.Rows.{drop-length, drop-length-append}
use tenpm_uptime_monitor.System.Origin.Stored.{Runs, run_of, FromExecution, Formed, Gated}

-- All rows that were stored, the goroutines at the semaphore, and the executions behind it.
pub record Traced (initial : List Buffered) (gate : Option Gate) (checks : List Check) (runs : Runs)
    (stored : List Buffered) (waiting : List Check) (executions : List Execution) : Type 0 where
  pub rows : (b : Buffered) → Memᴰ b stored → Memᴰ b initial ⊎ FromExecution gate checks runs b
  pub waits : (c : Check) → Memᴰ c waiting → Memᴰ c checks
  pub formed : (e : Execution) → Memᴰ e executions → Formed gate checks runs e

-- The run of a check that a step begins, and all of them, the last one first.
module _ {codec : Codec} {same_headers : Headers → Headers → Bool} {client : Client} where
  abbrev step_runs : {s t : System} → Step codec same_headers client s t → Runs
  step_runs (gate_tick reachable now) = []
  step_runs (list_checks faults checks none_yet e) = []
  step_runs (reconcile_checks checks e) = []
  step_runs (enter c m online) = []
  step_runs (acquire c cs cs' at free) = []
  step_runs (give_up c cs cs' at) = []
  step_runs (go_on w e es es' at) = run_of w e
  step_runs (sync w) = []
  step_runs (by_timer e) = []
  step_runs (by_flush e pending) = []
  step_runs (at_end e) = []
  step_runs (report w) = []
  step_runs (import_check faults c) = []

  abbrev pub runs_of : {r : Runner} {s : System} → Reach codec same_headers client r s → Runs
  runs_of start = []
  runs_of (later reached step) = step_runs step ++ runs_of reached

module _ (codec : Codec) (same_headers : Headers → Headers → Bool) (client : Client)
    (initial : List Buffered) (gate : Option Gate) where
  abbrev Track : System → Runs → Type 0
  Track s runs =
      Traced initial gate s.schedulers runs s.stored s.waiting s.executions
      × Gated gate s.runner.gate
