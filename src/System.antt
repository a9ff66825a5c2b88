-- ===== src/System.antt =====
-- monitor/agent.go from the start of its goroutines on: the gate's loop, the syncer, the runner with
-- its executions, the reporter, and a check import by another process, interleaved in any order. The
-- status loop only reads.
pub mod Delivery
pub mod Flush
pub mod Origin
pub mod Rows
pub mod Semaphore
pub mod Valid
pub mod Drain
pub mod Alone
pub mod Threads
use mathlib.Core.List.{Memᴰ}
use tenpm_uptime_monitor.Prelude.{
  ℕ, suc, ◌-◌, ◌≡◌, Bool, true, false, Option, none, some, List, [], ◌∷◌, ◌++◌, drop, length,
}
use tenpm_uptime_monitor.Prelude.Int.{pos, ltb_ℤ}
use tenpm_uptime_monitor.Model.Check.{Check, Headers, Result, Time}
use tenpm_uptime_monitor.Store.Tables.{Buffered, Db, ok, Faults}
use tenpm_uptime_monitor.Store.Headers.{Codec}
use tenpm_uptime_monitor.Store.Import.{import_private_check}
use tenpm_uptime_monitor.Store.Query.{list_enabled_checks}
use tenpm_uptime_monitor.Client.{Client}
use tenpm_uptime_monitor.Sync.{SyncWorld}
use tenpm_uptime_monitor.Gate.{tick}
use tenpm_uptime_monitor.Runner.{Runner, World, gate_online}
use tenpm_uptime_monitor.Runner.Reconcile.{Scheduled, Action, started, cancelled, reconcile}
use tenpm_uptime_monitor.System.Threads.{
  Execution, running, execution_step, Syncing, idle, syncer_step, Reporting, resting, listing,
  ReportWorld, reporter_step,
}

-- `listed` is what ListEnabledChecks returned to a reconciliation that is not done; `schedulers` are
-- the checks of all the goroutines of scheduleLoop so far; `waiting` stand at the semaphore, and `sem`
-- is how many places of it are taken. `confirmed` and `stored` are histories, which no step reads:
-- the rows that the server took, and every row that results_buffer held at the start or was given.
pub record System : Type 0 where
  pub runner : Runner
  pub listed : Option (List Check)
  pub scheduled : Scheduled
  pub schedulers : List Check
  pub waiting : List Check
  pub sem : ℕ
  pub executions : List Execution
  pub syncer : Syncing
  pub reporter : Reporting
  pub confirmed : List (ℕ × Result)
  pub stored : List Buffered

-- The state after RunAgent has wired flushCh.
abbrev pub started_agent : Runner → System
started_agent r = record {
  runner = record r { flush_ch = some false };
  listed = none;
  scheduled = [];
  schedulers = [];
  waiting = [];
  sem = 0;
  executions = [];
  syncer = idle;
  reporter = resting;
  confirmed = [];
  stored = r.db.results;
}

abbrev pub with_db : System → Db → System
with_db s db = record s { runner = record s.runner { db = db } }

-- The rows at the end of results_buffer that a call has added.
abbrev pub arrivals : Db → Db → List Buffered
arrivals db db' = drop (length db.results) db'.results

abbrev starts_of : List Action → List Check
starts_of [] = []
starts_of (started c now ∷ acts) = c ∷ starts_of acts
starts_of (cancelled c ∷ acts) = starts_of acts

-- The executions and the semaphore after a step of one of them.
abbrev pub replaced : Option Execution → List Execution → List Execution
replaced none es = es
replaced (some e) es = e ∷ es

abbrev pub released : Option Execution → ℕ → ℕ
released none sem = sem - 1
released (some e) sem = sem

unfoldable pub ticked_system : Bool → Time → System → System
ticked_system reachable now s = record s {
  runner = record s.runner {
    gate = elim s.runner.gate [ none ↦ none | some g ↦ some (tick reachable now g) ];
  };
}

unfoldable pub executed_system :
    World → Execution → List Execution → List Execution → System → System
unfolding execution_step
executed_system w e es es' s =
    let (rest, runner') = execution_step w e s.runner in
    record s {
      runner = runner';
      executions = es ++ replaced rest es';
      sem = released rest s.sem;
      stored = s.stored ++ arrivals s.runner.db runner'.db;
    }

unfoldable pub reported_system : Client → ReportWorld → System → System
unfolding reporter_step
reported_system c w s =
    let (reporter', db', taken) = reporter_step c w s.reporter s.runner.db in
    record (with_db s db') { reporter = reporter'; confirmed = s.confirmed ++ taken }

unfoldable pub synced_system : Codec → Client → SyncWorld → System → System
unfolding syncer_step
synced_system codec c w s =
    let (syncer', db') = syncer_step codec c w s.syncer s.runner.db in
    record (with_db s db') { syncer = syncer' }

unfoldable pub reconciled_system : (Headers → Headers → Bool) → List Check → System → System
unfolding reconcile
reconciled_system same_headers checks s =
    let (acts, scheduled', last_status') =
      reconcile same_headers (ok checks) s.scheduled s.runner.last_status in
    record s {
      runner = record s.runner { last_status = last_status' };
      listed = none;
      scheduled = scheduled';
      schedulers = s.schedulers ++ starts_of acts;
    }

module _ (codec : Codec) (same_headers : Headers → Headers → Bool) (client : Client) where
  pub data Step (s : System) : System → Type 0 where
    -- The gate's loop
    gate_tick : (reachable : Bool) (now : Time) → Step s (ticked_system reachable now s)
    -- The runner's loop: ListEnabledChecks, and the rest of reconcile.
    list_checks :
        (faults : Faults) (checks : List Check)
        → s.listed ≡ none
        → list_enabled_checks codec faults s.runner.db ≡ ok checks
        → Step s (record s { listed = some checks })
    reconcile_checks :
        (checks : List Check)
        → s.listed ≡ some checks
        → Step s (reconciled_system same_headers checks s)
    -- A goroutine of scheduleLoop calls execute, and finds the gate online.
    enter :
        (c : Check)
        → Memᴰ c s.schedulers
        → gate_online s.runner.gate ≡ true
        → Step s (record s { waiting = c ∷ s.waiting })
    acquire :
        (c : Check) (cs cs' : List Check)
        → s.waiting ≡ cs ++ c ∷ cs'
        → ltb_ℤ (pos s.sem) s.runner.sem_capacity ≡ true
        → Step s (record s {
          waiting = cs ++ cs';
          sem = suc s.sem;
          executions = running c ∷ s.executions;
        })
    -- The context ends at the semaphore.
    give_up :
        (c : Check) (cs cs' : List Check)
        → s.waiting ≡ cs ++ c ∷ cs'
        → Step s (record s { waiting = cs ++ cs' })
    go_on :
        (w : World) (e : Execution) (es es' : List Execution)
        → s.executions ≡ es ++ e ∷ es'
        → Step s (executed_system w e es es' s)
    sync : (w : SyncWorld) → Step s (synced_system codec client w s)
    -- The reporter's select: the timer, flushCh, or the end of the context.
    by_timer : s.reporter ≡ resting → Step s (record s { reporter = listing false true })
    by_flush :
        s.reporter ≡ resting
        → s.runner.flush_ch ≡ some true
        → Step s (record s {
          runner = record s.runner { flush_ch = some false };
          reporter = listing false true;
        })
    at_end : s.reporter ≡ resting → Step s (record s { reporter = listing true true })
    report : (w : ReportWorld) → Step s (reported_system client w s)
    -- Another process runs check import.
    import_check :
        (faults : Faults) (c : Check)
        → Step s (with_db s (import_private_check codec faults c s.runner.db).1)

  pub data Reach (r : Runner) : System → Type 0 where
    start : Reach r (started_agent r)
    later : {s t : System} → Reach r s → Step s t → Reach r t
