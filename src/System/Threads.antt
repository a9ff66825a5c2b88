-- ===== src/System/Threads.antt =====
-- The goroutines that monitor/agent.go starts, cut where another of them can come between: the rest of
-- an execution of monitor/runner.go, a round of monitor/sync.go and a turn of monitor/reporter.go. A
-- step makes at most one call on the database or the server.
use tenpm_uptime_monitor.Prelude.{
  ℕ, Bool, false, not, ◌&&◌, Option, none, some, List, [], map, length, ltb, if◌then◌else◌,
}
use tenpm_uptime_monitor.Prelude.Int.{ℤ}
use tenpm_uptime_monitor.Model.Check.{Check, Result, Time}
use tenpm_uptime_monitor.Store.Tables.{Db, Res, ok, err, ◌>>=◌, ◌>>◌, Faults, statement, find_guid}
use tenpm_uptime_monitor.Store.Headers.{Codec}
use tenpm_uptime_monitor.Store.Delta.{apply_checks_delta}
use tenpm_uptime_monitor.Store.Query.{get_last_synced_at}
use tenpm_uptime_monitor.Store.Buffer.{
  resolved, insert_result, list_unsent, mark_sent, purge_sent_older_than,
}
use tenpm_uptime_monitor.Client.{Server, Client, replied, failed_call, fetch_checks, post_results}
use tenpm_uptime_monitor.Sync.{SyncWorld}
use tenpm_uptime_monitor.Runner.{
  Runner, World, discards, buffered_form, check_status_transition, trigger_flush,
}
use tenpm_uptime_monitor.Reporter.{report_batch_size, is_empty}

-- An execution that holds a place of the semaphore: the checker runs; BufferResult looks for the
-- check's row; it inserts the result; the status is compared; the reporter is woken.
pub data Execution : Type 0 where
  running : Check → Execution
  resolving : Check → Result → Execution
  inserting : Check → Result → ℕ → Execution
  recording : Check → Result → Execution
  flushing : Execution

-- The first statement of BufferResult
unfoldable pub resolve_check : Faults → Result → Db → Res ℕ
resolve_check faults b db = do
  statement faults 0
  row ← resolved (find_guid b.check_guid db.checks)
  ok row.id

-- A step of execute behind the semaphore: what is left of it, and the runner.
unfoldable pub execution_step : World → Execution → Runner → Option Execution × Runner
unfolding resolve_check check_status_transition
execution_step w (running c) r =
    let raw = w.checker c in
    let (discarded, gate') = discards w raw r.gate in
    (
      if discarded then none else some (resolving c (buffered_form w c raw)),
      record r { gate = gate' },
    )
execution_step w (resolving c b) r =
    (elim (resolve_check w.faults b r.db) [ err e ↦ none | ok id ↦ some (inserting c b id) ], r)
execution_step w (inserting c b id) r =
    if w.faults 1
    then (none, r)
    else (some (recording c b), record r { db = insert_result id b r.db })
execution_step w (recording c b) r =
    let (transition, last_status') = check_status_transition c.id b.success r.last_status in
    (if transition then some flushing else none, record r { last_status = last_status' })
execution_step w flushing r = (none, record r { flush_ch = trigger_flush r.flush_ch })

-- Where the syncer is: between two rounds; with the watermark that it read; with the answer.
pub data Syncing : Type 0 where
  idle : Syncing
  asking : Time → Syncing
  applying : Time → Time → List Check → Syncing

-- A step of syncOnce; an error ends the round, and is only logged.
unfoldable pub syncer_step : Codec → Client → SyncWorld → Syncing → Db → Syncing × Db
syncer_step codec c w idle db =
    (elim (get_last_synced_at w.read_faults db) [ err e ↦ idle | ok since ↦ asking since ], db)
syncer_step codec c w (asking since) db = (
  elim (fetch_checks w.server c since) [
    | failed_call e ↦ idle
    | replied answer ↦ applying since answer.0 answer.1
  ],
  db,
)
syncer_step codec c w (applying since server_time checks) db =
    (idle, (apply_checks_delta codec w.write_faults checks server_time db).1)

-- Where the reporter is: at its select; in reportOnce before ListUnsent, before PostResults and before
-- MarkSent; before the purge; at its end. The first field says whether this is the final drain, and
-- that of `listing` then whether the round is the first one.
pub data Reporting : Type 0 where
  resting : Reporting
  listing : Bool → Bool → Reporting
  posting : Bool → List (ℕ × Result) → Reporting
  marking : Bool → List (ℕ × Result) → Reporting
  purging : Reporting
  ended : Reporting

-- What a step of the reporter meets.
pub record ReportWorld : Type 0 where
  pub server : Server
  pub faults : Faults
  pub cutoff : Time
  pub interval_sec : ℤ

-- Where the reporter goes when reportOnce returns.
abbrev pub after_report : Bool → Reporting
after_report last = if last then ended else purging

-- A step of the reporter: where it is then, the database, and the rows that the server took.
unfoldable pub reporter_step :
    Client → ReportWorld → Reporting → Db → Reporting × Db × List (ℕ × Result)
reporter_step c w resting db = (resting, db, [])
reporter_step c w (listing last first) db = (
  elim (list_unsent w.faults report_batch_size db) [
    | err e ↦ after_report last
    | ok rows ↦ if is_empty rows && not first then after_report last else posting last rows
  ],
  db,
  [],
)
reporter_step c w (posting last rows) db =
    elim (post_results w.server c (map (λ e. e.1) rows) w.interval_sec) [
      | failed_call e ↦ (after_report last, db, [])
      | replied accepted ↦ (marking last rows, db, rows)
    ]
reporter_step c w (marking last rows) db =
    let (marked, db') = mark_sent w.faults (map (λ e. e.0) rows) db in
    (
      elim marked [
        | err e ↦ after_report last
        | ok _ ↦
            if ltb (length rows) report_batch_size then after_report last else listing last false
      ],
      db',
      [],
    )
reporter_step c w purging db = (resting, (purge_sent_older_than w.faults w.cutoff db).1, [])
reporter_step c w ended db = (ended, db, [])
