-- ===== src/System/Valid.antt =====
-- The invariant of the database, however the goroutines of the agent interleave.
use mathlib.Core.Path.{subst}
use tenpm_uptime_monitor.Prelude.{◌≡◌, sym, Bool, map, arith, Bool-cases, inl, inr}
use tenpm_uptime_monitor.Model.Check.{Headers}
use tenpm_uptime_monitor.Store.Tables.{Db}
use tenpm_uptime_monitor.Store.Headers.{Codec}
use tenpm_uptime_monitor.Store.Valid.{IsValid, sync-IsValid, import-IsValid}
use tenpm_uptime_monitor.Store.Valid.Results.{insert-IsValid, mark-IsValid, purge-IsValid}
use tenpm_uptime_monitor.Client.{Client}
use tenpm_uptime_monitor.Runner.{Runner, World}
use tenpm_uptime_monitor.Sync.{SyncWorld}
use tenpm_uptime_monitor.System.{
  System, executed_system, ticked_system, reported_system, synced_system, reconciled_system, Step,
  gate_tick, list_checks, reconcile_checks, enter, acquire, give_up, go_on, sync, by_timer,
  by_flush, at_end, report, import_check, Reach, start, later,
}
use tenpm_uptime_monitor.System.Threads.{
  Execution, running, resolving, inserting, recording, flushing, execution_step, Syncing, idle,
  asking, applying, syncer_step, Reporting, resting, listing, posting, marking, purging, ended,
  ReportWorld, reporter_step,
}

execution-IsValid :
    (w : World) (e : Execution) (r : Runner) → IsValid r.db → IsValid (execution_step w e r).1.db
unfolding execution_step
execution-IsValid w (running c) r v = v
execution-IsValid w (resolving c b) r v = v
execution-IsValid w (recording c b) r v = v
execution-IsValid w flushing r v = v
execution-IsValid w (inserting c b id) r v = elim (Bool-cases (w.faults 1)) [
  | inl refused ↦ rw refused v
  | inr fine ↦ rw fine (insert-IsValid w.faults r.db v id b)
]

syncer-IsValid :
    (codec : Codec) (c : Client) (w : SyncWorld) (phase : Syncing) (db : Db)
    → IsValid db
    → IsValid (syncer_step codec c w phase db).1
unfolding syncer_step
syncer-IsValid codec c w idle db v = v
syncer-IsValid codec c w (asking since) db v = v
syncer-IsValid codec c w (applying since server_time checks) db v =
    sync-IsValid codec w.write_faults db v checks server_time

reporter-IsValid :
    (c : Client) (w : ReportWorld) (phase : Reporting) (db : Db)
    → IsValid db
    → IsValid (reporter_step c w phase db).1
unfolding reporter_step
reporter-IsValid c w resting db v = v
reporter-IsValid c w (listing last first) db v = v
reporter-IsValid c w (posting last rows) db v =
    let same : (reporter_step c w (posting last rows) db).1 ≡ db = ground arith in
    subst IsValid (sym same) v
reporter-IsValid c w (marking last rows) db v = mark-IsValid w.faults db v (map (λ e. e.0) rows)
reporter-IsValid c w purging db v = purge-IsValid w.faults db v w.cutoff
reporter-IsValid c w ended db v = v

module _ (codec : Codec) (same_headers : Headers → Headers → Bool) (client : Client) where
  Step-IsValid :
      {s t : System}
      → Step codec same_headers client s t
      → IsValid s.runner.db
      → IsValid t.runner.db
  unfolding ticked_system executed_system reported_system synced_system reconciled_system
  Step-IsValid (gate_tick reachable now) v = v
  Step-IsValid (list_checks faults checks none_yet e) v = v
  Step-IsValid (reconcile_checks checks e) v = v
  Step-IsValid (enter c m online) v = v
  Step-IsValid (acquire c cs cs' e free) v = v
  Step-IsValid (give_up c cs cs' e) v = v
  Step-IsValid {s} (go_on w e es es' at) v = execution-IsValid w e s.runner v
  Step-IsValid {s} (sync w) v = syncer-IsValid codec client w s.syncer s.runner.db v
  Step-IsValid (by_timer e) v = v
  Step-IsValid (by_flush e pending) v = v
  Step-IsValid (at_end e) v = v
  Step-IsValid {s} (report w) v = reporter-IsValid client w s.reporter s.runner.db v
  Step-IsValid {s} (import_check faults c) v = import-IsValid codec faults s.runner.db v c

  -- In every state that the agent reaches from a valid database, the database is valid.
  pub Reach-IsValid :
      {r : Runner} {s : System}
      → IsValid r.db
      → Reach codec same_headers client r s
      → IsValid s.runner.db
  Reach-IsValid v start = v
  Reach-IsValid v (later reached step) = Step-IsValid step (Reach-IsValid v reached)
