-- ===== src/System/Alone.antt =====
-- The steps of a goroutine that nothing comes between are the calls of which they are the pieces.
pub mod Reports
pub mod Steps
use tenpm_uptime_monitor.Prelude.{
  ℕ, zero, suc, ◌≡◌, refl, true, Option, none, some, List, arith, Bool-cases, Option-cases, inl,
  inr,
}
use tenpm_uptime_monitor.Model.Check.{Check, Result, Time}
use tenpm_uptime_monitor.Store.Tables.{Db, Res-cases, find_guid}
use tenpm_uptime_monitor.Store.Headers.{Codec}
use tenpm_uptime_monitor.Store.Delta.{apply_checks_delta}
use tenpm_uptime_monitor.Store.Query.{get_last_synced_at}
use tenpm_uptime_monitor.Store.Buffer.{buffer_result}
use tenpm_uptime_monitor.Client.{
  Client, ClientError, Reply-cases, replied, failed_call, fetch_checks,
}
use tenpm_uptime_monitor.Sync.{SyncWorld, sync_once, apply_reply}
use tenpm_uptime_monitor.Runner.{
  Runner, World, gate_online, discards, buffered_form, check_status_transition, record_result,
  execute,
}
use tenpm_uptime_monitor.System.Threads.{
  Execution, running, resolving, resolve_check, execution_step, Syncing, idle, asking, applying,
  syncer_step,
}

-- The steps of an execution until it ends, five of which are enough.
pub run_alone : ℕ → World → Option Execution → Runner → Runner
run_alone zero w e r = r
run_alone (suc fuel) w none r = r
run_alone (suc fuel) w (some e) r = let (e', r') = execution_step w e r in run_alone fuel w e' r'

alone-record :
    (w : World) (c : Check) (b : Result) (r : Runner)
    → run_alone 4 w (some (resolving c b)) r ≡ record_result w c b r
unfolding run_alone execution_step resolve_check record_result buffer_result check_status_transition
alone-record w c b r = elim (Bool-cases (w.faults 0)) [
  | inl refused ↦ ground (arith, refused)
  | inr fine ↦ elim (Option-cases (find_guid b.check_guid r.db.checks)) [
    | inl missing ↦ ground (arith, fine, missing)
    | inr (row, found) ↦ elim (Bool-cases (w.faults 1)) [
      | inl refused ↦ ground (arith, fine, found, refused)
      | inr fine' ↦ ground (arith, fine, found, fine')
    ]
  ]
]

-- An execution that finds the gate online and gets a place of the semaphore, and that nothing comes
-- between from there on, does in five steps what execute does in one.
pub run_alone-execute :
    (w : World) (c : Check) (r : Runner)
    → gate_online r.gate ≡ true
    → w.acquired ≡ true
    → run_alone 5 w (some (running c)) r ≡ execute w c r
unfolding run_alone execution_step execute
run_alone-execute w c r online acquired =
    let (discarded, gate') = discards w (w.checker c) r.gate in
    elim (Bool-cases (discards w (w.checker c) r.gate).0) [
      | inl gone ↦ ground (arith, gone, online, acquired)
      | inr counts ↦
          let rest =
            alone-record w c (buffered_form w c (w.checker c))
              (record r { gate = (discards w (w.checker c) r.gate).1 }) in
          ground (arith, counts, online, acquired, rest)
    ]

-- A round of the syncer from its first step until it is idle again, three steps at most.
pub sync_rest : Codec → Client → SyncWorld → ℕ → Syncing → Db → Syncing × Db
sync_rest codec c w zero phase db = (phase, db)
sync_rest codec c w (suc fuel) idle db = (idle, db)
sync_rest codec c w (suc fuel) (asking since) db =
    let (phase, db') = syncer_step codec c w (asking since) db in sync_rest codec c w fuel phase db'
sync_rest codec c w (suc fuel) (applying since server_time checks) db =
    let (phase, db') = syncer_step codec c w (applying since server_time checks) db in
    sync_rest codec c w fuel phase db'

pub sync_alone : Codec → Client → SyncWorld → Db → Syncing × Db
sync_alone codec c w db =
    let (phase, db') = syncer_step codec c w idle db in sync_rest codec c w 2 phase db'

apply_reply-db :
    (codec : Codec) (w : SyncWorld) (server_time : Time) (checks : List Check) (db : Db)
    → (apply_reply codec w (replied (server_time, checks)) db).1
      ≡ (apply_checks_delta codec w.write_faults checks server_time db).1
unfolding apply_reply
apply_reply-db codec w server_time checks db =
    elim (Res-cases (apply_checks_delta codec w.write_faults checks server_time db).0) [
      | inl (t, e) ↦ rw (e, apply_reply) refl
      | inr (x, e) ↦ rw (e, apply_reply) refl
    ]

apply_reply-failed :
    (codec : Codec) (w : SyncWorld) (e : ClientError) (db : Db)
    → (apply_reply codec w (failed_call e) db).1 ≡ db
unfolding apply_reply
apply_reply-failed codec w e db = refl

-- A round of the syncer that nothing comes between ends idle, with the database that syncOnce leaves.
pub sync_alone-sync_once :
    (codec : Codec) (c : Client) (w : SyncWorld) (db : Db)
    → sync_alone codec c w db ≡ (idle, (sync_once codec w c db).1)
unfolding sync_alone sync_rest syncer_step sync_once
sync_alone-sync_once codec c w db = elim (Res-cases (get_last_synced_at w.read_faults db)) [
  | inr (x, e) ↦ ground (arith, e)
  | inl (since, e) ↦ elim (Reply-cases (fetch_checks w.server c since)) [
    | inr (x, e') ↦ ground (arith, e, e', apply_reply-failed codec w x db)
    | inl (answer, e') ↦ ground (arith, e, e', apply_reply-db codec w answer.0 answer.1 db)
  ]
]
