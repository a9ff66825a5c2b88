-- ===== src/Sync.antt =====
-- monitor/sync.go: the pull of the check set.
pub mod Initial
use tenpm_uptime_monitor.Prelude.{ℕ, Bool, Option, none, some, List, [], ◌∷◌}
use tenpm_uptime_monitor.Model.Check.{Check, Time}
use tenpm_uptime_monitor.Store.Tables.{Db, StoreError, Res, ok, err, Faults}
use tenpm_uptime_monitor.Store.Headers.{Codec}
use tenpm_uptime_monitor.Store.Delta.{apply_checks_delta}
use tenpm_uptime_monitor.Store.Query.{get_last_synced_at}
use tenpm_uptime_monitor.Client.{
  Server, Client, ClientError, Reply, replied, failed_call, fetch_checks,
}
use tenpm_uptime_monitor.Retry.{Attempt, succeeded, try_again, Retried, first_backoff, retry}

pub data SyncError : Type 0 where
  store_failure : StoreError → SyncError
  client_failure : ClientError → SyncError

-- What one call of syncOnce meets.
pub record SyncWorld : Type 0 where
  pub server : Server
  pub read_faults : Faults
  pub write_faults : Faults

module _ (codec : Codec) where
  -- syncOnce from FetchChecks on.
  unfoldable pub apply_reply : SyncWorld → Reply (Time × List Check) → Db → Option SyncError × Db
  apply_reply w (failed_call e) db = (some (client_failure e), db)
  apply_reply w (replied (server_time, checks)) db =
      let (applied, db') = apply_checks_delta codec w.write_faults checks server_time db in
      elim applied [ err e ↦ (some (store_failure e), db') | ok _ ↦ (none, db') ]

  -- syncOnce: the error, if there is one.
  unfoldable pub sync_once : SyncWorld → Client → Db → Option SyncError × Db
  unfolding apply_reply
  sync_once w c db = elim (get_last_synced_at w.read_faults db) [
    | err e ↦ (some (store_failure e), db)
    | ok since ↦ apply_reply w (fetch_checks w.server c since) db
  ]

  -- An attempt of WaitForInitialSync, which tries again after every error.
  unfoldable pub initial_attempt :
      (ℕ → SyncWorld) → Client → ℕ → Db → Attempt (Unit {0}) SyncError × Db
  unfolding sync_once
  initial_attempt worlds c n db =
      let (failure, db') = sync_once (worlds n) c db in
      elim failure [ none ↦ (succeeded tt, db') | some e ↦ (try_again, db') ]

  -- WaitForInitialSync
  unfoldable pub wait_for_initial_sync :
      (ℕ → SyncWorld) → Client → (ℕ → Bool) → ℕ → Db → Retried (Unit {0}) SyncError Db
  unfolding initial_attempt
  wait_for_initial_sync worlds c stopped fuel db =
      retry (initial_attempt worlds c) stopped fuel 0 first_backoff db

  -- Syncer.Run, by what each of its rounds meets; an error is only logged.
  unfoldable pub syncer_run : Client → List SyncWorld → Db → Db
  unfolding sync_once
  syncer_run c [] db = db
  syncer_run c (w ∷ ws) db = syncer_run c ws (sync_once w c db).1
