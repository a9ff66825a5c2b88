-- ===== src/Sync/Initial.antt =====
-- What a sync, and the first one, leave in the database.
use tenpm_uptime_monitor.Prelude.{
  ℕ, suc, ◌+◌, ◌≡◌, ◌≢◌, refl, ap, ◌⊎◌, inl, inr, Bool, true, Option, none, some, List,
}
use tenpm_uptime_monitor.Model.Check.{Check, Time}
use tenpm_uptime_monitor.Store.Tables.{Db, Res, ok, Res-cases}
use tenpm_uptime_monitor.Store.Headers.{Codec}
use tenpm_uptime_monitor.Store.Delta.{apply_checks_delta}
use tenpm_uptime_monitor.Store.Query.{get_last_synced_at}
use tenpm_uptime_monitor.Store.Mirror.Sync.{
  Atomic, committed, rolled_back, Synced, apply_checks_delta-Atomic,
}
use tenpm_uptime_monitor.Client.{Client, ClientError, Reply, replied, failed_call, fetch_checks}
use tenpm_uptime_monitor.Retry.{Ended, ended_well, cancelled}
use tenpm_uptime_monitor.Sync.{SyncWorld, SyncError, apply_reply, sync_once}

module _ (codec : Codec) where
  -- The whole of a delta that the server sent for the stored watermark was applied.
  pub record Pulled (w : SyncWorld) (c : Client) (db db' : Db) : Type 0 where
    pub since : Time
    pub read : get_last_synced_at w.read_faults db ≡ ok since
    pub server_time : Time
    pub checks : List Check
    pub fetched : fetch_checks w.server c since ≡ replied (server_time, checks)
    pub synced : Synced codec w.write_faults checks server_time db db'

  -- What syncOnce does: all, or nothing.
  pub data SyncOutcome (w : SyncWorld) (c : Client) (db : Db) : Option SyncError × Db → Type 0 where
    pulled : {db' : Db} → Pulled w c db db' → SyncOutcome w c db (none, db')
    unchanged : {e : SyncError} → SyncOutcome w c db (some e, db)

  Reply-cases :
      (r : Reply (Time × List Check))
      → ((e : ClientError) × (r ≡ failed_call e))
        ⊎ ((t : Time) × (cs : List Check) × (r ≡ replied (t, cs)))
  Reply-cases (failed_call e) = inl (e, refl)
  Reply-cases (replied (t, cs)) = inr (t, cs, refl)

  Atomic-cases :
      {P : Db → Type 0} (db : Db) {r : Res (Unit {0}) × Db}
      → Atomic db P r
      → ((db' : Db) × (r ≡ (ok tt, db')) × P db') ⊎ ((r.0 ≢ ok tt) × (r.1 ≡ db))
  Atomic-cases db (committed {db'} p) = inl (db', refl, p)
  Atomic-cases db rolled_back = inr ((λ e. cc), refl)

  apply_reply-SyncOutcome :
      (w : SyncWorld) (c : Client) (db : Db) (since : Time)
      → get_last_synced_at w.read_faults db ≡ ok since
      → SyncOutcome w c db (apply_reply codec w (fetch_checks w.server c since) db)
  unfolding apply_reply
  apply_reply-SyncOutcome w c db since read = elim (Reply-cases (fetch_checks w.server c since)) [
    | inl (e, failed) ↦ rw failed unchanged
    | inr (t, cs, fetched) ↦
        elim (Atomic-cases db (apply_checks_delta-Atomic codec w.write_faults cs t db)) [
          | inl (db', e, synced) ↦
              rw (fetched, apply_reply, ap (λ p. p.0) e, ap (λ p. p.1) e)
                (pulled (record {
                  since = since;
                  read = read;
                  server_time = t;
                  checks = cs;
                  fetched = fetched;
                  synced = synced;
                }))
          | inr (failed, same_db) ↦
              elim (Res-cases (apply_checks_delta codec w.write_faults cs t db).0) [
                | inl (u, e) ↦ absurd (failed e)
                | inr (x, e) ↦ rw (fetched, apply_reply, e, same_db) unchanged
              ]
        ]
  ]

  pub sync_once-SyncOutcome :
      (w : SyncWorld) (c : Client) (db : Db) → SyncOutcome w c db (sync_once codec w c db)
  unfolding sync_once
  sync_once-SyncOutcome w c db = elim (Res-cases (get_last_synced_at w.read_faults db)) [
    | inl (since, read) ↦ rw (sync_once, read) (apply_reply-SyncOutcome w c db since read)
    | inr (x, e) ↦ rw (sync_once, e) unchanged
  ]

  -- The end of a run from the n-th attempt on, after some waits: an attempt pulled a delta, with a wait
  -- after each one before it, or the context has ended in the last wait and the database is the same.
  abbrev pub Run :
      (ℕ → SyncWorld) → (ℕ → Bool) → Client → ℕ → Db → Ended (Unit {0}) SyncError → Db → ℕ → Type 0
  Run worlds stopped c n db ended db' waits =
      ((ended ≡ ended_well tt) × (k : ℕ) × (n + waits ≡ k) × Pulled (worlds k) c db db')
      ⊎ ((ended ≡ cancelled) × (k : ℕ) × (n + waits ≡ suc k) × (stopped k ≡ true) × (db' ≡ db))
