-- ===== src/Agent/Ready.antt =====
-- The identity and the mirror of an agent that has started.
use tenpm_uptime_monitor.Prelude.{true, false, ℕ, ◌≡◌, false, some, []}
use tenpm_uptime_monitor.Prelude.Text.{Text, same}
use tenpm_uptime_monitor.Agent.Wiring.{WiredUp}
use tenpm_uptime_monitor.Agent.{
  get_identity_failed, enroll_failed, persist_identity_failed, is_refusal,
}
use tenpm_uptime_monitor.Store.Tables.{StoreError, Db, ok}
use tenpm_uptime_monitor.Store.Headers.{Codec}
use tenpm_uptime_monitor.Store.Query.{get_identity}
use tenpm_uptime_monitor.Client.{
  Client, ClientError, replied, failed_call, new_client_with_proxy, set_api_key, enroll,
}
use tenpm_uptime_monitor.Checker.Registry.{Registry}
use tenpm_uptime_monitor.Retry.Waits.{Stops}
use tenpm_uptime_monitor.Sync.{initial_attempt}
use tenpm_uptime_monitor.Sync.Initial.{Pulled}
use tenpm_uptime_monitor.Agent.{
  Config, AgentWorld, Started, Startup, started, shut_down, failed, enroll_fields, enroll_attempt,
  reclaim_id,
}

module _ (codec : Codec) (registry : Registry) (cfg : Config) (w : AgentWorld) where
  -- The client of the agent before its key is set, and with its key.
  abbrev pub client : Client
  client = new_client_with_proxy cfg.server_url cfg.proxy_url

  abbrev pub keyed : Text → Client
  keyed key = set_api_key key client

  -- Where the key comes from: it is the stored one, or none is stored and the server gave it for the
  -- configured id, or for the stored one if none is configured.
  pub data Identified (db : Db) (key : Text) : Db → Type 0 where
    kept : {id : Text} → db.identity ≡ some (id, key) → same key [] ≡ false → Identified db key db
    enrolled :
        {stored id : Text} (n : ℕ)
        → get_identity w.identity_faults db ≡ ok (stored, [])
        → enroll
            (w.enroll_servers n)
            client
            cfg.enrollment_token
            (enroll_fields cfg (reclaim_id cfg stored))
          ≡ replied (id, key)
        → Identified db key (record db { identity = some (id, key) })

  -- The server refuses an attempt to enrol for good, when no key is stored.
  pub record Refusal (db : Db) (e : ClientError) : Type 0 where
    pub stored : Text
    pub attempt : ℕ
    pub unkeyed : get_identity w.identity_faults db ≡ ok (stored, [])
    pub reply :
        enroll
          (w.enroll_servers attempt)
          client
          cfg.enrollment_token
          (enroll_fields cfg (reclaim_id cfg stored))
        ≡ failed_call e
    pub permanent : is_refusal e ≡ true

  -- Why the startup ends without an agent: a statement is refused, the server refuses the enrolment, or
  -- the context ends in a wait.
  pub data Stopped (db : Db) : Startup → Type 0 where
    unread :
        {e : StoreError} → w.identity_faults 0 ≡ true → Stopped db (failed (get_identity_failed e))
    refused :
        {e : ClientError}
        → Refusal db e
        → w.done_at_refusal ≡ false
        → Stopped db (failed (enroll_failed e))
    refused_late :
        (e : ClientError) → Refusal db e → w.done_at_refusal ≡ true → Stopped db shut_down
    unsaved :
        {e : StoreError} → w.save_faults 0 ≡ true → Stopped db (failed (persist_identity_failed e))
    enrolment_cut : (n : ℕ) → w.enroll_stopped n ≡ true → Stopped db shut_down
    sync_cut : (n : ℕ) → w.sync_stopped n ≡ true → Stopped db shut_down

  -- How the startup ends: with everything in place, or with nothing of the mirror changed.
  pub data Outcome (db : Db) : Startup × Db → Type 0 where
    ready :
        (k : ℕ) {key : Text} {db₁ db' : Db}
        → Identified db key db₁
        → Pulled codec (w.sync_worlds k) (keyed key) db₁ db'
        → {s : Started} → WiredUp cfg key db' s
        → Outcome db (started s, db')
    stopped :
        {s : Startup} {db' : Db}
        → Stopped db s
        → db' ≡ record db { identity = db'.identity }
        → Outcome db (s, db')

  module _ (fuel : ℕ) where
    -- Some attempt to enrol, and some attempt to sync, is the last.
    abbrev pub Ends : ℕ → Type 0
    Ends k =
        ((id : Text) → Stops (enroll_attempt w.enroll_servers client cfg id) w.enroll_stopped k)
        × ((c : Client) → Stops (initial_attempt codec w.sync_worlds c) w.sync_stopped k)
