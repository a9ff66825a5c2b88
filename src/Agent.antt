-- ===== src/Agent.antt =====
-- monitor/agent.go: the enrolment, the startup and the status reports of an agent.
pub mod Enrolment
pub mod Jitter
pub mod Ready
pub mod Wiring
use tenpm_uptime_monitor.Prelude.{
  ℕ, Bool, true, false, not, ◌&&◌, Option, none, some, List, [], ◌∷◌, if◌then◌else◌,
}
use tenpm_uptime_monitor.Prelude.Int.{ℤ, pos, leb_ℤ, ltb_ℤ}
use tenpm_uptime_monitor.Prelude.Text.{Text, same}
use tenpm_uptime_monitor.Model.Check.{Time}
use tenpm_uptime_monitor.Egress.{Policy}
use tenpm_uptime_monitor.Checker.Registry.{Registry}
use tenpm_uptime_monitor.Checker.Scheme.{SchemeChecker, new_scheme_checker_with_policy}
use tenpm_uptime_monitor.Store.Tables.{Db, StoreError, Res, ok, err, Faults}
use tenpm_uptime_monitor.Store.Headers.{Codec}
use tenpm_uptime_monitor.Store.Query.{get_identity, set_identity}
use tenpm_uptime_monitor.Store.Buffer.{count_unsent}
use tenpm_uptime_monitor.Gate.{Gate, new_gate, last_outage}
use tenpm_uptime_monitor.Client.{
  Server, Client, ClientError, api_error, other_error, Reply, replied, failed_call, EnrollRequest,
  MonitorStatus, new_client_with_proxy, set_api_key, enroll, post_status, ping,
}
use tenpm_uptime_monitor.Retry.{
  Attempt, succeeded, gave_up, try_again, Ended, ended_well, ended_badly, cancelled, out_of_fuel,
  Retried, first_backoff, retry,
}
use tenpm_uptime_monitor.Sync.{SyncError, SyncWorld, wait_for_initial_sync}
use tenpm_uptime_monitor.Runner.{Runner, new_runner}

-- Config; the intervals are Durations, in nanoseconds.
pub record Config : Type 0 where
  pub server_url : Text
  pub enrollment_token : Text
  pub monitor_id : Text
  pub monitor_name : Text
  pub region : Text
  pub country : Text
  pub city : Text
  pub sync_interval : ℤ
  pub report_interval : ℤ
  pub egress_policy : Policy
  pub probe_targets : List Text
  pub max_concurrent_checks : ℤ
  pub proxy_url : Option Text

-- The test of enrollWithRetry for an error that no retry can mend.
unfoldable pub is_refusal : ClientError → Bool
is_refusal (api_error status body) = leb_ℤ (pos 400) status && ltb_ℤ status (pos 500)
is_refusal (other_error e) = false

unfoldable pub after_enroll : Reply (Text × Text) → Attempt (Text × Text) ClientError
unfolding is_refusal
after_enroll (replied both) = succeeded both
after_enroll (failed_call e) = if is_refusal e then gave_up e else try_again

-- The request of enrollWithRetry.
unfoldable pub enroll_fields : Config → Text → EnrollRequest
enroll_fields cfg reclaim_id = record {
  id = reclaim_id;
  name = cfg.monitor_name;
  region = cfg.region;
  country = cfg.country;
  city = cfg.city;
}

-- An attempt of enrollWithRetry; the loop carries no state, so the state is the database as it is.
unfoldable pub enroll_attempt :
    (ℕ → Server) → Client → Config → Text → ℕ → Db → Attempt (Text × Text) ClientError × Db
unfolding after_enroll enroll_fields
enroll_attempt servers client cfg reclaim_id n db = (
  after_enroll (enroll (servers n) client cfg.enrollment_token (enroll_fields cfg reclaim_id)),
  db,
)

-- enrollWithRetry
unfoldable pub enroll_with_retry :
    (ℕ → Server)
    → (ℕ → Bool)
    → ℕ
    → Client
    → Config
    → Text
    → Db
    → Retried (Text × Text) ClientError Db
unfolding enroll_attempt
enroll_with_retry servers stopped fuel client cfg reclaim_id db =
    retry (enroll_attempt servers client cfg reclaim_id) stopped fuel 0 first_backoff db

-- What the startup meets: SQLite at GetIdentity and SetIdentity, the server at each attempt to
-- enrol and to sync, whether the context ends in the wait after an attempt, and whether it has
-- ended when enrollment is refused.
pub record AgentWorld : Type 0 where
  pub identity_faults : Faults
  pub enroll_servers : ℕ → Server
  pub enroll_stopped : ℕ → Bool
  pub done_at_refusal : Bool
  pub save_faults : Faults
  pub sync_worlds : ℕ → SyncWorld
  pub sync_stopped : ℕ → Bool

-- The components that Run wires together; `pings` says whether the gate probes by Client.Ping.
pub record Started : Type 0 where
  pub client : Client
  pub gate : Gate
  pub pings : Bool
  pub checker : SchemeChecker
  pub runner : Runner

pub data AgentError : Type 0 where
  get_identity_failed : StoreError → AgentError
  enroll_failed : ClientError → AgentError
  persist_identity_failed : StoreError → AgentError
  initial_sync_failed : SyncError → AgentError

-- How the startup ends.
pub data Startup : Type 0 where
  started : Started → Startup
  shut_down : Startup
  failed : AgentError → Startup
  no_fuel : Startup

abbrev pub is_some {ℓ} : {A : Type ℓ} → Option A → Bool
is_some none = false
is_some (some a) = true

-- Run from the making of the gate up to the start of the loops.
unfoldable pub wired : Registry → Config → Client → Db → Started
wired registry cfg client db =
    let gate = new_gate cfg.probe_targets in
    let made = new_runner db (some gate) cfg.max_concurrent_checks in
    record {
      client = client;
      gate = gate;
      pings = is_some cfg.proxy_url;
      checker = new_scheme_checker_with_policy cfg.egress_policy registry;
      runner = record made { flush_ch = some false };
    }

-- The id that is sent to reclaim a monitor.
unfoldable pub reclaim_id : Config → Text → Text
reclaim_id cfg stored_id = if same cfg.monitor_id [] then stored_id else cfg.monitor_id

module _ (codec : Codec) (registry : Registry) (cfg : Config) (w : AgentWorld) (fuel : ℕ) where
  -- Run from WaitForInitialSync on, by how that ended.
  unfoldable pub after_sync : Client → Retried (Unit {0}) SyncError Db → Startup × Db
  unfolding wired
  after_sync client synced = elim synced.ended [
    | ended_well _ ↦ (started (wired registry cfg client synced.state), synced.state)
    | ended_badly e ↦ (failed (initial_sync_failed e), synced.state)
    | cancelled ↦ (shut_down, synced.state)
    | out_of_fuel ↦ (no_fuel, synced.state)
  ]

  -- Run from SetAPIKey on.
  unfoldable pub with_key : Client → Text → Db → Startup × Db
  unfolding after_sync
  with_key client api_key db =
      let keyed = set_api_key api_key client in
      after_sync keyed (wait_for_initial_sync codec w.sync_worlds keyed w.sync_stopped fuel db)

  -- Run from SetIdentity on.
  unfoldable pub persisted : Client → Text × Text → Db → Startup × Db
  unfolding with_key
  persisted client (monitor_id, api_key) db =
      let (saved, db') = set_identity w.save_faults monitor_id api_key db in
      elim saved [
        | err e ↦ (failed (persist_identity_failed e), db')
        | ok _ ↦ with_key client api_key db'
      ]

  -- Run from enrollWithRetry on, by how that ended.
  unfoldable pub after_enrolment : Client → Db → Ended (Text × Text) ClientError → Startup × Db
  unfolding persisted
  after_enrolment client db (ended_well both) = persisted client both db
  after_enrolment client db (ended_badly e) =
      if w.done_at_refusal then (shut_down, db) else (failed (enroll_failed e), db)
  after_enrolment client db cancelled = (shut_down, db)
  after_enrolment client db out_of_fuel = (no_fuel, db)

  -- Run after GetIdentity.
  unfoldable pub with_identity : Text × Text → Db → Startup × Db
  unfolding after_enrolment with_key reclaim_id
  with_identity (monitor_id, api_key) db =
      let client = new_client_with_proxy cfg.server_url cfg.proxy_url in
      if same api_key []
      then (let tried =
            enroll_with_retry w.enroll_servers w.enroll_stopped fuel client cfg
              (reclaim_id cfg monitor_id) db in
          after_enrolment client db tried.ended)
      else with_key client api_key db

  -- Run, up to the start of the loops.
  unfoldable pub start_agent : Db → Startup × Db
  unfolding with_identity
  start_agent db = elim (get_identity w.identity_faults db) [
    | err e ↦ (failed (get_identity_failed e), db)
    | ok both ↦ with_identity both db
  ]

-- The override of the gate's probe.
unfoldable pub ping_reaches : Server → Client → Bool
ping_reaches s c = elim (ping s c) [ replied _ ↦ true | failed_call e ↦ false ]

-- The status that `send` of runStatusLoop posts, by what Duration.Seconds, cut to an int64, makes of
-- a Duration.
unfoldable pub status_report : Faults → (ℤ → ℤ) → Text → ℤ → Gate → Db → Res MonitorStatus
status_report faults seconds version uptime g db = elim (count_unsent faults db) [
  | err e ↦ err e
  | ok unsent ↦
      let (ended_at, duration, found) = last_outage g in
      ok (record {
        version = version;
        unsent_results = unsent;
        uptime_sec = seconds uptime;
        last_outage_ended_at = if found then some ended_at else none;
        last_outage_sec = if found then seconds duration else pos 0;
      })
]

-- send: what it posts, if the count succeeds, and whether the server took it.
unfoldable pub send_status : Server → Client → Res MonitorStatus → Option (Reply (Unit {0}))
send_status s c (err e) = none
send_status s c (ok st) = some (post_status s c st)
