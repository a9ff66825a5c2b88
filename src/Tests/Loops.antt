-- ===== src/Tests/Loops.antt =====
-- The loops of the agent on the sample data.
use mathlib.Core.List.{flatten}
use tenpm_uptime_monitor.Prelude.{
  ℕ, ◌+◌, ◌<◌, ◌≡◌, refl, ◌++◌, Bool, true, false, none, some, List, [], ◌∷◌, arith, ◌==◌, length,
  if◌then◌else◌,
}
use tenpm_uptime_monitor.Prelude.Int.{pos, ◌*ℤ◌}
use tenpm_uptime_monitor.Schedule.Words.{wrap64}
use tenpm_uptime_monitor.Prelude.Text.{bytes}
use tenpm_uptime_monitor.Model.Check.{Time, unix_epoch}
use tenpm_uptime_monitor.Schedule.{next_slot_after, check_phase_seconds, effective_interval_seconds}
use tenpm_uptime_monitor.Store.Tables.{find_id}
use tenpm_uptime_monitor.Store.Buffer.{unsent_joined}
use tenpm_uptime_monitor.Store.Buffer.Backlog.{backlog}
use tenpm_uptime_monitor.Egress.{policy_open}
use tenpm_uptime_monitor.Client.{Server, Exchange, no_response, response, Client, new_client}
use tenpm_uptime_monitor.Sync.{SyncWorld}
use tenpm_uptime_monitor.Sync.Initial.{Run}
use tenpm_uptime_monitor.Agent.{Config, AgentWorld}
use tenpm_uptime_monitor.Runner.Loop.{schedule_loop}
use tenpm_uptime_monitor.Runner.Loop.Grid.{OnGrid, schedule_loop-OnGrid}
use tenpm_uptime_monitor.Reporter.{Rounds, Turn, reporter_run}
use tenpm_uptime_monitor.Reporter.Run.{
  Arrivals, turns_of, run_entries, buffer_all, attempts, reporter_run-accounted,
}
use tenpm_uptime_monitor.Tests.Samples.{
  sample_check, sample_result, no_faults, sample_db, sample_db-IsValid,
}

-- A server whose answers are these, to whichever request.
abbrev pub answers : Exchange → Server
answers e = record {
  exchange = λ req. e;
  encode_enroll = λ req. some [];
  decode_enroll = λ s. some (record { monitor_id = bytes "m"; api_key = bytes "key" });
  decode_checks = λ s. some (record { server_time = unix_epoch; checks = sample_check ∷ [] });
  encode_results = λ r. some [];
  decode_results = λ s. some (pos 0);
  encode_status = λ s. some [];
  utc = λ t. record {
    year = 1970;
    month = 1;
    day = 1;
    hour = 0;
    minute = 0;
    second = 0;
    nanosecond = 0;
  };
}

-- The first attempt gets no response, and the others do.
abbrev server_at : ℕ → Server
server_at n = answers (if n == 0 then no_response (bytes "timeout") else response (pos 200) [])

abbrev sync_at : ℕ → SyncWorld
sync_at n = record { server = server_at n; read_faults = no_faults; write_faults = no_faults }

-- The context ends after the second attempt, if that fails too.
abbrev stopped_at : ℕ → Bool
stopped_at n = n == 1

abbrev keyed_client : Client
keyed_client = new_client (bytes "https://s.org/")

abbrev sample_config : Config
sample_config = record {
  server_url = bytes "https://s.org/";
  enrollment_token = bytes "token";
  monitor_id = [];
  monitor_name = bytes "home";
  region = bytes "apac";
  country = bytes "AU";
  city = bytes "Sydney";
  sync_interval = pos 45000000000;
  report_interval = pos 45000000000;
  egress_policy = policy_open;
  probe_targets = [];
  max_concurrent_checks = pos 20;
  proxy_url = none;
}

abbrev pub agent_world : AgentWorld
agent_world = record {
  identity_faults = no_faults;
  enroll_servers = server_at;
  enroll_stopped = stopped_at;
  done_at_refusal = false;
  save_faults = no_faults;
  sync_worlds = sync_at;
  sync_stopped = stopped_at;
}

abbrev rounds : Rounds
rounds = record {
  list_faults = λ n. no_faults;
  posted = λ n results. n == 0;
  mark_faults = λ n. no_faults;
}

abbrev arrivals : Arrivals
arrivals = (no_faults, sample_result) ∷ []

abbrev turns : List (Arrivals × Turn)
turns = (arrivals, record { rounds = rounds; purge_faults = no_faults; cutoff = unix_epoch }) ∷ []

few : length (backlog sample_db) < 3
unfolding unsent_joined find_id
few = omega arith

two : attempts turns + length arrivals ≡ 2
unfolding attempts
two = refl

reporter_run-accounted_example :
    let (confirmed, db') =
      reporter_run 9 (turns_of turns) (buffer_all arrivals, rounds) sample_db in
    flatten confirmed ++ backlog db' ≡ backlog sample_db ++ run_entries 9 turns arrivals sample_db
reporter_run-accounted_example =
    reporter_run-accounted 9 turns arrivals rounds sample_db ((λ n. refl), tt) (λ n. refl)
      sample_db-IsValid (omega (arith, few, two))

abbrev at : ℕ → Time
at n = record { sec = pos n; nsec = 0 }

-- An interval of 180 seconds, and an execution that takes longer than that.
interval : effective_interval_seconds sample_check ≡ pos 180
unfolding effective_interval_seconds wrap64 ◌*ℤ◌
interval = refl

schedule_loop-OnGrid_example :
    (p : ℕ) × (slots : List Time) × (check_phase_seconds sample_check (pos 180) ≡ pos p)
    × (schedule_loop 10 sample_check true (at 1000) (at 1100 ∷ at 1900 ∷ []) ≡ (true, some slots))
    × OnGrid 180 p (next_slot_after (at 1000) (pos p) (pos 180)) (at 1100 ∷ at 1900 ∷ []) slots
schedule_loop-OnGrid_example =
    schedule_loop-OnGrid sample_check 180 9 true (at 1000) (at 1100 ∷ at 1900 ∷ []) interval
      (omega arith) (omega arith) (omega arith) (omega arith, omega arith)
      (omega arith, (omega arith, tt))
