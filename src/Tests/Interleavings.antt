-- ===== src/Tests/Interleavings.antt =====
-- The goroutines of the agent on the sample data: a check is scheduled and run, and its result stored,
-- while the syncer waits for an answer; then the reporter uploads.
use mathlib.Core.List.{Memᴰ}
use mathlib.Core.List.Memᴰ.{head}
use tenpm_uptime_monitor.Prelude.{◌≡◌, refl, true, false, Bool, none, some, [], ◌∷◌, length, map}
use tenpm_uptime_monitor.Prelude.Int.{pos, ◌≤ℤ◌}
use tenpm_uptime_monitor.Prelude.Text.{bytes, text_dec}
use tenpm_uptime_monitor.Model.Check.{Check, Headers, Result, unix_epoch, zero_time}
use tenpm_uptime_monitor.Store.Tables.{Buffered, ok, find_guid, find_id}
use tenpm_uptime_monitor.Store.Headers.{decode_headers}
use tenpm_uptime_monitor.Store.Buffer.{
  insert_result, list_unsent, unsent_joined, mark_sent, set_sent, mem_id,
}
use tenpm_uptime_monitor.Store.Query.{
  list_enabled_checks, query_checks, scan_checks, scan_check, order_by_name, get_last_synced_at,
}
use tenpm_uptime_monitor.Store.Valid.{IsValid}
use tenpm_uptime_monitor.Client.{
  Client, no_response, response, post_results, exchanged, post_request,
}
use tenpm_uptime_monitor.Gate.{Gate}
use tenpm_uptime_monitor.Runner.{
  Runner, World, is_transport_failure, new_runner, gate_online, discards, buffered_form,
}
use tenpm_uptime_monitor.Runner.Reconcile.{reconcile, lookup, insert, sweep, visit_all, visit, seen}
use tenpm_uptime_monitor.Sync.{SyncWorld}
use tenpm_uptime_monitor.System.{
  System, started_agent, reconciled_system, executed_system, synced_system, reported_system,
  list_checks, reconcile_checks, enter, acquire, go_on, sync, by_timer, report, Reach, start, later,
}
use tenpm_uptime_monitor.System.Threads.{
  running, resolving, inserting, resolve_check, execution_step, syncer_step, listing, reporter_step,
  ReportWorld,
}
use tenpm_uptime_monitor.System.Delivery.{Reach-Account}
use tenpm_uptime_monitor.System.Delivery.Statements.{Account}
use tenpm_uptime_monitor.System.Semaphore.{Reach-Places}
use tenpm_uptime_monitor.Tests.Loops.{answers}
use tenpm_uptime_monitor.Tests.Samples.{
  sample_check, sample_result, one_header, no_faults, row_a, sample_db, sample_db-IsValid,
  buffered_a,
}

abbrev pub client : Client
client = record { base_url = bytes "https://e.org"; api_key = bytes "key"; proxy = none }

abbrev pub same_headers : Headers → Headers → Bool
same_headers a b = true

abbrev pub world : World
world = record {
  acquired = true;
  checker = λ c. sample_result;
  reachable = true;
  now = unix_epoch;
  to_valid_utf8 = λ s. s;
  faults = no_faults;
}

-- A gate that is online.
abbrev gate_a : Gate
gate_a = record {
  targets = bytes "1.1.1.1:443" ∷ [];
  online = true;
  offline_since = zero_time;
  last_outage_ended_at = zero_time;
  last_outage_duration = pos 0;
}

abbrev pub runner : Runner
runner = record {
  gate = some gate_a;
  last_status = λ id. none;
  flush_ch = none;
  sem_capacity = pos 1;
  db = record sample_db { checks = row_a ∷ [] };
}

-- What the runner reads of row_a.
abbrev pub check_a : Check
check_a = record sample_check {
  id = 1;
  name = bytes "old";
  url = bytes "http://e.org";
  match_string = [];
  max_response_time_ms = pos 0;
  cert_expiry_warn_days = pos 0;
  updated_at = zero_time;
  admin_enabled = false;
  monitor_count = pos 1;
}

listed : list_enabled_checks one_header no_faults runner.db ≡ ok (check_a ∷ [])
unfolding list_enabled_checks query_checks scan_checks scan_check order_by_name decode_headers
listed = refl

-- The server does not answer the syncer.
abbrev quiet : SyncWorld
quiet = record {
  server = answers (no_response []);
  read_faults = no_faults;
  write_faults = no_faults;
}

abbrev pub initial : System
initial = started_agent runner

abbrev scheduled : System
scheduled =
    reconciled_system same_headers (check_a ∷ []) (record initial { listed = some (check_a ∷ []) })

abbrev asked : System
asked = synced_system one_header client quiet scheduled

abbrev pub begun : System
begun = record asked { waiting = []; sem = 1; executions = running check_a ∷ [] }

abbrev pub Reached : System → Type 0
Reached s = Reach one_header same_headers client runner s

pub begun-Reached : Reached begun
unfolding reconciled_system reconcile synced_system syncer_step get_last_synced_at lookup insert
    visit_all visit sweep gate_online seen
begun-Reached =
    later
      (later
        (later
          (later (later start (list_checks no_faults (check_a ∷ []) refl listed))
            (reconcile_checks (check_a ∷ []) refl))
          (sync quiet))
        (enter check_a (head refl) refl))
      (acquire check_a [] [] refl refl)

abbrev result_a : Result
result_a = buffered_form world check_a sample_result

abbrev ran : System
ran = executed_system world (running check_a) [] [] begun

abbrev found : System
found = executed_system world (resolving check_a result_a) [] [] ran

abbrev inserted : System
inserted = executed_system world (inserting check_a result_a 1) [] [] found

-- The server takes the results.
abbrev pub taking : ReportWorld
taking = record {
  server = answers (response (pos 200) []);
  faults = no_faults;
  cutoff = unix_epoch;
  interval_sec = pos 60;
}

abbrev woken : System
woken = record inserted { reporter = listing false true }

abbrev uploaded : System
uploaded =
    reported_system client taking
      (reported_system client taking (reported_system client taking woken))

inserted-Reached : Reached inserted
unfolding executed_system execution_step discards is_transport_failure resolve_check find_guid
    text_dec synced_system reconciled_system buffered_form
inserted-Reached =
    later
      (later (later begun-Reached (go_on world (running check_a) [] [] refl))
        (go_on world (resolving check_a result_a) [] [] refl))
      (go_on world (inserting check_a result_a 1) [] [] refl)

uploaded-Reached : Reached uploaded
unfolding executed_system execution_step discards is_transport_failure resolve_check find_guid
    text_dec reconciled_system synced_system
uploaded-Reached =
    later (later (later (later inserted-Reached (by_timer refl)) (report taking)) (report taking))
      (report taking)

pub one_row-IsValid : IsValid runner.db
unfolding find_guid find_id
one_row-IsValid = record { distinct = (refl, refl, tt); keyed = sample_db-IsValid.keyed }

Reach-Account_example :
    Account runner.db.results uploaded.stored uploaded.runner.db.results_seq
      uploaded.runner.db.results uploaded.confirmed
Reach-Account_example =
    Reach-Account one_header same_headers client runner uploaded one_row-IsValid uploaded-Reached

-- The row of the check that is known and the new one are uploaded.
uploaded-confirmed : map (λ e. e.0) uploaded.confirmed ≡ 4 ∷ 10 ∷ []
unfolding reported_system reporter_step executed_system execution_step discards is_transport_failure
    resolve_check find_guid find_id text_dec reconciled_system synced_system list_unsent
    unsent_joined insert_result mark_sent set_sent mem_id post_results exchanged post_request
uploaded-confirmed = refl

abbrev new_row : Buffered
new_row = record buffered_a {
  id = 10;
  ran_at = pos 1000;
  success = true;
  http_status = pos 200;
  latency_ms = pos 12;
  error = [];
}

made-begun : Reach one_header same_headers client (new_runner runner.db (some gate_a) (pos 1)) begun
unfolding new_runner
made-begun = begun-Reached

Reach-Places_example :
    (length begun.executions ≡ begun.sem)
    × (pos (length begun.executions) ≤ℤ (new_runner runner.db (some gate_a) (pos 1)).sem_capacity)
    × (pos 1 ≤ℤ (new_runner runner.db (some gate_a) (pos 1)).sem_capacity)
    × (pos 1 ≤ℤ pos 1 → (new_runner runner.db (some gate_a) (pos 1)).sem_capacity ≡ pos 1)
Reach-Places_example =
    Reach-Places one_header same_headers client runner.db (some gate_a) (pos 1) begun made-begun
