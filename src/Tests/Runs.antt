-- ===== src/Tests/Runs.antt =====
-- The gate, the runner and the truncation on the sample data.
use tenpm_uptime_monitor.Prelude.{◌≡◌, List, refl, true, false, none, some, [], ◌∷◌, ℕ}
use tenpm_uptime_monitor.Prelude.Int.{pos}
use tenpm_uptime_monitor.Prelude.Text.{bytes, text_dec}
use tenpm_uptime_monitor.Model.Check.{Check, Time}
use tenpm_uptime_monitor.Model.Content.{truncate_content}
use tenpm_uptime_monitor.Model.Content.Cut.{IsCut, truncate_content-IsCut}
use tenpm_uptime_monitor.Store.Tables.{Res, ok, db_fault, err}
use tenpm_uptime_monitor.Gate.{Gate, last_outage, sub_time}
use tenpm_uptime_monitor.Gate.Outage.{
  verified, ticked, Recovers, after_steps, last_outage-after_steps,
}
use tenpm_uptime_monitor.Runner.{Runner, World, is_transport_failure}
use tenpm_uptime_monitor.Runner.StoredForm.{StoredForm}
use tenpm_uptime_monitor.Runner.Recording.{SameRecords, execute_all, execute_all-CutOff}
use tenpm_uptime_monitor.Runner.Reconcile.{Scheduled}
use tenpm_uptime_monitor.Tests.Samples.{sample_check, sample_result, no_faults, sample_db}

-- Two characters of three bytes and one byte, cut to one.
truncate_content-IsCut_example :
    IsCut 1
      (226 ∷ 130 ∷ 172 ∷ 97 ∷ [])
      (truncate_content (λ s. s) (226 ∷ 130 ∷ 172 ∷ 97 ∷ []) (pos 1))
truncate_content-IsCut_example = truncate_content-IsCut (λ s. s) (226 ∷ 130 ∷ 172 ∷ 97 ∷ []) 1

abbrev at : ℕ → Time
at n = record { sec = pos n; nsec = 0 }

abbrev online_gate : Gate
online_gate = record {
  targets = bytes "1.1.1.1:443" ∷ [];
  online = true;
  offline_since = at 0;
  last_outage_ended_at = at 0;
  last_outage_duration = pos 0;
}

abbrev gate_up : Gate
gate_up = after_steps online_gate (
    verified false (at 10)
    ∷ ticked false (at 25)
    ∷ ticked true (at 40)
    ∷ verified true (at 50)
    ∷ [])

last_outage-after_steps_example :
    (gate_up.online ≡ true) × (last_outage gate_up ≡ (at 40, sub_time (at 40) (at 10), true))
last_outage-after_steps_example =
    last_outage-after_steps online_gate gate_up (at 10) (at 40) (ticked false (at 25) ∷ [])
      (verified true (at 50) ∷ []) (ticked true (at 40)) refl (refl, tt) Recovers.by_tick (refl, tt)
      refl refl

abbrev fine_world : World
fine_world = record {
  acquired = true;
  checker = λ c. sample_result;
  reachable = true;
  now = at 60;
  to_valid_utf8 = λ s. s;
  faults = no_faults;
}

-- The checker gets no response, and no probe gets through.
abbrev cut_world : World
cut_world = record fine_world {
  reachable = false;
  checker = λ c. record sample_result { success = false; http_status = pos 0 };
}

abbrev sample_runner : Runner
sample_runner = record {
  gate = some online_gate;
  last_status = λ id. none;
  flush_ch = some false;
  sem_capacity = pos 20;
  db = sample_db;
}

abbrev inverted_check : Check
inverted_check = record sample_check { invert_result = true }

no_response : is_transport_failure (cut_world.checker inverted_check) ≡ true
unfolding is_transport_failure text_dec
no_response = refl

execute_all-CutOff_example :
    SameRecords sample_runner (execute_all ((cut_world, inverted_check) ∷ []) sample_runner)
execute_all-CutOff_example =
    execute_all-CutOff ((cut_world, inverted_check) ∷ []) sample_runner online_gate refl
      ((no_response, refl), tt)

-- The check of key 2 was scheduled, and only that of key 1 is enabled.
abbrev enabled_check : Check
enabled_check = record sample_check { id = 1 }

abbrev before : Scheduled
before = (2, record sample_check { id = 2 }) ∷ []

-- The check is scheduled, then the store cannot be read, and then the check is edited.
abbrev listings : List (Res (List Check))
listings = err db_fault ∷ ok (record sample_check { id = 1; url = bytes "http://f.org" } ∷ []) ∷ []

abbrev scheduled_first : Res (List Check)
scheduled_first = ok (record sample_check { id = 1 } ∷ [])
