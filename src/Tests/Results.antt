-- ===== src/Tests/Results.antt =====
-- The results buffer and the reporter on the sample database.
use mathlib.Core.List.{flatten}
use mathlib.Core.List.{Memᴰ}
use mathlib.Core.List.Memᴰ.{head, tail}
use tenpm_uptime_monitor.Prelude.{
  ◌≡◌, ◌≢◌, ◌≤◌, refl, true, none, [], ◌∷◌, ◌++◌, arith, length, All,
}
use tenpm_uptime_monitor.Prelude.Text.{bytes, text_dec}
use tenpm_uptime_monitor.Model.Check.{Check, unix_epoch}
use tenpm_uptime_monitor.Store.Tables.{Db, ok, find_guid, find_id, next_id}
use tenpm_uptime_monitor.Store.Headers.{encode_headers}
use tenpm_uptime_monitor.Store.Delta.{
  upsert, delete_guid, synced_row, apply_check, apply_checks, transaction, apply_checks_delta,
}
use tenpm_uptime_monitor.Store.Buffer.{unsent_joined, wire_result}
use tenpm_uptime_monitor.Store.Buffer.Backlog.{backlog}
use tenpm_uptime_monitor.Store.Buffer.Orphans.{reused_key_misattributes}
use tenpm_uptime_monitor.Reporter.{Rounds, drained, out_of_fuel, report_once, report_batch_size}
use tenpm_uptime_monitor.Reporter.Drain.{report_once-accounted, report_once-drained}
use tenpm_uptime_monitor.Tests.Samples.{
  sample_check, one_header, no_faults, row_a, row_b, buffered_b, sample_db, sample_db-IsValid,
}

-- Nothing is refused, and the server confirms every batch.
abbrev all_fine : Rounds
all_fine = record {
  list_faults = λ n. no_faults;
  posted = λ n results. true;
  mark_faults = λ n. no_faults;
}

few : length (backlog sample_db) ≤ 2
unfolding unsent_joined find_id
few = omega arith

report_once-accounted_example :
    let r = report_once all_fine 3 sample_db in
    (r.outcome ≢ out_of_fuel)
    × (flatten r.confirmed ++ backlog r.db ≡ backlog sample_db)
    × All (λ b. length b ≤ report_batch_size) r.confirmed
report_once-accounted_example =
    report_once-accounted all_fine 3 sample_db (λ n. refl) sample_db-IsValid (omega (arith, few))

report_once-drained_example :
    let r = report_once all_fine 3 sample_db in
    (r.outcome ≡ drained) × (backlog r.db ≡ []) × (r.confirmed ≢ [])
report_once-drained_example =
    report_once-drained all_fine 3 sample_db (λ n. refl) (λ n results. refl) (λ n. refl)
      sample_db-IsValid (omega (arith, few))

-- A delta that deletes the check b, which has the largest key, and adds the check c.
abbrev gone : Check
gone = record sample_check { guid = bytes "b"; deleted = true }

abbrev fresh : Check
fresh = record sample_check { guid = bytes "c" }

abbrev replaced_db : Db
replaced_db = (apply_checks_delta one_header no_faults (gone ∷ fresh ∷ []) unix_epoch sample_db).1

replaced_run :
    apply_checks_delta one_header no_faults (gone ∷ fresh ∷ []) unix_epoch sample_db
    ≡ (ok tt, replaced_db)
unfolding apply_checks_delta transaction apply_checks apply_check encode_headers upsert delete_guid
    find_guid text_dec synced_row
replaced_run = refl

row_b_last : row_b.id ≡ next_id (row_a ∷ [])
unfolding next_id
row_b_last = refl

row_b_only : find_guid row_b.guid (row_a ∷ []) ≡ none
unfolding find_guid text_dec
row_b_only = refl

fresh_only : find_guid fresh.guid (row_a ∷ []) ≡ none
unfolding find_guid text_dec
fresh_only = refl

b_buffered : Memᴰ buffered_b sample_db.results
b_buffered = tail (head refl)

reused_key_misattributes_example :
    Memᴰ (7, wire_result (bytes "b") buffered_b) (unsent_joined sample_db.checks sample_db.results)
    × Memᴰ
        (7, wire_result (bytes "c") buffered_b)
        (unsent_joined replaced_db.checks replaced_db.results)
reused_key_misattributes_example =
    reused_key_misattributes one_header no_faults (row_a ∷ []) row_b gone fresh row_b_last
      row_b_only (refl, refl) (refl, fresh_only) unix_epoch sample_db replaced_db buffered_b refl
      replaced_run b_buffered refl refl
