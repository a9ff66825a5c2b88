-- ===== src/Store/Buffer.antt =====
-- monitor/store.go: the results buffer, BufferResult, ListUnsent, CountUnsent, MarkSent and
-- PurgeSentOlderThan.
pub mod Backlog
pub mod Orphans
use tenpm_uptime_monitor.Prelude.{
  ℕ, suc, ◌+◌, ◌≡◌, Bool, true, false, not, ◌&&◌, ◌||◌, Option, none, some, List, [], ◌∷◌, ◌++◌,
  map, ◌==◌, if◌then◌else◌, length, take, keep_if,
}
use tenpm_uptime_monitor.Prelude.Int.{ℤ, ltb_ℤ}
use tenpm_uptime_monitor.Prelude.Text.{Text}
use tenpm_uptime_monitor.Model.Check.{Time, Result}
use tenpm_uptime_monitor.Store.Tables.{
  Row, Buffered, Db, Res, ok, err, unknown_check, ◌>>=◌, ◌>>◌, Faults, statement, find_guid,
  find_id,
}
use tenpm_uptime_monitor.Store.Delta.{settle}

-- The INSERT of BufferResult: AUTOINCREMENT gives a key that was never used, and r.RanAt keeps its
-- whole seconds.
unfoldable pub insert_result : ℕ → Result → Db → Db
insert_result check_id r db = record db {
  results =
      db.results
      ++ record {
        id = suc db.results_seq;
        check_id = check_id;
        ran_at = r.ran_at.sec;
        success = r.success;
        http_status = r.http_status;
        latency_ms = r.latency_ms;
        error = r.error;
        response_sample = r.response_sample;
        sent = false;
      }
        ∷ [];
  results_seq = suc db.results_seq;
}

abbrev pub resolved : Option Row → Res Row
resolved none = err unknown_check
resolved (some row) = ok row

-- BufferResult
unfoldable pub buffer_result : Faults → Result → Db → Res (Unit {0}) × Db
buffer_result faults r db = settle db (do
  statement faults 0
  row ← resolved (find_guid r.check_guid db.checks)
  statement faults 1
  ok (insert_result row.id r db))

-- The wire form of a row of results_buffer whose check has the given guid.
unfoldable pub wire_result : Text → Buffered → Result
wire_result guid b = record {
  check_id = 0;
  check_guid = guid;
  monitor_id = [];
  ran_at = record { sec = b.ran_at; nsec = 0 };
  success = b.success;
  http_status = b.http_status;
  latency_ms = b.latency_ms;
  error = b.error;
  response_sample = b.response_sample;
}

-- JOIN checks c ON c.id = rb.check_id WHERE rb.sent = 0 ORDER BY rb.id
unfoldable pub unsent_joined : List Row → List Buffered → List (ℕ × Result)
unsent_joined checks [] = []
unsent_joined checks (b ∷ bs) =
    let rest = unsent_joined checks bs in
    if b.sent then rest else elim (find_id b.check_id checks) [
      | none ↦ rest
      | some row ↦ (b.id, wire_result row.guid b) ∷ rest
    ]

-- ListUnsent, with LIMIT ?
unfoldable pub list_unsent : Faults → ℕ → Db → Res (List (ℕ × Result))
list_unsent faults limit db = do
  statement faults 0
  ok (take limit (unsent_joined db.checks db.results))

-- CountUnsent
unfoldable pub count_unsent : Faults → Db → Res ℕ
count_unsent faults db = do statement faults 0; ok (length (keep_if (λ b. not b.sent) db.results))

unfoldable pub mem_id : ℕ → List ℕ → Bool
mem_id k [] = false
mem_id k (i ∷ ids) = i == k || mem_id k ids

-- UPDATE results_buffer SET sent = 1 WHERE id IN (...)
unfoldable pub set_sent : List ℕ → List Buffered → List Buffered
set_sent ids [] = []
set_sent ids (b ∷ bs) = record b { sent = b.sent || mem_id b.id ids } ∷ set_sent ids bs

-- MarkSent
unfoldable pub mark_sent : Faults → List ℕ → Db → Res (Unit {0}) × Db
mark_sent faults [] db = (ok tt, db)
mark_sent faults (i ∷ ids) db =
    settle db (do statement faults 0; ok (record db { results = set_sent (i ∷ ids) db.results }))

-- PurgeSentOlderThan: the cutoff too keeps its whole seconds.
unfoldable pub purge_sent_older_than : Faults → Time → Db → Res (Unit {0}) × Db
purge_sent_older_than faults cutoff db = settle db (do
  statement faults 0
  ok (record db { results = keep_if (λ b. not (b.sent && ltb_ℤ b.ran_at cutoff.sec)) db.results }))
