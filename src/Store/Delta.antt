-- ===== src/Store/Delta.antt =====
-- monitor/store.go: ApplyChecksDelta.
use tenpm_uptime_monitor.Prelude.{
  ℕ, suc, ◌+◌, false, none, some, List, [], ◌∷◌, ◌++◌, length, if◌then◌else◌,
}
use tenpm_uptime_monitor.Prelude.Text.{Text, same}
use tenpm_uptime_monitor.Model.Check.{Check, Time}
use tenpm_uptime_monitor.Store.Tables.{
  Row, Db, Res, ok, err, ◌>>=◌, ◌>>◌, Faults, statement, next_id, find_guid,
}
use tenpm_uptime_monitor.Store.Headers.{Codec, encode_headers}

-- CASE WHEN excluded.url != '' THEN excluded.x ELSE checks.x END
abbrev pub content_guard {ℓ} : {A : Type ℓ} → Row → A → A → A
content_guard excluded new old = if same excluded.url [] then old else new

-- ON CONFLICT(guid) DO UPDATE SET ...
unfoldable pub merge_synced : Row → Row → Row
merge_synced old excluded = record {
  id = old.id;
  guid = old.guid;
  name = excluded.name;
  url = content_guard excluded excluded.url old.url;
  match_string = content_guard excluded excluded.match_string old.match_string;
  match_mode = content_guard excluded excluded.match_mode old.match_mode;
  post_data = content_guard excluded excluded.post_data old.post_data;
  headers = content_guard excluded excluded.headers old.headers;
  disable_redirects = content_guard excluded excluded.disable_redirects old.disable_redirects;
  status_code_op = content_guard excluded excluded.status_code_op old.status_code_op;
  status_code_value = content_guard excluded excluded.status_code_value old.status_code_value;
  insecure_skip_verify =
      content_guard excluded excluded.insecure_skip_verify old.insecure_skip_verify;
  interval_sec = excluded.interval_sec;
  timeout_sec = content_guard excluded excluded.timeout_sec old.timeout_sec;
  enabled = excluded.enabled;
  result_detail_max_chars = excluded.result_detail_max_chars;
  max_response_time_ms =
      content_guard excluded excluded.max_response_time_ms old.max_response_time_ms;
  cert_expiry_warn_days =
      content_guard excluded excluded.cert_expiry_warn_days old.cert_expiry_warn_days;
  invert_result = content_guard excluded excluded.invert_result old.invert_result;
  monitor_count = excluded.monitor_count;
  monitor_rank = excluded.monitor_rank;
  locally_defined = content_guard excluded false old.locally_defined;
}

-- INSERT ... ON CONFLICT(guid) DO UPDATE: the row that has the guid is merged, and a guid that no
-- row has is added under a new key.
module _ (merge : Row → Row → Row) where
  unfoldable pub update_guid : Row → List Row → List Row
  update_guid x [] = []
  update_guid x (r ∷ rs) = if same r.guid x.guid then merge r x ∷ rs else r ∷ update_guid x rs

  unfoldable pub upsert : Row → List Row → List Row
  upsert x rs = elim (find_guid x.guid rs) [
    | some _ ↦ update_guid x rs
    | none ↦ rs ++ record x { id = next_id rs } ∷ []
  ]

-- DELETE FROM checks WHERE guid = ?
unfoldable pub delete_guid : Text → List Row → List Row
delete_guid g [] = []
delete_guid g (r ∷ rs) = let rest = delete_guid g rs in if same r.guid g then rest else r ∷ rest

-- The VALUES of the INSERT; SQLite assigns the key.
unfoldable pub synced_row : Check → Text → Row
synced_row c headers = record {
  id = 0;
  guid = c.guid;
  name = c.name;
  url = c.url;
  match_string = c.match_string;
  match_mode = c.match_mode;
  post_data = c.post_data;
  headers = headers;
  disable_redirects = c.disable_redirects;
  status_code_op = c.status_code_op;
  status_code_value = c.status_code_value;
  insecure_skip_verify = c.insecure_skip_verify;
  interval_sec = c.interval_sec;
  timeout_sec = c.timeout_sec;
  enabled = c.enabled;
  result_detail_max_chars = c.result_detail_max_chars;
  max_response_time_ms = c.max_response_time_ms;
  cert_expiry_warn_days = c.cert_expiry_warn_days;
  invert_result = c.invert_result;
  monitor_count = c.monitor_count;
  monitor_rank = c.monitor_rank;
  locally_defined = false;
}

-- A committed transaction replaces the database; one that returns early is rolled back.
abbrev pub settle : Db → Res Db → Res (Unit {0}) × Db
settle db (ok db') = (ok tt, db')
settle db (err e) = (err e, db)

module _ (codec : Codec) (faults : Faults) where
  -- One round of the loop over the delta, as the n-th statement.
  unfoldable pub apply_check : ℕ → Check → List Row → Res (List Row)
  apply_check n c rows =
      if c.deleted then (do statement faults n; ok (delete_guid c.guid rows)) else (do
        headers ← encode_headers codec c.headers
        statement faults n
        ok (upsert merge_synced (synced_row c headers) rows))

  -- The loop over the delta.
  unfoldable pub apply_checks : ℕ → List Check → List Row → Res (List Row)
  apply_checks n [] rows = ok rows
  apply_checks n (c ∷ cs) rows = do rows' ← apply_check n c rows; apply_checks (suc n) cs rows'

  -- What stands between Begin and Commit, on the transaction's own view of the database.
  unfoldable pub transaction : List Check → Time → Db → Res Db
  transaction checks server_time db = do
    statement faults 0
    statement faults 1
    statement faults 2
    rows ← apply_checks 3 checks db.checks
    statement faults (3 + length checks)
    statement faults (4 + length checks)
    ok (record db { checks = rows; last_synced_at = some server_time })

  -- ApplyChecksDelta
  unfoldable pub apply_checks_delta : List Check → Time → Db → Res (Unit {0}) × Db
  apply_checks_delta checks server_time db = settle db (transaction checks server_time db)
