-- ===== src/Store/Import.antt =====
-- monitor/store.go: ImportPrivateCheck.
pub mod Content
use tenpm_uptime_monitor.Prelude.{◌≡◌, Bool, true, false, List, [], ◌∷◌, if◌then◌else◌}
use tenpm_uptime_monitor.Prelude.Int.{ℤ, pos, ltb_ℤ, eq_ℤ}
use tenpm_uptime_monitor.Prelude.Text.{Text, same}
use tenpm_uptime_monitor.Model.Check.{Check, match_contains, min_interval_sec}
use tenpm_uptime_monitor.Store.Tables.{
  Row, Db, Res, ok, err, no_guid, ◌>>=◌, ◌>>◌, Faults, statement,
}
use tenpm_uptime_monitor.Store.Headers.{Codec, encode_headers}
use tenpm_uptime_monitor.Store.Delta.{upsert, settle}

-- max(x, 0)
unfoldable pub floor_zero : ℤ → ℤ
floor_zero x = if ltb_ℤ x (pos 0) then pos 0 else x

-- The VALUES of the INSERT. The columns monitor_count and monitor_rank are left to their defaults.
unfoldable pub imported_row : Check → Text → Row
unfolding floor_zero
imported_row c headers = record {
  id = 0;
  guid = c.guid;
  name = c.name;
  url = c.url;
  match_string = c.match_string;
  match_mode = if same c.match_mode [] then match_contains else c.match_mode;
  post_data = c.post_data;
  headers = headers;
  disable_redirects = c.disable_redirects;
  status_code_op = c.status_code_op;
  status_code_value = c.status_code_value;
  insecure_skip_verify = c.insecure_skip_verify;
  interval_sec = if eq_ℤ c.interval_sec (pos 0) then min_interval_sec else c.interval_sec;
  timeout_sec = floor_zero c.timeout_sec;
  enabled = c.enabled;
  result_detail_max_chars = floor_zero c.result_detail_max_chars;
  max_response_time_ms = floor_zero c.max_response_time_ms;
  cert_expiry_warn_days = floor_zero c.cert_expiry_warn_days;
  invert_result = c.invert_result;
  monitor_count = pos 1;
  monitor_rank = pos 0;
  locally_defined = true;
}

-- ON CONFLICT(guid) DO UPDATE SET ...
unfoldable pub merge_imported : Row → Row → Row
merge_imported old excluded = record old {
  url = excluded.url;
  match_string = excluded.match_string;
  match_mode = excluded.match_mode;
  post_data = excluded.post_data;
  headers = excluded.headers;
  disable_redirects = excluded.disable_redirects;
  status_code_op = excluded.status_code_op;
  status_code_value = excluded.status_code_value;
  insecure_skip_verify = excluded.insecure_skip_verify;
  timeout_sec = excluded.timeout_sec;
  max_response_time_ms = excluded.max_response_time_ms;
  cert_expiry_warn_days = excluded.cert_expiry_warn_days;
  invert_result = excluded.invert_result;
  locally_defined = true;
}

-- ImportPrivateCheck
unfoldable pub import_private_check : Codec → Faults → Check → Db → Res (Unit {0}) × Db
import_private_check codec faults c db =
    if same c.guid []
    then (err no_guid, db)
    else settle db (do
      headers ← encode_headers codec c.headers
      statement faults 0
      ok (record db { checks = upsert merge_imported (imported_row c headers) db.checks }))
