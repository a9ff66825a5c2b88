-- ===== src/Store/Query.antt =====
-- monitor/store.go: the identity, the sync watermark, and the listings of checks.
pub mod Identity
use tenpm_uptime_monitor.Prelude.{
  Bool, true, false, none, some, List, [], ◌∷◌, ltb, ◌==◌, ◌||◌, ◌&&◌, if◌then◌else◌, keep_if,
}
use tenpm_uptime_monitor.Prelude.Int.{pos}
use tenpm_uptime_monitor.Prelude.Text.{Text, text_before}
use tenpm_uptime_monitor.Model.Check.{Check, Time, unix_epoch, zero_time}
use tenpm_uptime_monitor.Store.Tables.{Row, Db, Res, ok, ◌>>=◌, ◌>>◌, Faults, statement}
use tenpm_uptime_monitor.Store.Headers.{Codec, decode_headers}
use tenpm_uptime_monitor.Store.Delta.{settle}

-- GetIdentity
unfoldable pub get_identity : Faults → Db → Res (Text × Text)
get_identity faults db = do
  statement faults 0
  ok (elim db.identity [ none ↦ ([], []) | some both ↦ both ])

-- SetIdentity
unfoldable pub set_identity : Faults → Text → Text → Db → Res (Unit {0}) × Db
set_identity faults monitor_id api_key db =
    settle db (do statement faults 0; ok (record db { identity = some (monitor_id, api_key) }))

-- GetLastSyncedAt
unfoldable pub get_last_synced_at : Faults → Db → Res Time
get_last_synced_at faults db = do
  statement faults 0
  ok (elim db.last_synced_at [ none ↦ unix_epoch | some t ↦ t ])

-- scanCheck: the columns that are selected, and the zero values of the other fields.
unfoldable pub scan_check : Codec → Row → Res Check
scan_check codec r = do
  headers ← decode_headers codec r.headers
  ok (record {
    id = r.id;
    guid = r.guid;
    name = r.name;
    url = r.url;
    match_string = r.match_string;
    match_mode = r.match_mode;
    post_data = r.post_data;
    headers = headers;
    disable_redirects = r.disable_redirects;
    status_code_op = r.status_code_op;
    status_code_value = r.status_code_value;
    insecure_skip_verify = r.insecure_skip_verify;
    invert_result = r.invert_result;
    interval_sec = r.interval_sec;
    timeout_sec = r.timeout_sec;
    max_response_time_ms = r.max_response_time_ms;
    cert_expiry_warn_days = r.cert_expiry_warn_days;
    down_interval_sec = pos 0;
    resend_interval_sec = pos 0;
    result_detail_max_chars = r.result_detail_max_chars;
    enabled = r.enabled;
    updated_at = zero_time;
    deleted = false;
    restricted_derived = false;
    restricted_optin = false;
    restricted = false;
    private_definition = false;
    admin_enabled = false;
    show_on_status_page = false;
    monitor_count = r.monitor_count;
    monitor_rank = r.monitor_rank;
  })

insert_by_name : Row → List Row → List Row
insert_by_name r [] = r ∷ []
insert_by_name r (x ∷ xs) =
    if text_before r.name x.name then r ∷ x ∷ xs else x ∷ insert_by_name r xs

-- ORDER BY name
unfoldable pub order_by_name : List Row → List Row
unfolding insert_by_name text_before
order_by_name [] = []
order_by_name (r ∷ rs) = insert_by_name r (order_by_name rs)

-- The loop over the rows.
unfoldable pub scan_checks : Codec → List Row → Res (List Check)
scan_checks codec [] = ok []
scan_checks codec (r ∷ rs) = do c ← scan_check codec r; cs ← scan_checks codec rs; ok (c ∷ cs)

-- queryChecks, with the WHERE clause as a test.
unfoldable pub query_checks : Codec → Faults → (Row → Bool) → Db → Res (List Check)
query_checks codec faults test db = do
  statement faults 0
  scan_checks codec (order_by_name (keep_if test db.checks))

-- ListEnabledChecks
unfoldable pub list_enabled_checks : Codec → Faults → Db → Res (List Check)
list_enabled_checks codec faults db = query_checks codec faults (λ r. r.enabled) db

-- ListAllChecks
unfoldable pub list_all_checks : Codec → Faults → Db → Res (List Check)
list_all_checks codec faults db = query_checks codec faults (λ r. true) db

-- ListPrivateChecks
unfoldable pub list_private_checks : Codec → Faults → Db → Res (List Check)
list_private_checks codec faults db = query_checks codec faults (λ r. r.locally_defined) db
