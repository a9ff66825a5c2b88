-- ===== src/Tests/Samples.antt =====
-- The data of the tests: a check, a result, a codec of one header, and a database of two checks.
use tenpm_uptime_monitor.Prelude.{
  refl, true, false, Option, none, some, [], ◌∷◌, ◌++◌, arith, length, take, drop,
}
use tenpm_uptime_monitor.Prelude.Int.{pos}
use tenpm_uptime_monitor.Prelude.Text.{Text, bytes, text_dec}
use tenpm_uptime_monitor.Model.Check.{Check, Result, Headers, unix_epoch, match_contains}
use tenpm_uptime_monitor.Store.Tables.{Row, Buffered, Db, Faults, find_guid, find_id}
use tenpm_uptime_monitor.Store.Headers.{Codec}
use tenpm_uptime_monitor.Store.Valid.{IsValid}

abbrev pub sample_check : Check
sample_check = record {
  id = 0;
  guid = bytes "a";
  name = bytes "home";
  url = bytes "https://e.org";
  match_string = bytes "ok";
  match_mode = match_contains;
  post_data = [];
  headers = [];
  disable_redirects = false;
  status_code_op = [];
  status_code_value = pos 0;
  insecure_skip_verify = false;
  invert_result = false;
  interval_sec = pos 60;
  timeout_sec = pos 10;
  max_response_time_ms = pos 500;
  cert_expiry_warn_days = pos 7;
  down_interval_sec = pos 0;
  resend_interval_sec = pos 0;
  result_detail_max_chars = pos 80;
  enabled = true;
  updated_at = unix_epoch;
  deleted = false;
  restricted_derived = false;
  restricted_optin = false;
  restricted = false;
  private_definition = false;
  admin_enabled = true;
  show_on_status_page = false;
  monitor_count = pos 3;
  monitor_rank = pos 0;
}

-- What the server sends of a check whose definition it does not have.
abbrev pub private_check : Check
private_check = record sample_check {
  guid = bytes "b";
  name = bytes "renamed";
  url = [];
  match_string = [];
}

abbrev pub sample_result : Result
sample_result = record {
  check_id = 0;
  check_guid = bytes "a";
  monitor_id = bytes "m";
  ran_at = record { sec = pos 1000; nsec = 25 };
  success = true;
  http_status = pos 200;
  latency_ms = pos 12;
  error = [];
  response_sample = [];
}

-- A codec of a single header: the length of its name, its name and its value.
abbrev marshal_one : Headers → Option Text
marshal_one [] = none
marshal_one ((name, value) ∷ rest) = some (length name ∷ (name ++ value))

abbrev unmarshal_one : Text → Option Headers
unmarshal_one [] = none
unmarshal_one (n ∷ s) = some ((take n s, drop n s) ∷ [])

abbrev pub one_header : Codec
one_header = record { marshal = marshal_one; unmarshal = unmarshal_one }

-- SQLite refuses nothing.
abbrev pub no_faults : Faults
no_faults n = false

abbrev pub row_a : Row
row_a = record {
  id = 1;
  guid = bytes "a";
  name = bytes "old";
  url = bytes "http://e.org";
  match_string = [];
  match_mode = match_contains;
  post_data = [];
  headers = [];
  disable_redirects = false;
  status_code_op = [];
  status_code_value = pos 0;
  insecure_skip_verify = false;
  interval_sec = pos 60;
  timeout_sec = pos 10;
  enabled = true;
  result_detail_max_chars = pos 80;
  max_response_time_ms = pos 0;
  cert_expiry_warn_days = pos 0;
  invert_result = false;
  monitor_count = pos 1;
  monitor_rank = pos 0;
  locally_defined = false;
}

-- A check that was imported here.
abbrev pub row_b : Row
row_b = record row_a {
  id = 2;
  guid = bytes "b";
  url = bytes "http://intranet";
  locally_defined = true;
}

abbrev pub buffered_a : Buffered
buffered_a = record {
  id = 4;
  check_id = 1;
  ran_at = pos 900;
  success = false;
  http_status = pos 500;
  latency_ms = pos 30;
  error = bytes "500";
  response_sample = [];
  sent = false;
}

abbrev pub buffered_b : Buffered
buffered_b = record buffered_a { id = 7; check_id = 2 }

abbrev pub sample_db : Db
sample_db = record {
  checks = row_a ∷ row_b ∷ [];
  last_synced_at = none;
  identity = none;
  results = buffered_a ∷ buffered_b ∷ [];
  results_seq = 9;
}

pub sample_db-IsValid : IsValid sample_db
unfolding find_guid find_id text_dec
sample_db-IsValid = record {
  distinct = (refl, refl, (refl, refl, tt));
  keyed = (omega arith, (omega arith, omega arith));
}
