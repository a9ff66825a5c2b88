-- ===== src/Model/Check.antt =====
-- model/model.go: the wire types Check and Result, their constants, and the parts of Go's standard
-- library that the agent calls, as an interface.
use tenpm_uptime_monitor.Prelude.{ℕ, Bool, List}
use tenpm_uptime_monitor.Prelude.Int.{ℤ, pos, negsuc}
use tenpm_uptime_monitor.Prelude.Text.{Text, bytes}

-- time.Time: seconds since the Unix epoch, and the nanoseconds past that second.
pub record Time : Type 0 where
  pub sec : ℤ
  pub nsec : ℕ

abbrev pub unix_epoch : Time
unix_epoch = record { sec = pos 0; nsec = 0 }

-- The zero time.Time: the first of January of the year 1.
abbrev pub zero_time : Time
zero_time = record { sec = negsuc 62135596799; nsec = 0 }

abbrev pub Headers : Type 0
Headers = List (Text × Text)

pub record Check : Type 0 where
  pub id : ℕ
  pub guid : Text
  pub name : Text
  pub url : Text
  pub match_string : Text
  pub match_mode : Text
  pub post_data : Text
  pub headers : Headers
  pub disable_redirects : Bool
  pub status_code_op : Text
  pub status_code_value : ℤ
  pub insecure_skip_verify : Bool
  pub invert_result : Bool
  pub interval_sec : ℤ
  pub timeout_sec : ℤ
  pub max_response_time_ms : ℤ
  pub cert_expiry_warn_days : ℤ
  pub down_interval_sec : ℤ
  pub resend_interval_sec : ℤ
  pub result_detail_max_chars : ℤ
  pub enabled : Bool
  pub updated_at : Time
  pub deleted : Bool
  pub restricted_derived : Bool
  pub restricted_optin : Bool
  pub restricted : Bool
  pub private_definition : Bool
  pub admin_enabled : Bool
  pub show_on_status_page : Bool
  pub monitor_count : ℤ
  pub monitor_rank : ℤ

pub record Result : Type 0 where
  pub check_id : ℕ
  pub check_guid : Text
  pub monitor_id : Text
  pub ran_at : Time
  pub success : Bool
  pub http_status : ℤ
  pub latency_ms : ℤ
  pub error : Text
  pub response_sample : Text

-- MatchContains, MatchNotContains
abbrev pub match_contains : Text
match_contains = bytes "contains"

abbrev pub match_not_contains : Text
match_not_contains = bytes "not_contains"

-- StatusCodeEquals, StatusCodeLessThan, StatusCodeGreaterThan
abbrev pub status_code_equals : Text
status_code_equals = bytes "eq"

abbrev pub status_code_less_than : Text
status_code_less_than = bytes "lt"

abbrev pub status_code_greater_than : Text
status_code_greater_than = bytes "gt"

-- DefaultCheckTimeoutSec
abbrev pub default_check_timeout_sec : ℤ
default_check_timeout_sec = pos 10

-- MinIntervalSec
abbrev pub min_interval_sec : ℤ
min_interval_sec = pos 10

-- MaxResponseSampleLen
abbrev pub max_response_sample_len : ℤ
max_response_sample_len = pos 1024
