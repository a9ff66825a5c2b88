-- ===== src/CheckFile.antt =====
-- monitor/testcheck.go: the check files that -test-check and -import-private-check read and the
-- exports that are printed. encoding/json on a file's text is a parameter.
pub mod Report
pub mod Verdict
pub mod RoundTrip
use tenpm_uptime_monitor.Prelude.{
  ℕ, zero, suc, Bool, true, false, not, Option, none, some, List, [], ◌∷◌, ◌++◌, map, length, take,
  ltb, ◌-◌, ◌==◌, if◌then◌else◌,
}
use tenpm_uptime_monitor.Prelude.Int.{ℤ, pos, ltb_ℤ, eq_ℤ}
use tenpm_uptime_monitor.Prelude.Text.{text_before, Text, bytes, same, has_prefix, trim_space}
use tenpm_uptime_monitor.Model.Check.{
  Check, Headers, Result, Time, zero_time, match_contains, match_not_contains,
  default_check_timeout_sec,
}
use tenpm_uptime_monitor.Model.Verdict.{invert_passed, timeout}

-- CheckExport
pub record CheckExport : Type 0 where
  pub guid : Text
  pub name : Text
  pub url : Text
  pub match_string : Text
  pub match_mode : Text
  pub post_data : Text
  pub headers : Headers
  pub disable_redirects : Bool
  pub status_code_op : Text
  pub status_code_value : ℤ
  pub insecure_skip_verify : Bool
  pub interval_sec : ℤ
  pub timeout_sec : ℤ
  pub result_detail_max_chars : ℤ
  pub max_response_time_ms : ℤ
  pub invert_result : Bool
  pub enabled : Bool

-- CheckExportOf
unfoldable pub check_export_of : Check → CheckExport
check_export_of c = record {
  guid = c.guid;
  name = c.name;
  url = c.url;
  match_string = c.match_string;
  match_mode = c.match_mode;
  post_data = c.post_data;
  headers = c.headers;
  disable_redirects = c.disable_redirects;
  status_code_op = c.status_code_op;
  status_code_value = c.status_code_value;
  insecure_skip_verify = c.insecure_skip_verify;
  interval_sec = c.interval_sec;
  timeout_sec = c.timeout_sec;
  result_detail_max_chars = c.result_detail_max_chars;
  max_response_time_ms = c.max_response_time_ms;
  invert_result = c.invert_result;
  enabled = c.enabled;
}

-- json.Unmarshal of one check and of an array of them.
pub record Json : Type 0 where
  pub decode_check : Text → Option Check
  pub decode_checks : Text → Option (List Check)

pub data FileError : Type 0 where
  -- The file cannot be opened or read.
  unreadable : Text → FileError
  empty_definition : FileError
  unparsed : FileError
  no_checks : FileError

pub data Parsed : Type 0 where
  parsed : List Check → Parsed
  unusable : FileError → Parsed

parsed_or : Option (List Check) → Parsed
parsed_or none = unusable unparsed
parsed_or (some checks) = parsed checks

one_or : Option Check → Parsed
one_or none = unusable unparsed
one_or (some c) = parsed (c ∷ [])

-- ParseCheckDefinitions
unfoldable pub parse_check_definitions : Json → Text → Parsed
unfolding parsed_or one_or
parse_check_definitions json raw =
    let trimmed = trim_space raw in
    if same trimmed []
    then unusable empty_definition
    else if has_prefix trimmed (bytes "[")
    then parsed_or (json.decode_checks trimmed)
    else one_or (json.decode_check trimmed)

-- maxTestCheckJSON, and maxImportPrivateCheckJSON of cmd/monitor/main.go.
abbrev pub max_check_json : ℕ
max_check_json = 1048576

-- What io.ReadAll returns: the text, or an error.
pub data File : Type 0 where
  contents : Text → File
  read_error : Text → File

-- The definitions in a file, which must not be none.
unfoldable pub read_definitions : Json → File → Parsed
unfolding parse_check_definitions
read_definitions json (read_error e) = unusable (unreadable e)
read_definitions json (contents raw) =
    elim (parse_check_definitions json (take max_check_json raw)) [
      | unusable e ↦ unusable e
      | parsed [] ↦ unusable no_checks
      | parsed (c ∷ cs) ↦ parsed (c ∷ cs)
    ]
