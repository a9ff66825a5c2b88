-- ===== src/Model/Verdict.antt =====
-- model/model.go: the methods of Check that turn what an execution observed into a verdict. Each
-- returns the result's error message, and "" for a pass.
pub mod Rules
use tenpm_uptime_monitor.Prelude.{
  ℕ, ◌*◌, Bool, true, false, not, ◌&&◌, ◌||◌, [], ◌++◌, if◌then◌else◌,
}
use tenpm_uptime_monitor.Prelude.Int.{ℤ, pos, leb_ℤ, ltb_ℤ, eq_ℤ, ◌*ℤ◌}
use tenpm_uptime_monitor.Prelude.Text.{Text, bytes, same, contains, show_ℤ}
use tenpm_uptime_monitor.Schedule.Words.{wrap64}
use tenpm_uptime_monitor.Model.Check.{
  Check, match_not_contains, status_code_equals, status_code_less_than, status_code_greater_than,
  default_check_timeout_sec,
}

-- Timeout, in nanoseconds, which are an int64.
unfoldable pub timeout : Check → ℤ
unfolding wrap64
timeout c =
    if leb_ℤ c.timeout_sec (pos 0)
    then default_check_timeout_sec *ℤ pos 1000000000
    else wrap64 (c.timeout_sec *ℤ pos 1000000000)

-- Negated
unfoldable pub negated : Check → Bool
negated c = same c.match_mode match_not_contains

-- MatchContent
unfoldable pub match_content : Check → Text → Text
unfolding negated
match_content c content =
    if same c.match_string []
    then []
    else let found = contains content c.match_string in
      if negated c && found
      then bytes "response contained forbidden match string"
      else if not (negated c) && not found
      then bytes "response did not contain match string"
      else []

-- StatusCodeAcceptable. `quote` is the verb %q of package fmt.
unfoldable pub status_code_acceptable : (Text → Text) → Check → ℤ → Text
status_code_acceptable quote c status =
    if same c.status_code_op []
    then (if leb_ℤ (pos 400) status then bytes "unexpected status " ++ show_ℤ status else [])
    else if same c.status_code_op status_code_equals
    then (if eq_ℤ status c.status_code_value
        then []
        else bytes "status "
          ++ show_ℤ status
          ++ bytes ", expected equal to "
          ++ show_ℤ c.status_code_value)
    else if same c.status_code_op status_code_less_than
    then (if ltb_ℤ status c.status_code_value
        then []
        else bytes "status "
          ++ show_ℤ status
          ++ bytes ", expected less than "
          ++ show_ℤ c.status_code_value)
    else if same c.status_code_op status_code_greater_than
    then (if ltb_ℤ c.status_code_value status
        then []
        else bytes "status "
          ++ show_ℤ status
          ++ bytes ", expected greater than "
          ++ show_ℤ c.status_code_value)
    else bytes "status "
      ++ show_ℤ status
      ++ bytes " (check has an unrecognized status_code_op "
      ++ quote c.status_code_op
      ++ bytes ")"

-- ResponseTimeExceeded
unfoldable pub response_time_exceeded : Check → ℤ → Text
response_time_exceeded c latency_ms =
    if leb_ℤ c.max_response_time_ms (pos 0) || leb_ℤ latency_ms c.max_response_time_ms
    then []
    else bytes "response time "
      ++ show_ℤ latency_ms
      ++ bytes "ms exceeded "
      ++ show_ℤ c.max_response_time_ms
      ++ bytes "ms threshold"

-- CertExpiryExceeded
unfoldable pub cert_expiry_exceeded : Check → ℤ → Text
cert_expiry_exceeded c days_remaining =
    if leb_ℤ c.cert_expiry_warn_days (pos 0) || ltb_ℤ c.cert_expiry_warn_days days_remaining
    then []
    else bytes "certificate expires in "
      ++ show_ℤ days_remaining
      ++ bytes " day(s), at or below the "
      ++ show_ℤ c.cert_expiry_warn_days
      ++ bytes "-day warning threshold"

-- InvertPassed
unfoldable pub invert_passed : Check → Bool → Text → Bool × Text
invert_passed c passed reason =
    if not c.invert_result
    then (passed, reason)
    else if passed
    then (false, bytes "target responded normally; this check is inverted and expects it to fail")
    else (true, reason)
