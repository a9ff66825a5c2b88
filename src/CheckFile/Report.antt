-- ===== src/CheckFile/Report.antt =====
-- monitor/testcheck.go: TestCheck and TestChecksFromJSON. A report is the list of its lines: how fmt
-- prints one is left out.
use tenpm_uptime_monitor.Prelude.{
  ℕ, suc, Bool, true, false, not, List, [], ◌∷◌, ◌++◌, map, length, ltb, ◌-◌, if◌then◌else◌,
}
use tenpm_uptime_monitor.Prelude.Int.{ℤ, pos, ltb_ℤ, eq_ℤ}
use tenpm_uptime_monitor.Prelude.Text.{Text, bytes, same}
use tenpm_uptime_monitor.Prelude.Text.Sort.{sort_texts, join}
use tenpm_uptime_monitor.Model.Check.{
  Check, Headers, Result, match_contains, match_not_contains, default_check_timeout_sec,
}
use tenpm_uptime_monitor.Model.Verdict.{invert_passed, timeout}
use tenpm_uptime_monitor.CheckFile.{Json, File, FileError, parsed, unusable, read_definitions}

-- normalizeTestCheck
unfoldable pub normalize_test_check : Check → Check
normalize_test_check c = record c {
  match_mode = if same c.match_mode [] then match_contains else c.match_mode;
  timeout_sec = if eq_ℤ c.timeout_sec (pos 0) then default_check_timeout_sec else c.timeout_sec;
}

-- displayName, and displayImportName of cmd/monitor/main.go.
unfoldable pub display_name : Check → Text
display_name c = if same c.name [] then bytes "(unnamed)" else c.name

-- headerNames
unfoldable pub header_names : Headers → Text
unfolding sort_texts join
header_names headers = join (bytes ", ") (sort_texts (map (λ h. h.0) headers))

-- The lines of a report, with what is printed in each.
pub data Line : Type 0 where
  rule : Line
  blank : Line
  check_line : Text → Line
  url_line : Text → Line
  method_line : ℕ → Line
  headers_line : Text → Line
  match_line : Bool → Text → Line
  match_none : Line
  timeout_line : ℤ → Line
  max_response_time_line : ℤ → Line
  redirects_not_followed : Line
  status_rule : Text → ℤ → Line
  verification_skipped : Line
  inverted : Line
  status_line : ℤ → Line
  latency_line : ℤ → Line
  error_line : Text → Line
  response_line : Text → Line
  nothing_read : Line
  pass : Line
  fail : Line
  passed_of : ℕ → ℕ → Line

abbrev pub line_if : Bool → Line → List Line
line_if true line = line ∷ []
line_if false line = []

-- TestCheck up to the run, by what RedactedURL returns.
unfoldable pub report_head : (Check → Text) → Check → List Line
unfolding display_name header_names
report_head redacted c =
    rule
    ∷ check_line (display_name c)
    ∷ url_line (redacted c)
    ∷ (line_if (not (same c.post_data [])) (method_line (length c.post_data))
        ++ (line_if (ltb 0 (length c.headers)) (headers_line (header_names c.headers))
            ++ ((if same c.match_string []
                  then match_none
                  else match_line (same c.match_mode match_not_contains) c.match_string)
                ∷ timeout_line (timeout c)
                ∷ (line_if (ltb_ℤ (pos 0) c.max_response_time_ms)
                      (max_response_time_line c.max_response_time_ms)
                    ++ (line_if c.disable_redirects redirects_not_followed
                        ++ (line_if (not (same c.status_code_op []))
                              (status_rule c.status_code_op c.status_code_value)
                            ++ (line_if c.insecure_skip_verify verification_skipped
                                ++ (line_if c.invert_result inverted ++ blank ∷ []))))))))

-- TestCheck from the inverted result on.
unfoldable pub report_result : Result → List Line
report_result r =
    line_if (not (eq_ℤ r.http_status (pos 0))) (status_line r.http_status)
    ++ (latency_line r.latency_ms
        ∷ (line_if (not (same r.error [])) (error_line r.error)
            ++ ((if same r.response_sample []
                  then nothing_read
                  else response_line r.response_sample)
                ∷ (if r.success then pass else fail)
                ∷ [])))

-- The result of the run after InvertPassed.
unfoldable pub tested : (Check → Result) → Check → Result
tested run c =
    let raw = run c in
    let (success, error) = invert_passed c raw.success raw.error in
    record raw { success = success; error = error }

-- TestCheck: whether the check passed, and what is printed.
unfoldable pub test_check : (Check → Text) → (Check → Result) → Check → Bool × List Line
unfolding normalize_test_check report_head report_result tested
test_check redacted run check =
    let c = normalize_test_check check in
    let result = tested run c in (result.success, report_head redacted c ++ report_result result)

-- The loop of TestChecksFromJSON, with `first` at the first check: how many failed, and what is
-- printed.
unfoldable pub test_checks : (Check → Text) → (Check → Result) → Bool → List Check → ℕ × List Line
unfolding test_check
test_checks redacted run first [] = (0, [])
test_checks redacted run first (c ∷ cs) =
    let (passed, lines) = test_check redacted run c in
    let (failed, rest) = test_checks redacted run false cs in
    (if passed then failed else suc failed, line_if (not first) blank ++ (lines ++ rest))

-- How TestChecksFromJSON ends: the number that failed, or the error.
pub data Tested : Type 0 where
  failures : ℕ → Tested
  not_tested : FileError → Tested

-- TestChecksFromJSON
unfoldable pub test_checks_from_json :
    Json → (Check → Text) → (Check → Result) → File → Tested × List Line
unfolding read_definitions test_checks
test_checks_from_json json redacted run file = elim (read_definitions json file) [
  | unusable e ↦ (not_tested e, [])
  | parsed checks ↦
      let (failed, lines) = test_checks redacted run true checks in
      let total = length checks in
      (failures failed, lines ++ line_if (ltb 1 total) (passed_of (total - failed) total))
]
