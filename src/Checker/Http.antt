-- ===== src/Checker/Http.antt =====
-- monitor/runner.go: HTTPChecker. What net/http does with a request is a parameter; the model keeps
-- the request that it was given, with the client's settings.
use tenpm_uptime_monitor.Prelude.{
  ℕ, Bool, true, false, not, Option, none, some, List, [], ◌∷◌, if◌then◌else◌, take, leb,
}
use tenpm_uptime_monitor.Prelude.Int.{ℤ}
use tenpm_uptime_monitor.Prelude.Text.{Text, bytes, same}
use tenpm_uptime_monitor.Model.Check.{Check, Result, Headers}
use tenpm_uptime_monitor.Model.Verdict.{
  match_content, status_code_acceptable, response_time_exceeded, cert_expiry_exceeded,
}
use tenpm_uptime_monitor.Model.Content.{sample_content}
use tenpm_uptime_monitor.Egress.{Policy, policy_open, policy_strict, check_url}
use tenpm_uptime_monitor.Checker.{
  World, check_timeout, started_result, run_timeout, egress_error, judged,
}
use tenpm_uptime_monitor.Checker.Tls.{Certificate}

-- maxBodyReadLen
abbrev pub max_body_read_len : ℕ
max_body_read_len = 1048576

-- http.Transport, as far as the checker sets it: whether it dials through the pinned dialer, and
-- whether it skips the verification of certificates. DefaultTransport does neither.
pub record Transport : Type 0 where
  pub pinned : Bool
  pub insecure_skip_verify : Bool

abbrev pub default_transport : Transport
default_transport = record { pinned = false; insecure_skip_verify = false }

-- HTTPChecker
pub record HttpChecker : Type 0 where
  pub timeout : ℤ
  pub policy : Policy
  pub transport : Option Transport
  pub insecure_transport : Option Transport

-- NewHTTPCheckerWithPolicy
unfoldable pub new_http_checker_with_policy : Policy → HttpChecker
new_http_checker_with_policy policy_open = record {
  timeout = check_timeout;
  policy = policy_open;
  transport = none;
  insecure_transport = some (record { pinned = false; insecure_skip_verify = true });
}
new_http_checker_with_policy policy_strict = record {
  timeout = check_timeout;
  policy = policy_strict;
  transport = some (record { pinned = true; insecure_skip_verify = false });
  insecure_transport = some (record { pinned = true; insecure_skip_verify = true });
}

-- NewHTTPChecker
unfoldable pub new_http_checker : HttpChecker
unfolding new_http_checker_with_policy
new_http_checker = new_http_checker_with_policy policy_open

-- insecureTransportOrDefault
unfoldable pub insecure_transport_or_default : HttpChecker → Transport
insecure_transport_or_default h = elim h.insecure_transport [
  | some t ↦ t
  | none ↦ record { pinned = false; insecure_skip_verify = true }
]

-- What the client does with a redirect: net/http's own rule, http.ErrUseLastResponse, or the
-- function of the strict policy.
pub data Redirects : Type 0 where
  default_redirects : Redirects
  use_last_response : Redirects
  checked_redirects : Redirects

-- The function of the strict policy, on the URL of a hop and the number of requests before it.
unfoldable pub check_redirect : {Conn : Type 0} → World Conn → Text → ℕ → Option Text
check_redirect w url via =
    if leb 10 via
    then some (bytes "stopped after 10 redirects")
    else elim (check_url w.net policy_strict url) [ none ↦ none | some e ↦ some (egress_error e) ]

-- The request, and the client that sends it.
pub record Request : Type 0 where
  pub method : Text
  pub url : Text
  pub body : Text
  pub headers : Headers
  pub timeout : ℤ
  pub transport : Transport
  pub redirects : Redirects

-- What a body yields up to a limit: all that is read, or an error.
pub data Body : Type 0 where
  readable : Text → Body
  unreadable : Text → Body

pub record Response : Type 0 where
  pub status_code : ℤ
  pub body : Body
  pub peer_certificates : Option (List Certificate)

pub data Done : Type 0 where
  responded : Response → Done
  do_error : Text → Done

-- What an http run meets besides: the errors of http.NewRequestWithContext and of cookiejar.New, the
-- milliseconds until the response, and what the client does.
pub record HttpWorld (Conn : Type 0) : Type 0 where
  pub world : World Conn
  pub open world use *
  pub request_error : Text → Text → Option Text
  pub jar_error : Option Text
  pub latency_ms : ℤ
  pub do_request : Request → Done

-- The method, and with it the body.
unfoldable pub request_method : Check → Text
request_method c = if not (same c.post_data []) then bytes "POST" else bytes "GET"

-- The transport of the client.
unfoldable pub client_transport : HttpChecker → Check → Transport
unfolding insecure_transport_or_default
client_transport h c =
    if c.insecure_skip_verify
    then insecure_transport_or_default h
    else elim h.transport [ some t ↦ t | none ↦ default_transport ]

-- CheckRedirect of the client.
unfoldable pub client_redirects : HttpChecker → Check → Redirects
client_redirects h c =
    if c.disable_redirects
    then use_last_response
    else elim h.policy [ policy_strict ↦ checked_redirects | policy_open ↦ default_redirects ]

unfoldable pub built_request : HttpChecker → Check → Request
unfolding request_method client_transport client_redirects
built_request h c = record {
  method = request_method c;
  url = c.url;
  body = c.post_data;
  headers = c.headers;
  timeout = run_timeout h.timeout c;
  transport = client_transport h c;
  redirects = client_redirects h c;
}

-- The verdict on the certificate, if there is one.
unfoldable pub cert_verdict : Check → Option (List Certificate) → List Text
cert_verdict c none = []
cert_verdict c (some []) = []
cert_verdict c (some (leaf ∷ chain)) = cert_expiry_exceeded c leaf.days_remaining ∷ []

-- Run, from the response on.
unfoldable pub http_responded : {Conn : Type 0} → HttpWorld Conn → Check → Response → Result
unfolding cert_verdict
http_responded w c resp =
    let answered = record (started_result w.ran_at c) {
      latency_ms = w.latency_ms;
      http_status = resp.status_code;
    } in
    elim resp.body [
      | unreadable e ↦ record answered { error = e }
      | readable content ↦
          let resp_body = take max_body_read_len content in
          judged (record answered { response_sample = sample_content w.to_valid_utf8 resp_body })
            (status_code_acceptable w.quote c resp.status_code
              ∷ match_content c resp_body
              ∷ response_time_exceeded c w.latency_ms
              ∷ cert_verdict c resp.peer_certificates)
    ]

-- Run, from client.Do on.
unfoldable pub http_done : {Conn : Type 0} → HttpWorld Conn → Check → Done → Result
unfolding http_responded
http_done w c (do_error e) = record (started_result w.ran_at c) {
  latency_ms = w.latency_ms;
  error = e;
}
http_done w c (responded resp) = http_responded w c resp

-- HTTPChecker.Run, with the request that it made, if it made one.
unfoldable pub http_run :
    {Conn : Type 0} → HttpWorld Conn → HttpChecker → Check → Result × Option Request
unfolding built_request http_done
http_run w h c = elim (check_url w.net h.policy c.url) [
  | some e ↦ (record (started_result w.ran_at c) { error = egress_error e }, none)
  | none ↦ elim (w.request_error (request_method c) c.url) [
    | some e ↦ (record (started_result w.ran_at c) { error = e }, none)
    | none ↦ elim w.jar_error [
      | some e ↦ (record (started_result w.ran_at c) { error = e }, none)
      | none ↦ (http_done w c (w.do_request (built_request h c)), some (built_request h c))
    ]
  ]
]
