-- ===== src/Checker/Scheme.antt =====
-- monitor/tcp_checker.go: SchemeChecker, which routes a check to a checker by the scheme of its URL.
use tenpm_uptime_monitor.Prelude.{Option, none, some, List, [], if◌then◌else◌}
use tenpm_uptime_monitor.Prelude.Int.{ℤ}
use tenpm_uptime_monitor.Prelude.Text.{Text, bytes, same}
use tenpm_uptime_monitor.Model.Check.{Check, Result}
use tenpm_uptime_monitor.Model.Addr.{Addr}
use tenpm_uptime_monitor.Egress.{Policy, policy_open, check_url}
use tenpm_uptime_monitor.Checker.{World, started_result, egress_error}
use tenpm_uptime_monitor.Checker.Tcp.{
  TcpChecker, TcpWorld, Reads, new_tcp_checker_with_policy, tcp_run,
}
use tenpm_uptime_monitor.Checker.Tls.{
  TlsChecker, TlsWorld, TlsConfig, Handshake, new_tls_checker_with_policy, tls_run,
}
use tenpm_uptime_monitor.Checker.Http.{
  HttpChecker, HttpWorld, Request, Done, new_http_checker_with_policy, http_run,
}
use tenpm_uptime_monitor.Checker.Registry.{Custom, Registry, registered_checkers, find_scheme}

-- SchemeChecker
pub record SchemeChecker : Type 0 where
  pub http : HttpChecker
  pub tcp : TcpChecker
  pub tls : TlsChecker
  pub policy : Policy
  pub custom : List (Text × Custom)

-- NewSchemeCheckerWithPolicy
unfoldable pub new_scheme_checker_with_policy : Policy → Registry → SchemeChecker
new_scheme_checker_with_policy policy registry = record {
  http = new_http_checker_with_policy policy;
  tcp = new_tcp_checker_with_policy policy;
  tls = new_tls_checker_with_policy policy;
  policy = policy;
  custom = registered_checkers policy registry;
}

-- NewSchemeChecker
unfoldable pub new_scheme_checker : Registry → SchemeChecker
unfolding new_scheme_checker_with_policy
new_scheme_checker registry = new_scheme_checker_with_policy policy_open registry

-- What a run of any of the three checkers meets.
pub record SchemeWorld (Conn : Type 0) : Type 0 where
  pub world : World Conn
  pub open world use *
  pub latency_ms : ℤ
  pub reads : Conn → ℤ → Reads
  pub handshake : Conn → TlsConfig → Handshake
  pub request_error : Text → Text → Option Text
  pub jar_error : Option Text
  pub do_request : Request → Done

abbrev pub tcp_world : {Conn : Type 0} → SchemeWorld Conn → TcpWorld Conn
tcp_world w = record { world = w.world; latency_ms = w.latency_ms; reads = w.reads }

abbrev pub tls_world : {Conn : Type 0} → SchemeWorld Conn → TlsWorld Conn
tls_world w = record { world = w.world; latency_ms = w.latency_ms; handshake = w.handshake }

abbrev pub http_world : {Conn : Type 0} → SchemeWorld Conn → HttpWorld Conn
http_world w = record {
  world = w.world;
  request_error = w.request_error;
  jar_error = w.jar_error;
  latency_ms = w.latency_ms;
  do_request = w.do_request;
}

-- What a run has touched: the addresses that the pinned dialer dialled, the request that was made,
-- and the scheme of the custom checker that ran.
pub record Touched : Type 0 where
  pub dialed : List Addr
  pub request : Option Request
  pub custom : Option Text

abbrev pub untouched : Touched
untouched = record { dialed = []; request = none; custom = none }

abbrev pub with_dialed : Result × List Addr → Result × Touched
with_dialed (r, addrs) = (r, record untouched { dialed = addrs })

abbrev pub with_request : Result × Option Request → Result × Touched
with_request (r, req) = (r, record untouched { request = req })

-- The switch on the scheme of a URL that parses; `none` falls through to the HTTP checker.
unfoldable pub dispatch :
    {Conn : Type 0} → SchemeWorld Conn → SchemeChecker → Check → Text → Option (Result × Touched)
dispatch w s c scheme = elim (find_scheme scheme s.custom) [
  | some checker ↦ some (checker c, record untouched { custom = some scheme })
  | none ↦
      if same scheme (bytes "tcp")
      then some (with_dialed (tcp_run (tcp_world w) s.tcp c))
      else if same scheme (bytes "tls")
      then some (with_dialed (tls_run (tls_world w) s.tls c))
      else none
]

-- SchemeChecker.Run from the scheme on.
unfoldable pub routed :
    {Conn : Type 0} → SchemeWorld Conn → SchemeChecker → Check → Result × Touched
unfolding dispatch
routed w s c =
    let fallback = with_request (http_run (http_world w) s.http c) in
    elim (w.net.parse_url c.url) [
      | none ↦ fallback
      | some u ↦ elim (dispatch w s c u.scheme) [ none ↦ fallback | some ran ↦ ran ]
    ]

-- SchemeChecker.Run
unfoldable pub scheme_run :
    {Conn : Type 0} → SchemeWorld Conn → SchemeChecker → Check → Result × Touched
unfolding routed
scheme_run w s c = elim (check_url w.net s.policy c.url) [
  | some e ↦ (record (started_result w.ran_at c) { error = egress_error e }, untouched)
  | none ↦ routed w s c
]
