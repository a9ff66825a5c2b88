-- ===== src/Checker.antt =====
-- The checkers of monitor/runner.go, monitor/tcp_checker.go and monitor/tls_checker.go: what they share.
pub mod Tcp
pub mod Tls
pub mod Http
pub mod Registry
pub mod Scheme
pub mod Verdicts
pub mod Strict
use tenpm_uptime_monitor.Prelude.{
  ℕ, Bool, true, false, Option, none, some, List, [], ◌∷◌, ◌++◌, if◌then◌else◌,
}
use tenpm_uptime_monitor.Prelude.Int.{ℤ, pos, ltb_ℤ}
use tenpm_uptime_monitor.Prelude.Text.{Text, bytes, same}
use tenpm_uptime_monitor.Model.Check.{Check, Result, Time}
use tenpm_uptime_monitor.Model.Verdict.{timeout}
use tenpm_uptime_monitor.Model.Addr.{Addr}
use tenpm_uptime_monitor.Model.Restricted.{Net}
use tenpm_uptime_monitor.Model.Dial.{Dialer, Connect, conn, connect_error}
use tenpm_uptime_monitor.Egress.{
  Policy, policy_open, policy_strict, EgressError, err_blocked, passed_on, EgressDial,
  egress_connected, egress_failed, pinned_dialer,
}

-- checkTimeout, in nanoseconds.
abbrev pub check_timeout : ℤ
check_timeout = pos 10000000000

-- What a run meets: the network, the clock when it starts, the error of url.Parse on a text, the
-- plain dialer of package net and the parts of the pinned one, both within a timeout in seconds, and
-- the text functions that are parameters elsewhere.
pub record World (Conn : Type 0) : Type 0 where
  pub net : Net
  pub ran_at : Time
  pub parse_error : Text → Text
  pub plain_dial : ℤ → Text → Connect Conn
  pub dialer : ℤ → Dialer Conn
  pub to_valid_utf8 : Text → Text
  pub quote : Text → Text

-- The result that every run starts from.
abbrev pub started_result : Time → Check → Result
started_result ran_at c = record {
  check_id = 0;
  check_guid = c.guid;
  monitor_id = [];
  ran_at = ran_at;
  success = false;
  http_status = pos 0;
  latency_ms = pos 0;
  error = [];
  response_sample = [];
}

-- The timeout of a run: the check's own, if it has one, and else the checker's.
unfoldable pub run_timeout : ℤ → Check → ℤ
run_timeout default c = if ltb_ℤ (pos 0) c.timeout_sec then timeout c else default

-- Error of the two kinds of error that a dial returns.
unfoldable pub egress_error : EgressError → Text
egress_error (err_blocked reason) = bytes "blocked by egress policy: " ++ reason
egress_error (passed_on e) = e

-- The dial of a tcp or tls run: the plain one, or under the strict policy the pinned one, which also
-- tells the addresses that it dialled.
unfoldable pub policy_dial :
    {Conn : Type 0} → World Conn → Policy → ℤ → Text → EgressDial Conn × List Addr
policy_dial w policy_open timeout host = elim (w.plain_dial timeout host) [
  | conn c ↦ (egress_connected c, [])
  | connect_error e ↦ (egress_failed (passed_on e), [])
]
policy_dial w policy_strict timeout host = pinned_dialer w.net (w.dialer timeout) host

-- The end of a run: the first verdict that has a message is the error, and without one it passed.
unfoldable pub judged : Result → List Text → Result
judged r [] = record r { success = true }
judged r (m ∷ ms) = if same m [] then judged r ms else record r { error = m }
