-- ===== src/Checker/Tcp.antt =====
-- monitor/tcp_checker.go: TCPChecker and readBanner.
pub mod Banner
use tenpm_uptime_monitor.Prelude.{
  ℕ, zero, suc, ◌-◌, Bool, true, false, Option, none, some, List, [], ◌∷◌, ◌++◌, length, ltb,
  if◌then◌else◌,
}
use tenpm_uptime_monitor.Prelude.Int.{ℤ, pos}
use tenpm_uptime_monitor.Prelude.Text.{Text, bytes, same}
use tenpm_uptime_monitor.Model.Check.{Check, Result}
use tenpm_uptime_monitor.Model.Verdict.{match_content, response_time_exceeded}
use tenpm_uptime_monitor.Model.Content.{sample_content}
use tenpm_uptime_monitor.Model.Addr.{Addr}
use tenpm_uptime_monitor.Model.Restricted.{Url}
use tenpm_uptime_monitor.Egress.{Policy, policy_open, EgressDial, egress_connected, egress_failed}
use tenpm_uptime_monitor.Checker.{
  World, check_timeout, started_result, run_timeout, egress_error, policy_dial, judged,
}

-- bannerReadTimeout, in nanoseconds, and maxBannerReadLen
abbrev pub banner_read_timeout : ℤ
banner_read_timeout = pos 3000000000

abbrev pub max_banner_read_len : ℕ
max_banner_read_len = 4096

-- TCPChecker
pub record TcpChecker : Type 0 where
  pub dial_timeout : ℤ
  pub banner_timeout : ℤ
  pub policy : Policy

-- NewTCPCheckerWithPolicy
unfoldable pub new_tcp_checker_with_policy : Policy → TcpChecker
new_tcp_checker_with_policy policy = record {
  dial_timeout = check_timeout;
  banner_timeout = banner_read_timeout;
  policy = policy;
}

-- NewTCPChecker
unfoldable pub new_tcp_checker : TcpChecker
unfolding new_tcp_checker_with_policy
new_tcp_checker = new_tcp_checker_with_policy policy_open

-- What the n-th Read of a connection returns into a buffer with the given room: the bytes, and
-- whether there is an error too.
abbrev pub Reads : Type 0
Reads = ℕ → ℕ → Text × Bool

-- The loop of readBanner, from its n-th round on and with the given room left in the buffer.
unfoldable pub read_rounds : Reads → ℕ → ℕ → ℕ → Option Text
read_rounds reads zero n room = none
read_rounds reads (suc fuel) n room =
    let (chunk, failed) = reads n room in
    let rest = read_rounds reads fuel (suc n) (room - length chunk) in
    if ltb 0 room
    then (if failed
        then some chunk
        else elim rest [ none ↦ none | some more ↦ some (chunk ++ more) ])
    else some []

-- readBanner; `none` means that the fuel ran out.
unfoldable pub read_banner : Reads → ℕ → Option Text
unfolding read_rounds
read_banner reads fuel = read_rounds reads fuel 0 max_banner_read_len

-- The banner, on fuel that is enough for every connection of which each Read returns something or an
-- error, or of which the deadline passes before the round 4097; on no fuel it would be empty.
unfoldable pub banner_of : Reads → Text
banner_of reads = elim (read_banner reads (suc max_banner_read_len)) [ none ↦ [] | some s ↦ s ]

-- What a tcp run meets besides: the milliseconds that the dial takes, and what a connection's reads
-- return until the checker's banner timeout.
pub record TcpWorld (Conn : Type 0) : Type 0 where
  pub world : World Conn
  pub open world use *
  pub latency_ms : ℤ
  pub reads : Conn → ℤ → Reads

-- Run, from the dial on.
unfoldable pub tcp_dialed :
    {Conn : Type 0} → TcpWorld Conn → TcpChecker → Check → EgressDial Conn → Result
tcp_dialed w t c (egress_failed e) = record (started_result w.ran_at c) {
  latency_ms = w.latency_ms;
  error = egress_error e;
}
tcp_dialed w t c (egress_connected connection) =
    let banner = banner_of (w.reads connection t.banner_timeout) in
    judged
      (record (started_result w.ran_at c) {
        latency_ms = w.latency_ms;
        response_sample = sample_content w.to_valid_utf8 banner;
      })
      (match_content c banner ∷ response_time_exceeded c w.latency_ms ∷ [])

-- TCPChecker.Run, with the addresses that the pinned dialer dialled.
unfoldable pub tcp_run : {Conn : Type 0} → TcpWorld Conn → TcpChecker → Check → Result × List Addr
unfolding tcp_dialed
tcp_run w t c = elim (w.net.parse_url c.url) [
  | none ↦ (record (started_result w.ran_at c) { error = w.parse_error c.url }, [])
  | some u ↦
      let (dialed, addrs) = policy_dial w.world t.policy (run_timeout t.dial_timeout c) u.host in
      let result = tcp_dialed w t c dialed in
      if same u.port []
      then (
        record (started_result w.ran_at c) { error = bytes "tcp check URL must include a port" },
        [],
      )
      else (result, addrs)
]
