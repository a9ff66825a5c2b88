-- ===== src/Checker/Tls.antt =====
-- monitor/tls_checker.go: TLSChecker and certSummary. The handshake of crypto/tls and the fields of a
-- certificate are parameters.
use tenpm_uptime_monitor.Prelude.{Bool, true, none, some, List, [], ◌∷◌, ◌++◌, if◌then◌else◌}
use tenpm_uptime_monitor.Prelude.Int.{ℤ}
use tenpm_uptime_monitor.Prelude.Text.{Text, bytes, same, show_ℤ}
use tenpm_uptime_monitor.Model.Check.{Check, Result}
use tenpm_uptime_monitor.Model.Verdict.{match_content, response_time_exceeded, cert_expiry_exceeded}
use tenpm_uptime_monitor.Model.Content.{sample_content}
use tenpm_uptime_monitor.Model.Addr.{Addr}
use tenpm_uptime_monitor.Model.Restricted.{Url}
use tenpm_uptime_monitor.Egress.{Policy, policy_open, EgressDial, egress_connected, egress_failed}
use tenpm_uptime_monitor.Checker.{
  World, check_timeout, started_result, run_timeout, egress_error, policy_dial, judged,
}

-- TLSChecker
pub record TlsChecker : Type 0 where
  pub dial_timeout : ℤ
  pub policy : Policy

-- NewTLSCheckerWithPolicy
unfoldable pub new_tls_checker_with_policy : Policy → TlsChecker
new_tls_checker_with_policy policy = record { dial_timeout = check_timeout; policy = policy }

-- NewTLSChecker
unfoldable pub new_tls_checker : TlsChecker
unfolding new_tls_checker_with_policy
new_tls_checker = new_tls_checker_with_policy policy_open

-- A certificate: its subject, its issuer, its NotAfter in RFC 3339, and the whole days until then,
-- which the code computes on floating-point hours.
pub record Certificate : Type 0 where
  pub subject : Text
  pub issuer : Text
  pub not_after : Text
  pub days_remaining : ℤ

-- The configuration that the handshake gets.
pub record TlsConfig : Type 0 where
  pub server_name : Text
  pub insecure_skip_verify : Bool

-- A handshake: the certificates of the peer, the leaf first, or an error.
pub data Handshake : Type 0 where
  handshaken : List Certificate → Handshake
  handshake_error : Text → Handshake

-- What a tls run meets besides: the milliseconds until the dial has failed or the handshake has
-- ended, and the handshake.
pub record TlsWorld (Conn : Type 0) : Type 0 where
  pub world : World Conn
  pub open world use *
  pub latency_ms : ℤ
  pub handshake : Conn → TlsConfig → Handshake

-- certSummary
unfoldable pub cert_summary : Certificate → Text
cert_summary leaf =
    bytes "subject="
    ++ (leaf.subject
        ++ (bytes "; issuer="
            ++ (leaf.issuer
                ++ (bytes "; notAfter="
                    ++ (leaf.not_after
                        ++ (bytes "; daysRemaining=" ++ show_ℤ leaf.days_remaining))))))

-- Run, from the end of the handshake on.
unfoldable pub tls_handshaken : {Conn : Type 0} → TlsWorld Conn → Check → Handshake → Result
unfolding cert_summary
tls_handshaken w c (handshake_error e) = record (started_result w.ran_at c) {
  latency_ms = w.latency_ms;
  error = e;
}
tls_handshaken w c (handshaken []) = record (started_result w.ran_at c) {
  latency_ms = w.latency_ms;
  success = true;
}
tls_handshaken w c (handshaken (leaf ∷ chain)) =
    let sample = sample_content w.to_valid_utf8 (cert_summary leaf) in
    judged
      (record (started_result w.ran_at c) { latency_ms = w.latency_ms; response_sample = sample })
      (match_content c sample
        ∷ response_time_exceeded c w.latency_ms
        ∷ cert_expiry_exceeded c leaf.days_remaining
        ∷ [])

-- Run, from the dial on.
unfoldable pub tls_dialed : {Conn : Type 0} → TlsWorld Conn → Check → Url → EgressDial Conn → Result
unfolding tls_handshaken
tls_dialed w c u (egress_failed e) = record (started_result w.ran_at c) {
  latency_ms = w.latency_ms;
  error = egress_error e;
}
tls_dialed w c u (egress_connected connection) = tls_handshaken w c (
    w.handshake connection
      (record { server_name = u.hostname; insecure_skip_verify = c.insecure_skip_verify }))

-- TLSChecker.Run, with the addresses that the pinned dialer dialled.
unfoldable pub tls_run : {Conn : Type 0} → TlsWorld Conn → TlsChecker → Check → Result × List Addr
unfolding tls_dialed
tls_run w t c = elim (w.net.parse_url c.url) [
  | none ↦ (record (started_result w.ran_at c) { error = w.parse_error c.url }, [])
  | some u ↦
      let (dialed, addrs) = policy_dial w.world t.policy (run_timeout t.dial_timeout c) u.host in
      let result = tls_dialed w c u dialed in
      if same u.port []
      then (
        record (started_result w.ran_at c) { error = bytes "tls check URL must include a port" },
        [],
      )
      else (result, addrs)
]
