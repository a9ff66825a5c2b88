-- ===== src/Checker/Verdicts/Sockets.antt =====
-- When a tcp run and a tls run pass.
use mathlib.Core.Path.{subst}
use tenpm_uptime_monitor.Prelude.{
  suc, ◌≡◌, ◌≢◌, refl, ◌⊎◌, inl, inr, ◌↔◌, true, some, List, [], ◌∷◌, arith, Option-cases,
}
use tenpm_uptime_monitor.Prelude.Int.{ℤ}
use tenpm_uptime_monitor.Prelude.Text.{Text, text_dec}
use tenpm_uptime_monitor.Model.Check.{Check}
use tenpm_uptime_monitor.Model.Verdict.{match_content, response_time_exceeded, cert_expiry_exceeded}
use tenpm_uptime_monitor.Model.Verdict.Rules.{Matches, match_content-Matches}
use tenpm_uptime_monitor.Model.Content.{sample_content}
use tenpm_uptime_monitor.Model.Restricted.{Url}
use tenpm_uptime_monitor.Egress.{Policy, EgressDial, EgressError, egress_connected, egress_failed}
use tenpm_uptime_monitor.Checker.{World, started_result, run_timeout, policy_dial}
use tenpm_uptime_monitor.Checker.Tcp.{
  TcpWorld, TcpChecker, max_banner_read_len, banner_of, tcp_dialed, tcp_run,
}
use tenpm_uptime_monitor.Checker.Tcp.Banner.{
  Fits, Settles, BannerIs, banner_of-BannerIs, banner_of_unique,
}
use tenpm_uptime_monitor.Checker.Tls.{
  TlsWorld, TlsChecker, TlsConfig, Certificate, Handshake, handshaken, handshake_error,
  cert_summary, tls_handshaken, tls_dialed, tls_run,
}
use tenpm_uptime_monitor.Checker.Verdicts.{judged-success, InTime, InTime-iff, Lasts, Lasts-iff}

EgressDial-cases :
    {Conn : Type 0} (d : EgressDial Conn)
    → ((x : Conn) × (d ≡ egress_connected x)) ⊎ ((e : EgressError) × (d ≡ egress_failed e))
EgressDial-cases (egress_connected x) = inl (x, refl)
EgressDial-cases (egress_failed e) = inr (e, refl)

-- The target of a run: its URL parses and has a port.
pub record Target {Conn : Type 0} (w : World Conn) (c : Check) : Type 0 where
  pub url : Url
  pub parsed : w.net.parse_url c.url ≡ some url
  pub port : url.port ≢ []

-- A dial of the target connects.
pub record Connects {Conn : Type 0} (w : World Conn) (policy : Policy) (default : ℤ) (c : Check)
    : Type 0 where
  pub target : Target w c
  pub open target use *
  pub connection : Conn
  pub dialed :
      (policy_dial w policy (run_timeout default c) url.host).0 ≡ egress_connected connection

module _ {Conn : Type 0} (w : TcpWorld Conn) (t : TcpChecker) (c : Check) where
  -- On every connection readBanner comes to an end within its fuel.
  abbrev pub Readable : Type 0
  Readable =
      (x : Conn)
      → Fits (w.reads x t.banner_timeout)
        × Settles (w.reads x t.banner_timeout) (suc max_banner_read_len)

  pub record TcpPasses : Type 0 where
    pub connects : Connects w.world t.policy t.dial_timeout c
    pub open connects use *
    pub banner : Text
    pub read : BannerIs (w.reads connection t.banner_timeout) 0 max_banner_read_len banner
    pub matches : Matches c banner
    pub in_time : InTime c w.latency_ms

  tcp_dialed_iff :
      (x : Conn)
      → ((tcp_dialed w t c (egress_connected x)).success ≡ true)
        ↔ (Matches c (banner_of (w.reads x t.banner_timeout)) × InTime c w.latency_ms)
  unfolding tcp_dialed
  tcp_dialed_iff x =
      let banner : Text = banner_of (w.reads x t.banner_timeout) in
      let (judge, judge') =
        judged-success
          (record (started_result w.ran_at c) {
            latency_ms = w.latency_ms;
            response_sample = sample_content w.to_valid_utf8 banner;
          })
          (match_content c banner ∷ response_time_exceeded c w.latency_ms ∷ []) refl in
      let (matches, matches') = match_content-Matches c banner in
      let (time, time') = InTime-iff c w.latency_ms in
      (
        (λ h. let verdicts = judge h in (matches verdicts.0, time verdicts.1.0)),
        (λ p. judge' (matches' p.0, (time' p.1, tt))),
      )

  tcp_run-dialed :
      (u : Url)
      → w.net.parse_url c.url ≡ some u
      → u.port ≢ []
      → (tcp_run w t c).0
        ≡ tcp_dialed w t c (policy_dial w.world t.policy (run_timeout t.dial_timeout c) u.host).0
  unfolding tcp_run
  tcp_run-dialed u e port = rw (e, tcp_run) (ground arith)

  tcp_run_sound : Readable → (tcp_run w t c).0.success ≡ true → TcpPasses
  unfolding tcp_dialed
  tcp_run_sound readable h = elim (Option-cases (w.net.parse_url c.url)) [
    | inl bad ↦ absurd (unfold tcp_run in ground (arith, bad))
    | inr (u, parsed) ↦ elim (text_dec u.port []) [
      | yes missing ↦ absurd (unfold tcp_run in ground (arith, parsed, missing))
      | no port ↦
          let same = tcp_run-dialed u parsed port in
          elim (EgressDial-cases
            (policy_dial w.world t.policy (run_timeout t.dial_timeout c) u.host).0) [
              | inr (x, e) ↦ absurd (ground (arith, same, e))
              | inl (x, e) ↦
                  let passed : (tcp_dialed w t c (egress_connected x)).success ≡ true =
                    rw (same, e) at h in
                  let (matches, time) = (tcp_dialed_iff x).0 passed in
                  record {
                    connects = record {
                      target = record { url = u; parsed = parsed; port = port };
                      connection = x;
                      dialed = e;
                    };
                    banner = banner_of (w.reads x t.banner_timeout);
                    read =
                        banner_of-BannerIs (w.reads x t.banner_timeout) (readable x).0
                          (readable x).1;
                    matches = matches;
                    in_time = time;
                  }
            ]
    ]
  ]

  tcp_run_complete : Readable → TcpPasses → (tcp_run w t c).0.success ≡ true
  tcp_run_complete readable p =
      let (fits, settles) = readable p.connection in
      let same =
        banner_of_unique (w.reads p.connection t.banner_timeout) p.banner fits settles p.read in
      rw (tcp_run-dialed p.url p.parsed p.port, p.dialed)
        ((tcp_dialed_iff p.connection).1 (subst (Matches c) same p.matches, p.in_time))

-- The leaf certificate, if there is one, satisfies the rules of the check.
abbrev pub LeafPasses : {Conn : Type 0} → TlsWorld Conn → Check → List Certificate → Type 0
LeafPasses w c [] = Unit {0}
LeafPasses w c (leaf ∷ chain) =
    Matches c (sample_content w.to_valid_utf8 (cert_summary leaf))
    × InTime c w.latency_ms
    × Lasts c leaf.days_remaining

module _ {Conn : Type 0} (w : TlsWorld Conn) (t : TlsChecker) (c : Check) where
  -- The configuration of the handshake.
  abbrev config : Url → TlsConfig
  config u = record { server_name = u.hostname; insecure_skip_verify = c.insecure_skip_verify }

  pub record TlsPasses : Type 0 where
    pub connects : Connects w.world t.policy t.dial_timeout c
    pub open connects use *
    pub certificates : List Certificate
    pub handshake_done : w.handshake connection (config url) ≡ handshaken certificates
    pub leaf : LeafPasses w c certificates

  tls_handshaken_iff :
      (d : Handshake)
      → ((tls_handshaken w c d).success ≡ true)
        ↔ ((certs : List Certificate) × (d ≡ handshaken certs) × LeafPasses w c certs)
  unfolding tls_handshaken
  tls_handshaken_iff (handshake_error e) =
      (λ h. absurd (ground arith), λ p. absurd (ground (arith, p.1)))
  tls_handshaken_iff (handshaken []) = (λ h. ([], refl, tt), λ p. refl)
  tls_handshaken_iff (handshaken (leaf ∷ chain)) =
      let sample : Text = sample_content w.to_valid_utf8 (cert_summary leaf) in
      let (judge, judge') =
        judged-success
          (record (started_result w.ran_at c) {
            latency_ms = w.latency_ms;
            response_sample = sample;
          })
          (match_content c sample
            ∷ response_time_exceeded c w.latency_ms
            ∷ cert_expiry_exceeded c leaf.days_remaining
            ∷ [])
          refl in
      let (matches, matches') = match_content-Matches c sample in
      let (time, time') = InTime-iff c w.latency_ms in
      let (lasts, lasts') = Lasts-iff c leaf.days_remaining in
      (
        (λ h.
            let verdicts = judge h in
            (leaf ∷ chain, refl, (matches verdicts.0, time verdicts.1.0, lasts verdicts.1.1.0))),
        (λ p.
            let same : p.0 ≡ leaf ∷ chain = ground (arith, p.1) in
            let passes : LeafPasses w c (leaf ∷ chain) = subst (LeafPasses w c) same p.2 in
            judge' (matches' passes.0, (time' passes.1, (lasts' passes.2, tt)))),
      )

  tls_run-dialed :
      (u : Url)
      → w.net.parse_url c.url ≡ some u
      → u.port ≢ []
      → (tls_run w t c).0
        ≡ tls_dialed w c u (policy_dial w.world t.policy (run_timeout t.dial_timeout c) u.host).0
  unfolding tls_run
  tls_run-dialed u e port = rw (e, tls_run) (ground arith)

  tls_run_sound : (tls_run w t c).0.success ≡ true → TlsPasses
  unfolding tls_dialed
  tls_run_sound h = elim (Option-cases (w.net.parse_url c.url)) [
    | inl bad ↦ absurd (unfold tls_run in ground (arith, bad))
    | inr (u, parsed) ↦ elim (text_dec u.port []) [
      | yes missing ↦ absurd (unfold tls_run in ground (arith, parsed, missing))
      | no port ↦
          let same = tls_run-dialed u parsed port in
          elim (EgressDial-cases
            (policy_dial w.world t.policy (run_timeout t.dial_timeout c) u.host).0) [
              | inr (x, e) ↦ absurd (ground (arith, same, e))
              | inl (x, e) ↦
                  let passed : (tls_handshaken w c (w.handshake x (config u))).success ≡ true =
                    rw (same, e) at h in
                  let (certs, done, leaf) =
                    (tls_handshaken_iff (w.handshake x (config u))).0 passed in
                  record {
                    connects = record {
                      target = record { url = u; parsed = parsed; port = port };
                      connection = x;
                      dialed = e;
                    };
                    certificates = certs;
                    handshake_done = done;
                    leaf = leaf;
                  }
            ]
    ]
  ]

  tls_run_complete : TlsPasses → (tls_run w t c).0.success ≡ true
  unfolding tls_dialed
  tls_run_complete p =
      rw (tls_run-dialed p.url p.parsed p.port, p.dialed)
        ((tls_handshaken_iff (w.handshake p.connection (config p.url))).1
          (p.certificates, p.handshake_done, p.leaf))

-- A tcp run passes exactly when the URL of the check parses and has a port, the dial of its policy
-- connects, and what the connection sends up to the first error or until the buffer is full, and the
-- latency, satisfy the check's rules; the reads of a connection put no more bytes into the buffer than
-- fit, and they end by progress or by a deadline before the round 4097. A tls run passes exactly when
-- the URL parses and has a port, the dial of its policy connects, the handshake succeeds, and the
-- summary of the leaf certificate, the latency and the certificate's days satisfy the check's rules,
-- if the peer has a certificate at all.
pub socket_runs_iff :
    {Conn : Type 0} (tcp_w : TcpWorld Conn) (tls_w : TlsWorld Conn) (tcp : TcpChecker)
    (tls : TlsChecker) (c : Check)
    → Readable tcp_w tcp c
    → (((tcp_run tcp_w tcp c).0.success ≡ true) ↔ TcpPasses tcp_w tcp c)
      × (((tls_run tls_w tls c).0.success ≡ true) ↔ TlsPasses tls_w tls c)
socket_runs_iff tcp_w tls_w tcp tls c readable = (
  (tcp_run_sound tcp_w tcp c readable, tcp_run_complete tcp_w tcp c readable),
  (tls_run_sound tls_w tls c, tls_run_complete tls_w tls c),
)
