-- ===== src/Tests/Checkers.antt =====
-- The checkers on the sample check.
use tenpm_uptime_monitor.Checker.Tcp.{Reads, read_banner, max_banner_read_len}
use tenpm_uptime_monitor.Checker.Tcp.Banner.{Fits, by_deadline, BannerIs, read_banner-ends}
use tenpm_uptime_monitor.Prelude.{
  ◌≤◌, refl, inl, inr, arith, ltb, take, length, length-take, Bool-cases, false, if◌then◌else◌, ◌≡◌,
  ◌↔◌, ◌⊎◌, true, none, some, [], ◌∷◌,
}
use tenpm_uptime_monitor.Prelude.Int.{pos}
use tenpm_uptime_monitor.Prelude.Text.{Text, bytes, trim_space}
use tenpm_uptime_monitor.Model.Restricted.{Url}
use tenpm_uptime_monitor.Model.Restricted.Hosts.{IsPublic}
use tenpm_uptime_monitor.Model.Dial.{conn}
use tenpm_uptime_monitor.Egress.{policy_strict}
use tenpm_uptime_monitor.Checker.{World}
use tenpm_uptime_monitor.Checker.Tcp.{new_tcp_checker, tcp_run}
use tenpm_uptime_monitor.Checker.Tls.{Certificate, handshaken, new_tls_checker, tls_run}
use tenpm_uptime_monitor.Checker.Http.{new_http_checker, http_run, responded, readable}
use tenpm_uptime_monitor.Checker.Registry.{Registry}
use tenpm_uptime_monitor.Checker.Scheme.{
  SchemeWorld, tcp_world, tls_world, http_world, new_scheme_checker_with_policy, scheme_run,
  untouched,
}
use tenpm_uptime_monitor.Checker.Verdicts.Http.{HttpPasses, http_run-HttpPasses}
use tenpm_uptime_monitor.Checker.Verdicts.Sockets.{Readable, TcpPasses, TlsPasses, socket_runs_iff}
use tenpm_uptime_monitor.Checker.Strict.{Confined, scheme_run-Confined}
use tenpm_uptime_monitor.Tests.Samples.{sample_check}
use tenpm_uptime_monitor.Tests.Targets.{small_net, small_dialer}

abbrev small_world : World (Unit {0})
small_world = record {
  net = small_net;
  ran_at = record { sec = pos 1000; nsec = 0 };
  parse_error = λ s. bytes "bad";
  plain_dial = λ limit host. conn tt;
  dialer = λ limit. small_dialer;
  to_valid_utf8 = λ s. s;
  quote = λ s. s;
}

abbrev leaf : Certificate
leaf = record {
  subject = bytes "CN=e.org";
  issuer = bytes "CN=ca";
  not_after = bytes "2030";
  days_remaining = pos 30;
}

-- A target that answers every scheme.
abbrev answering : SchemeWorld (Unit {0})
answering = record {
  world = small_world;
  latency_ms = pos 40;
  reads = λ c limit n room. (take room (bytes "ok"), true);
  handshake = λ c config. handshaken (leaf ∷ []);
  request_error = λ method url. none;
  jar_error = none;
  do_request = λ req. responded (record {
    status_code = pos 200;
    body = readable (bytes "all ok");
    peer_certificates = some (leaf ∷ []);
  });
}

http_run-HttpPasses_example :
    ((http_run (http_world answering) new_http_checker sample_check).0.success ≡ true)
    ↔ HttpPasses (http_world answering) new_http_checker sample_check
http_run-HttpPasses_example =
    http_run-HttpPasses (http_world answering) new_http_checker sample_check

greets : Readable (tcp_world answering) new_tcp_checker sample_check
greets x = (
  λ n room. omega (arith, length-take room (bytes "ok")),
  by_deadline 0 (λ room. refl) (omega arith),
)

socket_runs_iff_example :
    (((tcp_run (tcp_world answering) new_tcp_checker sample_check).0.success ≡ true)
      ↔ TcpPasses (tcp_world answering) new_tcp_checker sample_check)
    × (((tls_run (tls_world answering) new_tls_checker sample_check).0.success ≡ true)
        ↔ TlsPasses (tls_world answering) new_tls_checker sample_check)
socket_runs_iff_example =
    socket_runs_iff (tcp_world answering) (tls_world answering) new_tcp_checker new_tls_checker
      sample_check greets

abbrev no_custom : Registry
no_custom = []

scheme_run-Confined_example :
    let touched =
      (scheme_run answering
        (new_scheme_checker_with_policy policy_strict no_custom)
        sample_check).1 in
    Confined small_world sample_check touched
    × ((touched ≡ untouched)
        ⊎ ((u : Url) × (small_net.parse_url (trim_space sample_check.url) ≡ some u)
            × IsPublic small_net u))
scheme_run-Confined_example = scheme_run-Confined answering no_custom sample_check

-- A service that says two bytes at a time, and then nothing until the deadline.
abbrev greeting : Reads
greeting n room = if ltb n 2 then (take room (bytes "ok"), false) else ([], true)

greeting-Fits : Fits greeting
greeting-Fits n room = elim (Bool-cases (ltb n 2)) [
  | inl early ↦ rw early (omega (arith, length-take room (bytes "ok")))
  | inr late ↦ rw late (omega arith)
]

read_banner-ends_example :
    (s : Text) × (read_banner greeting 3 ≡ some s)
    × BannerIs greeting 0 max_banner_read_len s
    × (length s ≤ max_banner_read_len)
read_banner-ends_example =
    read_banner-ends greeting 3 greeting-Fits (by_deadline 2 (λ room. refl) (omega arith))
