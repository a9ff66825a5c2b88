-- ===== src/Checker/Strict.antt =====
-- What a run may touch under the strict policy.
use tenpm_uptime_monitor.Prelude.{
  ◌≡◌, ◌≢◌, refl, ◌⊎◌, inl, inr, true, none, some, List, [], arith, All, Option-cases,
}
use tenpm_uptime_monitor.Prelude.Text.{bytes, text_dec, trim_space}
use tenpm_uptime_monitor.Model.Check.{Check}
use tenpm_uptime_monitor.Model.Addr.{Addr}
use tenpm_uptime_monitor.Model.Restricted.{Url}
use tenpm_uptime_monitor.Model.Restricted.Hosts.{IsPublic, restricted_url-IsPublic}
use tenpm_uptime_monitor.Egress.{policy_strict, check_url, check_addr}
use tenpm_uptime_monitor.Egress.Rules.{pinned_dialer-Accepted}
use tenpm_uptime_monitor.Prelude.Int.{ℤ}
use tenpm_uptime_monitor.Checker.{World, policy_dial, run_timeout, check_timeout}
use tenpm_uptime_monitor.Checker.Tcp.{TcpWorld, TcpChecker, new_tcp_checker_with_policy, tcp_run}
use tenpm_uptime_monitor.Checker.Tls.{TlsWorld, TlsChecker, new_tls_checker_with_policy, tls_run}
use tenpm_uptime_monitor.Checker.Http.{
  HttpWorld, Request, default_redirects, new_http_checker_with_policy,
  insecure_transport_or_default, client_transport, client_redirects, built_request, http_run,
}
use tenpm_uptime_monitor.Checker.Registry.{Registry, registered_checkers, find_scheme}
use tenpm_uptime_monitor.Checker.Scheme.{
  SchemeWorld, SchemeChecker, Touched, untouched, new_scheme_checker_with_policy, tcp_world,
  tls_world, http_world, dispatch, routed, scheme_run,
}

-- The request may not leave the policy: it goes to the URL of the check, its connections are dialled
-- by the pinned dialer, and no redirect is followed unchecked.
pub record Guarded (c : Check) (req : Request) : Type 0 where
  pub url : req.url ≡ c.url
  pub pinned : req.transport.pinned ≡ true
  pub redirects : req.redirects ≢ default_redirects

-- What was touched stays within the policy.
pub record Confined {Conn : Type 0} (w : World Conn) (c : Check) (t : Touched) : Type 0 where
  pub dialed : All (λ a. check_addr w.net policy_strict a ≡ none) t.dialed
  pub request : (req : Request) → t.request ≡ some req → Guarded c req
  pub custom : t.custom ≡ none

built_request-Guarded :
    (c : Check) → Guarded c (built_request (new_http_checker_with_policy policy_strict) c)
unfolding built_request client_transport client_redirects insecure_transport_or_default
    new_http_checker_with_policy
built_request-Guarded c = record {
  url = refl;
  pinned = ground arith;
  redirects = λ e. ground arith;
}

http_run-Guarded :
    {Conn : Type 0} (w : HttpWorld Conn) (c : Check) (req : Request)
    → (http_run w (new_http_checker_with_policy policy_strict) c).1 ≡ some req
    → Guarded c req
unfolding http_run
http_run-Guarded w c req h =
    let strict = new_http_checker_with_policy policy_strict in
    let same : built_request strict c ≡ req = ground arith in rw (← same) (built_request-Guarded c)

tcp_run_addrs :
    {Conn : Type 0} (w : TcpWorld Conn) (t : TcpChecker) (c : Check)
    → ((tcp_run w t c).1 ≡ [])
      ⊎ ((u : Url) × ((tcp_run w t c).1
            ≡ (policy_dial w.world t.policy (run_timeout t.dial_timeout c) u.host).1))
unfolding tcp_run
tcp_run_addrs w t c = elim (Option-cases (w.net.parse_url c.url)) [
  | inl bad ↦ inl (rw (bad, tcp_run) refl)
  | inr (u, parsed) ↦ elim (text_dec u.port []) [
    | yes missing ↦ inl (rw (parsed, tcp_run) (ground arith))
    | no port ↦ inr (u, rw (parsed, tcp_run) (ground arith))
  ]
]

tls_run_addrs :
    {Conn : Type 0} (w : TlsWorld Conn) (t : TlsChecker) (c : Check)
    → ((tls_run w t c).1 ≡ [])
      ⊎ ((u : Url) × ((tls_run w t c).1
            ≡ (policy_dial w.world t.policy (run_timeout t.dial_timeout c) u.host).1))
unfolding tls_run
tls_run_addrs w t c = elim (Option-cases (w.net.parse_url c.url)) [
  | inl bad ↦ inl (rw (bad, tls_run) refl)
  | inr (u, parsed) ↦ elim (text_dec u.port []) [
    | yes missing ↦ inl (rw (parsed, tls_run) (ground arith))
    | no port ↦ inr (u, rw (parsed, tls_run) (ground arith))
  ]
]

-- What a run dials is nothing, or what the strict dial of its target dials.
module _ {Conn : Type 0} (w : World Conn) (timeout : ℤ) (addrs : List Addr)
    (from_dial : (addrs ≡ [])
      ⊎ ((u : Url) × (addrs ≡ (policy_dial w policy_strict timeout u.host).1))) where
  dialed-Accepted : All (λ a. check_addr w.net policy_strict a ≡ none) addrs
  unfolding policy_dial
  dialed-Accepted = elim from_dial [
    | inl e ↦ rw e tt
    | inr (u, e) ↦ rw e (pinned_dialer-Accepted w.net (w.dialer timeout) u.host)
  ]

untouched-Confined : {Conn : Type 0} (w : World Conn) (c : Check) → Confined w c untouched
untouched-Confined w c = record { dialed = tt; request = λ req e. cc; custom = refl }

module _ {Conn : Type 0} (w : SchemeWorld Conn) (registry : Registry) (c : Check) where
  abbrev strict : SchemeChecker
  strict = new_scheme_checker_with_policy policy_strict registry

  abbrev tcp_touched : Touched
  tcp_touched = record untouched {
    dialed = (tcp_run (tcp_world w) (new_tcp_checker_with_policy policy_strict) c).1;
  }

  abbrev tls_touched : Touched
  tls_touched = record untouched {
    dialed = (tls_run (tls_world w) (new_tls_checker_with_policy policy_strict) c).1;
  }

  abbrev http_touched : Touched
  http_touched = record untouched {
    request = (http_run (http_world w) (new_http_checker_with_policy policy_strict) c).1;
  }

  tcp-Confined : Confined w.world c tcp_touched
  unfolding new_tcp_checker_with_policy
  tcp-Confined = record {
    dialed =
        dialed-Accepted w.world (run_timeout check_timeout c) tcp_touched.dialed
          (tcp_run_addrs (tcp_world w) (new_tcp_checker_with_policy policy_strict) c);
    request = λ req e. cc;
    custom = refl;
  }

  tls-Confined : Confined w.world c tls_touched
  unfolding new_tls_checker_with_policy
  tls-Confined = record {
    dialed =
        dialed-Accepted w.world (run_timeout check_timeout c) tls_touched.dialed
          (tls_run_addrs (tls_world w) (new_tls_checker_with_policy policy_strict) c);
    request = λ req e. cc;
    custom = refl;
  }

  http-Confined : Confined w.world c http_touched
  http-Confined = record {
    dialed = tt;
    request = λ req e. http_run-Guarded (http_world w) c req e;
    custom = refl;
  }

  -- Which of the checkers a routed run was.
  routed_touched :
      ((routed w strict c).1 ≡ tcp_touched)
      ⊎ ((routed w strict c).1 ≡ tls_touched)
      ⊎ ((routed w strict c).1 ≡ http_touched)
  unfolding routed dispatch new_scheme_checker_with_policy registered_checkers find_scheme
  routed_touched = elim (Option-cases (w.net.parse_url c.url)) [
    | inl bad ↦ inr (inr (rw (bad, routed) refl))
    | inr (u, parsed) ↦ elim (text_dec u.scheme (bytes "tcp")) [
      | yes tcp ↦ inl (rw (parsed, routed) (ground (arith, tcp)))
      | no other ↦ elim (text_dec u.scheme (bytes "tls")) [
        | yes tls ↦ inr (inl (rw (parsed, routed) (ground (arith, tls, other))))
        | no rest ↦ inr (inr (rw (parsed, routed) (ground (arith, other, rest))))
      ]
    ]
  ]

  routed-Confined : Confined w.world c (routed w strict c).1
  routed-Confined = elim routed_touched [
    | inl e ↦ rw e tcp-Confined
    | inr (inl e) ↦ rw e tls-Confined
    | inr (inr e) ↦ rw e http-Confined
  ]

  -- Under the strict policy, whatever is registered, a run of a check touches nothing, or its URL is
  -- one that the rules on hosts let through, which say nothing of an address literal with a zone; every address that it dials is one that CheckAddr lets through; a request that it makes
  -- goes to the check's URL through the pinned dialer, with its redirects refused or checked; and no
  -- custom checker runs.
  pub scheme_run-Confined :
      let touched = (scheme_run w strict c).1 in
      Confined w.world c touched
      × ((touched ≡ untouched)
          ⊎ ((u : Url) × (w.net.parse_url (trim_space c.url) ≡ some u) × IsPublic w.net u))
  unfolding new_scheme_checker_with_policy
  scheme_run-Confined = elim (Option-cases (check_url w.net policy_strict c.url)) [
    | inr (e, blocked) ↦
        let same : (scheme_run w strict c).1 ≡ untouched =
          unfold scheme_run in rw (blocked, scheme_run) refl in
        rw same (untouched-Confined w.world c, inl refl)
    | inl allowed ↦
        let same : (scheme_run w strict c).1 ≡ (routed w strict c).1 =
          unfold scheme_run in rw (allowed, scheme_run) refl in
        (
          rw same routed-Confined,
          inr (restricted_url-IsPublic w.net c.url (unfold check_url in ground (arith, allowed))),
        )
  ]
