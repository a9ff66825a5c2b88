-- ===== src/Agent/Wiring.antt =====
-- monitor/agent.go, from the making of the gate up to the start of the loops: what the agent that Run
-- wires together works with.
use tenpm_uptime_monitor.Prelude.{
  ℕ, ◌≡◌, ◌≢◌, ◌↔◌, refl, true, false, Option, none, some, [], ◌∷◌, List, arith,
}
use tenpm_uptime_monitor.Prelude.Int.{pos, ◌≤ℤ◌}
use tenpm_uptime_monitor.Prelude.Text.{Text}
use tenpm_uptime_monitor.Store.Tables.{Db}
use tenpm_uptime_monitor.Egress.{Policy, policy_open, policy_strict}
use tenpm_uptime_monitor.Client.{new_client_with_proxy, set_api_key}
use tenpm_uptime_monitor.Gate.{new_gate}
use tenpm_uptime_monitor.Runner.{new_runner}
use tenpm_uptime_monitor.Checker.Registry.{Registry, registered_checkers}
use tenpm_uptime_monitor.Checker.Http.{new_http_checker_with_policy}
use tenpm_uptime_monitor.Checker.Tcp.{new_tcp_checker_with_policy}
use tenpm_uptime_monitor.Checker.Tls.{new_tls_checker_with_policy}
use tenpm_uptime_monitor.Checker.Scheme.{new_scheme_checker_with_policy}
use tenpm_uptime_monitor.Agent.{Config, Started, is_some, wired}

-- The agent works with the key, the policy, the probes and the concurrency that it was given: under
-- the strict policy no custom checker is there, and under no policy does a checker have another one.
pub record WiredUp (cfg : Config) (api_key : Text) (mirror : Db) (s : Started) : Type 0 where
  pub key : s.client.api_key ≡ api_key
  pub proxy : s.client.proxy ≡ cfg.proxy_url
  pub pings : (s.pings ≡ true) ↔ (cfg.proxy_url ≢ none)
  pub gate : s.runner.gate ≡ some s.gate
  pub online : s.gate.online ≡ true
  pub targets : cfg.probe_targets ≢ [] → s.gate.targets ≡ cfg.probe_targets
  pub policy : s.checker.policy ≡ cfg.egress_policy
  pub policies :
      (s.checker.http.policy ≡ cfg.egress_policy)
      × (s.checker.tcp.policy ≡ cfg.egress_policy)
      × (s.checker.tls.policy ≡ cfg.egress_policy)
  pub customs : cfg.egress_policy ≡ policy_strict → s.checker.custom ≡ []
  pub db : s.runner.db ≡ mirror
  pub no_status : (id : ℕ) → s.runner.last_status id ≡ none
  pub flush_ch : s.runner.flush_ch ≡ some false
  pub concurrency :
      pos 1 ≤ℤ cfg.max_concurrent_checks → s.runner.sem_capacity ≡ cfg.max_concurrent_checks

is_some_iff : (o : Option Text) → (is_some o ≡ true) ↔ (o ≢ none)
is_some_iff none = (λ h. cc, λ h. absurd (h refl))
is_some_iff (some t) = (λ h e. cc, λ h. refl)

http_policy : (p : Policy) → (new_http_checker_with_policy p).policy ≡ p
unfolding new_http_checker_with_policy
http_policy policy_open = refl
http_policy policy_strict = refl

strict_customs :
    (p : Policy) (registry : Registry) → p ≡ policy_strict → registered_checkers p registry ≡ []
unfolding registered_checkers
strict_customs p registry e = rw e refl

chosen_targets : (targets : List Text) → targets ≢ [] → (new_gate targets).targets ≡ targets
unfolding new_gate
chosen_targets [] ne = absurd (ne refl)
chosen_targets (t ∷ ts) ne = refl

pub wired-WiredUp :
    (registry : Registry) (cfg : Config) (key : Text) (db : Db)
    → WiredUp cfg key db (
        wired registry cfg
          (set_api_key key (new_client_with_proxy cfg.server_url cfg.proxy_url))
          db)
unfolding wired new_gate new_runner set_api_key new_client_with_proxy new_scheme_checker_with_policy
    new_tcp_checker_with_policy new_tls_checker_with_policy
wired-WiredUp registry cfg key db = record {
  key = refl;
  proxy = refl;
  pings = is_some_iff cfg.proxy_url;
  gate = refl;
  online = refl;
  targets = chosen_targets cfg.probe_targets;
  policy = refl;
  policies = (http_policy cfg.egress_policy, refl, refl);
  customs = λ e. strict_customs cfg.egress_policy registry e;
  db = refl;
  no_status = λ id. refl;
  flush_ch = refl;
  concurrency = λ le. ground (arith, le);
}
