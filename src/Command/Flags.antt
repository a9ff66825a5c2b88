-- ===== src/Command/Flags.antt =====
-- cmd/monitor/main.go: main, up to the choice of what it runs.
use tenpm_uptime_monitor.Prelude.{
  Bool, true, false, not, ◌||◌, Option, none, some, [], if◌then◌else◌,
}
use tenpm_uptime_monitor.Prelude.Int.{ℤ, pos, leb_ℤ, ◌*ℤ◌}
use tenpm_uptime_monitor.Prelude.Text.{Text, bytes, same}
use tenpm_uptime_monitor.Egress.{Policy, parse_policy}
use tenpm_uptime_monitor.Schedule.Words.{wrap64}
use tenpm_uptime_monitor.Agent.{Config}
use tenpm_uptime_monitor.Command.{
  split_csv, env_or, env_int, ProxyUrl, Proxy, no_proxy, proxied, invalid_proxy, parse_proxy_url,
}

-- The flags, with the defaults that the environment gives them.
pub record Flags : Type 0 where
  pub show_version : Bool
  pub server_url : Text
  pub enrollment_token : Text
  pub monitor_id : Text
  pub monitor_name : Text
  pub region : Text
  pub country : Text
  pub city : Text
  pub sync_interval_sec : ℤ
  pub report_interval_sec : ℤ
  pub probe_targets : Text
  pub max_concurrent_checks : ℤ
  pub egress_policy : Text
  pub proxy_url_flag : Text
  pub test_check : Text
  pub import_private_check : Text
  pub list_checks : Bool
  pub export_private_checks : Bool

-- The defaults of the flags that have one of their own.
unfoldable pub sync_interval_default : (Text → Text) → (Text → Option ℤ) → ℤ
unfolding env_int
sync_interval_default env atoi = env_int env atoi (bytes "SYNC_INTERVAL_SEC") (pos 45)

unfoldable pub report_interval_default : (Text → Text) → (Text → Option ℤ) → ℤ
unfolding env_int
report_interval_default env atoi = env_int env atoi (bytes "REPORT_INTERVAL_SEC") (pos 45)

unfoldable pub egress_policy_default : (Text → Text) → Text
unfolding env_or
egress_policy_default env = env_or env (bytes "EGRESS_POLICY") (bytes "open")

-- What main does with its flags.
pub data Mode : Type 0 where
  print_version : Mode
  invalid_policy : Mode
  invalid_proxy_url : Mode
  invalid_concurrency : Mode
  test : Text → Policy → Mode
  import_private : Text → Mode
  export : (only_private : Bool) → Mode
  incomplete : Mode
  daemon : Config → Mode

abbrev pub is_none_text : Option Text → Bool
is_none_text none = true
is_none_text (some e) = false

abbrev pub proxy_text : Proxy → Option Text
proxy_text no_proxy = none
proxy_text (proxied u) = some u.text
proxy_text invalid_proxy = none

-- cfg; the intervals are Durations, in nanoseconds.
unfoldable pub config_of : Flags → Policy → Proxy → Config
unfolding split_csv
config_of f policy proxy = record {
  server_url = f.server_url;
  enrollment_token = f.enrollment_token;
  monitor_id = f.monitor_id;
  monitor_name = f.monitor_name;
  region = f.region;
  country = f.country;
  city = f.city;
  sync_interval = wrap64 (f.sync_interval_sec *ℤ pos 1000000000);
  report_interval = wrap64 (f.report_interval_sec *ℤ pos 1000000000);
  egress_policy = policy;
  probe_targets = split_csv f.probe_targets;
  max_concurrent_checks = f.max_concurrent_checks;
  proxy_url = proxy_text proxy;
}

-- The condition of main for a flag that the daemon needs.
unfoldable pub lacks_required : Flags → Bool
lacks_required f =
    same f.server_url []
    || (same f.monitor_name [] || (same f.region [] || (same f.country [] || same f.city [])))

-- main from the test for -test-check on.
unfoldable pub chosen_mode : Flags → Policy → Proxy → Mode
unfolding lacks_required config_of
chosen_mode f policy proxy =
    if not (same f.test_check [])
    then test f.test_check policy
    else if not (same f.import_private_check [])
    then import_private f.import_private_check
    else if f.list_checks
    then export false
    else if f.export_private_checks
    then export true
    else if lacks_required f
    then incomplete
    else daemon (config_of f policy proxy)

-- main from the proxy on.
unfoldable pub after_policy : Flags → Policy → Proxy → Mode
unfolding chosen_mode
after_policy f policy invalid_proxy = invalid_proxy_url
after_policy f policy no_proxy =
    if leb_ℤ f.max_concurrent_checks (pos 0)
    then invalid_concurrency
    else chosen_mode f policy no_proxy
after_policy f policy (proxied u) =
    if leb_ℤ f.max_concurrent_checks (pos 0)
    then invalid_concurrency
    else chosen_mode f policy (proxied u)

-- main up to what it runs.
unfoldable pub mode_of : (Text → Text) → (Text → Option ProxyUrl) → Flags → Mode
unfolding after_policy
mode_of quote parse f =
    if f.show_version
    then print_version
    else let (policy, error) = parse_policy quote f.egress_policy in
      elim error [
        | some e ↦ invalid_policy
        | none ↦ after_policy f policy (parse_proxy_url parse f.proxy_url_flag)
      ]
